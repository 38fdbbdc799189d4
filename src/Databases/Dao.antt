-- ===== src/Databases/Dao.antt =====
-- libs/databases/dao.go: OrmBaseDao over xorm.
pub mod Upserts
use top_lib.Prelude.{
  ℕ, ◌+◌, String, Bool, true, false, not, Option, none, some, List, [], ◌∷◌, map, length, ◌==◌,
  if◌then◌else◌, ltb,
}
use top_lib.Prelude.Text.{str_append}
use top_lib.Prelude.Int.{ℤ}
use top_lib.Errors.Effect.{Action, pure, ◌>>=◌}

-- The statements of an xorm engine or session that the DAO calls, on the state S of engine and
-- database. A bean B is a pointer to a struct, whose fields are in S. E are the errors.
pub record Statements (S B I E : Type 0) : Type 0 where
  pub insert_one : B → Action S (ℕ × Option E)
  pub insert : List B → Action S (ℕ × Option E)
  pub update : B → List B → Action S (ℕ × Option E)
  pub id_update : I → B → Action S (ℕ × Option E)
  pub delete : B → Action S (ℕ × Option E)
  pub id_delete : I → B → Action S (ℕ × Option E)
  pub sql_find : String → List I → B → Action S (Option E)
  pub id_get : I → B → Action S (Bool × Option E)
  pub get : B → Action S (Bool × Option E)
  pub count : B → Action S (ℕ × Option E)
  pub exist : B → Action S (Bool × Option E)
  pub order_by_find : String → B → List B → Action S (Option E)
  pub limit_order_by_find_and_count : ℤ → ℤ → String → B → List B → Action S (ℕ × Option E)

-- The session is nil where no method has set it.
pub record OrmBaseDao (S B I E : Type 0) : Type 0 where
  pub conn : Statements S B I E
  pub session : Option (Statements S B I E)

-- libs/databases/pageable.go
pub record Pageable : Type 0 where
  pub skip : ℤ
  pub limit : ℤ
  pub sort : String

unfoldable pub new_pageable : ℤ → ℤ → String → Pageable
new_pageable skip limit sort = record { skip = skip; limit = limit; sort = sort }

module _ {S B I E : Type 0} where
  -- The session's statements where there is a session, else the engine's.
  abbrev pub over : OrmBaseDao S B I E → Statements S B I E
  over m = elim m.session [ none ↦ m.conn | some session ↦ session ]

  -- NewBaseDao and NewSession: conn.NewSession() gives the session.
  unfoldable pub new_base_dao :
      Statements S B I E → Action S (Statements S B I E) → Action S (OrmBaseDao S B I E)
  new_base_dao conn new_session = do
    session ← new_session
    pure (record { conn = conn; session = some session })

  unfoldable pub insert_one : OrmBaseDao S B I E → B → Action S (ℕ × Option E)
  insert_one m entry = (over m).insert_one entry

  unfoldable pub insert_many : OrmBaseDao S B I E → List B → Action S (ℕ × Option E)
  insert_many m entries = (over m).insert entries

  unfoldable pub update : OrmBaseDao S B I E → B → List B → Action S (ℕ × Option E)
  update m bean where' = (over m).update bean where'

  unfoldable pub update_by_id : OrmBaseDao S B I E → I → B → Action S (ℕ × Option E)
  update_by_id m id bean = (over m).id_update id bean

  unfoldable pub delete : OrmBaseDao S B I E → B → Action S (ℕ × Option E)
  delete m bean = (over m).delete bean

  unfoldable pub delete_by_id : OrmBaseDao S B I E → I → B → Action S (ℕ × Option E)
  delete_by_id m id bean = (over m).id_delete id bean

  unfoldable pub query : OrmBaseDao S B I E → B → String → List I → Action S (Option E)
  query m rows sql args = (over m).sql_find sql args rows

  unfoldable pub find_by_id : OrmBaseDao S B I E → I → B → Action S (Bool × Option E)
  find_by_id m id bean = (over m).id_get id bean

  unfoldable pub find_one : OrmBaseDao S B I E → B → Action S (Bool × Option E)
  find_one m bean = (over m).get bean

  unfoldable pub count : OrmBaseDao S B I E → B → Action S (ℕ × Option E)
  count m bean = (over m).count bean

  unfoldable pub exists : OrmBaseDao S B I E → B → Action S (Bool × Option E)
  exists m bean = (over m).exist bean

  unfoldable pub find_many : OrmBaseDao S B I E → B → String → List B → Action S (Option E)
  find_many m rows sort condi_bean = (over m).order_by_find sort rows condi_bean

  unfoldable pub find_and_count :
      OrmBaseDao S B I E → B → Pageable → List B → Action S (ℕ × Option E)
  find_and_count m rows p condi_bean =
      (over m).limit_order_by_find_and_count p.limit p.skip p.sort rows condi_bean

  upsert_on : OrmBaseDao S B I E → B → B → Bool × Option E → Action S (ℕ × Option E)
  upsert_on m where' bean (exists, some err) = pure (0, some err)
  upsert_on m where' bean (true, none) = update m bean (where' ∷ [])
  upsert_on m where' bean (false, none) = insert_one m bean

  unfoldable pub upsert : OrmBaseDao S B I E → B → B → Action S (ℕ × Option E)
  unfolding upsert_on exists update insert_one
  upsert m where' bean = exists m where' >>= upsert_on m where' bean

  upsert_by_id_on : OrmBaseDao S B I E → I → B → Bool × Option E → Action S (ℕ × Option E)
  upsert_by_id_on m id bean (found, some err) = pure (0, some err)
  upsert_by_id_on m id bean (true, none) = update_by_id m id bean
  upsert_by_id_on m id bean (false, none) = insert_one m bean

  -- FindById reads the row that it finds into the bean itself.
  unfoldable pub upsert_by_id : OrmBaseDao S B I E → I → B → Action S (ℕ × Option E)
  unfolding upsert_by_id_on find_by_id update_by_id insert_one
  upsert_by_id m id bean = find_by_id m id bean >>= upsert_by_id_on m id bean

  -- The loop of UpsertMany, over the pairs of a where and a bean at one index.
  upsert_loop : OrmBaseDao S B I E → ℕ → List B → List B → Action S (ℕ × Option E)
  upsert_loop m total (where' ∷ wheres) (bean ∷ beans) = upsert m where' bean >>= λ (affected, err).
      elim err [
        | some err ↦ pure (total, some err)
        | none ↦ upsert_loop m (total + affected) wheres beans
      ]
  upsert_loop m total [] beans = pure (total, none)
  upsert_loop m total (where' ∷ wheres) [] = pure (total, none)

  -- `mismatch` is the error of lists of different lengths.
  unfoldable pub upsert_many : E → OrmBaseDao S B I E → List B → List B → Action S (ℕ × Option E)
  unfolding upsert_loop
  upsert_many mismatch m wheres beans =
      if not (length wheres == length beans)
      then pure (0, some mismatch)
      else upsert_loop m 0 wheres beans

-- The placeholders of CallProcedure, from the index i on.
unfoldable pub placeholders_from : ℕ → List String → String → String
placeholders_from i [] s = s
placeholders_from i (a ∷ args) s =
    placeholders_from (i + 1) args (str_append (if ltb 0 i then str_append s ", " else s) "?")

-- fmt.Sprintf("CALL %s(%s)", procName, placeholders)
unfoldable pub call_sql : String → List String → String
unfolding placeholders_from
call_sql proc args =
    str_append "CALL "
      (str_append proc (str_append "(" (str_append (placeholders_from 0 args "") ")")))
