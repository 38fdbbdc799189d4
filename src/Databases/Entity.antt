-- ===== src/Databases/Entity.antt =====
-- libs/databases/entity.go: an entity, which is an object with a DAO and perhaps the DAO of a
-- session. The DAOs are what an entity asks of the interfaces BaseDao and SessionDao.
pub mod Sessions
use top_lib.Prelude.{ℕ, Bool, String, Option, none, some, List, [], ◌∷◌}
use top_lib.Errors.Effect.{Action, Panic, other, pure, panic, ◌>>=◌}

-- The calls of both DAOs, on the program's state W, with beans B, keys K and errors E.
pub record Ops (W B K E : Type 0) : Type 0 where
  pub exists : B → Action W (Bool × Option E)
  pub count : B → Action W (ℕ × Option E)
  pub insert_one : B → Action W (ℕ × Option E)
  pub update : B → List B → Action W (ℕ × Option E)
  pub update_by_id : K → B → Action W (ℕ × Option E)
  pub delete : B → Action W (ℕ × Option E)
  pub delete_by_id : K → B → Action W (ℕ × Option E)
  pub find_one : B → Action W (Bool × Option E)

pub record SessionDao (W B K E : Type 0) : Type 0 where
  pub ops : Ops W B K E
  pub begin : Action W (Option E)
  pub commit : Action W (Option E)
  pub rollback : Action W (Option E)
  pub close : Action W (Unit {0})

pub record BaseDao (W B K E : Type 0) : Type 0 where
  pub ops : Ops W B K E
  pub new_session : Action W (SessionDao W B K E)

pub record Entity (W B K E : Type 0) : Type 0 where
  pub dao : BaseDao W B K E
  pub session_dao : Option (SessionDao W B K E)
  pub object_ptr : B

abbrev nil_pointer : Panic
nil_pointer = other "runtime error: invalid memory address or nil pointer dereference"

-- objectPtr.(Table).PrimaryKey(): none for an object that is no Table.
abbrev pub with_key : {W A K : Type 0} → Option K → (K → Action W A) → Action W A
with_key none f = panic (other "interface conversion: interface {} is not databases.Table")
with_key (some k) f = f k

module _ {W B K E : Type 0} where
  unfoldable pub new_entity : BaseDao W B K E → B → Entity W B K E
  new_entity dao object_ptr = record { dao = dao; session_dao = none; object_ptr = object_ptr }

  -- NewSession gives the entity itself, with the session in it.
  unfoldable pub new_session : Entity W B K E → Action W (Entity W B K E)
  new_session e = e.dao.new_session >>= λ session. pure (record e { session_dao = some session })

  -- The session's DAO where there is one, and else the entity's.
  abbrev pub ops_of : Option (SessionDao W B K E) → BaseDao W B K E → Ops W B K E
  ops_of none dao = dao.ops
  ops_of (some session) dao = session.ops

  module _ (primary_key : B → Option K) where
    unfoldable pub id : Entity W B K E → Action W K
    id e = with_key (primary_key e.object_ptr) pure

    unfoldable pub exists : Entity W B K E → Action W (Bool × Option E)
    exists e = (ops_of e.session_dao e.dao).exists e.object_ptr

    unfoldable pub count : Entity W B K E → Action W (ℕ × Option E)
    count e = (ops_of e.session_dao e.dao).count e.object_ptr

    unfoldable pub create : Entity W B K E → Action W (ℕ × Option E)
    create e = (ops_of e.session_dao e.dao).insert_one e.object_ptr

    unfoldable pub update : List B → Entity W B K E → Action W (ℕ × Option E)
    update wheres e = (ops_of e.session_dao e.dao).update e.object_ptr wheres

    unfoldable pub update_by_pk : Entity W B K E → Action W (ℕ × Option E)
    update_by_pk e =
        with_key (primary_key e.object_ptr)
          λ key. (ops_of e.session_dao e.dao).update_by_id key e.object_ptr

    unfoldable pub delete : Entity W B K E → Action W (ℕ × Option E)
    delete e = (ops_of e.session_dao e.dao).delete e.object_ptr

    unfoldable pub delete_by_pk : Entity W B K E → Action W (ℕ × Option E)
    delete_by_pk e =
        with_key (primary_key e.object_ptr)
          λ key. (ops_of e.session_dao e.dao).delete_by_id key e.object_ptr

    unfoldable pub get : Entity W B K E → Action W (Bool × Option E)
    get e = (ops_of e.session_dao e.dao).find_one e.object_ptr

  -- Begin, Commit, Rollback and Close of an entity without a session panic.
  abbrev pub of_session :
      {A : Type 0} → Option (SessionDao W B K E) → (SessionDao W B K E → Action W A) → Action W A
  of_session none f = panic nil_pointer
  of_session (some session) f = f session

  unfoldable pub begin : Entity W B K E → Action W (Option E)
  begin e = of_session e.session_dao (λ session. session.begin)

  unfoldable pub commit : Entity W B K E → Action W (Option E)
  commit e = of_session e.session_dao (λ session. session.commit)

  unfoldable pub rollback : Entity W B K E → Action W (Option E)
  rollback e = of_session e.session_dao (λ session. session.rollback)

  unfoldable pub close : Entity W B K E → Action W (Unit {0})
  close e = of_session e.session_dao (λ session. session.close)
