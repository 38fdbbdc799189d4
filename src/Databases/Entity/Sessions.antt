-- ===== src/Databases/Entity/Sessions.antt =====
-- What the session of an entity is used for (libs/databases/entity.go, dao.go).
use top_lib.Prelude.{Option, some, List, [], ◌∷◌, ◌≡◌, refl, ap, ◌∙◌}
use top_lib.Errors.Effect.{Action, Exit, continue, pure, giving, ◌>>=◌, ◌>>◌}
use top_lib.Databases.Dao
use top_lib.Databases.Dao.{OrmBaseDao, Statements, new_base_dao}
use top_lib.Databases.Entity
use top_lib.Databases.Entity.{Entity, BaseDao, SessionDao, Ops, with_key, new_session}

-- The transaction calls of an xorm session.
pub record Transaction (W E : Type 0) : Type 0 where
  pub begin : Action W (Option E)
  pub commit : Action W (Option E)
  pub rollback : Action W (Option E)
  pub close : Action W (Unit {0})

-- The calls of an entity that reach the database.
pub data Call (B : Type 0) : Type 0 where
  exists : Call B
  count : Call B
  create : Call B
  update : List B → Call B
  update_by_pk : Call B
  delete : Call B
  delete_by_pk : Call B
  get : Call B
  begin : Call B
  commit : Call B
  rollback : Call B
  close : Call B

abbrev dropped : {W A : Type 0} → Action W A → Action W (Unit {0})
dropped call = giving (λ _. tt) call

module _ {W B K E : Type 0} (primary_key : B → Option K) where
  -- The calls of an entity, in their order, their results dropped.
  unfoldable pub perform : Call B → Entity W B K E → Action W (Unit {0})
  perform exists e = dropped (Entity.exists primary_key e)
  perform count e = dropped (Entity.count primary_key e)
  perform create e = dropped (Entity.create primary_key e)
  perform (update wheres) e = dropped (Entity.update primary_key wheres e)
  perform update_by_pk e = dropped (Entity.update_by_pk primary_key e)
  perform delete e = dropped (Entity.delete primary_key e)
  perform delete_by_pk e = dropped (Entity.delete_by_pk primary_key e)
  perform get e = dropped (Entity.get primary_key e)
  perform begin e = dropped (Entity.begin e)
  perform commit e = dropped (Entity.commit e)
  perform rollback e = dropped (Entity.rollback e)
  perform close e = dropped (Entity.close e)

  unfoldable pub run : List (Call B) → Entity W B K E → Action W (Unit {0})
  run [] e = pure tt
  run (c ∷ cs) e = perform c e >> run cs e

  -- What an OrmBaseDao gives as the DAO of a session.
  abbrev pub dao_of : OrmBaseDao W B K E → Transaction W E → SessionDao W B K E
  dao_of m tx = record {
    ops = record {
      exists = Dao.exists m;
      count = Dao.count m;
      insert_one = Dao.insert_one m;
      update = Dao.update m;
      update_by_id = Dao.update_by_id m;
      delete = Dao.delete m;
      delete_by_id = Dao.delete_by_id m;
      find_one = Dao.find_one m;
    };
    begin = tx.begin;
    commit = tx.commit;
    rollback = tx.rollback;
    close = tx.close;
  }

  -- The same calls as statements of one xorm session on one object.
  abbrev statement : Statements W B K E → Transaction W E → B → Call B → Action W (Unit {0})
  statement st tx object exists = dropped (st.exist object)
  statement st tx object count = dropped (st.count object)
  statement st tx object create = dropped (st.insert_one object)
  statement st tx object (update wheres) = dropped (st.update object wheres)
  statement st tx object update_by_pk =
      dropped (with_key (primary_key object) (λ key. st.id_update key object))
  statement st tx object delete = dropped (st.delete object)
  statement st tx object delete_by_pk =
      dropped (with_key (primary_key object) (λ key. st.id_delete key object))
  statement st tx object get = dropped (st.get object)
  statement st tx object begin = dropped tx.begin
  statement st tx object commit = dropped tx.commit
  statement st tx object rollback = dropped tx.rollback
  statement st tx object close = dropped tx.close

  abbrev pub replay : Statements W B K E → Transaction W E → B → List (Call B) → Action W (Unit {0})
  replay st tx object [] = pure tt
  replay st tx object (c ∷ cs) = statement st tx object c >> replay st tx object cs

  module _ (dao : BaseDao W B K E) (conn st : Statements W B K E) (tx : Transaction W E)
      (object : B) where
    -- An entity whose session is that of an OrmBaseDao.
    abbrev in_session : Entity W B K E
    in_session = record {
      dao = dao;
      session_dao = some (dao_of (record { conn = conn; session = some st }) tx);
      object_ptr = object;
    }

    perform-statement : (c : Call B) → perform c in_session ≡ statement st tx object c
    unfolding perform Entity.exists Entity.count Entity.create Entity.update Entity.update_by_pk
        Entity.delete Entity.delete_by_pk Entity.get Entity.begin Entity.commit Entity.rollback
        Entity.close Dao.exists Dao.count Dao.insert_one Dao.update Dao.update_by_id Dao.delete
        Dao.delete_by_id Dao.find_one
    perform-statement exists = refl
    perform-statement count = refl
    perform-statement create = refl
    perform-statement (update wheres) = refl
    perform-statement update_by_pk = refl
    perform-statement delete = refl
    perform-statement delete_by_pk = refl
    perform-statement get = refl
    perform-statement begin = refl
    perform-statement commit = refl
    perform-statement rollback = refl
    perform-statement close = refl

    run-replay : (cs : List (Call B)) → run cs in_session ≡ replay st tx object cs
    unfolding run
    run-replay [] = refl
    run-replay (c ∷ cs) =
        ap (λ (m : Action W (Unit {0})). m >> run cs in_session) (perform-statement c)
        ∙ ap (λ (m : Action W (Unit {0})). statement st tx object c >> m) (run-replay cs)

    -- From NewSession on, whatever calls an entity of an OrmBaseDao makes, it runs the statements and
    -- transaction calls of that one xorm session on its object, in their order, and none of the
    -- engine and none of the DAO it was made with; also after Close, which leaves the session in it.
    pub new_session-refines :
        (cs : List (Call B)) (w w' : W) (before : Option (SessionDao W B K E))
        → dao.new_session w
          ≡ (Exit.returns (dao_of (record { conn = conn; session = some st }) tx), w')
        → (new_session (record { dao = dao; session_dao = before; object_ptr = object }) >>= run cs)
            w
          ≡ replay st tx object cs w'
    unfolding new_session
    new_session-refines cs w w' before opened =
        ap
          (λ (out : Exit (SessionDao W B K E) × W).
            (continue out.0 (λ session.
                  pure (record { dao = dao; session_dao = some session; object_ptr = object }))
                >>= run cs)
              out.1)
          opened
        ∙ ap (λ (m : Action W (Unit {0})). m w') (run-replay cs)
