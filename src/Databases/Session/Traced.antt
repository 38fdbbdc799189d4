-- ===== src/Databases/Session/Traced.antt =====
-- A session that records the calls of its transaction methods, to state in which order the code of
-- libs/databases/common.go makes them.
use top_lib.Prelude.{Option, none, some, List, [], ◌∷◌, ◌++◌, ◌≡◌}
use top_lib.Errors.Effect.{returns, Action, pure, ◌>>=◌}
use top_lib.Databases.Session.{DbError, XormSession}

pub data Call : Type 0 where
  begins commits rolls_back closes : Call

pub record Traced (S : Type 0) : Type 0 where
  pub calls : List Call
  pub inner : S

abbrev pub at : {S : Type 0} → List Call → S → Traced S
at cs s = record { calls = cs; inner = s }

module _ {S A : Type 0} where
  abbrev pub logged : Call → Action S A → Action (Traced S) A
  logged c m t = let (r, s) = m t.inner in (r, at (t.calls ++ c ∷ []) s)

  abbrev pub unlogged : Action S A → Action (Traced S) A
  unlogged m t = let (r, s) = m t.inner in (r, at t.calls s)

module _ {S E : Type 0} where
  abbrev pub traced : XormSession S E → XormSession (Traced S) E
  traced x = record {
    begin = logged begins x.begin;
    commit = logged commits x.commit;
    rollback = logged rolls_back x.rollback;
    close = logged closes x.close;
  }

  -- The session's methods report errors and do not panic.
  pub record IsCalm (x : XormSession S E) : Type 0 where
    pub begin : (s : S) → (err : Option (DbError E)) × (s' : S) × (x.begin s ≡ (returns err, s'))
    pub commit : (s : S) → (err : Option (DbError E)) × (s' : S) × (x.commit s ≡ (returns err, s'))
    pub rollback :
        (s : S) → (err : Option (DbError E)) × (s' : S) × (x.rollback s ≡ (returns err, s'))
    pub close : (s : S) → (s' : S) × (x.close s ≡ (returns tt, s'))

  -- Calls one after the other, up to the first that gives an error.
  unfoldable pub run_calls : List (Action S (Option (DbError E))) → Action S (Option (DbError E))
  run_calls [] = pure none
  run_calls (call ∷ calls) =
      call >>= λ r. elim r [ none ↦ run_calls calls | some err ↦ pure (some err) ]
