-- ===== src/Databases/Session/Transactions.antt =====
-- The order of the transaction methods that a SessionWrapper calls (libs/databases/common.go).
use top_lib.Prelude.{Option, none, some, List, [], ◌∷◌, ◌++◌, ◌≡◌, refl, map, arith}
use top_lib.Errors.Effect.{Panic, Exit, returns, panics, Action}
use top_lib.Databases.Session.{
  DbError, XormSession, new_session_wrapper, execute, executed, execute_on, execute_all, commit_on,
  commit_and_close_on, commit_and_close, transaction,
}
use top_lib.Databases.Session.Traced.{
  Call, begins, commits, rolls_back, closes, Traced, at, unlogged, traced, IsCalm, run_calls,
}

module _ {S E : Type 0} (x : XormSession S E) where
  execute_all_failed :
      (err : DbError E) (calls : List (Action S (Option (DbError E)))) (t : Traced S)
      → execute_all (traced x) (record { err = some err }) (map unlogged calls) t
        ≡ (returns (record { err = some err }), t)
  unfolding execute_all
  execute_all_failed err [] t = refl
  execute_all_failed err (call ∷ calls) t = execute_all_failed err calls t

  execute_all_ok :
      (calls : List (Action S (Option (DbError E)))) (cs : List Call) (s s' : S)
      → run_calls calls s ≡ (returns none, s')
      → execute_all (traced x) (record { err = none }) (map unlogged calls) (at cs s)
        ≡ (returns (record { err = none }), at cs s')
  unfolding execute_all run_calls execute executed execute_on
  execute_all_ok [] cs s s' h = ground arith
  execute_all_ok (call ∷ calls) cs s s' h = ground (arith, execute_all_ok calls cs (call s).1 s')

  execute_all_fail :
      (calls : List (Action S (Option (DbError E)))) (cs : List Call) (s s' s'' : S)
      (err : DbError E) (q : Option (DbError E))
      → run_calls calls s ≡ (returns (some err), s')
      → x.rollback s' ≡ (returns q, s'')
      → execute_all (traced x) (record { err = none }) (map unlogged calls) (at cs s)
        ≡ (returns (record { err = some err }), at (cs ++ rolls_back ∷ []) s'')
  unfolding execute_all run_calls execute executed execute_on
  execute_all_fail [] cs s s' s'' err q h k = ground arith
  execute_all_fail (call ∷ calls) cs s s' s'' err q h k = ground (
    arith,
    execute_all_fail calls cs (call s).1 s' s'' err q,
    execute_all_failed err calls (at (cs ++ rolls_back ∷ []) s''),
  )

  execute_all_panic :
      (calls : List (Action S (Option (DbError E)))) (cs : List Call) (s s' : S) (v : Panic)
      → run_calls calls s ≡ (panics v, s')
      → execute_all (traced x) (record { err = none }) (map unlogged calls) (at cs s)
        ≡ (panics v, at cs s')
  unfolding execute_all run_calls execute executed execute_on
  execute_all_panic [] cs s s' v h = ground arith
  execute_all_panic (call ∷ calls) cs s s' v h =
      ground (arith, execute_all_panic calls cs (call s).1 s' v)

  -- How a transaction of the calls ends, from the state s: its result, the calls of the session's
  -- transaction methods in order, and the session's last state.
  pub data Ends (calls : List (Action S (Option (DbError E)))) (s : S)
      (out : Exit (Option (DbError E)) × Traced S) : Type 0 where
    -- Begin failed: no call is made.
    refused :
        (err : DbError E) (s₁ s₂ : S)
        → x.begin s ≡ (returns (some err), s₁)
        → x.close s₁ ≡ (returns tt, s₂)
        → out ≡ (returns (some err), at (begins ∷ closes ∷ []) s₂)
        → Ends calls s out
    -- A call failed: the calls behind it are not made.
    failed :
        (err : DbError E) (q : Option (DbError E)) (s₁ s₂ s₃ s₄ : S)
        → x.begin s ≡ (returns none, s₁)
        → run_calls calls s₁ ≡ (returns (some err), s₂)
        → x.rollback s₂ ≡ (returns q, s₃)
        → x.close s₃ ≡ (returns tt, s₄)
        → out ≡ (returns (some err), at (begins ∷ rolls_back ∷ closes ∷ []) s₄)
        → Ends calls s out
    -- All calls succeeded: the result is what Commit gives.
    committed :
        (q : Option (DbError E)) (s₁ s₂ s₃ s₄ : S)
        → x.begin s ≡ (returns none, s₁)
        → run_calls calls s₁ ≡ (returns none, s₂)
        → x.commit s₂ ≡ (returns q, s₃)
        → x.close s₃ ≡ (returns tt, s₄)
        → out ≡ (returns q, at (begins ∷ commits ∷ closes ∷ []) s₄)
        → Ends calls s out
    -- A call panicked: the session is neither rolled back nor closed.
    left_open :
        (v : Panic) (s₁ s₂ : S)
        → x.begin s ≡ (returns none, s₁)
        → run_calls calls s₁ ≡ (panics v, s₂)
        → out ≡ (panics v, at (begins ∷ []) s₂)
        → Ends calls s out

  after_begin :
      (calls : List (Action S (Option (DbError E)))) (s s₁ : S) (h : IsCalm x)
      (b : Option (DbError E)) (o : Exit (Option (DbError E))) (s₂ : S)
      → x.begin s ≡ (returns b, s₁)
      → run_calls calls s₁ ≡ (o, s₂)
      → Ends calls s (transaction (traced x) (map unlogged calls) (at [] s))
  unfolding transaction new_session_wrapper commit_and_close commit_and_close_on commit_on
  after_begin calls s s₁ h (some err) o s₂ e run =
      let (s₃, c) = h.close s₁ in
      refused err s₁ s₃ e c (rw (e, execute_all_failed err calls (at (begins ∷ []) s₁), c))
  after_begin calls s s₁ h none (panics v) s₂ e run =
      left_open v s₁ s₂ e run (rw (e, execute_all_panic calls (begins ∷ []) s₁ s₂ v run))
  after_begin calls s s₁ h none (returns none) s₂ e run =
      let (q, s₃, c) = h.commit s₂ in
      let (s₄, d) = h.close s₃ in
      committed q s₁ s₂ s₃ s₄ e run c d (rw (e, execute_all_ok calls (begins ∷ []) s₁ s₂ run, c, d))
  after_begin calls s s₁ h none (returns (some err)) s₂ e run =
      let (q, s₃, c) = h.rollback s₂ in
      let (s₄, d) = h.close s₃ in
      failed err q s₁ s₂ s₃ s₄ e run c d
        (rw (e, execute_all_fail calls (begins ∷ []) s₁ s₂ s₃ err q run c, d))

  -- Where the session's methods do not panic, a chain NewSessionWrapper, Execute of each of the
  -- calls in order, CommitAndClose ends in one of the ways of `Ends`: Begin fails and only Close
  -- follows, with the error of Begin; or the first call that fails is followed by one Rollback and
  -- Close, with that call's error, and no later call is made; or all calls succeed and one Commit
  -- and Close follow, with what Commit gives; or a call panics, and neither Rollback nor Close
  -- follows.
  pub transaction-Ends :
      (calls : List (Action S (Option (DbError E)))) (s : S)
      → IsCalm x
      → Ends calls s (transaction (traced x) (map unlogged calls) (at [] s))
  transaction-Ends calls s h =
      let (b, s₁, e) = h.begin s in
      let (o, s₂) = run_calls calls s₁ in after_begin calls s s₁ h b o s₂ e refl
