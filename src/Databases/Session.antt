-- ===== src/Databases/Session.antt =====
-- libs/databases/common.go: the Do… helpers, WarpSession and SessionWrapper.
pub mod Traced
pub mod Transactions
pub mod Warp
use top_lib.Prelude.{
  ℕ, Bool, true, false, not, Option, none, some, List, [], ◌∷◌, ◌==◌, if◌then◌else◌,
}
use top_lib.Prelude.Int.{ℤ, pos, negsuc}
use top_lib.Errors.Effect.{Action, pure, deferring, ◌>>=◌, ◌>>◌}

-- An error value: one of the package's own, or any other.
pub data DbError (E : Type 0) : Type 0 where
  driver : E → DbError E
  get_empty updated_empty deleted_empty inserted_empty : DbError E

-- The transaction methods of an xorm session, on whatever state `S` the session keeps.
pub record XormSession (S E : Type 0) : Type 0 where
  pub begin : Action S (Option (DbError E))
  pub commit : Action S (Option (DbError E))
  pub rollback : Action S (Option (DbError E))
  pub close : Action S (Unit {0})

module _ {E : Type 0} where
  found : Bool → Option (DbError E) → Option (DbError E)
  found has (some err) = some err
  found has none = if not has then some get_empty else none

  affected : DbError E → ℕ → Option (DbError E) → Option (DbError E)
  affected empty ret (some err) = some err
  affected empty ret none = if 0 == ret then some empty else none

module _ {S E : Type 0} where
  -- A Go call with the results (bool, error) or (int64, error).
  unfoldable pub do_get : Action S (Bool × Option (DbError E)) → Action S (Option (DbError E))
  unfolding found
  do_get call = do (has, err) ← call; pure (found has err)

  unfoldable pub do_update : Action S (ℕ × Option (DbError E)) → Action S (Option (DbError E))
  unfolding affected
  do_update call = do (ret, err) ← call; pure (affected updated_empty ret err)

  unfoldable pub do_insert : Action S (ℕ × Option (DbError E)) → Action S (Option (DbError E))
  unfolding affected
  do_insert call = do (ret, err) ← call; pure (affected inserted_empty ret err)

  unfoldable pub do_delete : Action S (ℕ × Option (DbError E)) → Action S (Option (DbError E))
  unfolding affected
  do_delete call = do (ret, err) ← call; pure (affected deleted_empty ret err)

-- SessionDoctor
abbrev pub session_doctor_commit : ℤ
session_doctor_commit = pos 0

abbrev pub session_doctor_rollback : ℤ
session_doctor_rollback = pos 1

abbrev pub is_commit : ℤ → Bool
is_commit (pos n) = n == 0
is_commit (negsuc n) = false

-- (value, 0, nil), or (nil, 0, err2)
pub ended : {E V : Type 0} → Option V → Option (DbError E) → Option V × ℕ × Option (DbError E)
ended value none = (value, 0, none)
ended value (some err2) = (none, 0, some err2)

module _ {S E V : Type 0} where
  -- What WarpSession goes on with when the handler has returned.
  settle :
      XormSession S E
      → Option V × ℤ × Option (DbError E)
      → Action S (Option V × ℕ × Option (DbError E))
  settle s (value, doctor, some err) = pure (none, 0, some err)
  settle s (value, doctor, none) =
      if is_commit doctor
      then (do err2 ← s.commit; pure (ended value err2))
      else (do err2 ← s.rollback; pure (ended value err2))

  begun :
      XormSession S E
      → Action S (Option V × ℤ × Option (DbError E))
      → Option (DbError E)
      → Action S (Option V × ℕ × Option (DbError E))
  begun s h (some err) = pure (none, 0, some err)
  begun s h none = h >>= settle s

  unfoldable pub warp_session :
      XormSession S E
      → Action S (Option V × ℤ × Option (DbError E))
      → Action S (Option V × ℕ × Option (DbError E))
  unfolding ended settle begun
  warp_session s h = deferring s.close (s.begin >>= begun s h)

-- A SessionWrapper is its session, with `err`: the methods have a value receiver and give back the
-- wrapper that the caller goes on with.
pub record SessionWrapper (E : Type 0) : Type 0 where
  pub err : Option (DbError E)

module _ {S E : Type 0} (s : XormSession S E) where
  unfoldable pub new_session_wrapper : Action S (SessionWrapper E)
  new_session_wrapper = do err ← s.begin; pure (record { err = err })

  executed : Option (DbError E) → Action S (SessionWrapper E)
  executed none = pure (record { err = none })
  executed (some err) = do s.rollback; pure (record { err = some err })

  execute_on : Option (DbError E) → Action S (Option (DbError E)) → Action S (SessionWrapper E)
  execute_on (some err) call = pure (record { err = some err })
  execute_on none call = call >>= executed

  unfoldable pub execute :
      SessionWrapper E → Action S (Option (DbError E)) → Action S (SessionWrapper E)
  unfolding executed execute_on
  execute sw call = execute_on sw.err call

  commit_on : Option (DbError E) → Action S (Option (DbError E))
  commit_on none = s.commit
  commit_on (some err) = do s.rollback; pure (some err)

  unfoldable pub commit : SessionWrapper E → Action S (Option (DbError E))
  unfolding commit_on
  commit sw = commit_on sw.err

  commit_and_close_on : Option (DbError E) → Action S (Option (DbError E))
  unfolding commit_on
  commit_and_close_on none = commit_on none
  commit_and_close_on (some err) = pure (some err)

  unfoldable pub commit_and_close : SessionWrapper E → Action S (Option (DbError E))
  unfolding commit_and_close_on
  commit_and_close sw = deferring s.close (commit_and_close_on sw.err)

  close_on : Option (DbError E) → Action S (Option (DbError E))
  close_on none = do s.close; pure none
  close_on (some err) = do s.rollback; s.close; pure (some err)

  unfoldable pub close : SessionWrapper E → Action S (Option (DbError E))
  unfolding close_on
  close sw = close_on sw.err

  -- sw.Execute(c₁).Execute(c₂)…
  unfoldable pub execute_all :
      SessionWrapper E → List (Action S (Option (DbError E))) → Action S (SessionWrapper E)
  unfolding execute
  execute_all sw [] = pure sw
  execute_all sw (call ∷ calls) = execute sw call >>= λ sw'. execute_all sw' calls

  -- NewSessionWrapper(…).Execute(c₁).Execute(c₂)….CommitAndClose()
  unfoldable pub transaction : List (Action S (Option (DbError E))) → Action S (Option (DbError E))
  unfolding new_session_wrapper execute_all commit_and_close
  transaction calls = do sw ← new_session_wrapper; sw' ← execute_all sw calls; commit_and_close sw'
