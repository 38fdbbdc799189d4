-- ===== src/Databases/Session/Warp.antt =====
-- The order of the transaction methods that WarpSession calls (libs/databases/common.go).
use top_lib.Prelude.{
  ℕ, Option, none, some, [], ◌∷◌, ◌≡◌, refl, inl, inr, true, false, Bool-cases, arith,
}
use top_lib.Prelude.Int.{ℤ}
use top_lib.Errors.Effect.{Panic, Exit, returns, panics, Action}
use top_lib.Databases.Session.{DbError, XormSession, is_commit, ended, warp_session}
use top_lib.Databases.Session.Traced.{
  begins, commits, rolls_back, closes, Traced, at, unlogged, traced, IsCalm,
}

module _ {S E V : Type 0} (x : XormSession S E) where
  -- How WarpSession of the handler h ends, from the state s: what it gives, and the calls of the
  -- transaction methods in order.
  pub data WarpEnds (h : Action S (Option V × ℤ × Option (DbError E))) (s : S)
      (out : Exit (Option V × ℕ × Option (DbError E)) × Traced S) : Type 0 where
    refused :
        (err : DbError E) (s₁ s₂ : S)
        → x.begin s ≡ (returns (some err), s₁)
        → x.close s₁ ≡ (returns tt, s₂)
        → out ≡ (returns (none, 0, some err), at (begins ∷ closes ∷ []) s₂)
        → WarpEnds h s out
    -- An error of the handler: Close follows at once.
    failed :
        (value : Option V) (doctor : ℤ) (err : DbError E) (s₁ s₂ s₃ : S)
        → x.begin s ≡ (returns none, s₁)
        → h s₁ ≡ (returns (value, doctor, some err), s₂)
        → x.close s₂ ≡ (returns tt, s₃)
        → out ≡ (returns (none, 0, some err), at (begins ∷ closes ∷ []) s₃)
        → WarpEnds h s out
    committed :
        (value : Option V) (doctor : ℤ) (q : Option (DbError E)) (s₁ s₂ s₃ s₄ : S)
        → x.begin s ≡ (returns none, s₁)
        → h s₁ ≡ (returns (value, doctor, none), s₂)
        → is_commit doctor ≡ true
        → x.commit s₂ ≡ (returns q, s₃)
        → x.close s₃ ≡ (returns tt, s₄)
        → out ≡ (returns (ended value q), at (begins ∷ commits ∷ closes ∷ []) s₄)
        → WarpEnds h s out
    rolled_back :
        (value : Option V) (doctor : ℤ) (q : Option (DbError E)) (s₁ s₂ s₃ s₄ : S)
        → x.begin s ≡ (returns none, s₁)
        → h s₁ ≡ (returns (value, doctor, none), s₂)
        → is_commit doctor ≡ false
        → x.rollback s₂ ≡ (returns q, s₃)
        → x.close s₃ ≡ (returns tt, s₄)
        → out ≡ (returns (ended value q), at (begins ∷ rolls_back ∷ closes ∷ []) s₄)
        → WarpEnds h s out
    panicked :
        (v : Panic) (s₁ s₂ s₃ : S)
        → x.begin s ≡ (returns none, s₁)
        → h s₁ ≡ (panics v, s₂)
        → x.close s₂ ≡ (returns tt, s₃)
        → out ≡ (panics v, at (begins ∷ closes ∷ []) s₃)
        → WarpEnds h s out

  warp_from :
      (h : Action S (Option V × ℤ × Option (DbError E))) (s s₁ s₂ : S) (calm : IsCalm x)
      (b : Option (DbError E)) (o : Exit (Option V × ℤ × Option (DbError E)))
      → x.begin s ≡ (returns b, s₁)
      → h s₁ ≡ (o, s₂)
      → WarpEnds h s (warp_session (traced x) (unlogged h) (at [] s))
  unfolding warp_session
  warp_from h s s₁ s₂ calm (some err) o e run =
      let (s₃, c) = calm.close s₁ in refused err s₁ s₃ e c (rw (e, c))
  warp_from h s s₁ s₂ calm none (panics v) e run =
      let (s₃, c) = calm.close s₂ in panicked v s₁ s₂ s₃ e run c (ground (arith, e, run, c))
  warp_from h s s₁ s₂ calm none (returns (value, doctor, some err)) e run =
      let (s₃, c) = calm.close s₂ in
      failed value doctor err s₁ s₂ s₃ e run c (ground (arith, e, run, c))
  warp_from h s s₁ s₂ calm none (returns (value, doctor, none)) e run =
      elim (Bool-cases (is_commit doctor)) [
        | inl yes_commit ↦
            let (q, s₃, c) = calm.commit s₂ in
            let (s₄, d) = calm.close s₃ in
            committed value doctor q s₁ s₂ s₃ s₄ e run yes_commit c d
              (ground (arith, e, run, yes_commit, c, d))
        | inr not_commit ↦
            let (q, s₃, c) = calm.rollback s₂ in
            let (s₄, d) = calm.close s₃ in
            rolled_back value doctor q s₁ s₂ s₃ s₄ e run not_commit c d
              (ground (arith, e, run, not_commit, c, d))
      ]

  -- Where the session's methods do not panic, WarpSession closes the session last on every way
  -- out, a panic of the handler included, and commits exactly where Begin succeeds, the handler
  -- gives no error and its doctor is SessionDoctorCommit; any other doctor rolls back. It makes no
  -- Rollback call of its own for an error or a panic of the handler. A value is given only where
  -- the commit or rollback succeeds.
  pub warp_session-WarpEnds :
      (h : Action S (Option V × ℤ × Option (DbError E))) (s : S)
      → IsCalm x
      → WarpEnds h s (warp_session (traced x) (unlogged h) (at [] s))
  warp_session-WarpEnds h s calm =
      let (b, s₁, e) = calm.begin s in let (o, s₂) = h s₁ in warp_from h s s₁ s₂ calm b o e refl
