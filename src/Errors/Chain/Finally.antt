-- ===== src/Errors/Chain/Finally.antt =====
-- The builders of a chain against its run (libs/errors/try_catch_chain.go).
use top_lib.Prelude.{ℕ, ◌≡◌, refl, ◌∙◌, Option, none, some, arith}
use top_lib.Errors.Value.{Error, Nilable}
use top_lib.Errors.Effect.{Panic, raised, returns, panics, Action, NeverPanics, deferring}
use top_lib.Errors.TryCatch.{to_error, try_catch, try_func}
use top_lib.Errors.Chain.{
  TryHandler, try_new, new_catch_handler, new_default_catch_handler, new_finally_handler, dispatch,
  catch_loop, or_default, or_rethrow, after_try, protected_part, try_do,
}

module _ {W : Type 0} where
  deferring_calm :
      (f m : Action W (Unit {0})) (w : W)
      → NeverPanics f
      → deferring f m w ≡ ((m w).0, (f (m w).1).1)
  deferring_calm f m w calm = ground (arith, calm (m w).1)

  -- The protected part does not look at the finally handler.
  after_try-new_finally_handler :
      (x : TryHandler W) (f : Action W (Unit {0})) (e : Option Error)
      → after_try (new_finally_handler x f) e ≡ after_try x e
  unfolding after_try new_finally_handler dispatch
  after_try-new_finally_handler x f none = refl
  after_try-new_finally_handler x f (some e) = refl

  protected_part-new_finally_handler :
      (p : ℕ) (x : TryHandler W) (f : Action W (Unit {0})) (w : W)
      → protected_part p (new_finally_handler x f) w ≡ protected_part p x w
  unfolding protected_part new_finally_handler
  protected_part-new_finally_handler p x f w =
      let (e, w') = try_catch p x.handler w in λ i. after_try-new_finally_handler x f e i w'

  try_catch_returns :
      (p : ℕ) (m : Action W (Unit {0})) (w w' : W)
      → m w ≡ (returns tt, w')
      → try_catch p m w ≡ (none, w')
  unfolding try_catch
  try_catch_returns p m w w' fine = rw fine

  try_catch_panics :
      (p : ℕ) (m : Action W (Unit {0})) (w w' : W) (v : Panic)
      → m w ≡ (panics v, w')
      → try_catch p m w ≡ (some (to_error p v), w')
  unfolding try_catch
  try_catch_panics p m w w' v failed = rw failed

  -- A finally handler that never panics leaves the exit of the chain alone, and runs last, on the
  -- state in which the chain would have ended without it.
  pub try_do-new_finally_handler :
      (p : ℕ) (x : TryHandler W) (f : Action W (Unit {0})) (w : W)
      → x.finally_handler ≡ none
      → NeverPanics f
      → try_do p (new_finally_handler x f) w ≡ ((try_do p x w).0, (f (try_do p x w).1).1)
  unfolding try_do
  try_do-new_finally_handler p x f w unset calm = rw unset (
      unfold new_finally_handler in
      (deferring_calm f (protected_part p (new_finally_handler x f)) w calm
        ∙ rw (protected_part-new_finally_handler p x f w)))

  -- A chain whose body does not panic runs its else handler and its finally handler, and no
  -- catch handler: adding one, or a default one, changes nothing.
  pub try_do-ignores_catches :
      (p : ℕ) (x : TryHandler W) (err : Nilable) (h d : Error → Action W (Unit {0})) (w w' : W)
      → x.handler w ≡ (returns tt, w')
      → (try_do p (new_catch_handler x err h) w ≡ try_do p x w)
        × (try_do p (new_default_catch_handler x d) w ≡ try_do p x w)
  unfolding try_do new_catch_handler new_default_catch_handler
  try_do-ignores_catches p x err h d w w' fine =
      unfold protected_part after_try in rw (try_catch_returns p x.handler w w' fine) (refl, refl)

  default_only :
      (p : ℕ) (fun : Action W (Unit {0})) (d : Error → Action W (Unit {0})) (v : Panic) (w w' : W)
      → fun w ≡ (panics v, w')
      → (d (to_error p v) w').0 ≡ returns tt
      → try_do p (new_default_catch_handler (try_new fun) d) w
        ≡ (returns tt, (d (to_error p v) w').1)
  unfolding try_do protected_part after_try dispatch catch_loop or_default or_rethrow try_new
      new_default_catch_handler
  default_only p fun d v w w' failed calm =
      rw (try_catch_panics p fun w w' v failed) (ground (arith, calm))

  -- Where the body panics and neither handler does, a chain runs the finally handler after the
  -- catch handler, and TryFunc runs it before: the two end in the states shown.
  pub finally_order :
      (p : ℕ) (fun finally : Action W (Unit {0})) (catch : Panic → Action W (Unit {0})) (v : Panic)
      (w w' : W)
      → fun w ≡ (panics v, w')
      → NeverPanics finally
      → ((u : Panic) → NeverPanics (catch u))
      → (try_func fun (some catch) (some finally) w ≡ (returns tt, (catch v (finally w').1).1))
        × (try_do p
              (new_finally_handler
                (new_default_catch_handler (try_new fun) (λ e. catch (raised e)))
                finally)
              w
            ≡ (returns tt, (finally (catch (raised (to_error p v)) w').1).1))
  unfolding try_func new_default_catch_handler try_new
  finally_order p fun finally catch v w w' failed calm calm' = (
    rw failed (ground (arith, calm w', calm' v (finally w').1)),
    try_do-new_finally_handler p (new_default_catch_handler (try_new fun) λ e. catch (raised e))
          finally w refl calm
        ∙ rw (default_only p fun (λ e. catch (raised e)) v w w' failed (calm' _ w')) refl,
  )
