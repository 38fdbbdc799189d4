-- ===== src/Errors/TryCatch/Order.antt =====
-- Panics that TryCatch and TryFunc stop (libs/errors/try_catch_func.go, try_catch.go).
use top_lib.Prelude.{ℕ, ◌≡◌, refl, Option, none, some, arith}
use top_lib.Errors.Effect.{
  Panic, Exit, returns, panics, Action, NeverPanics, pure, call_if_set, ◌>>◌,
}
use top_lib.Errors.Value.{Error}
use top_lib.Errors.TryCatch.{try_catch, try_catch_return, try_func, recover_to}

module _ {W : Type 0} where
  calm_call :
      (finally : Option (Action W (Unit {0})))
      → ((f : Action W (Unit {0})) → finally ≡ some f → NeverPanics f)
      → NeverPanics (call_if_set finally)
  calm_call none hf w = refl
  calm_call (some f) hf w = hf f refl w

  calm_recover :
      (catch : Option (Panic → Action W (Unit {0}))) (r : Exit (Unit {0}))
      → ((c : Panic → Action W (Unit {0})) (v : Panic) → catch ≡ some c → NeverPanics (c v))
      → NeverPanics (recover_to catch r)
  unfolding recover_to
  calm_recover catch (returns _) hc w = refl
  calm_recover none (panics v) hc w = refl
  calm_recover (some c) (panics v) hc w = hc c v refl w

  -- Where neither `catch` nor `finally` panics, TryFunc never panics, whatever its body does, and
  -- with no `catch` a panic of the body is lost.
  pub try_func-NeverPanics :
      (fun : Action W (Unit {0})) (catch : Option (Panic → Action W (Unit {0})))
      (finally : Option (Action W (Unit {0})))
      → ((c : Panic → Action W (Unit {0})) (v : Panic) → catch ≡ some c → NeverPanics (c v))
      → ((f : Action W (Unit {0})) → finally ≡ some f → NeverPanics f)
      → NeverPanics (try_func fun catch finally)
  unfolding try_func
  try_func-NeverPanics fun catch finally hc hf w =
      let (r, w') = fun w in
      ground (arith, calm_call finally hf w', calm_recover catch r hc (call_if_set finally w').1)

  -- TryCatchReturn fails with the error, and in the state, in which TryCatch of the same call
  -- does, and its result is the zero value whenever there is an error.
  pub try_catch_return-try_catch :
      {R : Type 0} (p : ℕ) (zero : R) (f : Action W R) (w : W)
      → (try_catch p (f >> pure tt) w
          ≡ ((try_catch_return p zero f w).0.1, (try_catch_return p zero f w).1))
        × ((e : Error)
            → (try_catch_return p zero f w).0.1 ≡ some e
            → (try_catch_return p zero f w).0.0 ≡ zero)
  unfolding try_catch try_catch_return
  try_catch_return-try_catch p zero f w = (ground arith, λ e h. ground arith)
