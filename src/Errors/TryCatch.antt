-- ===== src/Errors/TryCatch.antt =====
-- libs/errors/try_catch_func.go and try_catch.go.
pub mod Order
use Prim.Native.String.{◌++◌ as str_append}
use top_lib.Prelude.{ℕ, String, Option, none, some}
use top_lib.Errors.Value.{Error, foreign, end}
use top_lib.Errors.Effect.{
  Panic, raised, other, Exit, returns, panics, Action, pure, panic, call_if_set, ◌>>=◌, ◌>>◌,
}

-- The first argument is the address that fmt.Errorf allocates, if it is called.
unfoldable pub to_error : ℕ → Panic → Error
to_error p (raised e) = e
to_error p (other s) = foreign p (str_append "panic: " s) end

recovered : ℕ → Exit (Unit {0}) → Option Error
recovered p (returns _) = none
recovered p (panics v) = some (to_error p v)

-- The named results keep their zero value when `f` panics.
returned : {R : Type 0} → ℕ → R → Exit R → R × Option Error
unfolding to_error
returned p zero (returns r) = (r, none)
returned p zero (panics v) = (zero, some (to_error p v))

module _ {W : Type 0} where
  unfoldable pub try_catch : ℕ → Action W (Unit {0}) → W → Option Error × W
  unfolding recovered to_error
  try_catch p f w = let (r, w') = f w in (recovered p r, w')

  unfoldable pub try_catch_ignore : ℕ → Action W (Unit {0}) → W → W
  unfolding try_catch
  try_catch_ignore p f w = (try_catch p f w).1

  unfoldable pub try_catch_return : {R : Type 0} → ℕ → R → Action W R → W → (R × Option Error) × W
  unfolding returned
  try_catch_return p zero f w = let (r, w') = f w in (returned p zero r, w')

  unfoldable pub try_catch_return2 :
      {A B : Type 0} → ℕ → A → B → Action W (A × B) → W → ((A × B) × Option Error) × W
  unfolding returned
  try_catch_return2 p a b f w = let (r, w') = f w in (returned p (a, b) r, w')

  unfoldable pub try_catch_return3 :
      {A B C : Type 0} → ℕ → A → B → C → Action W (A × B × C) → W → ((A × B × C) × Option Error) × W
  unfolding returned
  try_catch_return3 p a b c f w = let (r, w') = f w in (returned p (a, b, c) r, w')

  -- The deferred function's second half, once `finally` has returned.
  recover_to : Option (Panic → Action W (Unit {0})) → Exit (Unit {0}) → Action W (Unit {0})
  recover_to catch (returns _) = pure tt
  recover_to none (panics v) = pure tt
  recover_to (some catch) (panics v) = catch v

  unfoldable pub try_func :
      Action W (Unit {0})
      → Option (Panic → Action W (Unit {0}))
      → Option (Action W (Unit {0}))
      → Action W (Unit {0})
  unfolding recover_to
  try_func fun catch finally w =
      let (r, w') = fun w in (call_if_set finally >> recover_to catch r) w'
