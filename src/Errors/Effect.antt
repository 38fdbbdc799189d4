-- ===== src/Errors/Effect.antt =====
-- A call of a Go function: what it does to the program's state, and whether it returns or panics.
use top_lib.Prelude.{String, Option, none, some, ◌≡◌, refl, ◌⊎◌, inl, inr}
use top_lib.Errors.Value.{Error}

-- A panic's value: an error, or any other value with its text under %+v.
pub data Panic : Type 0 where
  raised : Error → Panic
  other : String → Panic

pub data Exit (A : Type 0) : Type 0 where
  returns : A → Exit A
  panics : Panic → Exit A

abbrev pub Action : Type 0 → Type 0 → Type 0
Action W A = W → Exit A × W

module _ {W : Type 0} where
  abbrev pub pure : {A : Type 0} → A → Action W A
  pure a w = (returns a, w)

  abbrev pub panic : {A : Type 0} → Panic → Action W A
  panic v w = (panics v, w)

  abbrev pub continue : {A B : Type 0} → Exit A → (A → Action W B) → Action W B
  continue (returns a) f w = f a w
  continue (panics v) f w = (panics v, w)

  infixl 5 ◌>>=◌ ◌>>◌
  abbrev pub ◌>>=◌ : {A B : Type 0} → Action W A → (A → Action W B) → Action W B
  ◌>>=◌ m f w = let (r, w') = m w in continue r f w'

  abbrev pub ◌>>◌ : {A B : Type 0} → Action W A → Action W B → Action W B
  m >> n = m >>= λ _. n

  -- return of a call, its results turned over by `f`.
  abbrev pub giving : {A B : Type 0} → (A → B) → Action W A → Action W B
  giving f call = call >>= λ a. pure (f a)

  -- The call that a func variable makes, if it is not nil.
  abbrev pub call_if_set : Option (Action W (Unit {0})) → Action W (Unit {0})
  call_if_set none = pure tt
  call_if_set (some f) = f

  -- After `defer d()`: `d` runs when `m` ends either way, and a panic of `d` replaces that of `m`.
  abbrev pub after_defer : {A : Type 0} → Exit A → Exit (Unit {0}) × W → Exit A × W
  after_defer r (returns _, w) = (r, w)
  after_defer r (panics v, w) = (panics v, w)

  abbrev pub deferring : {A : Type 0} → Action W (Unit {0}) → Action W A → Action W A
  deferring d m w = let (r, w') = m w in after_defer r (d w')

  -- The call panics in no state.
  abbrev pub NeverPanics : Action W (Unit {0}) → Type 0
  NeverPanics m = (w : W) → (m w).0 ≡ returns tt

pub Exit-cases :
    {A : Type 0} (r : Exit A) → ((a : A) × (r ≡ returns a)) ⊎ ((v : Panic) × (r ≡ panics v))
Exit-cases (returns a) = inl (a, refl)
Exit-cases (panics v) = inr (v, refl)
