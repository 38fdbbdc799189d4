-- ===== src/Uuid/Random/Lengths.antt =====
-- How long random texts are, and of what (libs/uuid/gen_string.go, gen_bytes.go).
use top_lib.Prelude.{
  ℕ, zero, suc, ◌<◌, Option, some, [], ◌∷◌, ◌++◌, length, get_elem?, ◌≡◌, refl, sym, ap, ◌∙◌, All,
  arith,
}
use top_lib.Prelude.Int.{pos}
use top_lib.Prelude.Split.{Text}
use top_lib.Errors.Effect.{Action, Exit, returns, continue, ◌>>=◌}
use top_lib.Uuid.Random.{
  letters, numbers, at_index, pick, gen_loop, gen_string, gen_number_string, zeros, gen_bytes,
}
use mathlib.Core.List.{append-nil, append_assoc}

-- The character stands in the text.
abbrev pub IsOf : Text → ℕ → Type 0
IsOf str c = (k : ℕ) × (get_elem? str k ≡ some c)

get_elem?-below : (str : Text) (k : ℕ) → k < length str → (c : ℕ) × (get_elem? str k ≡ some c)
get_elem?-below [] k lt = absurd (omega (arith, lt))
get_elem?-below (c ∷ str) zero lt = (c, refl)
get_elem?-below (c ∷ str) (suc k) lt = get_elem?-below str k (omega (arith, lt))

length-zeros : (n : ℕ) → length (zeros n) ≡ n
length-zeros zero = refl
length-zeros (suc n) = ap suc (length-zeros n)

module _ {W : Type 0} (rand_int : ℕ → Action W (Option ℕ)) where
  -- rand.Int never fails and gives a number below its bound.
  abbrev pub Draws : Type 0
  Draws =
      (max : ℕ) (w : W)
      → 0 < max
      → (k : ℕ) × (w' : W) × (rand_int max w ≡ (returns (some k), w')) × (k < max)

  module _ (draws : Draws) where
    picked :
        (str : Text) (w : W)
        → 0 < length str
        → (c : ℕ) × (w' : W) × IsOf str c
          × ((rand_int (length str) >>= pick rand_int str) w ≡ (returns c, w'))
    picked str w some_length =
        let (k, w', drawn, below) = draws (length str) w some_length in
        let (c, at) = get_elem?-below str k below in
        (
          c,
          w',
          (k, at),
          ap (λ (out : Exit (Option ℕ) × W). continue out.0 (pick rand_int str) out.1) drawn
              ∙ ap (λ found. at_index rand_int found w') at,
        )

    -- What the loop adds.
    abbrev pub Drawn : Text → ℕ → Action W Text → W → Text → Type 0
    Drawn str count call w before =
        (drawn : Text) × (w' : W) × (call w ≡ (returns (before ++ drawn), w'))
        × (length drawn ≡ count)
        × All (IsOf str) drawn

    gen_loop-Drawn :
        (str : Text) (count : ℕ) (container : Text) (w : W)
        → 0 < length str
        → Drawn str count (gen_loop rand_int str count container) w container
    unfolding gen_loop
    gen_loop-Drawn str zero container w some_length =
        ([], w, ap (λ t. (returns t, w)) (sym (append-nil container)), refl, tt)
    gen_loop-Drawn str (suc count) container w some_length =
        let (c, w', of_str, got) = picked str w some_length in
        let (drawn, w'', ran, counted, all_of) =
          gen_loop-Drawn str count (container ++ (c ∷ [])) w' some_length in
        (
          c ∷ drawn,
          w'',
          ap
                (λ (out : Exit ℕ × W).
                  continue out.0 (λ c'. gen_loop rand_int str count (container ++ (c' ∷ []))) out.1)
                got
              ∙ ran
              ∙ ap (λ t. (returns t, w'')) (append_assoc container (c ∷ []) drawn),
          ap suc counted,
          (of_str, all_of),
        )

    -- Where rand.Int gives numbers below its bound, GenString and GenNumberString give texts of the
    -- length asked for, of letters and digits and of digits; GenBytes gives twice as many bytes as
    -- asked for, as many zero bytes first as random ones.
    pub gen_bytes-doubled :
        (len : ℕ) (w : W)
        → Drawn letters len (gen_string rand_int (pos len)) w []
          × Drawn numbers len (gen_number_string rand_int (pos len)) w []
          × Drawn letters len (gen_bytes rand_int (pos len)) w (zeros len)
          × (length (zeros len) ≡ len)
    unfolding gen_string gen_number_string gen_bytes
    gen_bytes-doubled len w = (
      gen_loop-Drawn letters len [] w (omega arith),
      gen_loop-Drawn numbers len [] w (omega arith),
      gen_loop-Drawn letters len (zeros len) w (omega arith),
      length-zeros len,
    )
