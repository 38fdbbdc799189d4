-- ===== src/Prelude/Decimal.antt =====
-- Decimal numbers: what %d prints of a number that is not negative, and reading it back.
use top_lib.Prelude.{
  ℕ, zero, suc, ◌+◌, ◌-◌, ◌*◌, ◌/◌, ◌%◌, ◌≤◌, ◌<◌, ◌≡◌, refl, ap, ◌∙◌, false, ◌&&◌, Option, none,
  some, [], ◌∷◌, ◌++◌, ltb, ltb→lt, leb, All, All-append, arith, Bool-cases, inl, inr,
  if◌then◌else◌,
}
use top_lib.Prelude.Split.{Text, IsFree}

-- %d of a number that is not negative; the fuel is above the number of digits.
unfoldable pub digits_from : ℕ → ℕ → Text
digits_from zero n = []
digits_from (suc fuel) n =
    let front = digits_from fuel (n / 10) in
    let last = (48 + n % 10) ∷ [] in if ltb n 10 then last else front ++ last

abbrev pub digits : ℕ → Text
digits n = digits_from (suc n) n

-- The number that the digits add to, none for a text with any other character.
unfoldable pub read_digits : ℕ → Text → Option ℕ
read_digits sum [] = some sum
read_digits sum (c ∷ cs) =
    let rest = read_digits (sum * 10 + (c - 48)) cs in if leb 48 c && leb c 57 then rest else none

abbrev pub IsDigit : ℕ → Type 0
IsDigit c = (48 ≤ c) × (c ≤ 57)

pub digits_from-IsDigit : (fuel n : ℕ) → All IsDigit (digits_from fuel n)
unfolding digits_from
digits_from-IsDigit zero n = tt
digits_from-IsDigit (suc fuel) n = elim (Bool-cases (ltb n 10)) [
  | inl small ↦ rw small ((omega arith, omega arith), tt)
  | inr large ↦ rw large (
      All-append IsDigit (digits_from fuel (n / 10)) ((48 + n % 10) ∷ [])
        (digits_from-IsDigit fuel (n / 10)) ((omega arith, omega arith), tt))
]

pub digits-IsFree : (sep : ℕ) (xs : Text) → (57 < sep) → All IsDigit xs → IsFree sep xs
digits-IsFree sep [] above h = tt
digits-IsFree sep (c ∷ cs) above ((low, high), h) =
    (λ e. absurd (omega (arith, e, high, above)), digits-IsFree sep cs above h)

read_digits-append :
    (sum n : ℕ) (xs : Text) (c : ℕ)
    → read_digits sum xs ≡ some n
    → IsDigit c
    → read_digits sum (xs ++ (c ∷ [])) ≡ some (n * 10 + (c - 48))
unfolding read_digits
read_digits-append sum n [] c e h = ground (arith, e, h)
read_digits-append sum n (d ∷ ds) c e h = elim (Bool-cases (leb 48 d && leb d 57)) [
  | inl good ↦ rw good (read_digits-append (sum * 10 + (d - 48)) n ds c (rw good at e) h)
  | inr bad ↦ absurd (ground (arith, rw bad at e))
]

one_digit : (n : ℕ) → n < 10 → read_digits 0 ((48 + n % 10) ∷ []) ≡ some n
unfolding read_digits
one_digit n h = ground (arith, h)

above_ten : (n : ℕ) → ltb n 10 ≡ false → 10 ≤ n
above_ten n h = ground (arith, h)

pub read_digits-digits_from : (fuel n : ℕ) → n < fuel → read_digits 0 (digits_from fuel n) ≡ some n
unfolding digits_from
read_digits-digits_from zero n h = absurd (omega (arith, h))
read_digits-digits_from (suc fuel) n h = elim (Bool-cases (ltb n 10)) [
  | inl small ↦ rw small (one_digit n (ltb→lt n 10 small))
  | inr large ↦
      let shorter : n / 10 < fuel = omega (arith, h, above_ten n large) in
      rw large (
        read_digits-append 0 (n / 10) (digits_from fuel (n / 10)) (48 + n % 10)
          (read_digits-digits_from fuel (n / 10) shorter) (omega arith, omega arith)
        ∙ ap some (omega arith))
]

pub digits_from-cons : (fuel n : ℕ) → (c : ℕ) × (cs : Text) × (digits_from (suc fuel) n ≡ c ∷ cs)
unfolding digits_from
digits_from-cons fuel n = elim (Bool-cases (ltb n 10)) [
  | inl small ↦ (48 + n % 10, [], rw small refl)
  | inr large ↦ rw large (append_cons (digits_from fuel (n / 10)) (48 + n % 10))
]
  where
    append_cons : (xs : Text) (d : ℕ) → (c : ℕ) × (cs : Text) × (xs ++ (d ∷ []) ≡ c ∷ cs)
    append_cons [] d = (d, [], refl)
    append_cons (x ∷ xs) d = (x, xs ++ (d ∷ []), refl)
