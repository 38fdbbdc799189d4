-- ===== src/Prelude/Split.antt =====
-- strings.Split and strings.Join, on texts that are lists of character codes.

use Prim.Native.Char.{code}
use top_lib.Prelude.{
  ℕ, String, ◌≡◌, ◌≢◌, refl, sym, ap, true, false, ◌&&◌, List, [], ◌∷◌, ◌++◌, ◌==◌, if◌then◌else◌,
  All, arith, Bool-cases, inl, inr, ==_iff,
}

abbrev pub Text : Type 0
Text = List ℕ

-- The characters of a text.
abbrev pub codes : String → Text
codes String.[] = []
codes (String.◌∷◌ c s) = code c ∷ codes s

abbrev pub colon : ℕ
colon = 58

abbrev pub bar : ℕ
bar = 124

abbrev cons_head : ℕ → List Text → List Text
cons_head c [] = (c ∷ []) ∷ []
cons_head c (t ∷ ts) = (c ∷ t) ∷ ts

unfoldable pub split_on : ℕ → Text → List Text
split_on sep [] = [] ∷ []
split_on sep (c ∷ cs) =
    let rest = split_on sep cs in if c == sep then [] ∷ rest else cons_head c rest

unfoldable pub join_with : ℕ → List Text → Text
join_with sep [] = []
join_with sep (t ∷ []) = t
join_with sep (t ∷ u ∷ ts) = t ++ (sep ∷ join_with sep (u ∷ ts))

-- strings.Split at "||"
unfoldable pub split_bars : Text → List Text
split_bars [] = [] ∷ []
split_bars (c ∷ []) = (c ∷ []) ∷ []
split_bars (c ∷ d ∷ cs) =
    let cut = split_bars cs in
    let go_on = split_bars (d ∷ cs) in
    if (c == bar) && (d == bar) then [] ∷ cut else cons_head c go_on

-- The text does not hold the character.
abbrev pub IsFree : ℕ → Text → Type 0
IsFree sep = All (λ c. c ≢ sep)

pub split_on-piece :
    (sep : ℕ) (t rest : Text)
    → IsFree sep t
    → split_on sep (t ++ (sep ∷ rest)) ≡ t ∷ split_on sep rest
unfolding split_on
split_on-piece sep [] rest free = let hit : (sep == sep) ≡ true = ground arith in rw hit refl
split_on-piece sep (c ∷ cs) rest (other, free) =
    let miss : (c == sep) ≡ false = ground (arith, other) in
    rw (miss, split_on-piece sep cs rest free) refl

pub split_on-free : (sep : ℕ) (t : Text) → IsFree sep t → split_on sep t ≡ t ∷ []
unfolding split_on
split_on-free sep [] free = refl
split_on-free sep (c ∷ cs) (other, free) =
    let miss : (c == sep) ≡ false = ground (arith, other) in
    rw (miss, split_on-free sep cs free) refl

split_on-some : (sep : ℕ) (t : Text) → (u : Text) × (us : List Text) × (split_on sep t ≡ u ∷ us)
unfolding split_on
split_on-some sep [] = ([], [], refl)
split_on-some sep (c ∷ cs) =
    let (u, us, e) = split_on-some sep cs in
    elim (Bool-cases (c == sep)) [
      | inl hit ↦ ([], split_on sep cs, rw hit refl)
      | inr miss ↦ (c ∷ u, us, rw (miss, e) refl)
    ]

join_with-head :
    (sep c : ℕ) (t : Text) (ts : List Text)
    → join_with sep ((c ∷ t) ∷ ts) ≡ c ∷ join_with sep (t ∷ ts)
unfolding join_with
join_with-head sep c t [] = refl
join_with-head sep c t (u ∷ us) = refl

-- Joining the pieces of a text gives the text.
pub join_with-split_on : (sep : ℕ) (t : Text) → join_with sep (split_on sep t) ≡ t
unfolding split_on join_with
join_with-split_on sep [] = refl
join_with-split_on sep (c ∷ cs) =
    let (u, us, e) = split_on-some sep cs in
    let ih : join_with sep (u ∷ us) ≡ cs = rw e at (join_with-split_on sep cs) in
    elim (Bool-cases (c == sep)) [
      | inl hit ↦ rw (hit, e, ih) (ap (λ x. x ∷ cs) (sym ((==_iff c sep).0 hit)))
      | inr miss ↦ rw (miss, e, join_with-head sep c u us, ih) refl
    ]

-- The last of the pieces, with what is before them for a text that has none.
abbrev pub last_of : Text → List Text → Text
last_of t [] = t
last_of t (u ∷ us) = last_of u us

pub last_of-append : (d t : Text) (us : List Text) → last_of d (us ++ (t ∷ [])) ≡ t
last_of-append d t [] = refl
last_of-append d t (u ∷ us) = last_of-append u t us

-- A text with the separator in it has two pieces or more, and the last is what follows the last
-- separator.
pub split_on-last :
    (sep : ℕ) (before t : Text)
    → IsFree sep t
    → (u : Text) × (us : List Text) × (split_on sep (before ++ (sep ∷ t)) ≡ u ∷ (us ++ (t ∷ [])))
unfolding split_on
split_on-last sep [] t free =
    let hit : (sep == sep) ≡ true = ground arith in
    ([], [], rw (hit, split_on-free sep t free) refl)
split_on-last sep (c ∷ cs) t free =
    let (u, us, e) = split_on-last sep cs t free in
    elim (Bool-cases (c == sep)) [
      | inl hit ↦ ([], u ∷ us, rw (hit, e) refl)
      | inr miss ↦ (c ∷ u, us, rw (miss, e) refl)
    ]

pub split_bars-piece :
    (t rest : Text) → IsFree bar t → split_bars (t ++ (bar ∷ bar ∷ rest)) ≡ t ∷ split_bars rest
unfolding split_bars
split_bars-piece [] rest free = refl
split_bars-piece (c ∷ []) rest (other, free) =
    let miss : (c == bar) ≡ false = ground (arith, other) in rw miss refl
split_bars-piece (c ∷ d ∷ cs) rest (other, free) =
    let miss : (c == bar) ≡ false = ground (arith, other) in
    rw (miss, split_bars-piece (d ∷ cs) rest free) refl

pub split_bars-free : (t : Text) → IsFree bar t → split_bars t ≡ t ∷ []
unfolding split_bars
split_bars-free [] free = refl
split_bars-free (c ∷ []) free = refl
split_bars-free (c ∷ d ∷ cs) (other, free) =
    let miss : (c == bar) ≡ false = ground (arith, other) in
    rw (miss, split_bars-free (d ∷ cs) free) refl
