-- ===== src/Prelude/Entries.antt =====
-- What holds of every entry of an association list, under lookup, insert and erase.
use top_lib.Prelude.{
  String, ◌≡◌, ◌≢◌, refl, true, false, subst, some, List, [], ◌∷◌, arith, str_eq, eq_iff, All,
  Bool-cases, inl, inr,
}
use top_lib.Prelude.Assoc.{lookup, insert, erase}

pub All-weaken :
    {A : Type 0} {P Q : A → Type 0} → ((x : A) → P x → Q x) → (xs : List A) → All P xs → All Q xs
All-weaken f [] h = tt
All-weaken f (x ∷ xs) (here, rest) = (f x here, All-weaken f xs rest)

pub All-pair :
    {A : Type 0} (P Q : A → Type 0) (xs : List A) → All P xs → All Q xs → All (λ x. P x × Q x) xs
All-pair P Q [] h k = tt
All-pair P Q (x ∷ xs) (here, rest) (here', rest') = ((here, here'), All-pair P Q xs rest rest')

module _ {V : Type 0} where
  -- No two entries have one key.
  abbrev pub IsDistinct : List (String × V) → Type 0
  IsDistinct [] = Unit
  IsDistinct (e ∷ m) = All (λ e'. e'.0 ≢ e.0) m × IsDistinct m

  module _ (P : String × V → Type 0) where
    pub All-insert :
        (k : String) (v : V) (m : List (String × V)) → All P m → P (k, v) → All P (insert k v m)
    unfolding insert
    All-insert k v [] h p = (p, tt)
    All-insert k v ((j, w) ∷ m) (here, rest) p = elim (Bool-cases (str_eq j k)) [
      | inl hit ↦ rw hit (p, rest)
      | inr miss ↦ rw miss (here, All-insert k v m rest p)
    ]

    pub All-lookup :
        (k : String) (v : V) (m : List (String × V)) → All P m → lookup k m ≡ some v → P (k, v)
    unfolding lookup
    All-lookup k v [] h found = absurd (ground (arith, found))
    All-lookup k v ((j, w) ∷ m) (here, rest) found = elim (Bool-cases (str_eq j k)) [
      | inl hit ↦
          let same : (j, w) ≡ (k, v) = ground (arith, hit, found, eq_iff j k) in subst P same here
      | inr miss ↦ All-lookup k v m rest (rw miss at found)
    ]

    -- What is left after the key is erased has other keys.
    pub All-erase :
        (k : String) (m : List (String × V)) → All P m → All (λ e. P e × (e.0 ≢ k)) (erase k m)
    unfolding erase
    All-erase k [] h = tt
    All-erase k ((j, w) ∷ m) (here, rest) = elim (Bool-cases (str_eq j k)) [
      | inl hit ↦ rw hit (All-erase k m rest)
      | inr miss ↦ rw miss ((here, ground (arith, miss, eq_iff j k)), All-erase k m rest)
    ]

  pub IsDistinct-insert :
      (k : String) (v : V) (m : List (String × V)) → IsDistinct m → IsDistinct (insert k v m)
  unfolding insert
  IsDistinct-insert k v [] h = (tt, tt)
  IsDistinct-insert k v ((j, w) ∷ m) (here, rest) = elim (Bool-cases (str_eq j k)) [
    | inl hit ↦ rw hit (subst (λ i. All (λ e'. e'.0 ≢ i) m) ((eq_iff j k).0 hit) here, rest)
    | inr miss ↦
        rw miss
          let other : k ≢ j = ground (arith, miss, eq_iff j k) in
            (All-insert (λ e'. e'.0 ≢ j) k v m here other, IsDistinct-insert k v m rest)
  ]

  pub IsDistinct-erase :
      (k : String) (m : List (String × V)) → IsDistinct m → IsDistinct (erase k m)
  unfolding erase
  IsDistinct-erase k [] h = tt
  IsDistinct-erase k ((j, w) ∷ m) (here, rest) = elim (Bool-cases (str_eq j k)) [
    | inl hit ↦ rw hit (IsDistinct-erase k m rest)
    | inr miss ↦ rw miss (
      All-weaken (λ e h. h.0) (erase k m) (All-erase (λ e. e.0 ≢ j) k m here),
      IsDistinct-erase k m rest,
    )
  ]

  erase-fresh : (k : String) (m : List (String × V)) → All (λ e. e.0 ≢ k) m → erase k m ≡ m
  unfolding erase
  erase-fresh k [] h = refl
  erase-fresh k ((j, w) ∷ m) (here, rest) =
      let miss : str_eq j k ≡ false = ground (arith, here, eq_iff j k) in
      rw (miss, erase-fresh k m rest) refl

  pub erase-head :
      (k : String) (v : V) (m : List (String × V))
      → IsDistinct ((k, v) ∷ m)
      → erase k ((k, v) ∷ m) ≡ m
  unfolding erase
  erase-head k v m (here, rest) =
      let hit : str_eq k k ≡ true = (eq_iff k k).1 refl in rw hit (erase-fresh k m here)
