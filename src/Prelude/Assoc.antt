-- ===== src/Prelude/Assoc.antt =====
-- Go's maps with text keys, as association lists.
use top_lib.Prelude.{
  String, ◌≡◌, ◌≢◌, refl, Option, none, some, List, [], ◌∷◌, arith, if◌then◌else◌, str_eq, eq_iff,
}

module _ {ℓ} {V : Type ℓ} where
  unfoldable pub lookup : String → List (String × V) → Option V
  lookup k [] = none
  lookup k ((j, v) ∷ m) = if str_eq j k then some v else lookup k m

  -- m[k] = v
  unfoldable pub insert : String → V → List (String × V) → List (String × V)
  insert k v [] = (k, v) ∷ []
  insert k v ((j, w) ∷ m) = if str_eq j k then (k, v) ∷ m else (j, w) ∷ insert k v m

  -- delete(m, k)
  unfoldable pub erase : String → List (String × V) → List (String × V)
  erase k [] = []
  erase k ((j, w) ∷ m) = let rest = erase k m in if str_eq j k then rest else (j, w) ∷ rest

  -- An entry at the head is replaced by another under the same key, and is kept before the rest.
  pub lookup-insert :
      (key asked : String) (new : V) (entries : List (String × V))
      → (if str_eq key asked then some new else lookup asked entries)
        ≡ lookup asked (insert key new entries)
  unfolding insert lookup
  lookup-insert key asked new [] = refl
  lookup-insert key asked new ((head, old) ∷ entries) =
      let ih = lookup-insert key asked new entries in
      ground (arith, ih, eq_iff head key, eq_iff head asked, eq_iff key asked)

  pub lookup-erase :
      (k j : String) (m : List (String × V))
      → lookup j (erase k m) ≡ (if str_eq k j then none else lookup j m)
  unfolding lookup erase
  lookup-erase k j [] = ground arith
  lookup-erase k j ((i, w) ∷ m) =
      ground (arith, lookup-erase k j m, eq_iff i k, eq_iff i j, eq_iff k j)

  pub lookup-insert_same :
      (k : String) (v : V) (m : List (String × V)) → lookup k (insert k v m) ≡ some v
  lookup-insert_same k v m = ground (arith, lookup-insert k k v m, eq_iff k k)

  pub lookup-insert_other :
      (k j : String) (v : V) (m : List (String × V)) → k ≢ j → lookup j (insert k v m) ≡ lookup j m
  lookup-insert_other k j v m other = ground (arith, lookup-insert k j v m, eq_iff k j, other)

  pub lookup-erase_same : (k : String) (m : List (String × V)) → lookup k (erase k m) ≡ none
  lookup-erase_same k m = ground (arith, lookup-erase k k m, eq_iff k k)

  pub lookup-erase_other :
      (k j : String) (m : List (String × V)) → k ≢ j → lookup j (erase k m) ≡ lookup j m
  lookup-erase_other k j m other = ground (arith, lookup-erase k j m, eq_iff k j, other)
