-- ===== src/Redis/Keys.antt =====
-- libs/redis/redis_internal.go: expandKey and truncateKey.
use top_lib.Prelude.{◌≡◌, sym, ap, ◌∙◌, ◌∷◌, ◌++◌, drop, arith}
use top_lib.Prelude.Split.{
  Text, colon, split_on, join_with, IsFree, split_on-piece, join_with-split_on,
}

-- r.prefix + RedisKeySep + suffix
unfoldable pub expand_key : Text → Text → Text
expand_key prefix suffix = prefix ++ (colon ∷ suffix)

unfoldable pub truncate_key : Text → Text
truncate_key full = join_with colon (drop 1 (split_on colon full))

-- truncateKey takes the prefix off a key that expandKey made, where the prefix has no colon.
pub truncate_key-expand_key :
    (prefix suffix : Text) → IsFree colon prefix → truncate_key (expand_key prefix suffix) ≡ suffix
unfolding truncate_key expand_key
truncate_key-expand_key prefix suffix free =
    rw (split_on-piece colon prefix suffix free) (join_with-split_on colon suffix)

-- Two views whose prefixes have no colon share a key of the server only where both their prefixes
-- and their keys are the same.
pub expand_key_injective :
    (p q k j : Text)
    → IsFree colon p
    → IsFree colon q
    → expand_key p k ≡ expand_key q j
    → (p ≡ q) × (k ≡ j)
unfolding expand_key
expand_key_injective p q k j free free' same =
    let pieces : p ∷ split_on colon k ≡ q ∷ split_on colon j =
      sym (split_on-piece colon p k free)
      ∙ ap (split_on colon) same
      ∙ split_on-piece colon q j free' in
    (
      ground (arith, pieces),
      sym (truncate_key-expand_key p k free)
          ∙ ap truncate_key same
          ∙ truncate_key-expand_key q j free',
    )
