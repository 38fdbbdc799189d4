-- ===== src/Redis/Requests/Merges.antt =====
-- Where the calls of a view miss what they are about (libs/redis/redis_set.go, redis_hash.go).
use top_lib.Prelude.{none, List, ◌∷◌, map, length, length-append, ◌≡◌, ◌≢◌, ap, arith}
use top_lib.Prelude.Split.{Text, colon}
use top_lib.Errors.Effect.{returns, panics, other, continue}
use top_lib.Redis.Keys.{expand_key}
use top_lib.Redis.Driver.{Command, View, Value, nil, in_string, in_bytes}
use top_lib.Redis.Hash.{as_bytes, converted, hm_get}
use top_lib.Redis.Sets.{s_diff_merge, s_inter_merge, s_union_merge}
use top_lib.Redis.Requests.Isolation.{IsLocal}

-- No key is its own expansion.
expand_key-ne : (prefix key : Text) → key ≢ expand_key prefix key
unfolding expand_key
expand_key-ne prefix key e = omega (arith, ap length e, length-append prefix (colon ∷ key))

module _ {F S E V : Type 0} (at : S → Text → V) (r : View F S E) (local : IsLocal at r.client) where
  -- A merge of sets leaves the set of the view that has the name of the destination as it was, since
  -- it writes under the destination's name without the prefix.
  pub merges-miss :
      (destination : Text) (keys : List Text) (s : S)
      → let full = expand_key r.prefix destination in
        (at (s_diff_merge r destination keys s).1 full ≡ at s full)
        × (at (s_inter_merge r destination keys s).1 full ≡ at s full)
        × (at (s_union_merge r destination keys s).1 full ≡ at s full)
  unfolding s_diff_merge s_inter_merge s_union_merge
  merges-miss destination keys s =
      let full = expand_key r.prefix destination in
      let apart = expand_key-ne r.prefix destination in
      let expanded = map (expand_key r.prefix) keys in
      (
        local.int_local (Command.s_diff_store destination expanded) full (apart, tt) s,
        local.int_local (Command.s_inter_store destination expanded) full (apart, tt) s,
        local.int_local (Command.s_union_store destination expanded) full (apart, tt) s,
      )

-- A value of an MGET: a text or nil.
abbrev pub IsTextOrNil : Value → Type 0
IsTextOrNil nil = Unit
IsTextOrNil (in_string t) = Unit
IsTextOrNil (in_bytes t) = ⊥

module _ {F S E : Type 0} (r : View F S E) where
  -- HMGet panics as soon as the library answers a value and no error, since its values are texts
  -- and nil, and never bytes.
  pub hm_get-panics :
      (key : Text) (fields : List Text) (value : Value) (values : List Value) (s s' : S)
      → r.client.values (Command.hm_get (expand_key r.prefix key) fields) s
        ≡ (returns (value ∷ values, none), s')
      → IsTextOrNil value
      → hm_get r key fields s
        ≡ (panics (other "interface conversion: interface {} is not []uint8"), s')
  unfolding hm_get as_bytes
  hm_get-panics key fields nil values s s' e kind =
      ap (λ (rs : _ × _). continue rs.0 converted rs.1) e
  hm_get-panics key fields (in_string t) values s s' e kind =
      ap (λ (rs : _ × _). continue rs.0 converted rs.1) e
  hm_get-panics key fields (in_bytes t) values s s' e kind = absurd kind
