-- ===== src/Redis/Hash.antt =====
-- libs/redis/redis_hash.go: hashes.
use top_lib.Prelude.{Option, none, some, List, [], ◌∷◌, Bool}
use top_lib.Prelude.Int.{ℤ}
use top_lib.Prelude.Split.{Text}
use top_lib.Errors.Effect.{giving, Action, other, pure, panic, ◌>>=◌}
use top_lib.Redis.Keys.{expand_key}
use top_lib.Redis.View.{WrapError, wrap_result}
use top_lib.Redis.Driver.{Command, Value, nil, in_string, in_bytes, View, value_or}

-- What HMSet gives: ErrorInputValuesIsNil, or an error of the call.
pub data SetError (E : Type 0) : Type 0 where
  input_values_is_nil : SetError E
  of_call : WrapError E → SetError E

-- The loop of HMGet: i2.([]byte) panics on all that is not bytes.
unfoldable pub as_bytes : List Value → Option (List Text)
as_bytes [] = some []
as_bytes (in_bytes value ∷ values) = elim (as_bytes values) [
  | none ↦ none
  | some out ↦ some (value ∷ out)
]
as_bytes (nil ∷ values) = none
as_bytes (in_string value ∷ values) = none

module _ {E : Type 0} where
  abbrev pub set_error : Option (WrapError E) → Option (SetError E)
  set_error none = none
  set_error (some e) = some (of_call e)

  abbrev pub out_or_panic : {S : Type 0} → Option (List Text) → Action S (List Text × Option E)
  out_or_panic none = panic (other "interface conversion: interface {} is not []uint8")
  out_or_panic (some out) = pure (out, none)

  abbrev pub converted : {S : Type 0} → List Value × Option E → Action S (List Text × Option E)
  converted (result, some e) = pure ([], some e)
  converted (result, none) = out_or_panic (as_bytes result)

module _ {F S E : Type 0} (r : View F S E) where
  unfoldable pub h_set_nx : Text → Text → Text → Action S (Option (WrapError E))
  h_set_nx key field value =
      giving wrap_result (r.client.any (Command.h_set_nx (expand_key r.prefix key) field value))

  unfoldable pub h_set : Text → Text → Text → Action S (Option (WrapError E))
  h_set key field value =
      giving wrap_result (r.client.any (Command.h_set (expand_key r.prefix key) field value))

  -- None for a nil map.
  unfoldable pub hm_set : Text → Option (List (Text × Text)) → Action S (Option (SetError E))
  hm_set key none = pure (some input_values_is_nil)
  hm_set key (some values) =
      giving (λ result. set_error (wrap_result result))
        (r.client.any (Command.hm_set (expand_key r.prefix key) values))

  -- The text is given also with an error.
  unfoldable pub h_get : Text → Text → Action S (Text × Option E)
  h_get key field = r.client.text (Command.h_get (expand_key r.prefix key) field)

  unfoldable pub hm_get : Text → List Text → Action S (List Text × Option E)
  hm_get key fields =
      r.client.values (Command.hm_get (expand_key r.prefix key) fields) >>= converted

  unfoldable pub h_get_all : Text → Action S (List (Text × Text) × Option E)
  h_get_all key =
      giving (value_or []) (r.client.pairs (Command.h_get_all (expand_key r.prefix key)))

  unfoldable pub h_del : Text → List Text → Action S (ℤ × Option E)
  h_del key fields = r.client.int (Command.h_del (expand_key r.prefix key) fields)

  unfoldable pub h_len : Text → Action S (ℤ × Option E)
  h_len key = r.client.int (Command.h_len (expand_key r.prefix key))

  unfoldable pub h_keys : Text → Action S (List Text × Option E)
  h_keys key = r.client.texts (Command.h_keys (expand_key r.prefix key))

  unfoldable pub h_values : Text → Action S (List Text × Option E)
  h_values key = giving (value_or []) (r.client.texts (Command.h_vals (expand_key r.prefix key)))

  unfoldable pub h_exists : Text → Text → Action S (Bool × Option E)
  h_exists key field = r.client.bool (Command.h_exists (expand_key r.prefix key) field)
