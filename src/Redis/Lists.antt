-- ===== src/Redis/Lists.antt =====
-- libs/redis/redis_list.go: lists.
use top_lib.Prelude.{Option, List, [], ◌∷◌}
use top_lib.Prelude.Int.{ℤ}
use top_lib.Prelude.Split.{Text}
use top_lib.Errors.Effect.{giving, Action}
use top_lib.Redis.Keys.{expand_key}
use top_lib.Redis.View.{WrapError, wrap_result}
use top_lib.Redis.Driver.{Command, View, value_or}

-- InsertOP
pub data InsertOp : Type 0 where
  before : InsertOp
  after : InsertOp

-- string(op): the text of the one character with the number of the constant.
abbrev pub op_text : InsertOp → Text
op_text before = 0 ∷ []
op_text after = 1 ∷ []

module _ {F S E : Type 0} (r : View F S E) where
  unfoldable pub l_rem : Text → ℤ → Text → Action S (ℤ × Option E)
  l_rem key count value = r.client.int (Command.l_rem (expand_key r.prefix key) count value)

  unfoldable pub l_index : Text → ℤ → Action S (Text × Option E)
  l_index key index =
      giving (value_or []) (r.client.text (Command.l_index (expand_key r.prefix key) index))

  unfoldable pub l_trim : Text → ℤ → ℤ → Action S (Option (WrapError E))
  l_trim key start stop =
      giving wrap_result (r.client.any (Command.l_trim (expand_key r.prefix key) start stop))

  unfoldable pub l_set : Text → ℤ → Text → Action S (Option (WrapError E))
  l_set key index value =
      giving wrap_result (r.client.any (Command.l_set (expand_key r.prefix key) index value))

  unfoldable pub l_push : Text → List Text → Action S (ℤ × Option E)
  l_push key values = r.client.int (Command.l_push (expand_key r.prefix key) values)

  unfoldable pub l_append : Text → List Text → Action S (ℤ × Option E)
  l_append key values = r.client.int (Command.r_push (expand_key r.prefix key) values)

  unfoldable pub l_pop : Text → Action S (Text × Option E)
  l_pop key = giving (value_or []) (r.client.text (Command.l_pop (expand_key r.prefix key)))

  unfoldable pub lr_pop : Text → Action S (Text × Option E)
  lr_pop key = giving (value_or []) (r.client.text (Command.r_pop (expand_key r.prefix key)))

  unfoldable pub l_range : Text → ℤ → ℤ → Action S (List Text × Option E)
  l_range key start stop =
      giving (value_or []) (r.client.texts (Command.l_range (expand_key r.prefix key) start stop))

  unfoldable pub l_len : Text → Action S (ℤ × Option E)
  l_len key = r.client.int (Command.l_len (expand_key r.prefix key))

  unfoldable pub l_insert : Text → InsertOp → Text → Text → Action S (ℤ × Option E)
  l_insert key op pivot value =
      r.client.int (Command.l_insert (expand_key r.prefix key) (op_text op) pivot value)
