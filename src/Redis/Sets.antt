-- ===== src/Redis/Sets.antt =====
-- libs/redis/redis_set.go: sets.
use top_lib.Prelude.{Option, List, [], map}
use top_lib.Prelude.Int.{ℤ}
use top_lib.Prelude.Split.{Text}
use top_lib.Errors.Effect.{giving, Action}
use top_lib.Redis.Keys.{expand_key}
use top_lib.Redis.Driver.{Command, View, value_or}

module _ {F S E : Type 0} (r : View F S E) where
  abbrev expanded : List Text → List Text
  expanded keys = map (expand_key r.prefix) keys

  unfoldable pub s_len : Text → Action S (ℤ × Option E)
  s_len key = r.client.int (Command.s_card (expand_key r.prefix key))

  unfoldable pub s_add : Text → List Text → Action S (ℤ × Option E)
  s_add key values = r.client.int (Command.s_add (expand_key r.prefix key) values)

  unfoldable pub s_rem : Text → List Text → Action S (ℤ × Option E)
  s_rem key values = r.client.int (Command.s_rem (expand_key r.prefix key) values)

  unfoldable pub s_pop : Text → Action S (Text × Option E)
  s_pop key = giving (value_or []) (r.client.text (Command.s_pop (expand_key r.prefix key)))

  unfoldable pub s_pop_n : Text → ℤ → Action S (List Text × Option E)
  s_pop_n key count =
      giving (value_or []) (r.client.texts (Command.s_pop_n (expand_key r.prefix key) count))

  unfoldable pub s_diff : List Text → Action S (List Text × Option E)
  s_diff keys = giving (value_or []) (r.client.texts (Command.s_diff (expanded keys)))

  -- The destinations of the merges are sent as they are.
  unfoldable pub s_diff_merge : Text → List Text → Action S (ℤ × Option E)
  s_diff_merge destination keys = r.client.int (Command.s_diff_store destination (expanded keys))

  unfoldable pub s_inter : List Text → Action S (List Text × Option E)
  s_inter keys = giving (value_or []) (r.client.texts (Command.s_inter (expanded keys)))

  unfoldable pub s_inter_merge : Text → List Text → Action S (ℤ × Option E)
  s_inter_merge destination keys = r.client.int (Command.s_inter_store destination (expanded keys))

  unfoldable pub s_union : List Text → Action S (List Text × Option E)
  s_union keys = giving (value_or []) (r.client.texts (Command.s_union (expanded keys)))

  unfoldable pub s_union_merge : Text → List Text → Action S (ℤ × Option E)
  s_union_merge destination keys = r.client.int (Command.s_union_store destination (expanded keys))
