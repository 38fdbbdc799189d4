-- ===== src/Redis/Zset/Members.antt =====
-- libs/redis/redis_zset.go: the members of sorted sets. fmt.Sprintf of "%f" is an argument, since
-- scores are of a type of their own.
use top_lib.Prelude.{Bool, true, Option, some, List, [], ◌∷◌, map, if◌then◌else◌}
use top_lib.Prelude.Int.{ℤ, pos}
use top_lib.Prelude.Split.{Text}
use top_lib.Errors.Effect.{Action, pure}
use top_lib.Redis.Keys.{expand_key}
use top_lib.Redis.Driver.{Command, Scored, View}
use top_lib.Redis.Zset.{ZMember}

-- What ZLexCount gives: its own error.
pub data LexError : Type 0 where
  not_implemented : LexError

module _ {F : Type 0} where
  abbrev pub scored : ZMember F → Scored F
  scored member = record { score = member.score; member = member.member }

  abbrev pub text_of : ZMember F → Text
  text_of member = member.member

module _ {F S E : Type 0} (r : View F S E) where
  unfoldable pub z_len : Text → Action S (ℤ × Option E)
  z_len key = r.client.int (Command.z_card (expand_key r.prefix key))

  unfoldable pub z_count : (format : F → Text) → Text → F → F → Action S (ℤ × Option E)
  z_count format key min max =
      r.client.int (Command.z_count (expand_key r.prefix key) (format min) (format max))

  unfoldable pub z_lex_count : Text → Text → Text → Action S (ℤ × Option LexError)
  z_lex_count key min max = pure (pos 0, some not_implemented)

  unfoldable pub z_add : Text → List (ZMember F) → Action S (ℤ × Option E)
  z_add key members = r.client.int (Command.z_add (expand_key r.prefix key) (map scored members))

  unfoldable pub z_rem : Text → List (ZMember F) → Action S (ℤ × Option E)
  z_rem key members = r.client.int (Command.z_rem (expand_key r.prefix key) (map text_of members))

  unfoldable pub z_rem_range_by_lex : Text → Text → Text → Action S (ℤ × Option E)
  z_rem_range_by_lex key min max =
      r.client.int (Command.z_rem_range_by_lex (expand_key r.prefix key) min max)

  unfoldable pub z_rem_range_by_score : (format : F → Text) → Text → F → F → Action S (ℤ × Option E)
  z_rem_range_by_score format key min max =
      r.client.int
        (Command.z_rem_range_by_score (expand_key r.prefix key) (format min) (format max))

  unfoldable pub z_rem_range_by_rank : Text → ℤ → ℤ → Action S (ℤ × Option E)
  z_rem_range_by_rank key start stop =
      r.client.int (Command.z_rem_range_by_rank (expand_key r.prefix key) start stop)

  unfoldable pub z_rank : Text → Text → Bool → Action S (ℤ × Option E)
  z_rank key member reverse =
      if reverse
      then r.client.int (Command.z_rev_rank (expand_key r.prefix key) member)
      else r.client.int (Command.z_rank (expand_key r.prefix key) member)

  unfoldable pub z_incr : Text → ZMember F → Action S (F × Option E)
  z_incr key member =
      r.client.float (Command.z_incr_by (expand_key r.prefix key) member.score member.member)

  -- ZIncrNX and the merges send their keys as they are.
  unfoldable pub z_incr_nx : Text → ZMember F → Action S (F × Option E)
  z_incr_nx key member = r.client.float (Command.z_add_args_incr key true (scored member ∷ []))

  unfoldable pub z_inter_merge : Text → List Text → List F → Text → Action S (ℤ × Option E)
  z_inter_merge destination keys weights aggregate =
      r.client.int (Command.z_inter_store destination keys weights aggregate)

  unfoldable pub z_union_merge : Text → List Text → List F → Text → Action S (ℤ × Option E)
  z_union_merge destination keys weights aggregate =
      r.client.int (Command.z_union_store destination keys weights aggregate)
