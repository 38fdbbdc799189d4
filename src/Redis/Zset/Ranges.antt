-- ===== src/Redis/Zset/Ranges.antt =====
-- What ZRange, ZRangeByScore and ZRangeByLex give (libs/redis/redis_zset.go).
use top_lib.Prelude.{
  suc, ltb, ◌≡◌, refl, ap, Bool, true, false, Option, none, some, List, [], ◌∷◌, map, length, arith,
}
use mathlib.Core.List.{append-nil}
use top_lib.Prelude.Split.{Text}
use top_lib.Redis.Keys.{expand_key}
use top_lib.Redis.Zset.{
  ZMember, Z, Got, got, of_text, RangeCmds, of_slice, to_range_z_members, z_range, z_range_by_lex,
}

module _ {F E : Type 0} (no_score : F) where
  -- The members of a reply without scores, with no score, or its error.
  abbrev pub plain : List Text × Option E → Got (List (ZMember F)) E
  plain (ms, some e) = got [] (some e)
  plain (ms, none) = got (map (of_text no_score) ms) none

  -- No members, and the error if there is one.
  abbrev pub nothing : Option E → Got (List (ZMember F)) E
  nothing err = got [] err

  to_range-plain :
      (ms : List Text) (err : Option E) → to_range_z_members no_score err ms [] ≡ plain (ms, err)
  unfolding to_range_z_members of_slice
  to_range-plain ms (some e) = refl
  to_range-plain [] none = refl
  to_range-plain (m ∷ ms) none =
      let zs : List (ZMember F) = map (of_text no_score) (m ∷ ms) in
      let filled : ltb 0 (suc (length ms)) ≡ true = ground arith in
      rw filled (ap (λ (xs : List (ZMember F)). got xs none) (append-nil zs))

  to_range-empty :
      (slice : List (Z F)) (err : Option E) → to_range_z_members no_score err [] slice ≡ nothing err
  unfolding to_range_z_members
  to_range-empty slice (some e) = refl
  to_range-empty slice none = refl

  -- A range without scores gives the members of the command for its direction, each with no score,
  -- or that command's error. A range in order with scores gives no members at all, whatever the
  -- server has. One in reverse with scores sets its members from the reverse command and its
  -- scores from the command in order, after the error of neither reverse command.
  pub z_range-cases :
      {R : Type 0}
      → (cmd : RangeCmds F E R) → (prefix key : Text) → (r : R)
      → let full = expand_key prefix key in
        (z_range no_score cmd prefix key r false false ≡ plain (cmd.forward full r))
        × (z_range no_score cmd prefix key r true false ≡ plain (cmd.backward full r))
        × (z_range no_score cmd prefix key r false true ≡ nothing (cmd.forward_scores full r).1)
        × (z_range no_score cmd prefix key r true true
            ≡ to_range_z_members no_score
                (cmd.forward_scores full r).1
                (cmd.backward full r).0
                (cmd.forward_scores full r).0)
  unfolding z_range
  z_range-cases cmd prefix key r =
      let full = expand_key prefix key in
      (
        to_range-plain (cmd.forward full r).0 (cmd.forward full r).1,
        to_range-plain (cmd.backward full r).0 (cmd.backward full r).1,
        to_range-empty (cmd.forward_scores full r).0 (cmd.forward_scores full r).1,
        refl,
      )

  -- ZRangeByLex gives what the command in order gives for the key without its prefix, and the same
  -- in reverse.
  pub z_range_by_lex-ignores :
      {R : Type 0}
      → (by_lex rev_by_lex : Text → R → List Text × Option E) → (key : Text) → (r : R)
      → (reverse : Bool)
      → z_range_by_lex no_score by_lex rev_by_lex key r reverse ≡ plain (by_lex key r)
  unfolding z_range_by_lex
  z_range_by_lex-ignores by_lex rev_by_lex key r true =
      to_range-plain (by_lex key r).0 (by_lex key r).1
  z_range_by_lex-ignores by_lex rev_by_lex key r false =
      to_range-plain (by_lex key r).0 (by_lex key r).1
