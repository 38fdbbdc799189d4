-- ===== src/Redis/Zset.antt =====
-- libs/redis/redis_zset.go: sorted sets, and the conversions of redis_internal.go. The client
-- library's commands are what the sections take, each with its result and error.
pub mod Ranges
pub mod Members
use top_lib.Prelude.{
  ℕ, Bool, true, false, not, ◌&&◌, String, Option, none, some, List, [], ◌∷◌, ◌++◌, map, length,
  ltb, if◌then◌else◌, str_eq,
}
use top_lib.Prelude.Int.{ℤ}
use top_lib.Prelude.Split.{Text}
use top_lib.Redis.Keys.{expand_key}

-- ZMember, with scores of a type F.
pub record ZMember (F : Type 0) : Type 0 where
  pub score : F
  pub member : Text

-- redis.Z: its member is of any type; bytes and strings are told apart.
pub data ZValue : Type 0 where
  in_bytes : Text → ZValue
  in_string : Text → ZValue

pub record Z (F : Type 0) : Type 0 where
  pub z_score : F
  pub z_member : ZValue

-- What a call gives: its two results, or a panic of the type assertion m.Member.([]byte).
pub data Got (A E : Type 0) : Type 0 where
  got : A → Option E → Got A E
  not_bytes : Got A E

module _ (F E : Type 0) where
  -- The four commands behind ZRange, or behind ZRangeByScore, of the key and the range R.
  pub record RangeCmds (R : Type 0) : Type 0 where
    pub forward : Text → R → List Text × Option E
    pub backward : Text → R → List Text × Option E
    pub forward_scores : Text → R → List (Z F) × Option E
    pub backward_scores : Text → R → List (Z F) × Option E

  -- The variables members, zSlice and err.
  pub record Vars : Type 0 where
    pub members : List Text
    pub slice : List (Z F)
    pub err : Option E

module _ {F : Type 0} (no_score : F) where
  -- A member without a score: the zero value of the field.
  abbrev pub of_text : Text → ZMember F
  of_text t = record { score = no_score; member = t }

module _ {F E : Type 0} where
  abbrev cons_got : ZMember F → Got (List (ZMember F)) E → Got (List (ZMember F)) E
  cons_got z (got zs err) = got (z ∷ zs) err
  cons_got z not_bytes = not_bytes

  -- The loop over zSlice.
  unfoldable pub of_slice : List (Z F) → Got (List (ZMember F)) E
  of_slice [] = got [] none
  of_slice (z ∷ zs) = elim (z.z_member) [
    | in_bytes t ↦ cons_got (record { score = z.z_score; member = t }) (of_slice zs)
    | in_string t ↦ not_bytes
  ]

  abbrev after_members : List (ZMember F) → Got (List (ZMember F)) E → Got (List (ZMember F)) E
  after_members ms (got zs err) = got (ms ++ zs) err
  after_members ms not_bytes = not_bytes

module _ {F E : Type 0} (no_score : F) where
  unfoldable pub to_range_z_members : Option E → List Text → List (Z F) → Got (List (ZMember F)) E
  to_range_z_members (some err) members slice = got [] (some err)
  to_range_z_members none members slice =
      if ltb 0 (length members)
      then after_members (map (of_text no_score) members) (of_slice slice)
      else got [] none

  abbrev set_members : List Text × Option E → Vars F E → Vars F E
  set_members (ms, e) v = record v { members = ms; err = e }

  abbrev set_slice : List (Z F) × Option E → Vars F E → Vars F E
  set_slice (zs, e) v = record v { slice = zs; err = e }

  module _ {R : Type 0} (cmd : RangeCmds F E R) (prefix : Text) where
    -- ZRange and ZRangeByScore: four tests, one after the other.
    unfoldable pub z_range : Text → R → Bool → Bool → Got (List (ZMember F)) E
    z_range key r reverse with_scores =
        let full = expand_key prefix key in
        let v₀ : Vars F E = record { members = []; slice = []; err = none } in
        let v₁ : Vars F E =
          if not reverse && not with_scores then set_members (cmd.forward full r) v₀ else v₀ in
        let v₂ : Vars F E =
          if reverse && with_scores then set_slice (cmd.backward_scores full r) v₁ else v₁ in
        let v₃ : Vars F E = if reverse then set_members (cmd.backward full r) v₂ else v₂ in
        let v₄ : Vars F E = if with_scores then set_slice (cmd.forward_scores full r) v₃ else v₃ in
        to_range_z_members v₄.err v₄.members v₄.slice

  module _ {R : Type 0} (by_lex rev_by_lex : Text → R → List Text × Option E) where
    -- ZRangeByLex takes the key as it is.
    unfoldable pub z_range_by_lex : Text → R → Bool → Got (List (ZMember F)) E
    z_range_by_lex key r reverse =
        let v₀ : Vars F E = record { members = []; slice = []; err = none } in
        let v₁ : Vars F E = if reverse then set_members (rev_by_lex key r) v₀ else v₀ in
        let v₂ : Vars F E = set_members (by_lex key r) v₁ in to_range_z_members v₂.err v₂.members []
