-- ===== src/Redis/Requests.antt =====
-- A client of a view: the calls of RedisCli that change keys of the server by a command of their
-- own, in the order it makes them. GeoCalculateDistance is made of GeoAdd, GeoDist and Del.
pub mod Isolation
pub mod Merges
use top_lib.Prelude.{Option, none, some, List, [], ◌∷◌, ◌⊎◌}
use top_lib.Prelude.Int.{ℤ}
use top_lib.Prelude.Split.{Text}
use top_lib.Errors.Effect.{giving, Action, pure, ◌>>◌}
use top_lib.Redis.Driver.{GeoLocation, View}
use top_lib.Redis.Hash
use top_lib.Redis.Strings
use top_lib.Redis.Sets
use top_lib.Redis.Lists
use top_lib.Redis.Lists.{InsertOp}
use top_lib.Redis.Zset.{ZMember}
use top_lib.Redis.Zset.Members
use top_lib.Redis.Geo

pub data Request (F : Type 0) : Type 0 where
  h_set_nx : (key field value : Text) → Request F
  h_set : (key field value : Text) → Request F
  hm_set : (key : Text) → (values : Option (List (Text × Text))) → Request F
  h_del : (key : Text) → (fields : List Text) → Request F
  s_add : (key : Text) → (values : List Text) → Request F
  s_rem : (key : Text) → (values : List Text) → Request F
  s_pop : (key : Text) → Request F
  s_pop_n : (key : Text) → (count : ℤ) → Request F
  s_diff_merge : (destination : Text) → (keys : List Text) → Request F
  s_inter_merge : (destination : Text) → (keys : List Text) → Request F
  s_union_merge : (destination : Text) → (keys : List Text) → Request F
  l_rem : (key : Text) → (count : ℤ) → (value : Text) → Request F
  l_trim : (key : Text) → (start stop : ℤ) → Request F
  l_set : (key : Text) → (index : ℤ) → (value : Text) → Request F
  l_push : (key : Text) → (values : List Text) → Request F
  l_append : (key : Text) → (values : List Text) → Request F
  l_pop : (key : Text) → Request F
  lr_pop : (key : Text) → Request F
  l_insert : (key : Text) → (op : InsertOp) → (pivot value : Text) → Request F
  z_add : (key : Text) → (members : List (ZMember F)) → Request F
  z_rem : (key : Text) → (members : List (ZMember F)) → Request F
  z_rem_range_by_lex : (key min max : Text) → Request F
  z_rem_range_by_score : (key : Text) → (min max : F) → Request F
  z_rem_range_by_rank : (key : Text) → (start stop : ℤ) → Request F
  z_incr : (key : Text) → (member : ZMember F) → Request F
  z_incr_nx : (key : Text) → (member : ZMember F) → Request F
  z_inter_merge :
      (destination : Text)
      → (keys : List Text) → (weights : List F) → (aggregate : Text) → Request F
  z_union_merge :
      (destination : Text)
      → (keys : List Text) → (weights : List F) → (aggregate : Text) → Request F
  geo_add : (key : Text) → (locations : List (GeoLocation F)) → Request F
  del : (keys : List Text) → Request F
  set_nx : (key value duration : Text) → Request F
  set : (key value duration : Text) → Request F
  expire : (key duration : Text) → Request F
  x_add : (stream : Text) → (values : List (Text × Text)) → Request F

module _ {F S E : Type 0} (format : F → Text) (parse_duration : Text → E ⊎ ℤ) (r : View F S E) where
  abbrev dropped : {A : Type 0} → Action S A → Action S (Unit {0})
  dropped call = giving (λ _. tt) call

  unfoldable pub perform : Request F → Action S (Unit {0})
  perform (h_set_nx key field value) = dropped (Hash.h_set_nx r key field value)
  perform (h_set key field value) = dropped (Hash.h_set r key field value)
  perform (hm_set key values) = dropped (Hash.hm_set r key values)
  perform (h_del key fields) = dropped (Hash.h_del r key fields)
  perform (s_add key values) = dropped (Sets.s_add r key values)
  perform (s_rem key values) = dropped (Sets.s_rem r key values)
  perform (s_pop key) = dropped (Sets.s_pop r key)
  perform (s_pop_n key count) = dropped (Sets.s_pop_n r key count)
  perform (s_diff_merge destination keys) = dropped (Sets.s_diff_merge r destination keys)
  perform (s_inter_merge destination keys) = dropped (Sets.s_inter_merge r destination keys)
  perform (s_union_merge destination keys) = dropped (Sets.s_union_merge r destination keys)
  perform (l_rem key count value) = dropped (Lists.l_rem r key count value)
  perform (l_trim key start stop) = dropped (Lists.l_trim r key start stop)
  perform (l_set key index value) = dropped (Lists.l_set r key index value)
  perform (l_push key values) = dropped (Lists.l_push r key values)
  perform (l_append key values) = dropped (Lists.l_append r key values)
  perform (l_pop key) = dropped (Lists.l_pop r key)
  perform (lr_pop key) = dropped (Lists.lr_pop r key)
  perform (l_insert key op pivot value) = dropped (Lists.l_insert r key op pivot value)
  perform (z_add key members) = dropped (Members.z_add r key members)
  perform (z_rem key members) = dropped (Members.z_rem r key members)
  perform (z_rem_range_by_lex key min max) = dropped (Members.z_rem_range_by_lex r key min max)
  perform (z_rem_range_by_score key min max) =
      dropped (Members.z_rem_range_by_score r format key min max)
  perform (z_rem_range_by_rank key start stop) =
      dropped (Members.z_rem_range_by_rank r key start stop)
  perform (z_incr key member) = dropped (Members.z_incr r key member)
  perform (z_incr_nx key member) = dropped (Members.z_incr_nx r key member)
  perform (z_inter_merge destination keys weights aggregate) =
      dropped (Members.z_inter_merge r destination keys weights aggregate)
  perform (z_union_merge destination keys weights aggregate) =
      dropped (Members.z_union_merge r destination keys weights aggregate)
  perform (geo_add key locations) = dropped (Geo.geo_add r key locations)
  perform (del keys) = dropped (Geo.del r keys)
  perform (set_nx key value duration) = dropped (Strings.set_nx parse_duration r key value duration)
  perform (set key value duration) = dropped (Strings.set parse_duration r key value duration)
  perform (expire key duration) = dropped (Strings.expire parse_duration r key duration)
  perform (x_add stream values) = dropped (Strings.x_add parse_duration r stream values)

  unfoldable pub run : List (Request F) → Action S (Unit {0})
  run [] = pure tt
  run (request ∷ requests) = perform request >> run requests
