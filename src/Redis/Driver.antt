-- ===== src/Redis/Driver.antt =====
-- The commands of the client library that libs/redis sends, each with its arguments, and what they
-- answer. Scores and coordinates are of a type F.
use top_lib.Prelude.{Bool, Option, none, some, List, [], ◌∷◌}
use top_lib.Prelude.Int.{ℤ}
use top_lib.Prelude.Split.{Text}
use top_lib.Errors.Effect.{Action}
use top_lib.Redis.View.{Result}

-- redis.Z as the library sends it, and redis.GeoLocation.
pub record Scored (F : Type 0) : Type 0 where
  pub score : F
  pub member : Text

pub record GeoLocation (F : Type 0) : Type 0 where
  pub name : Text
  pub longitude : F
  pub latitude : F

pub data Command (F : Type 0) : Type 0 where
  del : (keys : List Text) → Command F
  set_nx : (key value : Text) → (timeout : ℤ) → Command F
  set : (key value : Text) → (timeout : ℤ) → Command F
  expire : (key : Text) → (timeout : ℤ) → Command F
  x_add : (stream : Text) → (values : List (Text × Text)) → Command F
  h_set_nx : (key field value : Text) → Command F
  h_set : (key field value : Text) → Command F
  hm_set : (key : Text) → (values : List (Text × Text)) → Command F
  h_get : (key field : Text) → Command F
  hm_get : (key : Text) → (fields : List Text) → Command F
  h_get_all : (key : Text) → Command F
  h_del : (key : Text) → (fields : List Text) → Command F
  h_len : (key : Text) → Command F
  h_keys : (key : Text) → Command F
  h_vals : (key : Text) → Command F
  h_exists : (key field : Text) → Command F
  s_card : (key : Text) → Command F
  s_add : (key : Text) → (members : List Text) → Command F
  s_rem : (key : Text) → (members : List Text) → Command F
  s_pop : (key : Text) → Command F
  s_pop_n : (key : Text) → (count : ℤ) → Command F
  s_diff : (keys : List Text) → Command F
  s_diff_store : (destination : Text) → (keys : List Text) → Command F
  s_inter : (keys : List Text) → Command F
  s_inter_store : (destination : Text) → (keys : List Text) → Command F
  s_union : (keys : List Text) → Command F
  s_union_store : (destination : Text) → (keys : List Text) → Command F
  l_rem : (key : Text) → (count : ℤ) → (value : Text) → Command F
  l_index : (key : Text) → (index : ℤ) → Command F
  l_trim : (key : Text) → (start stop : ℤ) → Command F
  l_set : (key : Text) → (index : ℤ) → (value : Text) → Command F
  l_push : (key : Text) → (values : List Text) → Command F
  r_push : (key : Text) → (values : List Text) → Command F
  l_pop : (key : Text) → Command F
  r_pop : (key : Text) → Command F
  l_range : (key : Text) → (start stop : ℤ) → Command F
  l_len : (key : Text) → Command F
  l_insert : (key op pivot value : Text) → Command F
  z_card : (key : Text) → Command F
  z_count : (key min max : Text) → Command F
  z_add : (key : Text) → (members : List (Scored F)) → Command F
  z_rem : (key : Text) → (members : List Text) → Command F
  z_rem_range_by_lex : (key min max : Text) → Command F
  z_rem_range_by_score : (key min max : Text) → Command F
  z_rem_range_by_rank : (key : Text) → (start stop : ℤ) → Command F
  z_rank : (key member : Text) → Command F
  z_rev_rank : (key member : Text) → Command F
  z_incr_by : (key : Text) → (score : F) → (member : Text) → Command F
  z_add_args_incr : (key : Text) → (nx : Bool) → (members : List (Scored F)) → Command F
  z_inter_store :
      (destination : Text)
      → (keys : List Text) → (weights : List F) → (aggregate : Text) → Command F
  z_union_store :
      (destination : Text)
      → (keys : List Text) → (weights : List F) → (aggregate : Text) → Command F
  geo_add : (key : Text) → (locations : List (GeoLocation F)) → Command F
  geo_dist : (key member1 member2 unit : Text) → Command F
  geo_hash : (key : Text) → (members : List Text) → Command F
  geo_pos : (key : Text) → (members : List Text) → Command F

-- The keys that a command may change: the destination of a merge, and none for a command that reads.
abbrev pub writes_of : {F : Type 0} → Command F → List Text
writes_of (del keys) = keys
writes_of (set_nx key value timeout) = key ∷ []
writes_of (set key value timeout) = key ∷ []
writes_of (expire key timeout) = key ∷ []
writes_of (x_add stream values) = stream ∷ []
writes_of (s_diff_store destination keys) = destination ∷ []
writes_of (s_inter_store destination keys) = destination ∷ []
writes_of (s_union_store destination keys) = destination ∷ []
writes_of (z_inter_store destination keys weights aggregate) = destination ∷ []
writes_of (z_union_store destination keys weights aggregate) = destination ∷ []
writes_of (h_set_nx key field value) = key ∷ []
writes_of (h_set key field value) = key ∷ []
writes_of (hm_set key values) = key ∷ []
writes_of (h_del key fields) = key ∷ []
writes_of (s_add key members) = key ∷ []
writes_of (s_rem key members) = key ∷ []
writes_of (s_pop key) = key ∷ []
writes_of (s_pop_n key count) = key ∷ []
writes_of (l_rem key count value) = key ∷ []
writes_of (l_trim key start stop) = key ∷ []
writes_of (l_set key index value) = key ∷ []
writes_of (l_push key values) = key ∷ []
writes_of (r_push key values) = key ∷ []
writes_of (l_pop key) = key ∷ []
writes_of (r_pop key) = key ∷ []
writes_of (l_insert key op pivot value) = key ∷ []
writes_of (z_add key members) = key ∷ []
writes_of (z_rem key members) = key ∷ []
writes_of (z_rem_range_by_lex key min max) = key ∷ []
writes_of (z_rem_range_by_score key min max) = key ∷ []
writes_of (z_rem_range_by_rank key start stop) = key ∷ []
writes_of (z_incr_by key score member) = key ∷ []
writes_of (z_add_args_incr key nx members) = key ∷ []
writes_of (geo_add key locations) = key ∷ []
writes_of _ = []

-- A value of an interface{} that the library gives: nil, a string, or bytes.
pub data Value : Type 0 where
  nil : Value
  in_string : Text → Value
  in_bytes : Text → Value

-- Result() of a command, by its type: each call answers a value and an error, on the state S.
pub record Client (F S E : Type 0) : Type 0 where
  pub int : Command F → Action S (ℤ × Option E)
  pub bool : Command F → Action S (Bool × Option E)
  pub text : Command F → Action S (Text × Option E)
  pub texts : Command F → Action S (List Text × Option E)
  pub values : Command F → Action S (List Value × Option E)
  pub pairs : Command F → Action S (List (Text × Text) × Option E)
  pub float : Command F → Action S (F × Option E)
  -- The commands that wrapResult looks at.
  pub any : Command F → Action S (Result × Option E)

pub record View (F S E : Type 0) : Type 0 where
  pub prefix : Text
  pub client : Client F S E

-- The value, or the zero value with an error.
abbrev pub value_or : {A E : Type 0} → A → A × Option E → A × Option E
value_or zero_value (value, none) = (value, none)
value_or zero_value (value, some e) = (zero_value, some e)
