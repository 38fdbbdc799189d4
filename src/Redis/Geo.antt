-- ===== src/Redis/Geo.antt =====
-- libs/redis/redis_geo.go: places, and the distance of two by way of a key of its own. The text
-- of uuid.New is an argument.
pub mod Cleanup
use top_lib.Prelude.{String, Option, none, some, List, [], ◌∷◌, ◌++◌, map}
use top_lib.Prelude.Int.{ℤ, pos}
use top_lib.Prelude.Split.{Text, colon}
use top_lib.Errors.Effect.{giving, Action, pure, ◌>>=◌, deferring}
use top_lib.Redis.Keys.{expand_key}
use top_lib.Redis.Driver.{Client, Command, GeoLocation, View, value_or}

pub record Location (F : Type 0) : Type 0 where
  pub longitude : F
  pub latitude : F

abbrev pub location1 : Text
location1 = 108 ∷ 111 ∷ 99 ∷ 97 ∷ 116 ∷ 105 ∷ 111 ∷ 110 ∷ 49 ∷ []

abbrev pub location2 : Text
location2 = 108 ∷ 111 ∷ 99 ∷ 97 ∷ 116 ∷ 105 ∷ 111 ∷ 110 ∷ 50 ∷ []

abbrev pub km : Text
km = 107 ∷ 109 ∷ []

abbrev pub named : {F : Type 0} → Text → Location F → GeoLocation F
named name location = record {
  name = name;
  longitude = location.longitude;
  latitude = location.latitude;
}

-- `if err != nil { return 0, err }` before the rest.
abbrev pub unless_failed :
    {A F S E : Type 0} → F → A × Option E → Action S (F × Option E) → Action S (F × Option E)
unless_failed zero_dist (a, none) rest = rest
unless_failed zero_dist (a, some e) rest = pure (zero_dist, some e)

module _ {F S E : Type 0} (r : View F S E) where
  -- Del of redis_view.go
  unfoldable pub del : List Text → Action S (ℤ × Option E)
  del keys = r.client.int (Command.del (map (expand_key r.prefix) keys))

  unfoldable pub geo_add : Text → List (GeoLocation F) → Action S (ℤ × Option E)
  geo_add key locations =
      giving (value_or (pos 0)) (r.client.int (Command.geo_add (expand_key r.prefix key) locations))

  unfoldable pub geo_dist : (zero_dist : F) → Text → Text → Text → Text → Action S (F × Option E)
  geo_dist zero_dist key member1 member2 unit =
      giving (value_or zero_dist)
        (r.client.float (Command.geo_dist (expand_key r.prefix key) member1 member2 unit))

  unfoldable pub geo_hash : Text → List Text → Action S (List Text × Option E)
  geo_hash key members =
      giving (value_or []) (r.client.texts (Command.geo_hash (expand_key r.prefix key) members))

  unfoldable pub measure :
      (zero_dist : F) → Text → Location F → Location F → Action S (F × Option E)
  measure zero_dist temp l1 l2 = geo_add temp (named location1 l1 ∷ []) >>= λ added.
      unless_failed zero_dist added (
        geo_add temp (named location2 l2 ∷ []) >>= λ added'.
        unless_failed zero_dist added' (geo_dist zero_dist temp location1 location2 km))

  -- The deferred Del, whose result is dropped.
  unfoldable pub clear : Text → Action S (Unit {0})
  clear temp = giving (λ _. tt) (del (temp ∷ []))

  unfoldable pub geo_calculate_distance :
      (zero_dist : F) (uuid : Text) → Text → Location F → Location F → Action S (F × Option E)
  geo_calculate_distance zero_dist uuid key l1 l2 =
      let temp = key ++ (colon ∷ uuid) in deferring (clear temp) (measure zero_dist temp l1 l2)
