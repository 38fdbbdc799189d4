-- ===== src/Redis/Geo/Cleanup.antt =====
-- What the distance of two places leaves on the server (libs/redis/redis_geo.go).
use top_lib.Prelude.{Option, none, some, List, [], ◌∷◌, ◌++◌, ◌≡◌, ◌≢◌, refl, ap, ◌∙◌}
use top_lib.Prelude.Int.{ℤ, pos}
use top_lib.Prelude.Split.{Text, colon}
use top_lib.Errors.Effect.{Action, Exit, returns, panics, continue, ◌>>=◌, after_defer, deferring}
use top_lib.Redis.Keys.{expand_key}
use top_lib.Redis.View.Isolation.{after_pure}
use top_lib.Redis.Driver.{Command, GeoLocation, View, value_or}
use top_lib.Redis.Geo.{
  Location, geo_add, geo_dist, measure, clear, del, named, location1, location2, km, unless_failed,
  geo_calculate_distance,
}
use top_lib.Redis.Requests.Isolation.{Leaves, IsLocal, giving-Leaves}

module _ {S V : Type 0} (at : S → Text → V) where
  bind-Leaves :
      (j : Text) {A B : Type 0} (m : Action S A) (f : A → Action S B)
      → Leaves at j m
      → ((a : A) → Leaves at j (f a))
      → Leaves at j (m >>= f)
  bind-Leaves j {A} {B} m f hm hf s = let (e, s') = m s in of_exit e s' ∙ hm s
    where
      of_exit : (e : Exit A) (s' : S) → at (continue e f s').1 j ≡ at s' j
      of_exit (returns a) s' = hf a s'
      of_exit (panics v) s' = refl

  unless_failed-Leaves :
      {A E F : Type 0} (j : Text) (zero_dist : F) (got : A × Option E)
      (rest : Action S (F × Option E))
      → Leaves at j rest
      → Leaves at j (unless_failed zero_dist got rest)
  unless_failed-Leaves j zero_dist (a, none) rest h = h
  unless_failed-Leaves j zero_dist (a, some e) rest h = λ s. refl

  -- The deferred call is the last to change the state.
  after_deferring :
      {A : Type 0} (d : Action S (Unit {0})) (m : Action S A) (s : S)
      → (deferring d m s).1 ≡ (d (m s).1).1
  after_deferring {A} d m s = of_result (m s).0 (d (m s).1)
    where
      of_result : (r : Exit A) (out : Exit (Unit {0}) × S) → (after_defer r out).1 ≡ out.1
      of_result r (returns a, w) = refl
      of_result r (panics v, w) = refl

module _ {F S E V : Type 0} (at : S → Text → V) (r : View F S E) (local : IsLocal at r.client)
    (j : Text) where
  geo_add-Leaves :
      (key : Text) (locations : List (GeoLocation F))
      → expand_key r.prefix key ≢ j
      → Leaves at j (geo_add r key locations)
  unfolding geo_add
  geo_add-Leaves key locations apart =
      let c = Command.geo_add (expand_key r.prefix key) locations in
      giving-Leaves at j (value_or (pos 0)) (r.client.int c) (local.int_local c j (apart, tt))

  geo_dist-Leaves :
      (zero_dist : F) (key m1 m2 unit : Text) → Leaves at j (geo_dist r zero_dist key m1 m2 unit)
  unfolding geo_dist
  geo_dist-Leaves zero_dist key m1 m2 unit =
      let c = Command.geo_dist (expand_key r.prefix key) m1 m2 unit in
      giving-Leaves at j (value_or zero_dist) (r.client.float c) (local.float_local c j tt)

  measure-Leaves :
      (zero_dist : F) (temp : Text) (l1 l2 : Location F)
      → expand_key r.prefix temp ≢ j
      → Leaves at j (measure r zero_dist temp l1 l2)
  unfolding measure
  measure-Leaves zero_dist temp l1 l2 apart =
      bind-Leaves at j (geo_add r temp (named location1 l1 ∷ [])) _
        (geo_add-Leaves temp (named location1 l1 ∷ []) apart)
        (λ added. unless_failed-Leaves at j zero_dist added _ (
          bind-Leaves at j (geo_add r temp (named location2 l2 ∷ [])) _
            (geo_add-Leaves temp (named location2 l2 ∷ []) apart)
            (λ added'.
              unless_failed-Leaves at j zero_dist added' _
                (geo_dist-Leaves zero_dist temp location1 location2 km))))

  clear-Leaves : (temp : Text) → expand_key r.prefix temp ≢ j → Leaves at j (clear r temp)
  unfolding clear del
  clear-Leaves temp apart =
      let c = Command.del (expand_key r.prefix temp ∷ []) in
      giving-Leaves at j (λ _. tt) (r.client.int c) (local.int_local c j (apart, tt))

  -- Where the library's commands are local and a Del of one key that gives no error leaves that key
  -- empty: GeoCalculateDistance leaves every key but its temporary one as it was, errors and panics
  -- of each call included, and the last of its commands is the Del of its temporary key, which is
  -- empty afterwards where that Del gives no error. The error of that Del is dropped, and the key
  -- may then still be there.
  pub geo_calculate_distance-clears :
      (zero_dist : F) (uuid key : Text) (l1 l2 : Location F) (s : S) (empty : V)
      → ((k : Text) (s' s'' : S) (n : ℤ)
          → r.client.int (Command.del (k ∷ [])) s' ≡ (returns (n, none), s'')
          → at s'' k ≡ empty)
      → expand_key r.prefix (key ++ (colon ∷ uuid)) ≢ j
      → let full = expand_key r.prefix (key ++ (colon ∷ uuid)) in
        let after = (geo_calculate_distance r zero_dist uuid key l1 l2 s).1 in
        let measured = (measure r zero_dist (key ++ (colon ∷ uuid)) l1 l2 s).1 in
        (at after j ≡ at s j)
        × (after ≡ (r.client.int (Command.del (full ∷ [])) measured).1)
        × ((n : ℤ)
            → (r.client.int (Command.del (full ∷ [])) measured).0 ≡ returns (n, none)
            → at after full ≡ empty)
  unfolding geo_calculate_distance clear del
  geo_calculate_distance-clears zero_dist uuid key l1 l2 s empty removes apart =
      let temp = key ++ (colon ∷ uuid) in
      let full = expand_key r.prefix temp in
      let measured = measure r zero_dist temp l1 l2 in
      let ends : (deferring (clear r temp) measured s).1 ≡ (clear r temp (measured s).1).1 =
        after_deferring at (clear r temp) measured s in
      let cleared : (clear r temp (measured s).1).1
          ≡ (r.client.int (Command.del (full ∷ [])) (measured s).1).1 =
        after_pure (r.client.int (Command.del (full ∷ []))) (λ _. tt) (measured s).1 in
      let deleted = r.client.int (Command.del (full ∷ [])) (measured s).1 in
      (
        ap (λ s'. at s' j) ends
            ∙ clear-Leaves temp apart (measured s).1
            ∙ measure-Leaves zero_dist temp l1 l2 apart s,
        ends ∙ cleared,
        λ n ok.
            ap (λ s'. at s' full) (ends ∙ cleared)
            ∙ removes full (measured s).1 deleted.1 n (ap (λ e. (e, deleted.1)) ok),
      )
