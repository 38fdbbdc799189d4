-- ===== src/Redis/View.antt =====
-- libs/redis/redis_view.go: the view of a server under a prefix, with wrapResult of
-- redis_internal.go.
pub mod Isolation
use top_lib.Prelude.{
  ℕ, Bool, true, false, String, Option, none, some, List, [], ◌∷◌, map, ltb, ◌⊎◌, inl, inr,
  if◌then◌else◌, str_eq,
}
use top_lib.Errors.Effect.{Action, pure, ◌>>=◌}
use top_lib.Prelude.Split.{Text}
use top_lib.Redis.Keys.{expand_key}

-- wrapResult: what the call gives, a bool, a string or any other value.
pub data Result : Type 0 where
  of_bool : Bool → Result
  of_string : String → Result
  of_other : Result

pub data WrapError (E : Type 0) : Type 0 where
  driver : E → WrapError E
  result_not_true : WrapError E
  result_not_ok : WrapError E

unfoldable pub wrap_result : {E : Type 0} → Result × Option E → Option (WrapError E)
wrap_result (r, some e) = some (driver e)
wrap_result (of_bool b, none) = if b then none else some result_not_true
wrap_result (of_string s, none) = if str_eq s "OK" then none else some result_not_ok
wrap_result (of_other, none) = none

-- The commands of the client library on the server's state S, with its errors E and durations D.
pub record RedisCmd (S E D : Type 0) : Type 0 where
  pub set_nx : Text → Text → D → Action S (Bool × Option E)
  pub set : Text → Text → D → Action S (Option E)
  pub get : Text → Action S (Text × Option E)
  pub del : List Text → Action S (ℕ × Option E)
  pub expire : Text → D → Action S (Result × Option E)
  pub exists : Text → Action S (ℕ × Option E)
  pub scan : ℕ → Text → ℕ → Action S (List Text × ℕ × Option E)

-- time.ParseDuration, and the duration 0.
pub record Durations (E D : Type 0) : Type 0 where
  pub parse_duration : String → E ⊎ D
  pub no_duration : D

pub record RedisView (S E D : Type 0) : Type 0 where
  pub prefix : Text
  pub cmd : RedisCmd S E D
  pub time : Durations E D

module _ {E D : Type 0} where
  -- The duration of a text: 0 for an empty one.
  abbrev pub timeout_of : Durations E D → String → E ⊎ D
  timeout_of time duration =
      if str_eq duration "" then inr (time.no_duration) else time.parse_duration duration

module _ {S E D : Type 0} where
  unfoldable pub set_nx : RedisView S E D → Text → Text → String → Action S (Bool × Option E)
  set_nx r key value duration = elim (timeout_of r.time duration) [
    | inl err ↦ pure (false, some err)
    | inr timeout ↦ r.cmd.set_nx (expand_key r.prefix key) value timeout
  ]

  unfoldable pub scan : RedisView S E D → ℕ → Text → ℕ → Action S (List Text × Option E)
  scan r cursor pattern count =
      r.cmd.scan cursor (expand_key r.prefix pattern) count >>= λ (result, next, err).
      pure (elim err [ none ↦ (result, none) | some e ↦ ([], some e) ])

  unfoldable pub get : RedisView S E D → Text → Action S (Text × Option E)
  get r key = r.cmd.get (expand_key r.prefix key) >>= λ (result, err).
      pure (elim err [ none ↦ (result, none) | some e ↦ ([], some e) ])

  unfoldable pub set : RedisView S E D → Text → Text → String → Action S (Option E)
  set r key value duration = elim (timeout_of r.time duration) [
    | inl err ↦ pure (some err)
    | inr timeout ↦ r.cmd.set (expand_key r.prefix key) value timeout
  ]

  unfoldable pub del : RedisView S E D → List Text → Action S (ℕ × Option E)
  del r keys = r.cmd.del (map (expand_key r.prefix) keys)

  unfoldable pub expire : RedisView S E D → Text → String → Action S (Option (WrapError E))
  expire r key duration = elim (r.time.parse_duration duration) [
    | inl err ↦ pure (some (driver err))
    | inr timeout ↦
        r.cmd.expire (expand_key r.prefix key) timeout >>= λ result. pure (wrap_result result)
  ]

  unfoldable pub exists : RedisView S E D → Text → Action S (Bool × Option E)
  exists r key = r.cmd.exists (expand_key r.prefix key) >>= λ (count, err).
      pure (elim err [ none ↦ (ltb 0 count, none) | some e ↦ (false, some e) ])
