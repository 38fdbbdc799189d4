-- ===== src/Redis/Strings.antt =====
-- libs/redis/redis_view.go: SetNX, Set, Expire and XAdd over the commands of Redis.Driver.
-- time.ParseDuration, which gives nanoseconds, is an argument. Of the arguments of XAdd the stream
-- and its values are kept.
use top_lib.Prelude.{Bool, false, Option, some, List, [], ◌∷◌, ◌⊎◌, inl, inr}
use top_lib.Prelude.Int.{ℤ, pos}
use top_lib.Prelude.Split.{Text}
use top_lib.Errors.Effect.{Action, pure, giving}
use top_lib.Redis.Keys.{expand_key}
use top_lib.Redis.Driver.{Command, View}
use top_lib.Redis.View.{WrapError, driver, wrap_result}

-- A duration that cannot be read is an error, and no command is sent.
abbrev pub with_timeout : {S E A : Type 0} → E ⊎ ℤ → (E → A) → (ℤ → Action S A) → Action S A
with_timeout (inl e) refusal call = pure (refusal e)
with_timeout (inr timeout) refusal call = call timeout

module _ {F S E : Type 0} (parse_duration : Text → E ⊎ ℤ) (r : View F S E) where
  -- 0 for an empty text.
  abbrev pub timeout_of : Text → E ⊎ ℤ
  timeout_of [] = inr (pos 0)
  timeout_of (c ∷ cs) = parse_duration (c ∷ cs)

  unfoldable pub set_nx : Text → Text → Text → Action S (Bool × Option E)
  set_nx key value duration =
      with_timeout (timeout_of duration) (λ e. (false, some e))
        (λ timeout. r.client.bool (Command.set_nx (expand_key r.prefix key) value timeout))

  unfoldable pub set : Text → Text → Text → Action S (Option E)
  set key value duration =
      with_timeout (timeout_of duration) (λ e. some e)
        (λ timeout.
          giving (λ out. out.1)
            (r.client.text (Command.set (expand_key r.prefix key) value timeout)))

  unfoldable pub expire : Text → Text → Action S (Option (WrapError E))
  expire key duration =
      with_timeout (parse_duration duration) (λ e. some (driver e))
        (λ timeout.
          giving wrap_result (r.client.any (Command.expire (expand_key r.prefix key) timeout)))

  -- The stream is sent as it is.
  unfoldable pub x_add : Text → List (Text × Text) → Action S (Text × Option E)
  x_add stream values = r.client.text (Command.x_add stream values)
