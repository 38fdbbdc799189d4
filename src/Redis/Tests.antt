-- ===== src/Redis/Tests.antt =====
-- Examples of libs/redis.
use top_lib.Prelude.{
  ℕ, ◌<◌, Bool, true, false, String, Option, none, some, List, [], ◌∷◌, ◌++◌, ◌≡◌, inr, refl, arith,
}
use top_lib.Errors.Effect.{returns}
use top_lib.Prelude.Split.{Text, colon, bar, IsFree}
use top_lib.Prelude.Decimal.{digits_from}
use top_lib.Redis.Keys.{expand_key}
use top_lib.Redis.View.{RedisCmd, RedisView, of_other}
use top_lib.Redis.View.Isolation.{IsLocal, IsOutside}
use top_lib.Prelude.Int.{pos, ◌+ℤ◌}
use top_lib.Redis.Notification.{Payload, encode_payload, decode_payload}
use top_lib.Redis.Notification.Payloads.{decode_payload-encode_payload}
use top_lib.Redis.Zset.{Z, RangeCmds}

abbrev app : Text
app = 97 ∷ []

app-IsFree : IsFree colon app
app-IsFree = (λ e. absurd (omega (arith, e)), tt)

abbrev key_text : Text
key_text = 107 ∷ 58 ∷ 49 ∷ []

abbrev job : Payload
job = record { value = 106 ∷ 49 ∷ []; count = pos 12 }

job-IsFree : (sep : ℕ) → 106 < sep → IsFree sep job.value
job-IsFree sep above =
    (λ e. absurd (omega (arith, e, above)), (λ e. absurd (omega (arith, e, above)), tt))

job_no_colon : IsFree colon job.value
job_no_colon = (λ e. absurd (omega (arith, e)), (λ e. absurd (omega (arith, e)), tt))

encode_test : encode_payload job ≡ 106 ∷ 49 ∷ 124 ∷ 124 ∷ 49 ∷ 50 ∷ []
unfolding encode_payload digits_from
encode_test = refl

decode_payload-encode_payload_example :
    decode_payload (app ++ (colon ∷ encode_payload job)) ≡ some job
decode_payload-encode_payload_example =
    decode_payload-encode_payload app job job_no_colon (job-IsFree bar (omega arith)) (omega arith)

abbrev policies : List ℕ
policies = 60 ∷ 300 ∷ []

abbrev asks : Payload → Bool
asks p = true

abbrev fresh : Payload
fresh = record { value = app; count = pos 0 }

abbrev once : Payload
once = record { value = app; count = pos 0 +ℤ pos 1 }

-- A server that refuses every write; the state is the one number that all its keys show.
abbrev server : RedisCmd ℕ String ℕ
server = record {
  set_nx = λ k v d s. (returns (false, none), s);
  set = λ k v d s. (returns none, s);
  get = λ k s. (returns ([], none), s);
  del = λ ks s. (returns (0, none), s);
  expire = λ k d s. (returns (of_other, none), s);
  exists = λ k s. (returns (0, none), s);
  scan = λ c p n s. (returns ([], 0, none), s);
}

abbrev stored : ℕ → Text → ℕ
stored s j = s

server-IsLocal : IsLocal stored server
server-IsLocal = record {
  set_nx_local = λ k v d s j other. refl;
  set_local = λ k v d s j other. refl;
  del_local = λ ks s j others. refl;
  expire_local = λ k d s j other. refl;
}

abbrev view : RedisView ℕ String ℕ
view = record {
  prefix = app;
  cmd = server;
  time = record { parse_duration = λ t. inr 5; no_duration = 0 };
}

other_key-IsOutside : IsOutside app (98 ∷ [])
unfolding expand_key
other_key-IsOutside k e = absurd (ground (arith, e))

abbrev texts : Text → ℕ → List Text × Option String
texts key n = (app ∷ key_text ∷ [], none)

abbrev scored : Text → ℕ → List (Z ℕ) × Option String
scored key n = ([], none)

abbrev zset : RangeCmds ℕ String ℕ
zset = record {
  forward = texts;
  backward = texts;
  forward_scores = scored;
  backward_scores = scored;
}

abbrev no_score : ℕ
no_score = 0
