-- ===== src/Redis/Connect.antt =====
-- libs/redis/redis_cmd.go and redis_subscribe.go, and the arguments of redis.go: how a client is
-- made, and what publishes and subscribes. The constructors of go-redis are an argument.
pub mod Nodes
use top_lib.Prelude.{ℕ, Bool, true, false, String, Option, none, some, List, [], ◌∷◌, if◌then◌else◌}
use top_lib.Prelude.Int.{ℤ}
use top_lib.Prelude.Split.{Text}
use top_lib.Errors.Effect.{Action, giving, pure, panic, other, ◌>>=◌}

-- Config: what Init reads of it. Durations are numbers of nanoseconds.
pub record Config : Type 0 where
  pub addrs : List String
  pub password : String
  pub db_index : ℤ
  pub dial_timeout : ℤ
  pub read_timeout : ℤ
  pub write_timeout : ℤ
  pub read_only : Bool
  pub pool_size : ℤ
  pub pool_timeout : ℤ
  pub use_cluster : Bool

pub record ClusterOptions : Type 0 where
  pub addrs : List String
  pub read_only : Bool
  pub password : String
  pub dial_timeout : ℤ
  pub read_timeout : ℤ
  pub write_timeout : ℤ
  pub pool_size : ℤ
  pub pool_timeout : ℤ

pub record Options : Type 0 where
  pub addr : String
  pub password : String
  pub db : ℤ
  pub dial_timeout : ℤ
  pub read_timeout : ℤ
  pub write_timeout : ℤ
  pub pool_size : ℤ
  pub pool_timeout : ℤ

pub record Library (W C : Type 0) : Type 0 where
  pub new_cluster_client : ClusterOptions → Action W C
  pub new_client : Options → Action W C

pub data InitError : Type 0 where
  redis_addrs_empty : InitError

abbrev pub cluster_options : Config → ClusterOptions
cluster_options c = record {
  addrs = c.addrs;
  read_only = c.read_only;
  password = c.password;
  dial_timeout = c.dial_timeout;
  read_timeout = c.read_timeout;
  write_timeout = c.write_timeout;
  pool_size = c.pool_size;
  pool_timeout = c.pool_timeout;
}

abbrev pub options : String → Config → Options
options addr c = record {
  addr = addr;
  password = c.password;
  db = c.db_index;
  dial_timeout = c.dial_timeout;
  read_timeout = c.read_timeout;
  write_timeout = c.write_timeout;
  pool_size = c.pool_size;
  pool_timeout = c.pool_timeout;
}

module _ {W C : Type 0} (library : Library W C) where
  -- The client of the first address, which takes the place of a cluster's.
  abbrev pub with_first : String → Config → Action W (Option C × Option InitError)
  with_first addr c =
      let single = giving (λ client. (some client, none)) (library.new_client (options addr c)) in
      if c.use_cluster
      then (library.new_cluster_client (cluster_options c) >>= λ _. single)
      else single

  abbrev pub by_addrs : List String → Config → Action W (Option C × Option InitError)
  by_addrs [] c = pure (none, some redis_addrs_empty)
  by_addrs (addr ∷ addrs) c = with_first addr c

  -- Init of a configuration that is read, or not: redisCon after it, and the error. redisCon is
  -- left alone where there is no address.
  unfoldable pub init : Option Config → Action W (Option C × Option InitError)
  init none = panic (other "Failed to parse Redis configuration")
  init (some c) = by_addrs c.addrs c

-- A command interface by what it can do: a *redis.Client or another that has the method, or not.
pub data Cmd (P : Type 0) : Type 0 where
  client : P → Cmd P
  has_method : P → Cmd P
  lacks_method : Cmd P

pub data SubscribeError : Type 0 where
  unsupported : SubscribeError

-- Subscribe and PSubscribe, and Publish, of the method's result.
unfoldable pub subscribe :
    {P R : Type 0} → (P → List Text → R) → Cmd P → List Text → Option R × Option SubscribeError
subscribe call (client p) channels = (some (call p channels), none)
subscribe call (has_method p) channels = (some (call p channels), none)
subscribe call lacks_method channels = (none, some unsupported)

unfoldable pub publish :
    {W P E M : Type 0}
    → (P → Text → M → Action W (ℤ × Option E))
    → (unsupported_error : E) → Cmd P
    → Text
    → M
    → Action W (ℤ × Option E)
publish call unsupported_error (client p) channel message = call p channel message
publish call unsupported_error (has_method p) channel message = call p channel message
publish call unsupported_error lacks_method channel message = pure (ℤ.pos 0, some unsupported_error)
