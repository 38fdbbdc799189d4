-- ===== src/Conf.antt =====
-- libs/conf/conf.go: the configuration file and the environment it sets. toml.DecodeFile, the type
-- assertions on a decoded value V and json.Marshal are arguments.
pub mod Once
mod Tests
use top_lib.Prelude.{String, Option, none, some, List, [], ◌∷◌, ◌⊎◌, inl, inr}
use top_lib.Prelude.Assoc.{lookup, insert}
use top_lib.Prelude.Split.{Text}
use top_lib.Errors.Value.{Error}
use top_lib.Errors.Effect.{Action, Exit, Panic, returns, panics, raised, other, pure, panic, ◌>>=◌}

-- What a file decodes to: the map as far as it was filled, and an error or nil.
pub record Decoder (V : Type 0) : Type 0 where
  pub decode_file : String → List (String × V) × Option Error
  pub as_map : V → Option (List (String × V))
  pub as_string : V → Option String
  pub marshal : V → Error ⊎ Text

-- The package's config, nil or not, and the environment.
pub record State (V : Type 0) : Type 0 where
  pub config : Option (List (String × V))
  pub environment : List (String × String)

-- os.Getenv
abbrev pub getenv : String → List (String × String) → String
getenv key environment = elim (lookup key environment) [ none ↦ "" | some value ↦ value ]

-- The panics of Init.
abbrev pub app_name_missing : String
app_name_missing = "app name is missing in the global configuration"

abbrev pub app_version_missing : String
app_version_missing = "app version is missing in the global configuration"

abbrev pub prefix_missing : String
prefix_missing = "redis key prefix is missing in the global configuration"

abbrev pub global_missing : String
global_missing = "global configuration is missing in the config file"

module _ {V : Type 0} (decoder : Decoder V) where
  -- An entry that is there and of the type, or the panic.
  abbrev pub required :
      {A : Type 0} (as_type : V → Option A) → String → Option V → Action (State V) A
  required as_type what none = panic (other what)
  required as_type what (some v) = elim (as_type v) [ none ↦ panic (other what) | some a ↦ pure a ]

  abbrev pub setenv : String → String → Action (State V) (Unit {0})
  setenv key value s = (returns tt, record s { environment = insert key value s.environment })

  abbrev pub set_all : String → String → String → Action (State V) (Unit {0})
  set_all app_name app_version redis_key_prefix = setenv "APP_NAME" app_name >>= λ _.
      setenv "APP_VERSION" app_version >>= λ _. setenv "REDIS_KEY_PREFIX" redis_key_prefix

  -- The entries that Init requires, one by one.
  abbrev pub after_version : List (String × V) → String → String → Action (State V) (Unit {0})
  after_version global_info app_name app_version =
      required decoder.as_string prefix_missing (lookup "redis_key_prefix" global_info)
      >>= set_all app_name app_version

  abbrev pub after_name : List (String × V) → String → Action (State V) (Unit {0})
  after_name global_info app_name =
      required decoder.as_string app_version_missing (lookup "app_version" global_info)
      >>= after_version global_info app_name

  abbrev pub after_global : List (String × V) → Action (State V) (Unit {0})
  after_global global_info =
      required decoder.as_string app_name_missing (lookup "app_name" global_info)
      >>= after_name global_info

  -- The rest of Init, with the file's map in config.
  abbrev pub set_globals : List (String × V) → Action (State V) (Unit {0})
  set_globals config =
      required decoder.as_map global_missing (lookup "global" config) >>= after_global

  abbrev pub decoded : List (String × V) × Option Error → Action (State V) (Unit {0})
  decoded (config, some e) s = (panics (raised e), record s { config = some config })
  decoded (config, none) s = set_globals config (record s { config = some config })

  unfoldable pub init : Action (State V) (Unit {0})
  init s = decoded (decoder.decode_file (getenv "runConfig" s.environment)) s

  -- The bytes of a value, none for nil.
  abbrev pub bytes_of : Option V → Option Text
  bytes_of none = none
  bytes_of (some v) = elim (decoder.marshal v) [ inl e ↦ none | inr bytes ↦ some bytes ]

  abbrev pub value_at : String → Option (List (String × V)) → Option Text
  value_at key none = none
  value_at key (some config) = bytes_of (lookup key config)

  -- if config == nil { Init() }
  abbrev pub init_unless : Option (List (String × V)) → Action (State V) (Unit {0})
  init_unless none = init
  init_unless (some config) = pure tt

  unfoldable pub get : String → Action (State V) (Option Text)
  unfolding init
  get key s = (init_unless s.config >>= λ _. λ s'. (returns (value_at key s'.config), s')) s
