-- ===== src/Databases/Connect.antt =====
-- libs/databases/mysql.go, with Config of constant.go: how a database is opened. The constructors of
-- xorm are an argument, as functions of the program's state W.
pub mod Slaves
use top_lib.Prelude.{
  Bool, true, false, String, Option, none, some, List, [], ◌∷◌, if◌then◌else◌, str_eq,
}
use top_lib.Prelude.Int.{ℤ}
use top_lib.Prelude.Assoc.{lookup}
use top_lib.Prelude.Text.{str_append, join}
use top_lib.Errors.Effect.{Action, pure, panic, other, ◌>>=◌}

pub record Config : Type 0 where
  pub show_sql : Bool
  pub max_idle : ℤ
  pub max_conn : ℤ
  pub master : String
  pub slaves : List String
  pub use_master_slave : Bool
  pub db_type : String

-- What NewEngineGroup is given as its second argument, an interface{}: one string, which xorm
-- refuses with ErrParamsType, or a list of strings.
pub data Sources : Type 0 where
  one_source : String → Sources
  sources : List String → Sources

-- NewEngine of a driver and a source, and NewEngineGroup: a handle or nil, and an error or nil.
pub record Xorm (W E H : Type 0) : Type 0 where
  pub new_engine : String → String → Action W (Option H × Option E)
  pub new_engine_group : String → Sources → Action W (Option H × Option E)

-- A handle with what SetMaxIdleConns and the like set.
pub record Db (H : Type 0) : Type 0 where
  pub handle : H
  pub show_sql : Bool
  pub max_idle : ℤ
  pub max_conn : ℤ

pub data ConnError (E : Type 0) : Type 0 where
  url_is_null : ConnError E
  of_xorm : E → ConnError E

-- The switch on c.DbType.
abbrev pub driver_of : String → String
driver_of db_type =
    if str_eq db_type "mysql"
    then "mysql"
    else if str_eq db_type "postgres"
    then "postgres"
    else "mysql"

-- A nil handle with no error is given as nil with no error.
abbrev pub configured :
    {E H : Type 0} → Config → Option H × Option E → Option (Db H) × Option (ConnError E)
configured c (conn, some e) = (none, some (of_xorm e))
configured c (none, none) = (none, none)
configured c (some handle, none) = (
  some (record {
    handle = handle;
    show_sql = c.show_sql;
    max_idle = c.max_idle;
    max_conn = c.max_conn;
  }),
  none,
)

-- The loop over c.Slaves, which looks for an empty text.
abbrev pub some_empty : List String → Bool
some_empty [] = false
some_empty (slave ∷ slaves) = if str_eq "" slave then true else some_empty slaves

module _ {W E H : Type 0} (xorm : Xorm W E H) where
  abbrev pub url_missing : Action W (Option (Db H) × Option (ConnError E))
  url_missing = pure (none, some url_is_null)

  unfoldable pub new_single_conn : Option Config → Action W (Option (Db H) × Option (ConnError E))
  new_single_conn none = url_missing
  new_single_conn (some c) =
      if str_eq "" c.master
      then url_missing
      else (xorm.new_engine (driver_of c.db_type) c.master >>= λ got. pure (configured c got))

  -- The list conns that is made of the master and the slaves is not used any further.
  unfoldable pub new_ms_conn : Option Config → Action W (Option (Db H) × Option (ConnError E))
  new_ms_conn none = url_missing
  new_ms_conn (some c) =
      if str_eq "" c.master
      then url_missing
      else if some_empty c.slaves
      then url_missing
      else (xorm.new_engine_group (driver_of c.db_type) (one_source c.master) >>= λ got.
          pure (configured c got))

  -- Init of a configuration that is read, or not: what NewMSConn gives is overwritten. It gives
  -- dbConn and the error.
  unfoldable pub init : Option Config → Action W (Option (Db H) × Option (ConnError E))
  init none = panic (other "Failed to parse database configuration")
  init (some c) =
      if c.use_master_slave
      then (new_ms_conn (some c) >>= λ _. new_single_conn (some c))
      else new_single_conn (some c)

-- {{.key}} of a template over a map of printed values.
abbrev pub field : String → List (String × String) → String
field key c = elim (lookup key c) [ none ↦ "<no value>" | some value ↦ value ]

-- GetConnStr: none for a type that is not supported.
unfoldable pub get_conn_str : List (String × String) → String → Option String
get_conn_str c t =
    if str_eq t "mysql"
    then some (
        join
          (field "user" c
            ∷ ":"
            ∷ field "pwd" c
            ∷ "@tcp("
            ∷ field "host" c
            ∷ ":"
            ∷ field "port" c
            ∷ ")/"
            ∷ field "db" c
            ∷ "?charset=utf8mb4&parseTime=true&loc=Local"
            ∷ [])
          "")
    else if str_eq t "postgres"
    then some (
        join
          ("host="
            ∷ field "host" c
            ∷ " port="
            ∷ field "port" c
            ∷ " user="
            ∷ field "user" c
            ∷ " dbname="
            ∷ field "db" c
            ∷ " password="
            ∷ field "pwd" c
            ∷ " sslmode=disable"
            ∷ [])
          "")
    else none
