-- ===== src/Logs.antt =====
-- libs/logs/logger.go and logger_encode.go: the package's logger. zap is what it writes: the lines
-- of the levels that a logger lets through.
pub mod Levels
mod Tests
use top_lib.Prelude.{
  ℕ, ◌+◌, ◌-◌, ◌%◌, ◌^◌, Bool, true, false, ◌||◌, String, Option, none, some, List, [], ◌∷◌, ◌++◌,
  ltb, str_eq, if◌then◌else◌,
}
use top_lib.Prelude.Int.{ℤ, pos, negsuc, ltb_ℤ, leb_ℤ}
use top_lib.Prelude.Split.{Text, split_on}
use top_lib.Errors.Effect.{Action, Exit, returns, panics, pure, panic, other, ◌>>=◌}

pub record LoggerConfig : Type 0 where
  pub filename : String
  pub max_size : ℤ
  pub max_age : ℤ
  pub max_backups : ℤ
  pub local_time : Bool
  pub compress : Bool
  pub level : ℤ

-- zapcore.DebugLevel and the others.
abbrev pub debug_level : ℤ
debug_level = negsuc 0

abbrev pub info_level : ℤ
info_level = pos 0

abbrev pub warn_level : ℤ
warn_level = pos 1

abbrev pub error_level : ℤ
error_level = pos 2

abbrev pub fatal_level : ℤ
fatal_level = pos 5

-- The int8 of eight bits.
abbrev pub of_bits : ℕ → ℤ
of_bits bits = if ltb bits 128 then pos bits else negsuc (255 - bits)

-- zapcore.Level(n), which keeps the low eight bits of an int.
unfoldable pub to_int8 : ℤ → ℤ
to_int8 (pos n) = of_bits (n % 2 ^ 8)
to_int8 (negsuc n) = of_bits (255 - n % 2 ^ 8)

-- The level of a logger by its configuration.
unfoldable pub level_of : ℤ → ℤ
unfolding to_int8
level_of n =
    let level = to_int8 n in
    if ltb_ℤ level debug_level || ltb_ℤ fatal_level level then info_level else level

-- A logger: where it writes beside the console, its level and its fields.
pub record Logger : Type 0 where
  pub config : LoggerConfig
  pub level : ℤ
  pub fields : List (String × String)

-- The package's Log, and the lines written, each with its level.
pub record Logs : Type 0 where
  pub log : Option Logger
  pub lines : List (ℤ × String)

-- Init of a configuration that is read, or not.
unfoldable pub init : Option LoggerConfig → Action Logs (Unit {0})
init none logs = (panics (other "Failed to parse log configuration"), logs)
init (some config) logs = pure tt (record logs {
  log = some (record { config = config; level = level_of config.level; fields = [] });
})

-- A line of a level through a logger, if there is one and it lets the level through.
abbrev pub put : ℤ → String → Option Logger → List (ℤ × String) → List (ℤ × String)
put level msg none lines = lines
put level msg (some logger) lines =
    if leb_ℤ logger.level level then lines ++ ((level, msg) ∷ []) else lines

unfoldable pub written : ℤ → String → Logs → Logs
written level msg logs = record logs { lines = put level msg logs.log logs.lines }

-- Info, Warn, Error and Debug.
abbrev pub info : String → Logs → Logs
info msg logs = written info_level msg logs

abbrev pub warn : String → Logs → Logs
warn msg logs = written warn_level msg logs

abbrev pub error : String → Logs → Logs
error msg logs = written error_level msg logs

abbrev pub debug : String → Logs → Logs
debug msg logs = written debug_level msg logs

-- An argument of a format: a value, or the whole slice of the arguments as one value.
pub data Arg (V : Type 0) : Type 0 where
  value : V → Arg V
  slice : List V → Arg V

abbrev pub values : {V : Type 0} → List V → List (Arg V)
values [] = []
values (v ∷ vs) = value v ∷ values vs

-- Infof, Warnf, Errorf and Debugf over fmt.Sprintf; Debugf gives it the slice.
module _ {V : Type 0} (sprintf : String → List (Arg V) → String) where
  unfoldable pub infof : String → List V → Logs → Logs
  infof format args logs = written info_level (sprintf format (values args)) logs

  unfoldable pub warnf : String → List V → Logs → Logs
  warnf format args logs = written warn_level (sprintf format (values args)) logs

  unfoldable pub errorf : String → List V → Logs → Logs
  errorf format args logs = written error_level (sprintf format (values args)) logs

  unfoldable pub debugf : String → List V → Logs → Logs
  debugf format args logs = written debug_level (sprintf format (slice args ∷ [])) logs

-- The configuration that GetLogger makes where there is none.
abbrev pub default_config : LoggerConfig
default_config = record {
  filename = "logs/app.log";
  max_size = pos 60;
  max_age = pos 7;
  max_backups = pos 5;
  local_time = false;
  compress = true;
  level = negsuc 0;
}

abbrev pub with_module : String → Logger → Logger
with_module m logger = record logger { fields = logger.fields ++ (("module", m) ∷ []) }

-- GetLogger, with the package's logger after it.
abbrev pub logger_of : String → Option Logger → Action Logs Logger
logger_of m none = panic (other "invalid memory address or nil pointer dereference")
logger_of m (some logger) = pure (with_module m logger)

unfoldable pub get_logger : String → Action Logs Logger
unfolding init
get_logger m logs = elim logs.log [
  | none ↦ (init (some default_config) >>= λ _. λ logs'. logger_of m logs'.log logs') logs
  | some logger ↦ (returns (with_module m logger), logs)
]

-- JSONStacktraceEncoder: the lines, without a last empty one.
abbrev pub without_last_empty : List Text → List Text
without_last_empty [] = []
without_last_empty ([] ∷ []) = []
without_last_empty ((c ∷ cs) ∷ []) = (c ∷ cs) ∷ []
without_last_empty (line ∷ next ∷ lines) = line ∷ without_last_empty (next ∷ lines)

abbrev pub newline : ℕ
newline = 10

unfoldable pub stacktrace_lines : Text → List Text
stacktrace_lines stacktrace = without_last_empty (split_on newline stacktrace)
