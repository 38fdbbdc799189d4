-- ===== src/Databases/Examples.antt =====
-- Examples of an entity and its session, over a state that is the list of the statements run.
use top_lib.Prelude.{ℕ, String, true, Option, none, some, List, [], ◌∷◌, ◌++◌, ◌≡◌, refl}
use top_lib.Errors.Effect.{Action, returns, ◌>>=◌}
use top_lib.Prelude.{false, ◌⊎◌, inr, eq_iff, arith}
use top_lib.Prelude.Int.{pos}
use top_lib.Prelude.Assoc.{lookup}
use top_lib.Prelude.Text.{join, join_rest}
use top_lib.Databases.Connect.{
  Config, Sources, one_source, sources, Xorm, Db, ConnError, of_xorm, new_single_conn, new_ms_conn,
  init, get_conn_str,
}
use top_lib.Databases.Connect.Slaves.{init-slaves}
use top_lib.Databases.Procedures.{in_bytes, in_value, of_value, ResultSet, call_procedure}
use top_lib.Databases.Procedures.Rows.{ShowsAll, call_procedure-ShowsAll}
use top_lib.Databases.Dao.{Statements}
use top_lib.Databases.Entity.{BaseDao, SessionDao, new_session}
use top_lib.Databases.Entity.Sessions.{
  Transaction, Call, begin, create, update_by_pk, commit, close, run, dao_of, replay,
  new_session-refines,
}

abbrev noting : {A : Type 0} → String → A → Action (List String) A
noting name answer log = (returns answer, log ++ (name ∷ []))

abbrev statements : Statements (List String) String ℕ String
statements = record {
  insert_one = λ b. noting "insert" (1, none);
  insert = λ bs. noting "insert many" (1, none);
  update = λ b wheres. noting "update" (1, none);
  id_update = λ k b. noting "update by id" (1, none);
  delete = λ b. noting "delete" (1, none);
  id_delete = λ k b. noting "delete by id" (1, none);
  sql_find = λ sql args rows. noting "find" none;
  id_get = λ k b. noting "get by id" (true, none);
  get = λ b. noting "get" (true, none);
  count = λ b. noting "count" (1, none);
  exist = λ b. noting "exist" (true, none);
  order_by_find = λ sort rows bean. noting "order by" none;
  limit_order_by_find_and_count = λ limit skip sort rows bean. noting "limit" (1, none);
}

abbrev transaction : Transaction (List String) String
transaction = record {
  begin = noting "begin" none;
  commit = noting "commit" none;
  rollback = noting "rollback" none;
  close = noting "close" tt;
}

abbrev one_key : String → Option ℕ
one_key bean = some 1

abbrev opened : SessionDao (List String) String ℕ String
opened = dao_of one_key (record { conn = statements; session = some statements }) transaction

abbrev base : BaseDao (List String) String ℕ String
base = record { ops = opened.ops; new_session = noting "new session" opened }

abbrev in_transaction : List (Call String)
in_transaction = begin ∷ create ∷ update_by_pk ∷ commit ∷ close ∷ []

replay_test :
    replay one_key statements transaction "row" in_transaction []
    ≡ (returns tt, "begin" ∷ "insert" ∷ "update by id" ∷ "commit" ∷ "close" ∷ [])
replay_test = refl

new_session-refines_example :
    (new_session (record { dao = base; session_dao = none; object_ptr = "row" })
        >>= run one_key in_transaction)
      []
    ≡ replay one_key statements transaction "row" in_transaction ("new session" ∷ [])
new_session-refines_example =
    new_session-refines one_key base statements statements transaction "row" in_transaction []
      ("new session" ∷ []) none refl

-- A group wants a list of sources.
abbrev group_of : Sources → Option String × Option String
group_of (one_source s) = (none, some "params type error")
group_of (sources []) = (none, some "no sources")
group_of (sources (s ∷ more)) = (some s, none)

-- Handles are the sources that they were opened with; the state lists what was opened.
abbrev opener : Xorm (List String) String String
opener = record {
  new_engine = λ driver source log. (returns (some source, none), log ++ ("engine" ∷ []));
  new_engine_group = λ driver given log. (returns (group_of given), log ++ ("group" ∷ []));
}

abbrev config : Config
config = record {
  show_sql = false;
  max_idle = pos 1;
  max_conn = pos 10;
  master = "master";
  slaves = "slave" ∷ [];
  use_master_slave = true;
  db_type = "mysql";
}

abbrev refused : Option (Db String) × Option (ConnError String)
refused = (none, some (of_xorm "params type error"))

abbrev of_master : Option (Db String) × Option (ConnError String)
of_master = (
  some (record { handle = "master"; show_sql = false; max_idle = pos 1; max_conn = pos 10 }),
  none,
)

init_test : init opener (some config) [] ≡ (returns of_master, "group" ∷ "engine" ∷ [])
unfolding init new_ms_conn new_single_conn
init_test = refl

-- The keys that the comment on GetConnStr names are not those of its templates.
get_conn_str_test :
    get_conn_str
      (("host", "127.0.0.1")
        ∷ ("port", "3306")
        ∷ ("user", "root")
        ∷ ("passwd", "123456")
        ∷ ("dbname", "csv")
        ∷ [])
      "postgres"
    ≡ some
        "host=127.0.0.1 port=3306 user=root dbname=<no value> password=<no value> sslmode=disable"
unfolding get_conn_str lookup join join_rest
get_conn_str_test = refl

opened_group : new_ms_conn opener (some config) [] ≡ (returns refused, "group" ∷ [])
unfolding new_ms_conn
opened_group = refl

init-slaves_example :
    (init opener (some (record config { slaves = "slave" ∷ "other" ∷ [] })) []
      ≡ init opener (some config) [])
    × (init opener (some config) [] ≡ new_single_conn opener (some config) ("group" ∷ []))
init-slaves_example =
    init-slaves opener config ("slave" ∷ "other" ∷ []) [] ("group" ∷ []) refused
      (
        (λ e. absurd (ground (arith, eq_iff "slave" "", e))),
        ((λ e. absurd (ground (arith, eq_iff "other" "", e))), tt),
      )
      ((λ e. absurd (ground (arith, eq_iff "slave" "", e))), tt) refl opened_group

abbrev users : ResultSet ℕ String
users = record {
  columns = inr ("id" ∷ "name" ∷ "id" ∷ []);
  rows = inr (in_value 1 ∷ in_bytes (97 ∷ []) ∷ in_value 2 ∷ []) ∷ [];
}

abbrev totals : ResultSet ℕ String
totals = record { columns = inr ("total" ∷ []); rows = [] }

abbrev two_sets : String → List String → String ⊎ (ResultSet ℕ String × List (ResultSet ℕ String))
two_sets sql args = inr (users, totals ∷ [])

call_procedure-ShowsAll_example :
    let (out, closed) = call_procedure two_sets (λ args. args) "report" ("x" ∷ []) in
    ShowsAll {V = ℕ} "id" none out ((some (of_value 2) ∷ []) ∷ [] ∷ []) × (closed ≡ true)
call_procedure-ShowsAll_example =
    call_procedure-ShowsAll "id" two_sets (λ args. args) "report" ("x" ∷ []) users (totals ∷ [])
      refl
