-- ===== src/Databases/Procedures.antt =====
-- libs/databases/dao.go: CallProcedure with its result sets, the metadata of tables, and Migrations.
-- What the driver answers is data: the result sets with their rows, and the tables.
pub mod Rows
use top_lib.Prelude.{
  Bool, true, false, String, Option, none, some, List, [], ◌∷◌, ◌⊎◌, inl, inr, if◌then◌else◌,
}
use top_lib.Prelude.Assoc.{lookup, insert}
use top_lib.Prelude.Split.{Text}
use top_lib.Errors.Effect.{Exit, Panic, returns, panics, other}
use top_lib.Databases.Dao.{call_sql}

-- A value that Scan fills in, and a value of the map: bytes become a string.
pub data Cell (V : Type 0) : Type 0 where
  in_bytes : Text → Cell V
  in_value : V → Cell V

pub data Value (V : Type 0) : Type 0 where
  of_string : Text → Value V
  of_value : V → Value V

abbrev pub convert : {V : Type 0} → Cell V → Value V
convert (in_bytes b) = of_string b
convert (in_value v) = of_value v

-- A result set: what rows.Columns gives, and what rows.Scan gives for each row.
pub record ResultSet (V E : Type 0) : Type 0 where
  pub columns : E ⊎ List String
  pub rows : List (E ⊎ List (Cell V))

module _ {V : Type 0} where
  -- rowMap[col] = v for each column.
  unfoldable pub row_map :
      List String → List (Cell V) → List (String × Value V) → List (String × Value V)
  row_map (col ∷ columns) (val ∷ values) m = row_map columns values (insert col (convert val) m)
  row_map [] values m = m
  row_map (col ∷ columns) [] m = m

module _ {V E : Type 0} where
  abbrev pub cons_row :
      List (String × Value V)
      → E ⊎ List (List (String × Value V))
      → E ⊎ List (List (String × Value V))
  cons_row row (inl e) = inl e
  cons_row row (inr results) = inr (row ∷ results)

  -- The loop over rows.Next().
  unfoldable pub scan_rows :
      List String → List (E ⊎ List (Cell V)) → E ⊎ List (List (String × Value V))
  scan_rows columns [] = inr []
  scan_rows columns (inl e ∷ rows) = inl e
  scan_rows columns (inr values ∷ rows) =
      cons_row (row_map columns values []) (scan_rows columns rows)

  unfoldable pub one_set : ResultSet V E → E ⊎ List (List (String × Value V))
  one_set set = elim set.columns [ inl e ↦ inl e | inr columns ↦ scan_rows columns set.rows ]

  abbrev pub cons_results :
      E ⊎ List (List (String × Value V))
      → E ⊎ List (List (List (String × Value V)))
      → E ⊎ List (List (List (String × Value V)))
  cons_results (inl e) rest = inl e
  cons_results (inr results) (inl e) = inl e
  cons_results (inr results) (inr all) = inr (results ∷ all)

  -- The loop over rows.NextResultSet(), from a set on.
  unfoldable pub call_loop :
      ResultSet V E → List (ResultSet V E) → E ⊎ List (List (List (String × Value V)))
  call_loop set [] = cons_results (one_set set) (inr [])
  call_loop set (next ∷ sets) = cons_results (one_set set) (call_loop next sets)

  -- CallProcedure, with whether the rows have been closed. A query gives an error or a first set
  -- and more.
  unfoldable pub call_procedure :
      {A : Type 0}
      → (query : String → List A → E ⊎ (ResultSet V E × List (ResultSet V E)))
      → (placeholders : List A → List String) (proc_name : String) (args : List A)
      → (E ⊎ List (List (List (String × Value V)))) × Bool
  call_procedure query placeholders proc_name args =
      elim (query (call_sql proc_name (placeholders args)) args) [
        | inl e ↦ (inl e, false)
        | inr (set, sets) ↦ (call_loop set sets, true)
      ]

pub record Column : Type 0 where
  pub name : String
  pub sql_type : String
  pub length : Text
  pub nullable : Bool

-- A migration's id, and the name that it syncs and drops.
pub record Migration (V : Type 0) : Type 0 where
  pub id : Text
  pub name : Value V

pub data MetaError (E : Type 0) : Type 0 where
  of_engine : E → MetaError E
  table_not_found : MetaError E

pub data MigrateError : Type 0 where
  table_id_empty : MigrateError
  table_name_empty : MigrateError

-- m.conn.(*xorm.Engine), which an engine group is not.
abbrev pub not_engine : Panic
not_engine = other "interface conversion: *xorm.EngineGroup, not *xorm.Engine"

-- resultTable[table.Name] = the columns of the table.
unfoldable pub tables_map :
    List (String × List Column) → List (String × List Column) → List (String × List Column)
tables_map [] m = m
tables_map ((name, columns) ∷ tables) m = tables_map tables (insert name columns m)

module _ {E : Type 0} where
  unfoldable pub get_db_metas :
      (is_engine : Bool) → E ⊎ List (String × List Column) → Exit (E ⊎ List (String × List Column))
  get_db_metas false tables = panics not_engine
  get_db_metas true (inl e) = returns (inl e)
  get_db_metas true (inr tables) = returns (inr (tables_map tables []))

  abbrev pub table_metas :
      String → Exit (E ⊎ List (String × List Column)) → Exit (MetaError E ⊎ List Column)
  table_metas name (panics v) = panics v
  table_metas name (returns (inl e)) = returns (inl (of_engine e))
  table_metas name (returns (inr metas)) = elim (lookup name metas) [
    | none ↦ returns (inl table_not_found)
    | some columns ↦ returns (inr columns)
  ]

  unfoldable pub get_table_metas :
      String
      → (is_engine : Bool) → E ⊎ List (String × List Column)
      → Exit (MetaError E ⊎ List Column)
  get_table_metas name is_engine tables = table_metas name (get_db_metas is_engine tables)

module _ {V : Type 0} where
  abbrev pub cons_migration :
      Migration V
      → Exit (MigrateError ⊎ List (Migration V))
      → Exit (MigrateError ⊎ List (Migration V))
  cons_migration m (returns (inr ms)) = returns (inr (m ∷ ms))
  cons_migration m (returns (inl e)) = returns (inl e)
  cons_migration m (panics v) = panics v

  -- One table: table["id"], table["name"] and id.(string), before the rest.
  abbrev pub with_table :
      Option (Value V)
      → Option (Value V)
      → Exit (MigrateError ⊎ List (Migration V))
      → Exit (MigrateError ⊎ List (Migration V))
  with_table none name rest = returns (inl table_id_empty)
  with_table (some id) none rest = returns (inl table_name_empty)
  with_table (some (of_string id)) (some name) rest =
      cons_migration (record { id = id; name = name }) rest
  with_table (some (of_value id)) (some name) rest =
      panics (other "interface conversion: interface {} is not string")

  -- The loop of Migrations, which makes the migrations.
  unfoldable pub migration_loop :
      List (List (String × Value V)) → Exit (MigrateError ⊎ List (Migration V))
  migration_loop [] = returns (inr [])
  migration_loop (table ∷ tables) =
      with_table (lookup "id" table) (lookup "name" table) (migration_loop tables)

  -- Migrations: migrate.New and InitSchema take the migrations and run none of them.
  abbrev pub made : Bool → Exit (MigrateError ⊎ List (Migration V)) → Exit (Option MigrateError)
  made is_engine (returns (inl e)) = returns (some e)
  made is_engine (panics v) = panics v
  made true (returns (inr ms)) = returns none
  made false (returns (inr ms)) = panics not_engine

  unfoldable pub migrations :
      (is_engine : Bool) → List (List (String × Value V)) → Exit (Option MigrateError)
  migrations is_engine tables = made is_engine (migration_loop tables)
