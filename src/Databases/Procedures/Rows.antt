-- ===== src/Databases/Procedures/Rows.antt =====
-- What CallProcedure gives for the result sets of a procedure (libs/databases/dao.go).
use top_lib.Prelude.{
  Bool, true, false, String, Option, none, some, List, [], ◌∷◌, map, ◌⊎◌, inl, inr, ◌≡◌, refl, sym,
  ap, ◌∙◌, str_eq, if◌then◌else◌,
}
use top_lib.Prelude.Assoc.{lookup, insert, lookup-insert}
use top_lib.Databases.Dao.{call_sql}
use top_lib.Databases.Procedures.{
  Cell, Value, convert, ResultSet, row_map, scan_rows, one_set, call_loop, cons_row, cons_results,
  call_procedure,
}

-- What is there after, and else what was before.
abbrev pub or_before : {V : Type 0} → Option (Value V) → Option (Value V) → Option (Value V)
or_before none before = before
or_before (some v) before = some v

-- The value of the last column of a name.
abbrev pub last_value : {V : Type 0} → String → List String → List (Cell V) → Option (Value V)
last_value name (col ∷ columns) (val ∷ values) =
    or_before (last_value name columns values)
      (if str_eq col name then some (convert val) else none)
last_value name [] values = none
last_value name (col ∷ columns) [] = none

module _ {V : Type 0} where
  or_before-if :
      (later before : Option (Value V)) (hit : Bool) (v : Value V)
      → or_before later (if hit then some v else before)
        ≡ or_before (or_before later (if hit then some v else none)) before
  or_before-if none before true v = refl
  or_before-if none before false v = refl
  or_before-if (some w) before hit v = refl

  lookup-row_map :
      (name : String) (columns : List String) (values : List (Cell V)) (m : List (String × Value V))
      → lookup name (row_map columns values m)
        ≡ or_before (last_value name columns values) (lookup name m)
  unfolding row_map
  lookup-row_map name [] values m = refl
  lookup-row_map name (col ∷ columns) [] m = refl
  lookup-row_map name (col ∷ columns) (val ∷ values) m =
      lookup-row_map name columns values (insert col (convert val) m)
      ∙ ap (or_before (last_value name columns values))
          (sym (lookup-insert col name (convert val) m))
      ∙ or_before-if (last_value name columns values) (lookup name m) (str_eq col name)
          (convert val)

-- The first error among the rows of a set, in a set, and in all of them.
abbrev pub row_error : {V E : Type 0} → List (E ⊎ List (Cell V)) → Option E
row_error [] = none
row_error (inl e ∷ rows) = some e
row_error (inr values ∷ rows) = row_error rows

abbrev pub set_error : {V E : Type 0} → ResultSet V E → Option E
set_error set = elim set.columns [ inl e ↦ some e | inr columns ↦ row_error set.rows ]

abbrev pub first_of : {E : Type 0} → Option E → Option E → Option E
first_of none later = later
first_of (some e) later = some e

abbrev pub sets_error : {V E : Type 0} → List (ResultSet V E) → Option E
sets_error [] = none
sets_error (set ∷ sets) = first_of (set_error set) (sets_error sets)

-- What a column of a name shows: for each row the value of the last column of the name.
abbrev pub rows_shown :
    {V E : Type 0} → String → List String → List (E ⊎ List (Cell V)) → List (Option (Value V))
rows_shown name columns [] = []
rows_shown name columns (inl e ∷ rows) = []
rows_shown name columns (inr values ∷ rows) =
    last_value name columns values ∷ rows_shown name columns rows

abbrev pub set_shown : {V E : Type 0} → String → ResultSet V E → List (Option (Value V))
set_shown name set = elim set.columns [
  | inl e ↦ []
  | inr columns ↦ rows_shown name columns set.rows
]

module _ {V E : Type 0} (name : String) where
  -- An outcome that is the error, if there is one, and else shows what is expected.
  abbrev Shows :
      {R : Type 0} (show : R → Option (Value V))
      → Option E
      → E ⊎ List R
      → List (Option (Value V))
      → Type 0
  Shows show (some e) out expected = out ≡ inl e
  Shows {R} show none out expected = (rs : List R) × (out ≡ inr rs) × (map show rs ≡ expected)

  abbrev pub ShowsAll :
      Option E → E ⊎ List (List (List (String × Value V))) → List (List (Option (Value V))) → Type 0
  ShowsAll (some e) out expected = out ≡ inl e
  ShowsAll none out expected =
      (results : List (List (List (String × Value V)))) × (out ≡ inr results)
      × (map (map (lookup name)) results ≡ expected)

  cons_row-Shows :
      (row : List (String × Value V)) (v : Option (Value V)) (err : Option E)
      (out : E ⊎ List (List (String × Value V))) (expected : List (Option (Value V)))
      → lookup name row ≡ v
      → Shows (lookup name) err out expected
      → Shows (lookup name) err (cons_row row out) (v ∷ expected)
  cons_row-Shows row v (some e) out expected here shows = ap (cons_row row) shows
  cons_row-Shows row v none out expected here (rs, got, same) =
      (row ∷ rs, ap (cons_row row) got, rw (here, same) refl)

  scan_rows-Shows :
      (columns : List String) (rows : List (E ⊎ List (Cell V)))
      → Shows (lookup name) (row_error rows) (scan_rows columns rows) (rows_shown name columns rows)
  unfolding scan_rows lookup
  scan_rows-Shows columns [] = ([], refl, refl)
  scan_rows-Shows columns (inl e ∷ rows) = refl
  scan_rows-Shows columns (inr values ∷ rows) =
      cons_row-Shows (row_map columns values []) (last_value name columns values) (row_error rows)
        (scan_rows columns rows) (rows_shown name columns rows) (in_row values)
        (scan_rows-Shows columns rows)
    where
      nothing_before : (v : Option (Value V)) → or_before v none ≡ v
      nothing_before none = refl
      nothing_before (some w) = refl

      in_row :
          (values : List (Cell V))
          → lookup name (row_map columns values []) ≡ last_value name columns values
      in_row values =
          lookup-row_map name columns values [] ∙ nothing_before (last_value name columns values)

  one_set-Shows :
      (set : ResultSet V E) → Shows (lookup name) (set_error set) (one_set set) (set_shown name set)
  unfolding one_set
  one_set-Shows set = by_columns set.columns
    where
      by_columns :
          (columns : E ⊎ List String)
          → Shows
              (lookup name)
              (elim columns [ inl e ↦ some e | inr cs ↦ row_error set.rows ])
              (elim columns [ inl e ↦ inl e | inr cs ↦ scan_rows cs set.rows ])
              (elim columns [ inl e ↦ [] | inr cs ↦ rows_shown name cs set.rows ])
      by_columns (inl e) = refl
      by_columns (inr cs) = scan_rows-Shows cs set.rows

  cons_results-ShowsAll :
      (err later : Option E) (out : E ⊎ List (List (String × Value V)))
      (rest : E ⊎ List (List (List (String × Value V)))) (expected : List (Option (Value V)))
      (more : List (List (Option (Value V))))
      → Shows (lookup name) err out expected
      → ShowsAll later rest more
      → ShowsAll (first_of err later) (cons_results out rest) (expected ∷ more)
  cons_results-ShowsAll (some e) later out rest expected more here there =
      ap (λ o. cons_results o rest) here
  cons_results-ShowsAll none (some e) out rest expected more (rs, got, same) there =
      rw (got, there) refl
  cons_results-ShowsAll none none out rest expected more (rs, got, same) (all, got', same') =
      (rs ∷ all, rw (got, got') refl, rw (same, same') refl)

  call_loop-ShowsAll :
      (set : ResultSet V E) (sets : List (ResultSet V E))
      → ShowsAll (sets_error (set ∷ sets)) (call_loop set sets) (map (set_shown name) (set ∷ sets))
  unfolding call_loop
  call_loop-ShowsAll set [] =
      cons_results-ShowsAll (set_error set) none (one_set set) (inr []) (set_shown name set) []
        (one_set-Shows set) ([], refl, refl)
  call_loop-ShowsAll set (next ∷ sets) =
      cons_results-ShowsAll (set_error set) (sets_error (next ∷ sets)) (one_set set)
        (call_loop next sets) (set_shown name set) (map (set_shown name) (next ∷ sets))
        (one_set-Shows set) (call_loop-ShowsAll next sets)

  -- Where its query succeeds, CallProcedure gives the first error of Columns or Scan in the order of
  -- the result sets and their rows, and no result then; with no error it gives for each result set
  -- and each of its rows a map that holds under every name the value of the last column of the
  -- name, bytes as a string, and nothing under a name of no column. The rows are closed both ways.
  pub call_procedure-ShowsAll :
      {A : Type 0} (query : String → List A → E ⊎ (ResultSet V E × List (ResultSet V E)))
      (placeholders : List A → List String) (proc_name : String) (args : List A)
      (set : ResultSet V E) (sets : List (ResultSet V E))
      → query (call_sql proc_name (placeholders args)) args ≡ inr (set, sets)
      → let (out, closed) = call_procedure query placeholders proc_name args in
        ShowsAll (sets_error (set ∷ sets)) out (map (set_shown name) (set ∷ sets)) × (closed ≡ true)
  unfolding call_procedure
  call_procedure-ShowsAll query placeholders proc_name args set sets ran =
      rw (ran, call_procedure) (call_loop-ShowsAll set sets, refl)
