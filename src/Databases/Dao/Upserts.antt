-- ===== src/Databases/Dao/Upserts.antt =====
-- Upsert, UpsertMany and CallProcedure's SQL (libs/databases/dao.go).
use mathlib.Core.List.{zip, zip_with}
use top_lib.Prelude.{
  ℕ, ◌+◌, ◌<◌, String, Option, none, some, List, [], ◌∷◌, map, length, ◌≡◌, ◌≢◌, refl, sym, ◌∙◌,
  arith, lt→ltb,
}
use top_lib.Prelude.Text.{str_append, str_append_assoc, str_append-nil, join, join_rest}
use top_lib.Errors.Effect.{Exit, returns, panics, Action, pure, continue, ◌>>=◌}
use top_lib.Databases.Dao.{
  OrmBaseDao, upsert, upsert_loop, upsert_many, placeholders_from, call_sql,
}

abbrev pub sum : List ℕ → ℕ
sum [] = 0
sum (n ∷ ns) = n + sum ns

abbrev cons_count : {E : Type 0} → ℕ → List ℕ × Option E → List ℕ × Option E
cons_count n (ns, err) = (n ∷ ns, err)

-- A total plus the counts, beside the error.
abbrev pub total_of : {E : Type 0} → ℕ → List ℕ × Option E → ℕ × Option E
total_of total (ns, err) = (total + sum ns, err)

module _ {S B I E : Type 0} where
  -- Upserts one after the other up to the first error: the count of each that succeeds, and the
  -- error.
  unfoldable pub upsert_each : OrmBaseDao S B I E → List (B × B) → Action S (List ℕ × Option E)
  upsert_each m [] = pure ([], none)
  upsert_each m ((where', bean) ∷ pairs) = upsert m where' bean >>= λ (affected, err). elim err [
    | some err ↦ pure ([], some err)
    | none ↦ upsert_each m pairs >>= λ r. pure (cons_count affected r)
  ]

module _ {S B I E : Type 0} where
  regroup :
      (m : OrmBaseDao S B I E) (total n : ℕ) (pairs : List (B × B)) (s : S)
      → (upsert_each m pairs >>= λ r. pure (total_of (total + n) r)) s
        ≡ ((upsert_each m pairs >>= λ r. pure (cons_count n r)) >>= λ r. pure (total_of total r)) s
  regroup m total n pairs s = ground arith

  upsert_loop-upsert_each :
      (m : OrmBaseDao S B I E) (total : ℕ) (wheres beans : List B) (s : S)
      → length wheres ≡ length beans
      → upsert_loop m total wheres beans s
        ≡ (upsert_each m (zip wheres beans) >>= λ r. pure (total_of total r)) s
  unfolding upsert_loop upsert_each zip zip_with
  upsert_loop-upsert_each m total [] [] s same = ground arith
  upsert_loop-upsert_each m total [] (b ∷ beans) s same = absurd (omega arith)
  upsert_loop-upsert_each m total (w ∷ wheres) [] s same = absurd (omega arith)
  upsert_loop-upsert_each m total (w ∷ wheres) (b ∷ beans) s same =
      let out : Exit (ℕ × Option E) × S = upsert m w b s in
      step out.0 out.1 (λ n s₁. upsert_loop-upsert_each m (total + n) wheres beans s₁ (omega arith))
    where
      step :
          (r : Exit (ℕ × Option E)) (s₁ : S)
          → ((n : ℕ) (s : S)
              → upsert_loop m (total + n) wheres beans s
                ≡ (upsert_each m (zip wheres beans) >>= λ r. pure (total_of (total + n) r)) s)
          → continue r
              (λ (affected, err). elim err [
                | some err ↦ pure (total, some err)
                | none ↦ upsert_loop m (total + affected) wheres beans
              ])
              s₁
            ≡ ((λ (s : S).
                    continue r
                      (λ (affected, err). elim err [
                        | some err ↦ pure ([], some err)
                        | none ↦
                            upsert_each m (zip wheres beans) >>= λ r. pure (cons_count affected r)
                      ])
                      s)
                  >>= λ r. pure (total_of total r))
                s₁
      step (panics v) s₁ ih = refl
      step (returns (n, some e)) s₁ ih = ground arith
      step (returns (n, none)) s₁ ih = ih n s₁ ∙ regroup m total n (zip wheres beans) s₁

  -- For lists of one length, UpsertMany upserts the pairs in order up to the first error, which it
  -- gives, and its count is the sum over the upserts before; lists of different lengths give the
  -- mismatch error, and no statement is run.
  pub upsert_many-upsert_each :
      (mismatch : E) (m : OrmBaseDao S B I E) (wheres beans : List B) (s : S)
      → (length wheres ≡ length beans
          → upsert_many mismatch m wheres beans s
            ≡ (upsert_each m (zip wheres beans) >>= λ r. pure (total_of 0 r)) s)
        × (length wheres ≢ length beans
            → upsert_many mismatch m wheres beans s ≡ (returns (0, some mismatch), s))
  unfolding upsert_many
  upsert_many-upsert_each mismatch m wheres beans s = (
    λ same. ground (arith, upsert_loop-upsert_each m 0 wheres beans s same),
    λ differ. ground arith,
  )

placeholders_rest :
    (i : ℕ) (args : List String) (s : String)
    → 0 < i
    → placeholders_from i args s ≡ str_append s (join_rest ", " (map (λ _. "?") args))
unfolding placeholders_from join_rest
placeholders_rest i [] s pos = sym (str_append-nil s)
placeholders_rest i (a ∷ args) s pos = rw (lt→ltb 0 i pos) (
    placeholders_rest (i + 1) args (str_append (str_append s ", ") "?") (omega arith)
    ∙ str_append_assoc (str_append s ", ") "?" _
    ∙ str_append_assoc s ", " _)

-- The SQL of CallProcedure names the procedure, with one ? for each argument, set off by commas.
pub call_sql-join :
    (proc : String) (args : List String)
    → call_sql proc args
      ≡ str_append "CALL "
          (str_append proc (str_append "(" (str_append (join (map (λ _. "?") args) ", ") ")")))
unfolding call_sql join placeholders_from
call_sql-join proc [] = refl
call_sql-join proc (a ∷ args) = rw (placeholders_rest 1 args "?" (omega arith))
