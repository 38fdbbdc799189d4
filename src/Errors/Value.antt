-- ===== src/Errors/Value.antt =====
-- Go's error values, as libs/errors makes and tests them.
use top_lib.Prelude.{ℕ, String, Bool, false, ◌||◌, ◌==◌, Option, none, some, List, [], ◌∷◌}
use top_lib.Prelude.Int.{ℤ}

-- Every error value here is a pointer: its number is the address, which `==` compares.
mutual
  pub data Error : Type 0 where
    -- An error of the standard library or a third party: its text, and what `Unwrap` gives.
    foreign : ℕ → String → Errors → Error
    -- *StackError: code, err, extraErrs.
    stack : ℕ → ℤ → Nilable → Errors → Error
    -- *wrappedError: Outer, Inner.
    wrapped : ℕ → Nilable → Nilable → Error

  pub data Errors : Type 0 where
    end : Errors
    also : Nilable → Errors → Errors

  -- A value of the interface type `error`.
  pub data Nilable : Type 0 where
    nil : Nilable
    error : Error → Nilable

abbrev pub address : Error → ℕ
address (foreign p s us) = p
address (stack p c e xs) = p
address (wrapped p o i) = p

-- errors.Is for a target that is not nil: the value itself, or what its `Unwrap` gives. Neither
-- *StackError nor *wrappedError has an `Unwrap` method.
unfoldable mutual
  pub is_target : Error → Error → Bool
  is_target (foreign p s us) target = p == address target || is_target_any us target
  is_target (stack p c e xs) target = p == address target
  is_target (wrapped p o i) target = p == address target

  pub is_target_any : Errors → Error → Bool
  is_target_any end target = false
  is_target_any (also e us) target = is_target_nilable e target || is_target_any us target

  pub is_target_nilable : Nilable → Error → Bool
  is_target_nilable nil target = false
  is_target_nilable (error e) target = is_target e target

-- Error(): a *StackError shows its `err`, a *wrappedError its `Outer`. `none` is the panic of
-- a call on a nil error.
unfoldable mutual
  pub error_text : Error → Option String
  error_text (foreign p s us) = some s
  error_text (stack p c e xs) = nilable_text e
  error_text (wrapped p o i) = nilable_text o

  pub nilable_text : Nilable → Option String
  nilable_text nil = none
  nilable_text (error e) = error_text e

-- The texts of a list of errors, in order.
abbrev pub cons_text : Option String → Option (List String) → Option (List String)
cons_text none ts = none
cons_text (some t) none = none
cons_text (some t) (some ts) = some (t ∷ ts)

unfoldable pub texts : Errors → Option (List String)
unfolding nilable_text
texts end = some []
texts (also e es) = cons_text (nilable_text e) (texts es)

-- append(es, more...)
unfoldable pub append : Errors → Errors → Errors
append end more = more
append (also e es) more = also e (append es more)
