-- ===== src/Errors/StackError.antt =====
-- libs/errors/error.go, with.go, warp.go and the conversions of error_utils.go.
pub mod Messages
use top_lib.Prelude.{ℕ, String, Bool, true, false, Option, none, some, List, [], ◌∷◌, if◌then◌else◌}
use top_lib.Prelude.Int.{ℤ}
use top_lib.Prelude.Text.{join}
use top_lib.Errors.Value.{
  Error, foreign, stack, wrapped, Errors, end, also, Nilable, nil, error, nilable_text, texts,
  append,
}

-- A *StackError, with the address of the struct.
pub record StackError : Type 0 where
  pub pointer : ℕ
  pub code : ℤ
  pub err : Nilable
  pub extra_errs : Errors

-- The *StackError as a value of type `error`.
abbrev pub as_error : StackError → Error
as_error c = stack c.pointer c.code c.err c.extra_errs

-- The functions of github.com/pkg/errors that the package calls: `new p s` makes an error at p.
pub record PkgErrors : Type 0 where
  pub new : ℕ → String → Error
  pub with_stack : Nilable → Nilable
  pub wrap : Nilable → String → Nilable

module _ (pkg : PkgErrors) where
  -- New: the addresses are those of the inner error and of the struct.
  unfoldable pub new : ℕ → ℕ → String → ℤ → Errors → StackError
  new q p s code extras = record {
    pointer = p;
    code = code;
    err = error (pkg.new q s);
    extra_errs = extras;
  }

  unfoldable pub with_stack : ℕ → Nilable → ℤ → Errors → StackError
  with_stack p err code extras = record {
    pointer = p;
    code = code;
    err = pkg.with_stack err;
    extra_errs = extras;
  }

  unfoldable pub with_message : ℕ → Nilable → String → ℤ → Errors → StackError
  with_message p err msg code extras = record {
    pointer = p;
    code = code;
    err = pkg.wrap (pkg.with_stack err) msg;
    extra_errs = extras;
  }

unfoldable pub append_errors : StackError → Errors → StackError
append_errors c extras = record c { extra_errs = append c.extra_errs extras }

unfoldable pub exist_extra : StackError → Bool
exist_extra c = elim c.extra_errs [ end ↦ false | also e es ↦ true ]

-- `none` is a panic.
abbrev joined : Option (List String) → Option String
joined none = none
joined (some ts) = some (join ts "\n")

unfoldable pub to_str_by_extra : StackError → Option String
to_str_by_extra c = joined (texts (also c.err c.extra_errs))

unfoldable pub msg : StackError → Option String
unfolding exist_extra to_str_by_extra
msg c = if exist_extra c then to_str_by_extra c else nilable_text c.err

-- Convert and Assert: the type switch on *StackError.
unfoldable pub convert : Nilable → Option StackError
convert nil = none
convert (error (foreign p s us)) = none
convert (error (wrapped p o i)) = none
convert (error (stack p c e xs)) = some (record { pointer = p; code = c; err = e; extra_errs = xs })

unfoldable pub assert : Nilable → Bool
assert nil = false
assert (error (foreign p s us)) = false
assert (error (wrapped p o i)) = false
assert (error (stack p c e xs)) = true

-- Wrap
unfoldable pub wrap : ℕ → Nilable → Nilable → Error
wrap p outer inner = wrapped p outer inner

unfoldable pub wrapped_errors : Nilable → Nilable → Errors
wrapped_errors outer inner = also outer (also inner end)
