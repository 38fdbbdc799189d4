-- ===== src/Errors/Trace.antt =====
-- libs/errors/error_stack.go, and ToStr and ToArr of error_utils.go.
pub mod Frames
use top_lib.Prelude.{
  ℕ, suc, ◌+◌, ◌-◌, String, Bool, ◌||◌, Option, none, some, List, [], ◌∷◌, map, length, leb, ◌==◌,
  if◌then◌else◌,
}
use top_lib.Prelude.Text.{str_append}
use top_lib.Errors.Value.{Nilable, nilable_text}

pub record StackSourceEntity : Type 0 where
  pub file : String
  pub line_code : String
  pub func_name : String

-- github.com/pkg/errors: the stack trace of an error that has one, and the texts that
-- Frame.Format writes for the verbs s, d and n, in order.
pub record Tracer : Type 1 where
  pub Frame : Type 0
  pub stack_trace : Nilable → Option (List Frame)
  pub format_s : Frame → List String
  pub format_d : Frame → List String
  pub format_n : Frame → List String

-- state.Write keeps the last text that is written.
unfoldable pub written : String → List String → String
written b [] = b
written b (s ∷ ss) = written s ss

module _ (t : Tracer) where
  open t use {Frame, stack_trace, format_s, format_d, format_n}

  -- The loop of MarshalStack: the index, the number of frames and the `state`'s buffer.
  unfoldable pub marshal_loop : ℕ → ℕ → String → List Frame → List StackSourceEntity
  unfolding written
  marshal_loop idx size b [] = []
  marshal_loop idx size b (frame ∷ st) =
      let file = written b (format_s frame) in
      let line_code = written file (format_d frame) in
      let func_name = written line_code (format_n frame) in
      let entity : StackSourceEntity = record {
        file = file;
        line_code = line_code;
        func_name = func_name;
      } in
      let skipped = marshal_loop (idx + 1) size b st in
      let rest = marshal_loop (idx + 1) size func_name st in
      if idx == 0 || leb (size - idx) 2 then skipped else entity ∷ rest

  unfoldable pub marshal_stack : Nilable → Option (List StackSourceEntity)
  unfolding marshal_loop
  marshal_stack err = elim (stack_trace err) [
    | none ↦ none
    | some st ↦ some (marshal_loop 0 (length st) "" st)
  ]

-- fmt.Sprintf("file:%s, line:%s, func:%s", …)
unfoldable pub entity_text : StackSourceEntity → String
entity_text e = str_append "file:" (
    str_append e.file
      (str_append ", line:" (str_append e.line_code (str_append ", func:" e.func_name))))

-- s += …
unfoldable pub concat_from : String → List String → String
concat_from s [] = s
concat_from s (t ∷ ts) = concat_from (str_append s t) ts

abbrev pub singleton? : Option String → Option (List String)
singleton? none = none
singleton? (some s) = some (s ∷ [])

module _ (t : Tracer) where
  -- `none` is a panic.
  unfoldable pub to_str : Nilable → Option String
  unfolding marshal_stack entity_text concat_from nilable_text
  to_str err = elim (marshal_stack t err) [
    | none ↦ nilable_text err
    | some stacks ↦ some (concat_from "" (map entity_text stacks))
  ]

  unfoldable pub to_arr : Nilable → Option (List String)
  unfolding marshal_stack entity_text nilable_text
  to_arr err = elim (marshal_stack t err) [
    | none ↦ singleton? (nilable_text err)
    | some stacks ↦ some (map entity_text stacks)
  ]
