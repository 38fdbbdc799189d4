-- ===== src/Errors/Trace/Frames.antt =====
-- Which frames of a stack trace are shown (libs/errors/error_stack.go, error_utils.go).
use mathlib.Core.Option.{some-injective}
use top_lib.Prelude.{
  ℕ, suc, ◌+◌, ◌-◌, String, ◌≡◌, ◌≢◌, ◌<◌, refl, sym, ap, subst, ◌∙◌, true, false, ◌||◌, Option,
  none, some, List, [], ◌∷◌, map, length, arith, take, drop, leb, ◌==◌,
}
use top_lib.Prelude.Text.{str_append, str_append_assoc, str_append-nil, str_nil-append}
use top_lib.Errors.Value.{Nilable, nilable_text}
use top_lib.Errors.Trace.{
  StackSourceEntity, Tracer, written, marshal_loop, marshal_stack, to_str, to_arr, concat_from,
  entity_text, singleton?,
}

written_any : (b : String) (ss : List String) → ss ≢ [] → written b ss ≡ written "" ss
unfolding written
written_any b [] h = absurd (h refl)
written_any b (s ∷ ss) h = refl

module _ (t : Tracer) where
  open t use {Frame, stack_trace, format_s, format_d, format_n}

  -- Frame.Format writes something under each of the verbs.
  pub record AlwaysWrites : Type 0 where
    pub writes_s : (f : Frame) → format_s f ≢ []
    pub writes_d : (f : Frame) → format_d f ≢ []
    pub writes_n : (f : Frame) → format_n f ≢ []

  -- What the last text written for a frame says of it.
  abbrev pub entity_of : Frame → StackSourceEntity
  entity_of f = record {
    file = written "" (format_s f);
    line_code = written "" (format_d f);
    func_name = written "" (format_n f);
  }

  skip_step :
      (idx size : ℕ) (b : String) (f : Frame) (st : List Frame)
      → (idx == 0 || leb (size - idx) 2) ≡ true
      → marshal_loop t idx size b (f ∷ st) ≡ marshal_loop t (idx + 1) size b st
  unfolding marshal_loop
  skip_step idx size b f st skip = rw skip

  show_step :
      (h : AlwaysWrites) (idx size : ℕ) (b : String) (f : Frame) (st : List Frame)
      → (idx == 0 || leb (size - idx) 2) ≡ false
      → (b' : String) × (marshal_loop t idx size b (f ∷ st)
          ≡ entity_of f ∷ marshal_loop t (idx + 1) size b' st)
  unfolding marshal_loop
  show_step h idx size b f st show =
      let file = written b (format_s f) in
      let line_code = written file (format_d f) in
      (
        written line_code (format_n f),
        rw show (
            ground (
              arith,
              written_any b (format_s f) (h.writes_s f),
              written_any file (format_d f) (h.writes_d f),
              written_any line_code (format_n f) (h.writes_n f),
            )),
      )

  marshal_loop-inner :
      (h : AlwaysWrites) (idx size : ℕ) (b : String) (st : List Frame)
      → 0 < idx
      → size ≡ idx + length st
      → marshal_loop t idx size b st ≡ map entity_of (take (length st - 2) st)
  marshal_loop-inner h idx size b [] inner total = unfold marshal_loop in refl
  marshal_loop-inner h idx size b (f ∷ []) inner total =
      skip_step idx size b f [] (ground arith) ∙ unfold marshal_loop in refl
  marshal_loop-inner h idx size b (f ∷ g ∷ []) inner total =
      skip_step idx size b f (g ∷ []) (ground arith)
      ∙ skip_step (idx + 1) size b g [] (ground arith)
      ∙ unfold marshal_loop in refl
  marshal_loop-inner h idx size b (f ∷ g ∷ k ∷ st) inner total =
      let (b', shown) = show_step h idx size b f (g ∷ k ∷ st) (ground arith) in
      let enough : suc (suc (suc (length st))) - 2 ≡ suc (suc (suc (length st)) - 2) =
        omega arith in
      rw enough (
        shown
        ∙ ap (◌∷◌ (entity_of f))
            (marshal_loop-inner h (idx + 1) size b' (g ∷ k ∷ st) (omega arith) (omega arith)))

  -- MarshalStack shows the frames but the first and the last two, each by what was written last
  -- for it: no frame shows what was left in the buffer by another.
  pub marshal_stack-frames :
      (h : AlwaysWrites) (err : Nilable) (st : List Frame)
      → stack_trace err ≡ some st
      → marshal_stack t err ≡ some (map entity_of (take (length st - 3) (drop 1 st)))
  unfolding marshal_stack
  marshal_stack-frames h err st traced = rw (traced, marshal_stack) (ap some (from_first st))
    where
      from_first :
          (st : List Frame)
          → marshal_loop t 0 (length st) "" st ≡ map entity_of (take (length st - 3) (drop 1 st))
      from_first [] = refl
      from_first (f ∷ st) =
          let less : suc (length st) - 3 ≡ length st - 2 = omega arith in
          rw less (
            skip_step 0 (suc (length st)) "" f st refl
            ∙ marshal_loop-inner h (0 + 1) (suc (length st)) "" st (omega arith) (omega arith))

-- The texts of a list, one right after the other.
abbrev pub concat : List String → String
concat [] = ""
concat (s ∷ ss) = str_append s (concat ss)

concat_from-concat : (s : String) (ss : List String) → concat_from s ss ≡ str_append s (concat ss)
unfolding concat_from
concat_from-concat s [] = sym (str_append-nil s)
concat_from-concat s (t ∷ ts) =
    concat_from-concat (str_append s t) ts ∙ str_append_assoc s t (concat ts)

-- Where ToArr gives the texts ts of the frames of an error, ToStr gives these texts one right
-- after the other, with nothing between them; an error without a stack trace gives its own text.
to_str-to_arr :
    (t : Tracer) (err : Nilable) (ts : List String)
    → to_arr t err ≡ some ts
    → to_str t err ≡ some (concat ts)
unfolding to_str to_arr
to_str-to_arr t err ts h = from_parts (marshal_stack t err) (nilable_text err) h
  where
    from_parts :
        (m : Option (List StackSourceEntity)) (own : Option String)
        → (elim m [ none ↦ singleton? own | some es ↦ some (map entity_text es) ]) ≡ some ts
        → (elim m [ none ↦ own | some es ↦ some (concat_from "" (map entity_text es)) ])
          ≡ some (concat ts)
    from_parts none none h = cc
    from_parts none (some s) h =
        subst (λ k. some s ≡ some (concat k)) (some-injective _ _ h)
          (ap some (sym (str_append-nil s)))
    from_parts (some es) own h =
        subst (λ k. some (concat_from "" (map entity_text es)) ≡ some (concat k))
          (some-injective _ _ h)
          (ap some (concat_from-concat "" (map entity_text es) ∙ str_nil-append _))
