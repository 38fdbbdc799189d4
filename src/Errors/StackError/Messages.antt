-- ===== src/Errors/StackError/Messages.antt =====
-- The text that a *StackError shows, and what errors.Is sees of it (libs/errors/error.go).
use mathlib.Core.List.{◌++◌}
use mathlib.Core.Option.{some-injective}
use top_lib.Prelude.{
  ℕ, String, ◌≡◌, ◌≢◌, refl, sym, ap, subst, ◌↔◌, ◌∙◌, true, false, Option, none, some, List, [],
  ◌∷◌, arith, All,
}
use top_lib.Prelude.Int.{ℤ}
use top_lib.Prelude.Text.{join, join-join, str_append-nil}
use top_lib.Errors.Value.{
  Error, stack, Errors, end, also, Nilable, nil, error, nilable_text, texts, append, address,
  is_target, cons_text,
}
use top_lib.Errors.Chain.{CatchHandler, match, matches}
use top_lib.Errors.Chain.Dispatch.{Misses}
use top_lib.Errors.StackError.{
  StackError, PkgErrors, as_error, append_errors, msg, joined, with_stack, with_message, convert,
  assert,
}

abbrev append_texts : Option (List String) → Option (List String) → Option (List String)
append_texts none ts = none
append_texts (some ss) none = none
append_texts (some ss) (some ts) = some (ss ++ ts)

texts-append : (es more : Errors) → texts (append es more) ≡ append_texts (texts es) (texts more)
unfolding texts append
texts-append end more = ground arith
texts-append (also e es) more = ground (arith, texts-append es more)

joined_one : (t : Option String) → t ≡ joined (cons_text t (some []))
unfolding join
joined_one none = refl
joined_one (some t) = rw (str_append-nil t)

msg_parts :
    (p : ℕ) (code : ℤ) (e : Nilable) (xs : Errors)
    → msg (record { pointer = p; code = code; err = e; extra_errs = xs })
      ≡ joined (cons_text (nilable_text e) (texts xs))
unfolding msg texts
msg_parts p code e end = joined_one (nilable_text e)
msg_parts p code e (also x xs) = refl

-- Msg is the text of `err` and of the extra errors, one on each line, also where there are none.
msg-joined : (c : StackError) → msg c ≡ joined (cons_text (nilable_text c.err) (texts c.extra_errs))
msg-joined c = msg_parts c.pointer c.code c.err c.extra_errs

more_lines :
    (t : Option String) (ss : Option (List String)) (m : String) (ts : List String)
    → joined (cons_text t ss) ≡ some m
    → joined (cons_text t (append_texts ss (some ts))) ≡ some (join (m ∷ ts) "\n")
more_lines none ss m ts h = cc
more_lines (some t) none m ts h = cc
more_lines (some t) (some ss) m ts h =
    subst (λ k. some (join (t ∷ (ss ++ ts)) "\n") ≡ some (join (k ∷ ts) "\n"))
      (some-injective _ _ h) (ap some (sym (join-join "\n" t ss ts)))

-- AppendErrors adds a line to Msg for each error that it appends, behind the lines that are there.
pub msg-append_errors :
    (c : StackError) (more : Errors) (m : String) (ts : List String)
    → msg c ≡ some m
    → texts more ≡ some ts
    → msg (append_errors c more) ≡ some (join (m ∷ ts) "\n")
unfolding append_errors
msg-append_errors c more m ts hm ht =
    rw (msg-joined (append_errors c more), texts-append c.extra_errs more, ht)
      (more_lines (nilable_text c.err) (texts c.extra_errs) m ts (sym (msg-joined c) ∙ hm))

stack_misses :
    (n : Nilable) (p : ℕ) (code : ℤ) (e : Nilable) (xs : Errors)
    → ((target : Error) → n ≡ error target → address target ≢ p)
    → matches n (stack p code e xs) ≡ false
unfolding is_target
stack_misses nil p code e xs h = refl
stack_misses (error target) p code e xs h = ground (arith, h target refl)

-- errors.Is sees nothing behind a *StackError: a chain whose catch handlers were all made for
-- errors at other addresses catches neither the *StackError nor the error inside it.
pub as_error-Misses :
    {W : Type 0} (c : StackError) (hs : List (CatchHandler W))
    → All (λ h. (target : Error) → h.err ≡ error target → address target ≢ c.pointer) hs
    → Misses (as_error c) hs
unfolding match
as_error-Misses c [] others = tt
as_error-Misses c (h ∷ hs) others =
    (stack_misses h.err c.pointer c.code c.err c.extra_errs others.0, as_error-Misses c hs others.1)

-- Convert and Assert recognise exactly the values that are a *StackError themselves: Convert
-- gives back the struct of which Assert says yes.
convert-assert :
    (e : Nilable) (c : StackError)
    → (convert e ≡ some c ↔ e ≡ error (as_error c)) × (assert e ≡ true ↔ convert e ≢ none)
unfolding convert assert
convert-assert nil c = ground arith
convert-assert (error (stack p k e xs)) c = ground arith
convert-assert (error _) c = ground arith

-- WithStack and WithMessage of a nil error make an error that is not nil, and whose Msg panics.
msg-with_stack_nil :
    (pkg : PkgErrors) (p : ℕ) (text : String) (code : ℤ) (extras : Errors)
    → pkg.with_stack nil ≡ nil
    → pkg.wrap nil text ≡ nil
    → (msg (with_stack pkg p nil code extras) ≡ none)
      × (msg (with_message pkg p nil text code extras) ≡ none)
unfolding with_stack with_message nilable_text
msg-with_stack_nil pkg p text code extras h k = (
  msg-joined (with_stack pkg p nil code extras) ∙ rw h,
  msg-joined (with_message pkg p nil text code extras) ∙ rw (h, k),
)
