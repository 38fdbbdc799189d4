-- ===== src/Errors/Tests.antt =====
-- Examples of libs/errors, over a state that counts.
use top_lib.Prelude.{
  ℕ, ◌+◌, ◌-◌, String, Option, none, some, List, [], ◌∷◌, map, length, take, drop, ◌≡◌, ◌≢◌, refl,
  arith,
}
use top_lib.Prelude.Int.{pos}
use top_lib.Errors.Value.{Error, foreign, stack, Errors, end, also, error, address}
use top_lib.Errors.Effect.{Panic, raised, returns, panics, Action, call_if_set, deferring}
use top_lib.Errors.TryCatch.{try_catch}
use top_lib.Errors.Chain.{CatchHandler, TryHandler, try_do}
use top_lib.Errors.Chain.Dispatch.{Chosen, try_do-Chosen}
use top_lib.Errors.StackError.{StackError}
use top_lib.Errors.Trace.{Tracer, marshal_stack}
use top_lib.Errors.Trace.Frames.{AlwaysWrites, entity_of, marshal_stack-frames}

abbrev boom : Error
boom = foreign 1 "boom" end

-- The body counts one and panics with the error; the handlers add 10 and 100.
abbrev failing : Action ℕ (Unit {0})
failing n = (panics (raised boom), n + 1)

abbrev working : Action ℕ (Unit {0})
working n = (returns tt, n + 1)

abbrev ten : Error → Action ℕ (Unit {0})
ten e n = (returns tt, n + 10)

abbrev hundred : Action ℕ (Unit {0})
hundred n = (returns tt, n + 100)

abbrev on_panic : Panic → Action ℕ (Unit {0})
on_panic v n = (returns tt, n + 10)

abbrev chain : Action ℕ (Unit {0}) → TryHandler ℕ
chain body = record {
  handler = body;
  binding_catch_handler_slice = (record { err = error boom; handler = ten }) ∷ [];
  binding_default_catch_handler = none;
  binding_try_catch_else_handler = none;
  finally_handler = none;
}

chain_test : try_do 0 (chain failing) 0 ≡ (returns tt, 11)
unfolding try_do try_catch
chain_test = refl

try_do-Chosen_example :
    (m : Action ℕ (Unit {0})) × Chosen (chain failing) boom m
    × (try_do 0 (chain failing) 0 ≡ deferring (call_if_set none) m 1)
unfolding try_catch
try_do-Chosen_example = try_do-Chosen 0 (chain failing) 0 1 boom refl

abbrev no_catch : Option (Panic → Action ℕ (Unit {0}))
no_catch = none

abbrev no_finally : Option (Action ℕ (Unit {0}))
no_finally = none

abbrev reads_five : Action ℕ ℕ
reads_five n = (panics (raised boom), n + 5)

abbrev plain_error : StackError
plain_error = record { pointer = 5; code = pos 40; err = error boom; extra_errs = end }

abbrev bang : Errors
bang = also (error (foreign 2 "bang" end)) end

abbrev ten_handler : CatchHandler ℕ
ten_handler = record { err = error boom; handler = ten }

elsewhere : (target : Error) → error boom ≡ error target → address target ≢ 5
elsewhere (foreign p s us) e = λ five. absurd (ground (arith, e, five))
elsewhere (stack p c i xs) e = absurd (ground (arith, e))
elsewhere (Error.wrapped p o i) e = absurd (ground (arith, e))

-- A stack of frames that are their file's names.
abbrev tracer : Tracer
tracer = record {
  Frame = String;
  stack_trace = λ e. some ("a" ∷ "b" ∷ "c" ∷ "d" ∷ []);
  format_s = λ f. f ∷ [];
  format_d = λ f. "1" ∷ [];
  format_n = λ f. "fn" ∷ [];
}

tracer-AlwaysWrites : AlwaysWrites tracer
tracer-AlwaysWrites = record {
  writes_s = λ f e. absurd (ground (arith, e));
  writes_d = λ f e. absurd (ground (arith, e));
  writes_n = λ f e. absurd (ground (arith, e));
}

abbrev frames : List String
frames = "a" ∷ "b" ∷ "c" ∷ "d" ∷ []

marshal_stack-frames_example :
    marshal_stack tracer (error boom)
    ≡ some (map (entity_of tracer) (take (length frames - 3) (drop 1 frames)))
marshal_stack-frames_example =
    marshal_stack-frames tracer tracer-AlwaysWrites (error boom) frames refl
