-- ===== src/Logs/Tests.antt =====
-- Examples of libs/logs.
use top_lib.Prelude.{String, none, List, [], ◌∷◌, ◌≡◌, refl}
use top_lib.Prelude.Int.{pos, negsuc}
use top_lib.Prelude.Split.{codes, split_on}
use top_lib.Logs.{
  to_int8, level_of, Logs, Arg, value, slice, init, get_logger, written, info, debug, debugf,
  stacktrace_lines,
}

abbrev silent : Logs
silent = record { log = none; lines = [] }

level_of_test : level_of (pos 6) ≡ pos 0
unfolding level_of to_int8
level_of_test = refl

wrapped_test : level_of (negsuc 253) ≡ pos 2
unfolding level_of to_int8
wrapped_test = refl

-- Before Init nothing is written; after GetLogger, lines of every level.
silent_test : (info "a" silent).lines ≡ []
unfolding written
silent_test = refl

get_logger_test : (debug "b" (get_logger "http" silent).1).lines ≡ (negsuc 0, "b") ∷ []
unfolding get_logger init level_of to_int8 written
get_logger_test = refl

abbrev shown : List (Arg String) → String
shown [] = "nothing"
shown (value v ∷ []) = v
shown (slice vs ∷ []) = "a slice"
shown _ = "many"

debugf_test :
    (debugf (λ format. shown) "%s" ("b" ∷ []) (get_logger "http" silent).1).lines
    ≡ (negsuc 0, "a slice") ∷ []
unfolding debugf get_logger init level_of to_int8 written
debugf_test = refl

stacktrace_lines_test : stacktrace_lines (codes "a\nb\n") ≡ codes "a" ∷ codes "b" ∷ []
unfolding stacktrace_lines split_on
stacktrace_lines_test = refl
