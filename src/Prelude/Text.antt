-- ===== src/Prelude/Text.antt =====
-- Texts: strings.Join and string concatenation.
use Prim.Native.String.{◌++◌}
use text.Mathlib.TextLemmas.{append_assoc, append-nil, nil-append}
use top_lib.Prelude.{String, ◌≡◌, sym, ap, ◌∙◌, List, [], ◌∷◌}
use mathlib.Core.List.{◌++◌ as list_append}

-- s + t
abbrev pub str_append : String → String → String
str_append s t = s ++ t

pub str_append_assoc :
    (s t u : String) → str_append (str_append s t) u ≡ str_append s (str_append t u)
str_append_assoc = append_assoc

pub str_append-nil : (s : String) → str_append s "" ≡ s
str_append-nil = append-nil

pub str_nil-append : (s : String) → str_append "" s ≡ s
str_nil-append = nil-append

-- The separator before each of the texts.
unfoldable pub join_rest : String → List String → String
join_rest sep [] = ""
join_rest sep (s ∷ ss) = str_append sep (str_append s (join_rest sep ss))

-- strings.Join(ss, sep)
unfoldable pub join : List String → String → String
unfolding join_rest
join [] sep = ""
join (s ∷ ss) sep = str_append s (join_rest sep ss)

pub join_rest-append :
    (sep : String) (ss ts : List String)
    → join_rest sep (list_append ss ts) ≡ str_append (join_rest sep ss) (join_rest sep ts)
unfolding join_rest
join_rest-append sep [] ts = sym (nil-append _)
join_rest-append sep (s ∷ ss) ts = rw (join_rest-append sep ss ts) (
    sym (
      append_assoc sep (str_append s (join_rest sep ss)) (join_rest sep ts)
      ∙ ap (str_append sep) (append_assoc s (join_rest sep ss) (join_rest sep ts))))

-- A text that is itself joined joins with more as the whole list does.
pub join-join :
    (sep s : String) (ss ts : List String)
    → join (join (s ∷ ss) sep ∷ ts) sep ≡ join (s ∷ list_append ss ts) sep
unfolding join
join-join sep s ss ts =
    rw (join_rest-append sep ss ts) (append_assoc s (join_rest sep ss) (join_rest sep ts))
