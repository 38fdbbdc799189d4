-- ===== src/Conf/Tests.antt =====
-- Examples of libs/conf, over files whose values are texts and maps.
use top_lib.Prelude.{String, Option, none, some, List, [], ◌∷◌, inl, inr, ◌≡◌, refl}
use top_lib.Prelude.Assoc.{lookup}
use top_lib.Prelude.Split.{codes}
use top_lib.Errors.Value.{foreign, end}
use top_lib.Errors.Effect.{returns, panics, other}
use top_lib.Conf.{Decoder, State, app_version_missing, value_at, init, get}
use top_lib.Conf.Once.{get-settles}

data Value : Type 0 where
  text : String → Value
  globals : List (String × String) → Value

abbrev entries : List (String × String) → List (String × Value)
entries [] = []
entries ((key, value) ∷ rest) = (key, text value) ∷ entries rest

abbrev map_of : Value → Option (List (String × Value))
map_of (text s) = none
map_of (globals m) = some (entries m)

abbrev text_of : Value → Option String
text_of (text s) = some s
text_of (globals m) = none

-- A file that lacks the version of the program.
abbrev decoder : Decoder Value
decoder = record {
  decode_file =
      λ path. (("global", globals (("app_name", "shop") ∷ [])) ∷ ("port", text "80") ∷ [], none);
  as_map = map_of;
  as_string = text_of;
  marshal = λ v. elim v [ text s ↦ inr (codes s) | globals m ↦ inl (foreign 1 "unsupported" end) ];
}

abbrev unread : State Value
unread = record { config = none; environment = [] }

init_test : (init decoder unread).0 ≡ panics (other app_version_missing)
unfolding init lookup
init_test = refl

get_test : (get decoder "port" (get decoder "port" unread).1).0 ≡ returns (some (codes "80"))
unfolding get init lookup
get_test = refl

get-settles_example :
    let s = (get decoder "port" unread).1 in
    get decoder "port" s ≡ (returns (value_at decoder "port" s.config), s)
get-settles_example = get-settles decoder "port" "port" unread
