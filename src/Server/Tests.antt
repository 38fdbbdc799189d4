-- ===== src/Server/Tests.antt =====
-- Examples of libs/server: the middleware, the handlers, the clients and their manager.
use top_lib.Prelude.{
  Option, ◌↔◌, true, none, str_eq, if◌then◌else◌, ℕ, zero, suc, String, some, List, [], ◌∷◌, ◌⊎◌,
  inr, ◌≡◌, refl, arith,
}
use top_lib.Prelude.Assoc.{lookup, insert}
use top_lib.Prelude.Split.{split_on}
use top_lib.Jwt.Claims.{text, signing_method_hmac, Parse, jwt_decrypt}
use top_lib.Utils.Address.{is_inner_ip, net_aton}
use top_lib.Server.Access.{add, Request, unauthorized, passed_on, Backend, access}
use top_lib.Server.Access.Admission.{Admits, access-Admits}
use top_lib.Errors.Value.{Error, foreign, end}
use top_lib.Server.Client.{done, crashed, Client, new_client}
use top_lib.Server.Client.Pumps.{Reading, message, read_failed, taken, closed}
use top_lib.Server.Handler.{Handler, new_handler, called, serve, serve_each}
use top_lib.Server.Handler.Requests.{serve-keeps_field}
use top_lib.Server.Manager.{
  ClientManager, new_client_manager, register, unregister, kick_client_by_session_id, registering,
  broadcasting, start,
}
use top_lib.Server.Manager.Serving.{Serves, Keeps, register-Serves}
use top_lib.Server.Manager.Holds.{AllFit, start-Keeps}
use top_lib.Server.Manager.Reconnect.{reconnect_crashes}

-- Two connections of one user: the objects 0 and 1 under two sessions, the others under one more.
abbrev objects : ℕ → Client
objects zero = new_client "ann" "s0"
objects (suc zero) = new_client "ann" "s1"
objects (suc (suc n)) = new_client "ann" "s2"

abbrev empty_manager : ClientManager
empty_manager = new_client_manager objects

empty_manager-Serves : Serves empty_manager
unfolding new_client_manager
empty_manager-Serves = record { served = tt; distinct = tt }

fitting : AllFit (registering 0 ∷ broadcasting "hi" ∷ []) empty_manager
unfolding new_client_manager new_client
fitting = (refl, λ m' now. (tt, λ m'' later. tt))

start-Keeps_example : Keeps (start (registering 0 ∷ broadcasting "hi" ∷ []) empty_manager)
start-Keeps_example =
    start-Keeps (registering 0 ∷ broadcasting "hi" ∷ []) empty_manager fitting empty_manager-Serves

abbrev one_client : ClientManager
one_client = register 0 empty_manager

one_client-Serves : Serves one_client
unfolding new_client_manager new_client
one_client-Serves = register-Serves 0 empty_manager refl empty_manager-Serves

-- The objects 2 and 3 are two connections of one session.
reconnect_crashes_example :
    (m' : ClientManager) × (kick_client_by_session_id "s2" (register 2 empty_manager) ≡ done m')
    × (unregister 2 (register 3 m') ≡ crashed "close of closed channel")
unfolding new_client_manager new_client
reconnect_crashes_example =
    reconnect_crashes 2 3 empty_manager (λ e. absurd (omega (arith, e))) refl refl

abbrev decode_text : String → Error ⊎ String
decode_text m = inr m

abbrev readings : List Reading
readings =
    message "" taken
    ∷ message "ping" taken
    ∷ message "late" closed
    ∷ read_failed (foreign 1 "closed" end)
    ∷ []

-- A user 7 whose token t1 is signed with the program's key, in a request with another id.
abbrev parse_signed : Parse
parse_signed token_string key_for = elim (key_for signing_method_hmac) [
  | none ↦ none
  | some key ↦
      if str_eq key "lib-1"
      then some
          (record { claims = some (("token", text "t1") ∷ ("id", text "7") ∷ []); valid = true })
      else none
]

abbrev access_backend : Backend
access_backend = record {
  env = record { app_name = "lib"; key_app_name = "old"; app_version = "1"; debug = "" };
  parse = parse_signed;
  redis_get = λ key. if str_eq key "old:user:token:7" then some "t1" else none;
  check_ip = λ ip. true;
}

abbrev with_own_id : Request
with_own_id = record { jwt = "signed"; ip = []; query = ("id", "9" ∷ []) ∷ [] }

with_own_id-passes : access access_backend with_own_id ≡ passed_on (("id", "9" ∷ "7" ∷ []) ∷ [])
unfolding access jwt_decrypt add insert lookup
with_own_id-passes = refl

without_token_test :
    access access_backend (record { jwt = ""; ip = []; query = [] }) ≡ unauthorized "服务器繁忙,请稍后再试!"
unfolding access is_inner_ip net_aton split_on
without_token_test = refl

access-Admits_example :
    (access access_backend with_own_id ≡ passed_on (("id", "9" ∷ "7" ∷ []) ∷ []))
    ↔ Admits access_backend with_own_id (("id", "9" ∷ "7" ∷ []) ∷ [])
access-Admits_example = access-Admits access_backend with_own_id (("id", "9" ∷ "7" ∷ []) ∷ [])

-- Requests with a page or without one.
abbrev bind_page : Option ℕ → ℕ → Option Error × ℕ
bind_page none page = (none, page)
bind_page (some n) page = (none, n)

abbrev listing : Handler (Option ℕ) ℕ String
listing = new_handler 0 "" "list" [] (λ c req resp. none)

serve-keeps_field_example :
    (page : ℕ) × (result : Option Error) × ((serve bind_page
        (λ c req. none)
        (serve_each bind_page (λ c req. none) listing (some 7 ∷ none ∷ []))
        none).0
      ≡ called page result)
    × (page ≡ 7)
unfolding serve_each serve new_handler
serve-keeps_field_example =
    serve-keeps_field bind_page (λ c req. none) (λ page. page) listing (some 7) none (none ∷ [])
      ((λ req. refl), tt) (λ req. refl) refl (λ req. refl)
