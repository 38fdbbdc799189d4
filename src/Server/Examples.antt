-- ===== src/Server/Examples.antt =====
-- Examples of the HTTP server, over an engine that lists what it is told.
use top_lib.Prelude.{none, String, Bool, true, false, some, List, [], ◌∷◌, ◌++◌, ◌≡◌, refl, str_eq}
use top_lib.Prelude.Assoc.{lookup, insert}
use top_lib.Prelude.Text.{str_append, join}
use top_lib.Prelude.Split.{codes}
use top_lib.Server.Middleware.{
  Handler, reads, writes, ends, Exchange, run, request_line, response_line, request, no_content,
  cors,
}
use top_lib.Server.Http.{
  HttpServerConfig, Engine, Middlewares, HttpServer, made, path_must_start_with_slash,
  new_http_server, add_group, get, Call, group_call, get_call, call, calls,
}

-- A handler and a middleware are texts; a group is its path.
abbrev echo : Engine (List String) String String String
echo = record {
  new_engine = [];
  use_middleware = λ m log. log ++ (m ∷ []);
  add = λ method path handler log. log ++ (join (method ∷ path ∷ handler ∷ []) " " ∷ []);
  group = λ path ms log. (path, log);
  group_add = λ g method path handler log.
      log ++ (join (method ∷ str_append g path ∷ handler ∷ []) " " ∷ []);
}

abbrev join_path : String → List String → String
join_path base parts = str_append base (str_append "/" (join parts "/"))

abbrev config : HttpServerConfig
config = record {
  port = 8080;
  address = "localhost";
  path = "/x";
  cors = true;
  request_log = false;
  access = true;
}

abbrev middlewares : Middlewares String
middlewares = record {
  cors_middleware = "cors";
  request_middleware = "request";
  access_middleware = "access";
}

abbrev starts_with_slash : String → Bool
starts_with_slash path = str_eq path "/x"

abbrev fresh : HttpServer (List String) String
fresh = record { addr = "localhost:8080"; path = "/x"; engine = "cors" ∷ "access" ∷ []; group = [] }

made_test :
    new_http_server echo starts_with_slash
      (λ address port. "localhost:8080")
      middlewares
      (some config)
    ≡ made fresh
unfolding new_http_server
made_test = refl

relative_test :
    new_http_server echo
      (λ path. false)
      (λ address port. "localhost:8080")
      middlewares
      (some config)
    ≡ path_must_start_with_slash
unfolding new_http_server
relative_test = refl

abbrev registered : List (Call String String)
registered =
    group_call "users" [] ∷ get_call "users" "list" "h1" ∷ get_call "orders" "all" "h2" ∷ []

routes_test :
    (calls echo join_path registered fresh).engine
    ≡ "cors" ∷ "access" ∷ "GET /x/api/users/list h1" ∷ []
unfolding calls call add_group get insert lookup join
routes_test = refl

abbrev is_closed : String → Bool
is_closed err = str_eq err "http: Server closed"

-- A handler that echoes the body it reads.
abbrev echoes : Handler String
echoes = reads (λ bytes broken. writes bytes (writes (codes "!") (ends none)))

abbrev hi : Exchange
hi = record { body = record { bytes = codes "hi"; broken = false }; sent = []; dumped = none }

request_test :
    (request (λ t. none) echoes hi).1.1
    ≡ request_line (codes "hi") ∷ response_line (codes "hi!") ∷ []
unfolding request run
request_test = refl

options_test : (cors {A = String} "OPTIONS" "next").1 ≡ no_content
unfolding cors
options_test = refl
