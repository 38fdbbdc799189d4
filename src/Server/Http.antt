-- ===== src/Server/Http.antt =====
-- libs/server/server_http.go, backend_http.go, config.go: the HTTP server and its backend. The
-- engine of echo, url.JoinPath and the reading of a configuration are arguments.
pub mod Routes
pub mod Ends
use top_lib.Prelude.{
  ℕ, Bool, true, false, not, ◌&&◌, String, Option, none, some, List, [], ◌∷◌, ◌++◌, str_eq,
  if◌then◌else◌,
}
use top_lib.Prelude.Int.{ℤ}
use top_lib.Prelude.Assoc.{lookup, insert}
use top_lib.Prelude.Text.{str_append}

pub record HttpServerConfig : Type 0 where
  pub port : ℕ
  pub address : String
  pub path : String
  pub cors : Bool
  pub request_log : Bool
  pub access : Bool

-- What the server uses of echo: G is a group, M a middleware, H a handler, on the engine's state.
pub record Engine (Eng G M H : Type 0) : Type 0 where
  pub new_engine : Eng
  pub use_middleware : M → Eng → Eng
  pub add : String → String → H → Eng → Eng
  pub group : String → List M → Eng → G × Eng
  pub group_add : G → String → String → H → Eng → Eng

-- The middlewares that NewHttpServer knows.
pub record Middlewares (M : Type 0) : Type 0 where
  pub cors_middleware : M
  pub request_middleware : M
  pub access_middleware : M

-- StarDustGroup
pub record StarDustGroup (G : Type 0) : Type 0 where
  pub prefix : String
  pub of_engine : G

pub record HttpServer (Eng G : Type 0) : Type 0 where
  pub addr : String
  pub path : String
  pub engine : Eng
  pub group : List (String × StarDustGroup G)

-- NewHttpServer: a panic of a configuration that cannot be read, its error, or the server.
pub data Made (S : Type 0) : Type 0 where
  unreadable : Made S
  path_must_start_with_slash : Made S
  made : S → Made S

-- Whether a text is not empty and starts with another character than /, by its first character.
abbrev pub is_relative : (starts_with_slash : String → Bool) → String → Bool
is_relative starts_with_slash path = not (str_eq path "") && not (starts_with_slash path)

-- The calls of a Backend, by which a program registers its handlers.
pub data Call (M H : Type 0) : Type 0 where
  group_call : (group : String) → List M → Call M H
  get_call : (group name : String) → H → Call M H
  post_call : (group name : String) → H → Call M H
  handler_call : (method path : String) → H → Call M H
  native_call : (method path : String) → H → Call M H

module _ {Eng G M H : Type 0} (echo : Engine Eng G M H) where
  abbrev pub use_if : Bool → M → Eng → Eng
  use_if wanted m engine = if wanted then echo.use_middleware m engine else engine

  -- Cors, then Request, then Access.
  abbrev pub engine_of : Middlewares M → HttpServerConfig → Eng
  engine_of ms config = use_if config.access ms.access_middleware (
      use_if config.request_log ms.request_middleware
        (use_if config.cors ms.cors_middleware echo.new_engine))

  -- `sprint_addr` is fmt.Sprintf("%s:%d", …).
  unfoldable pub new_http_server :
      (starts_with_slash : String → Bool) (sprint_addr : String → ℕ → String)
      → Middlewares M
      → Option HttpServerConfig
      → Made (HttpServer Eng G)
  new_http_server starts_with_slash sprint_addr ms none = unreadable
  new_http_server starts_with_slash sprint_addr ms (some config) =
      if is_relative starts_with_slash config.path
      then path_must_start_with_slash
      else made (record {
        addr = sprint_addr config.address config.port;
        path = config.path;
        engine = engine_of ms config;
        group = [];
      })

  -- NewBackend: the server, and the configuration, which is read once more.
  abbrev with_config :
      HttpServerConfig → Made (HttpServer Eng G) → Made (HttpServerConfig × HttpServer Eng G)
  with_config config (made m) = made (config, m)
  with_config config unreadable = unreadable
  with_config config path_must_start_with_slash = path_must_start_with_slash

  unfoldable pub new_backend :
      (starts_with_slash : String → Bool) (sprint_addr : String → ℕ → String)
      → Middlewares M
      → Option HttpServerConfig
      → Made (HttpServerConfig × HttpServer Eng G)
  new_backend starts_with_slash sprint_addr ms none = unreadable
  new_backend starts_with_slash sprint_addr ms (some config) =
      with_config config (new_http_server starts_with_slash sprint_addr ms (some config))

  -- Use: the middlewares in their order.
  unfoldable pub use_all : List M → HttpServer Eng G → HttpServer Eng G
  use_all [] m = m
  use_all (middleware ∷ more) m =
      use_all more (record m { engine = echo.use_middleware middleware m.engine })

  module _ (join_path : String → List String → String) where
    unfoldable pub handle : String → String → H → HttpServer Eng G → HttpServer Eng G
    handle method path handler m = record m {
      engine = echo.add method (join_path m.path ("api" ∷ path ∷ [])) handler m.engine;
    }

    unfoldable pub internal : String → String → H → HttpServer Eng G → HttpServer Eng G
    internal method path handler m = record m {
      engine = echo.add method (join_path m.path ("internal" ∷ path ∷ [])) handler m.engine;
    }

    unfoldable pub add_native_handler : String → String → H → HttpServer Eng G → HttpServer Eng G
    add_native_handler method path handler m = record m {
      engine = echo.add method (join_path m.path ("api" ∷ path ∷ [])) handler m.engine;
    }

    abbrev grouped : String → G × Eng → HttpServer Eng G → HttpServer Eng G
    grouped path (g, engine) m = record m {
      engine = engine;
      group = insert path (record { prefix = path; of_engine = g }) m.group;
    }

    unfoldable pub add_group : String → List M → HttpServer Eng G → HttpServer Eng G
    add_group path middleware m =
        grouped path (echo.group (join_path m.path ("api" ∷ path ∷ [])) middleware m.engine) m

    -- A group that is not there is only logged.
    abbrev pub add_to_group :
        Option (StarDustGroup G) → String → String → H → HttpServer Eng G → HttpServer Eng G
    add_to_group none method path handler m = m
    add_to_group (some g) method path handler m = record m {
      engine = echo.group_add g.of_engine method (str_append "/" path) handler m.engine;
    }

    -- Get and Post, which differ in the method.
    abbrev pub route : String → String → String → H → HttpServer Eng G → HttpServer Eng G
    route method path group handler m =
        if str_eq group ""
        then handle method path handler m
        else add_to_group (lookup group m.group) method path handler m

    unfoldable pub get : String → String → H → HttpServer Eng G → HttpServer Eng G
    get path group handler m = route "GET" path group handler m

    unfoldable pub post : String → String → H → HttpServer Eng G → HttpServer Eng G
    post path group handler m = route "POST" path group handler m

    -- AddGroup, AddGetHandler, AddPostHandler, AddHandler and AddNativeHandler of a Backend.
    unfoldable pub call : Call M H → HttpServer Eng G → HttpServer Eng G
    call (group_call group middleware) m = add_group group middleware m
    call (get_call group name handler) m = get name group handler m
    call (post_call group name handler) m = post name group handler m
    call (handler_call method path handler) m = handle method path handler m
    call (native_call method path handler) m = add_native_handler method path handler m

    unfoldable pub calls : List (Call M H) → HttpServer Eng G → HttpServer Eng G
    calls [] m = m
    calls (c ∷ cs) m = calls cs (call c m)
