-- ===== src/Server/Access.antt =====
-- libs/server/access.go: the middleware Access. Arguments are the environment, jwt.Parse, the GET of
-- Redis, net.ParseIP and, in the request, the address that echo takes from its headers.
pub mod Admission
use top_lib.Prelude.{
  Bool, true, false, String, Option, none, some, List, [], ◌∷◌, ◌++◌, str_eq, if◌then◌else◌,
}
use top_lib.Prelude.Assoc.{lookup, insert}
use top_lib.Prelude.Split.{Text}
use top_lib.Prelude.Text.{str_append}
use top_lib.Jwt.Claims.{Claim, text, null, not_text, MapClaims, Parse, jwt_decrypt}
use top_lib.Utils.Address.{is_inner_ip}

-- url.Values
abbrev pub Query : Type 0
Query = List (String × List String)

abbrev pub or_empty : Option (List String) → List String
or_empty none = []
or_empty (some vs) = vs

-- Values.Add: behind the values that are there.
unfoldable pub add : String → String → Query → Query
add key value query = insert key (or_empty (lookup key query) ++ (value ∷ [])) query

abbrev pub first_of : List String → String
first_of [] = ""
first_of (v ∷ vs) = v

-- Values.Get: the first value, and the empty text where there is none.
unfoldable pub get : String → Query → String
get key query = first_of (or_empty (lookup key query))

pub record Request : Type 0 where
  pub jwt : String
  pub ip : Text
  pub query : Query

-- The variables as os.Getenv gives them at the request, but for the name in the keys of tokens, which
-- libs/jwt reads when its package is initialised.
pub record Environment : Type 0 where
  pub app_name : String
  pub key_app_name : String
  pub app_version : String
  pub debug : String

-- A response with code 401 and a message, or next(c) with these query parameters.
pub data Answer : Type 0 where
  unauthorized : (errmsg : String) → Answer
  passed_on : Query → Answer

-- What Access asks of the rest of the system.
pub record Backend : Type 0 where
  pub env : Environment
  pub parse : Parse
  pub redis_get : String → Option String
  pub check_ip : Text → Bool

abbrev pub secret_of : Environment → String
secret_of env = str_append env.app_name (str_append "-" env.app_version)

-- jwt.UserTokenKey, with the package's appName.
abbrev pub user_token_key : Environment → String → String
user_token_key env id = str_append env.key_app_name (str_append ":user:token:" id)

-- jwtobj["token"] != oldToken
abbrev pub is_same : Claim → String → Bool
is_same (text t) old = str_eq t old
is_same _ old = false

-- jwtobj[key], where nil is a claim that is not there and a null alike.
abbrev pub not_nil : Option Claim → Option Claim
not_nil none = none
not_nil (some null) = none
not_nil (some c) = some c

module _ (backend : Backend) (query : Query) where
  abbrev compare_token : Option String → Claim → String → Answer
  compare_token none token id = unauthorized "获取token失败"
  compare_token (some old_token) token id =
      if is_same token old_token then passed_on (add "id" id query) else unauthorized "账户已经在其他终端登录"

  abbrev with_id : Claim → String → Answer
  with_id token id =
      if str_eq backend.env.debug "true"
      then passed_on (add "id" id query)
      else compare_token (backend.redis_get (user_token_key backend.env id)) token id

  abbrev with_claims : Option Claim → Option Claim → Answer
  with_claims (some token) (some (text id)) = with_id token id
  with_claims (some token) (some _) = unauthorized "用户信息获取失败"
  with_claims (some token) none = unauthorized "jwt解析错误"
  with_claims none id = unauthorized "jwt解析错误"

  abbrev with_jwt : Option MapClaims → Answer
  with_jwt none = unauthorized "jwt解析错误"
  with_jwt (some claims) =
      with_claims (not_nil (lookup "token" claims)) (not_nil (lookup "id" claims))

unfoldable pub access : Backend → Request → Answer
access backend req =
    if str_eq req.jwt ""
    then if is_inner_ip backend.check_ip req.ip
      then passed_on req.query
      else unauthorized "服务器繁忙,请稍后再试!"
    else with_jwt backend req.query (jwt_decrypt backend.parse req.jwt (secret_of backend.env))
