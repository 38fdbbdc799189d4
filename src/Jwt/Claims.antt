-- ===== src/Jwt/Claims.antt =====
-- libs/jwt/jwt.go: JWTDecrypt. The parser of github.com/dgrijalva/jwt-go is an argument.
use top_lib.Prelude.{Bool, true, String, Option, none, some, List}

-- A value of a claim: a text, JSON's null, or any other value.
pub data Claim : Type 0 where
  text : String → Claim
  null : Claim
  not_text : Claim

-- jwt.MapClaims
abbrev pub MapClaims : Type 0
MapClaims = List (String × Claim)

pub data Method : Type 0 where
  signing_method_hmac : Method
  other_method : Method

-- A *jwt.Token; its claims are none where they are not a jwt.MapClaims.
pub record Token : Type 0 where
  pub claims : Option MapClaims
  pub valid : Bool

-- jwt.Parse: the text of the token, and the function that gives the key for a signing method.
abbrev pub Parse : Type 0
Parse = String → (Method → Option String) → Option Token

-- The key function of JWTDecrypt.
abbrev pub key_for : String → Method → Option String
key_for secret signing_method_hmac = some secret
key_for secret other_method = none

abbrev valid_claims : Option MapClaims → Bool → Option MapClaims
valid_claims (some claims) true = some claims
valid_claims _ _ = none

unfoldable pub jwt_decrypt : Parse → String → String → Option MapClaims
jwt_decrypt parse token_string secret = elim (parse token_string (key_for secret)) [
  | none ↦ none
  | some token ↦ valid_claims token.claims token.valid
]
