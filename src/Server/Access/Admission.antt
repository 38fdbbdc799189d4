-- ===== src/Server/Access/Admission.antt =====
-- Which requests Access lets through (libs/server/access.go).
use mathlib.Core.Option.{some-injective}
use top_lib.Prelude.{
  Bool, true, false, String, Option, none, some, List, [], ◌∷◌, ◌++◌, str_eq, eq_iff, ◌≡◌, ◌≢◌,
  refl, sym, ap, ◌∙◌, ◌⊎◌, inl, inr, ◌↔◌, arith, if◌then◌else◌,
}
use top_lib.Prelude.Assoc.{lookup, lookup-insert_same}
use top_lib.Jwt.Claims.{Claim, text, null, not_text, MapClaims, jwt_decrypt}
use top_lib.Utils.Address.{is_inner_ip}
use top_lib.Server.Access.{
  Query, or_empty, first_of, add, get, Request, Answer, unauthorized, passed_on, Backend, secret_of,
  user_token_key, is_same, not_nil, access, compare_token, with_id, with_claims, with_jwt,
}

-- Redis holds this token under the key of the user, or the program runs with DEBUG=true.
abbrev pub IsCurrent : Backend → Claim → String → Type 0
IsCurrent backend token id =
    (backend.env.debug ≡ "true")
    ⊎ ((old : String) × (backend.redis_get (user_token_key backend.env id) ≡ some old)
        × (token ≡ text old))

-- A token that JWTDecrypt accepts, with a current token and a text as its id.
abbrev pub HasToken : Backend → Request → String → Type 0
HasToken backend req id =
    (claims : MapClaims) × (token : Claim) × (jwt_decrypt backend.parse req.jwt
        (secret_of backend.env)
      ≡ some claims)
    × (not_nil (lookup "token" claims) ≡ some token)
    × (not_nil (lookup "id" claims) ≡ some (text id))
    × IsCurrent backend token id

is_same-text : (c : Claim) (old : String) → is_same c old ≡ true ↔ c ≡ text old
is_same-text (text t) old = ground (arith, eq_iff t old)
is_same-text null old = ground arith
is_same-text not_text old = ground arith

IsStored : Option String → Claim → Type 0
IsStored found token = (old : String) × (found ≡ some old) × (token ≡ text old)

compare_token-IsStored :
    (backend : Backend) (query q : Query) (found : Option String) (token : Claim) (id : String)
    → (compare_token backend query found token id ≡ passed_on q)
      ↔ (IsStored found token × (q ≡ add "id" id query))
unfolding IsStored
compare_token-IsStored backend query q none token id = ground arith
compare_token-IsStored backend query q (some old) token id = ground (arith, is_same-text token old)

-- A test that lets through, in front of an answer that lets through under a condition.
passed_on-either :
    (b : Bool) (D S : Type 0) (q query : Query) (answer : Answer)
    → (b ≡ true ↔ D)
    → ((answer ≡ passed_on q) ↔ (S × (q ≡ query)))
    → ((if b then passed_on query else answer) ≡ passed_on q) ↔ ((D ⊎ S) × (q ≡ query))
passed_on-either true D S q query answer dec rest =
    (λ e. (inl (dec.0 refl), ground (arith, e)), λ p. ap passed_on (sym p.1))
passed_on-either false D S q query answer dec rest = (
  λ e. (inr (rest.0 e).0, (rest.0 e).1),
  λ (s, e). elim s [ inl d ↦ absurd (ground (arith, dec.1 d)) | inr x ↦ rest.1 (x, e) ],
)

with_id-IsCurrent :
    (backend : Backend) (query q : Query) (token : Claim) (id : String)
    → (with_id backend query token id ≡ passed_on q)
      ↔ (IsCurrent backend token id × (q ≡ add "id" id query))
unfolding IsStored
with_id-IsCurrent backend query q token id =
    let found = backend.redis_get (user_token_key backend.env id) in
    passed_on-either (str_eq backend.env.debug "true") (backend.env.debug ≡ "true")
      (IsStored found token) q (add "id" id query) (compare_token backend query found token id)
      (eq_iff backend.env.debug "true") (compare_token-IsStored backend query q found token id)

text_injective : (i j : String) → some (text i) ≡ some (text j) → i ≡ j
text_injective i j e = ground (arith, e)

with_claims-HasClaims :
    (backend : Backend) (query q : Query) (token id : Option Claim)
    → (with_claims backend query token id ≡ passed_on q) ↔ (
        (t : Claim) × (i : String) × (token ≡ some t)
        × (id ≡ some (text i))
        × IsCurrent backend t i
        × (q ≡ add "id" i query))
with_claims-HasClaims backend query q none id = ground arith
with_claims-HasClaims backend query q (some t) none = ground arith
with_claims-HasClaims backend query q (some t) (some null) = ground arith
with_claims-HasClaims backend query q (some t) (some not_text) = ground arith
with_claims-HasClaims backend query q (some t) (some (text i)) =
    let h = with_id-IsCurrent backend query q t i in
    (
      λ e. (t, i, refl, refl, (h.0 e).0, (h.0 e).1),
      λ (t', i', same_token, same_id, current, e).
          rw (some-injective t t' same_token, text_injective i i' same_id)
            ((with_id-IsCurrent backend query q t' i').1 (current, e)),
    )

Holds : Backend → Option MapClaims → String → Type 0
Holds backend found id =
    (claims : MapClaims) × (token : Claim) × (found ≡ some claims)
    × (not_nil (lookup "token" claims) ≡ some token)
    × (not_nil (lookup "id" claims) ≡ some (text id))
    × IsCurrent backend token id

with_jwt-Holds :
    (backend : Backend) (query q : Query) (found : Option MapClaims)
    → (with_jwt backend query found ≡ passed_on q)
      ↔ ((id : String) × Holds backend found id × (q ≡ add "id" id query))
unfolding Holds
with_jwt-Holds backend query q none = ground arith
with_jwt-Holds backend query q (some claims) = (
  λ e.
      let (t, i, et, ei, current, same) =
        (with_claims-HasClaims backend query q (not_nil (lookup "token" claims))
            (not_nil (lookup "id" claims))).0
          e in
      (i, (claims, t, refl, et, ei, current), same),
  λ (i, (claims', t, ec, et, ei, current), same). rw (some-injective claims claims' ec) (
      (with_claims-HasClaims backend query q (not_nil (lookup "token" claims'))
          (not_nil (lookup "id" claims'))).1
        (t, i, et, ei, current, same)),
)

-- One of two answers, by a test.
passed_on-choice :
    (b : Bool) (D P Q : Type 0) (answer first second : Answer)
    → (b ≡ true ↔ D)
    → ((first ≡ answer) ↔ P)
    → ((second ≡ answer) ↔ Q)
    → ((if b then first else second) ≡ answer) ↔ ((D × P) ⊎ (¬ D × Q))
passed_on-choice true D P Q answer first second dec hp hq = (
  λ e. inl (dec.0 refl, hp.0 e),
  λ s. elim s [ inl (d, p) ↦ hp.1 p | inr (out, r) ↦ absurd (out (dec.0 refl)) ],
)
passed_on-choice false D P Q answer first second dec hp hq = (
  λ e. inr (λ d. ground (arith, dec.1 d), hq.0 e),
  λ s. elim s [ inl (d, p) ↦ absurd (ground (arith, dec.1 d)) | inr (out, r) ↦ hq.1 r ],
)

inner_answer :
    (b : Bool) (query q : Query) (message : String)
    → ((if b then passed_on query else unauthorized message) ≡ passed_on q)
      ↔ ((b ≡ true) × (q ≡ query))
inner_answer true query q message = ground arith
inner_answer false query q message = ground arith

-- No token and an inner address, with the query parameters as they came; or a token, whose id is
-- added to them.
abbrev pub Admits : Backend → Request → Query → Type 0
Admits backend req q =
    ((req.jwt ≡ "") × ((is_inner_ip backend.check_ip req.ip ≡ true) × (q ≡ req.query)))
    ⊎ ((req.jwt ≢ "") × ((id : String) × HasToken backend req id × (q ≡ add "id" id req.query)))

-- Access passes a request on exactly in two cases: it has no jwt header, its address is an inner
-- one, and the query parameters are as they came; or JWTDecrypt accepts its token, whose id is a
-- text and whose own token is the one of Redis, unless DEBUG is true, and the id is added to the
-- query parameters.
pub access-Admits :
    (backend : Backend) (req : Request) (q : Query)
    → (access backend req ≡ passed_on q) ↔ Admits backend req q
unfolding access Holds
access-Admits backend req q =
    let found = jwt_decrypt backend.parse req.jwt (secret_of backend.env) in
    passed_on-choice (str_eq req.jwt "") _ _ _ (passed_on q) _ _ (eq_iff req.jwt "")
      (inner_answer (is_inner_ip backend.check_ip req.ip) req.query q _)
      (with_jwt-Holds backend req.query q found)

get-add :
    (query : Query) (id own : String) (more : List String)
    → or_empty (lookup "id" query) ≡ own ∷ more
    → get "id" (add "id" id query) ≡ own
unfolding get add
get-add query id own more e =
    let values = or_empty (lookup "id" query) in
    ap first_of (
      ap or_empty (lookup-insert_same "id" (values ++ (id ∷ [])) query)
      ∙ ap (λ vs. vs ++ (id ∷ [])) e)

-- Where a request has query parameters of the name id and Access passes it on, what comes after
-- Access reads the first of them as the id, and not the id of the token.
pub get-access :
    (backend : Backend) (req : Request) (q : Query) (own : String) (more : List String)
    → or_empty (lookup "id" req.query) ≡ own ∷ more
    → access backend req ≡ passed_on q
    → get "id" q ≡ own
unfolding get
get-access backend req q own more e passed = elim ((access-Admits backend req q).0 passed) [
  | inl (no_jwt, (inner, same)) ↦ ap (get "id") same ∙ ap first_of e
  | inr (jwt, (id, token, same)) ↦ ap (get "id") same ∙ get-add req.query id own more e
]
