-- ===== src/Jwt/Keys/Apart.antt =====
-- No two tokens share a key (libs/jwt/keysutils.go).
use top_lib.Prelude.{
  ℕ, Option, none, some, [], ◌∷◌, ◌++◌, get_elem?, ◌==◌, ◌≡◌, refl, sym, ap, ◌∙◌, arith,
  if◌then◌else◌,
}
use top_lib.Prelude.Split.{Text}
use top_lib.Jwt.Keys.{
  Kind, admin_token, user_token, node_user_token, node_access, node_mode, middle, key,
}

cancel : (app s t : Text) → app ++ s ≡ app ++ t → s ≡ t
cancel [] s t e = e
cancel (c ∷ app) s t e = cancel app s t (ground (arith, e))

-- The kind that a key is of, by two characters behind the program's name.
abbrev kind_by : Option ℕ → Option ℕ → Option Kind
kind_by (some c) (some d) =
    if c == 97
    then some admin_token
    else if c == 117
    then some user_token
    else if d == 116
    then some node_user_token
    else if d == 97
    then some node_access
    else some node_mode
kind_by (some c) none = none
kind_by none d = none

abbrev kind_of : Text → Option Kind
kind_of t = kind_by (get_elem? t 1) (get_elem? t 6)

kind_of-middle : (kind : Kind) (id : Text) → kind_of (middle kind ++ id) ≡ some kind
kind_of-middle admin_token id = refl
kind_of-middle user_token id = refl
kind_of-middle node_user_token id = refl
kind_of-middle node_access id = refl
kind_of-middle node_mode id = refl

kind_or : Kind → Option Kind → Kind
kind_or kind none = kind
kind_or kind (some found) = found

-- Under one program name a key tells what it is for and whose it is: two keys that are equal are of
-- one function of the file and of one id, whatever characters the name and the ids have.
pub key_injective :
    (app_name : Text) (k l : Kind) (id id' : Text)
    → key app_name k id ≡ key app_name l id'
    → (k ≡ l) × (id ≡ id')
unfolding key kind_or
key_injective app_name k l id id' e =
    let rest : middle k ++ id ≡ middle l ++ id' =
      cancel app_name (middle k ++ id) (middle l ++ id') e in
    let kinds : some k ≡ some l =
      sym (kind_of-middle k id) ∙ ap kind_of rest ∙ kind_of-middle l id' in
    let same : k ≡ l = ap (kind_or k) kinds in
    (same, cancel (middle k) id id' (rest ∙ ap (λ kind. middle kind ++ id') (sym same)))
