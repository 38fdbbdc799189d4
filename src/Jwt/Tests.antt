-- ===== src/Jwt/Tests.antt =====
-- Examples of libs/jwt/PBEWhithMD5AndDES.go, with a cipher that leaves texts as they are.
use top_lib.Prelude.{◌≡◌, refl, Option, some, [], ◌∷◌}
use top_lib.Prelude.Split.{codes}
use top_lib.Jwt.Keys.{user_token, key}
use top_lib.Jwt.{Bytes, plain, encrypt, decrypt, trim_right}
use top_lib.Jwt.Padding.{IsCipher, decrypt-encrypt}

abbrev same_hash : Bytes → Bytes
same_hash bs = bs

abbrev same_text : Bytes → Bytes → Bytes → Bytes
same_text key iv t = t

same_text-IsCipher : IsCipher same_text same_text
same_text-IsCipher = record {
  undone = λ key iv t whole. refl;
  same_length = λ key iv t whole. refl;
}

abbrev as_is : Bytes → Bytes
as_is bs = bs

abbrev always : Bytes → Option Bytes
always bs = some bs

abbrev salt : Bytes
salt = 1 ∷ 2 ∷ 3 ∷ 4 ∷ 5 ∷ 6 ∷ 7 ∷ 8 ∷ []

trim_test : trim_right (104 ∷ 3 ∷ 105 ∷ 2 ∷ 8 ∷ []) ≡ 104 ∷ 3 ∷ 105 ∷ []
unfolding trim_right
trim_test = refl

abbrev greeting : Bytes
greeting = 104 ∷ 105 ∷ []

decrypt-encrypt_example :
    decrypt same_hash same_text same_text as_is always
      (112 ∷ [])
      3
      (encrypt same_hash same_text same_text as_is always (112 ∷ []) 3 (104 ∷ 105 ∷ []) salt)
    ≡ plain (trim_right (104 ∷ 105 ∷ []))
decrypt-encrypt_example =
    decrypt-encrypt same_hash same_text same_text same_text-IsCipher as_is always (λ b. refl)
      (112 ∷ []) (104 ∷ 105 ∷ []) salt 3 refl

key_test : key (codes "shop") user_token (codes "7") ≡ codes "shop:user:token:7"
unfolding key
key_test = refl
