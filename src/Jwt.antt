-- ===== src/Jwt.antt =====
-- libs/jwt/PBEWhithMD5AndDES.go: encryption under a password. Texts are lists of bytes; the MD5 sum,
-- the DES cipher in CBC mode and base64 are what the sections take.
pub mod Claims
pub mod Keys
pub mod Padding
mod Tests
use top_lib.Prelude.{
  ℕ, zero, suc, ◌+◌, ◌-◌, ◌%◌, Bool, true, false, ◌&&◌, List, [], ◌∷◌, ◌++◌, Option, none, some,
  length, take, drop, leb, ltb, ◌==◌, if◌then◌else◌,
}

abbrev pub Bytes : Type 0
Bytes = List ℕ

unfoldable pub replicate : ℕ → ℕ → Bytes
replicate zero b = []
replicate (suc n) b = b ∷ replicate n b

-- 8 - len(plainText) % 8
unfoldable pub pad_num : Bytes → ℕ
pad_num plain_text = 8 - length plain_text % 8

unfoldable pub padded : Bytes → Bytes
padded plain_text = plain_text ++ replicate (pad_num plain_text) (pad_num plain_text)

-- A byte of the cutset "\x01\x02\x03\x04\x05\x06\x07\x08".
abbrev pub is_cut : ℕ → Bool
is_cut b = leb 1 b && leb b 8

abbrev cut_before : ℕ → Bytes → Bytes
cut_before b [] = if is_cut b then [] else b ∷ []
cut_before b (c ∷ cs) = b ∷ c ∷ cs

-- strings.TrimRight
unfoldable pub trim_right : Bytes → Bytes
trim_right [] = []
trim_right (b ∷ bs) = cut_before b (trim_right bs)

-- copy of a fixed salt into 8 bytes that are zero
unfoldable pub fixed_salt_of : Bytes → Bytes
fixed_salt_of fixed_salt = take 8 (fixed_salt ++ replicate 8 0)

-- What a decryption comes to: a text, base64's error, or a panic, for a text that is shorter than a
-- salt or no whole number of blocks.
pub data Decrypted : Type 0 where
  plain : Bytes → Decrypted
  refused : Decrypted
  panicked : Decrypted

module _ (md5 : Bytes → Bytes) where
  unfoldable pub hashed : ℕ → Bytes → Bytes
  hashed zero key = key
  hashed (suc n) key = hashed n (md5 key)

  unfoldable pub get_derived_key : Bytes → Bytes → ℕ → Bytes × Bytes
  get_derived_key password salt count =
      let key = hashed (count - 1) (md5 (password ++ salt)) in (take 8 key, drop 8 key)

  -- CBC over DES: key, initial vector, text.
  module _ (crypt_blocks decrypt_blocks : Bytes → Bytes → Bytes → Bytes) where
    unfoldable pub do_encrypt : Bytes → Bytes → Bytes → ℕ → Bytes
    do_encrypt password plain_text salt count =
        let (dk, iv) = get_derived_key password salt count in crypt_blocks dk iv (padded plain_text)

    unfoldable pub do_decrypt : Bytes → Bytes → Bytes → ℕ → Decrypted
    do_decrypt password enc_text salt count =
        let (dk, iv) = get_derived_key password salt count in
        if length enc_text % 8 == 0
        then plain (trim_right (decrypt_blocks dk iv enc_text))
        else panicked

    -- base64.StdEncoding; a text that does not decode is the error.
    module _ {T : Type 0} (encode : Bytes → T) (decode : T → Option Bytes) where
      -- Encrypt, once rand.Read has given the salt.
      unfoldable pub encrypt : Bytes → ℕ → Bytes → Bytes → T
      encrypt password count plain_text salt =
          encode (salt ++ do_encrypt password plain_text salt count)

      unfoldable pub decrypt : Bytes → ℕ → T → Decrypted
      decrypt password count cipher_text = elim (decode cipher_text) [
        | none ↦ refused
        | some msg ↦
            if ltb (length msg) 8
            then panicked
            else do_decrypt password (drop 8 msg) (take 8 msg) count
      ]

      unfoldable pub encrypt_with_fixed_salt : Bytes → ℕ → Bytes → Bytes → T
      encrypt_with_fixed_salt password count plain_text fixed_salt =
          encode (do_encrypt password plain_text (fixed_salt_of fixed_salt) count)

      unfoldable pub decrypt_with_fixed_salt : Bytes → ℕ → T → Bytes → Decrypted
      decrypt_with_fixed_salt password count cipher_text fixed_salt = elim (decode cipher_text) [
        | none ↦ refused
        | some msg ↦ do_decrypt password msg (fixed_salt_of fixed_salt) count
      ]
