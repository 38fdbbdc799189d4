-- ===== src/Jwt/Padding.antt =====
-- What Decrypt gives back of what Encrypt was given (libs/jwt/PBEWhithMD5AndDES.go).
use top_lib.Prelude.{
  ℕ, zero, suc, ◌+◌, ◌%◌, ltb, ◌==◌, ◌≤◌, ◌≡◌, refl, ap, ◌∙◌, true, false, [], ◌∷◌, ◌++◌, Option,
  some, length, length-append, take, drop, arith,
}
use top_lib.Jwt.{
  plain, Bytes, replicate, pad_num, padded, is_cut, trim_right, fixed_salt_of, get_derived_key,
  do_encrypt, do_decrypt, encrypt, decrypt, encrypt_with_fixed_salt, decrypt_with_fixed_salt,
}

length-replicate : (n b : ℕ) → length (replicate n b) ≡ n
unfolding replicate
length-replicate zero b = refl
length-replicate (suc n) b = ap suc (length-replicate n b)

trim_right-replicate : (n b : ℕ) → is_cut b ≡ true → trim_right (replicate n b) ≡ []
unfolding trim_right replicate
trim_right-replicate zero b cut = refl
trim_right-replicate (suc n) b cut = rw (trim_right-replicate n b cut, cut) refl

-- Trailing bytes of the cutset make no difference.
trim_right-append : (xs ys : Bytes) → trim_right ys ≡ [] → trim_right (xs ++ ys) ≡ trim_right xs
unfolding trim_right
trim_right-append [] ys gone = gone
trim_right-append (x ∷ xs) ys gone = rw (trim_right-append xs ys gone) refl

trim_right-padded : (t : Bytes) → trim_right (padded t) ≡ trim_right t
unfolding padded pad_num
trim_right-padded t =
    trim_right-append t (replicate (pad_num t) (pad_num t))
      (trim_right-replicate (pad_num t) (pad_num t) (ground arith))

-- The padded text is a whole number of blocks of 8 bytes, and longer than the text.
pub length-padded : (t : Bytes) → (length (padded t) % 8 ≡ 0) × (length t + 1 ≤ length (padded t))
unfolding padded pad_num
length-padded t =
    let n = pad_num t in
    let whole = length-append t (replicate n n) in
    (omega (arith, whole, length-replicate n n), omega (arith, whole, length-replicate n n))

-- Nothing is cut from a text that ends in another byte.
pub trim_right_kept :
    (xs : Bytes) (b : ℕ) → is_cut b ≡ false → trim_right (xs ++ (b ∷ [])) ≡ xs ++ (b ∷ [])
unfolding trim_right
trim_right_kept [] b other = rw other refl
trim_right_kept (x ∷ []) b other = rw other refl
trim_right_kept (x ∷ y ∷ xs) b other = rw (trim_right_kept (y ∷ xs) b other) refl

take-append : (xs ys : Bytes) (n : ℕ) → length xs ≡ n → take n (xs ++ ys) ≡ xs
take-append [] ys zero e = refl
take-append [] ys (suc n) e = absurd (omega (arith, e))
take-append (x ∷ xs) ys zero e = absurd (omega (arith, e))
take-append (x ∷ xs) ys (suc n) e = ap (λ zs. x ∷ zs) (take-append xs ys n (omega (arith, e)))

drop-append : (xs ys : Bytes) (n : ℕ) → length xs ≡ n → drop n (xs ++ ys) ≡ ys
drop-append [] ys zero e = refl
drop-append [] ys (suc n) e = absurd (omega (arith, e))
drop-append (x ∷ xs) ys zero e = absurd (omega (arith, e))
drop-append (x ∷ xs) ys (suc n) e = drop-append xs ys n (omega (arith, e))

-- What is relied on of CBC over DES: on whole blocks, decrypting undoes encrypting, and a text
-- keeps its length.
pub record IsCipher (crypt_blocks decrypt_blocks : Bytes → Bytes → Bytes → Bytes) : Type 0 where
  pub undone :
      (key iv t : Bytes) → length t % 8 ≡ 0 → decrypt_blocks key iv (crypt_blocks key iv t) ≡ t
  pub same_length :
      (key iv t : Bytes) → length t % 8 ≡ 0 → length (crypt_blocks key iv t) ≡ length t

module _ (md5 : Bytes → Bytes) (crypt_blocks decrypt_blocks : Bytes → Bytes → Bytes → Bytes)
    (cipher : IsCipher crypt_blocks decrypt_blocks) where
  do_decrypt-do_encrypt :
      (password t salt : Bytes) (count : ℕ)
      → do_decrypt md5 crypt_blocks decrypt_blocks password
          (do_encrypt md5 crypt_blocks decrypt_blocks password t salt count)
          salt
          count
        ≡ plain (trim_right t)
  unfolding do_decrypt do_encrypt
  do_decrypt-do_encrypt password t salt count =
      let (dk, iv) = get_derived_key md5 password salt count in
      let whole : length (padded t) % 8 ≡ 0 = (length-padded t).0 in
      let same = cipher.same_length dk iv (padded t) whole in
      let hit : (length (crypt_blocks dk iv (padded t)) % 8 == 0) ≡ true =
        ground (arith, same, whole) in
      rw (hit, cipher.undone dk iv (padded t) whole, trim_right-padded t) refl

  module _ {T : Type 0} (encode : Bytes → T) (decode : T → Option Bytes)
      (decode-encode : (b : Bytes) → decode (encode b) ≡ some b) where
    decrypt-decoded :
        (password msg : Bytes) (count : ℕ) (c : T)
        → decode c ≡ some msg
        → ltb (length msg) 8 ≡ false
        → decrypt md5 crypt_blocks decrypt_blocks encode decode password count c
          ≡ do_decrypt md5 crypt_blocks decrypt_blocks password (drop 8 msg) (take 8 msg) count
    unfolding decrypt
    decrypt-decoded password msg count c got long = rw (got, long, decrypt) refl

    decrypt_fixed-decoded :
        (password msg fixed_salt : Bytes) (count : ℕ) (c : T)
        → decode c ≡ some msg
        → decrypt_with_fixed_salt md5 crypt_blocks decrypt_blocks encode decode password count c
            fixed_salt
          ≡ do_decrypt md5 crypt_blocks decrypt_blocks password msg (fixed_salt_of fixed_salt) count
    unfolding decrypt_with_fixed_salt
    decrypt_fixed-decoded password msg fixed_salt count c got =
        rw (got, decrypt_with_fixed_salt) refl

    -- Decrypt gives back what Encrypt was given under any salt of 8 bytes, less the bytes 1 to 8 at
    -- its end.
    pub decrypt-encrypt :
        (password t salt : Bytes) (count : ℕ)
        → length salt ≡ 8
        → decrypt md5 crypt_blocks decrypt_blocks encode decode password count
            (encrypt md5 crypt_blocks decrypt_blocks encode decode password count t salt)
          ≡ plain (trim_right t)
    unfolding encrypt
    decrypt-encrypt password t salt count sized =
        let enc = do_encrypt md5 crypt_blocks decrypt_blocks password t salt count in
        let long : ltb (length (salt ++ enc)) 8 ≡ false =
          ground (arith, sized, length-append salt enc) in
        decrypt-decoded password (salt ++ enc) count (encode (salt ++ enc))
          (decode-encode (salt ++ enc)) long
        ∙ rw (take-append salt enc 8 sized, drop-append salt enc 8 sized)
            (do_decrypt-do_encrypt password t salt count)

    -- So does DecryptWithFixedSalt of EncryptWithFixedSalt, for any fixed salt.
    pub decrypt-encrypt_fixed :
        (password t fixed_salt : Bytes) (count : ℕ)
        → decrypt_with_fixed_salt md5 crypt_blocks decrypt_blocks encode decode password count
            (encrypt_with_fixed_salt md5 crypt_blocks decrypt_blocks encode decode password count t
              fixed_salt)
            fixed_salt
          ≡ plain (trim_right t)
    unfolding encrypt_with_fixed_salt
    decrypt-encrypt_fixed password t fixed_salt count =
        let salt = fixed_salt_of fixed_salt in
        let enc = do_encrypt md5 crypt_blocks decrypt_blocks password t salt count in
        decrypt_fixed-decoded password enc fixed_salt count (encode enc) (decode-encode enc)
        ∙ do_decrypt-do_encrypt password t salt count
