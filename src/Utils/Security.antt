-- ===== src/Utils/Security.antt =====
-- utils/security.go: signatures. hmac.New(sha256.New, …) with Write and Sum, and hex.EncodeToString,
-- are arguments.
use top_lib.Prelude.{Bool, true, false, ◌&&◌, [], ◌∷◌, ◌==◌, ◌≡◌, ◌↔◌, refl, ==_iff, arith}
use top_lib.Prelude.Split.{Text}

-- hmac.Equal, on the contents: of one length and the same at each place.
abbrev pub hmac_equal : Text → Text → Bool
hmac_equal [] [] = true
hmac_equal [] (d ∷ ds) = false
hmac_equal (c ∷ cs) [] = false
hmac_equal (c ∷ cs) (d ∷ ds) = (c == d) && hmac_equal cs ds

hmac_equal_iff : (s t : Text) → (hmac_equal s t ≡ true) ↔ (s ≡ t)
hmac_equal_iff [] [] = (λ e. refl, λ e. refl)
hmac_equal_iff [] (d ∷ ds) = ground arith
hmac_equal_iff (c ∷ cs) [] = ground arith
hmac_equal_iff (c ∷ cs) (d ∷ ds) = ground (arith, hmac_equal_iff cs ds, ==_iff c d)

module _ (sum_256 : (secret message : Text) → Text) (encode_to_string : Text → Text) where
  unfoldable pub generate_hmac : (message secret : Text) → Text
  generate_hmac message secret = encode_to_string (sum_256 secret message)

  unfoldable pub verify_hmac : (message secret sign : Text) → Bool
  verify_hmac message secret sign = hmac_equal (encode_to_string (sum_256 secret message)) sign

  -- VerifyHMAC says yes to the signature that GenerateHMAC gives for the message and the secret, and
  -- to no other text.
  pub verify_hmac-generate_hmac :
      (message secret sign : Text)
      → (verify_hmac message secret sign ≡ true) ↔ (generate_hmac message secret ≡ sign)
  unfolding verify_hmac generate_hmac
  verify_hmac-generate_hmac message secret sign =
      hmac_equal_iff (encode_to_string (sum_256 secret message)) sign
