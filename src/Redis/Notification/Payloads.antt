-- ===== src/Redis/Notification/Payloads.antt =====
-- What decodePayload gives back of a key that holds an encoded payload
-- (libs/redis/redis_notification.go).
use top_lib.Prelude.{
  ℕ, suc, ◌+◌, ◌==◌, leb, Bool, true, ◌^◌, ◌<◌, ◌≡◌, ◌≢◌, refl, ap, ◌∙◌, false, some, [], ◌∷◌, ◌++◌,
  length, length-append, ltb, All, All-append, arith,
}
use top_lib.Prelude.Split.{
  Text, colon, bar, split_bars, IsFree, split_on-last, last_of-append, split_bars-piece,
  split_bars-free,
}
use top_lib.Prelude.Int.{ℤ, pos, negsuc}
use top_lib.Prelude.Decimal.{
  digits, read_digits, IsDigit, digits_from-IsDigit, digits-IsFree, read_digits-digits_from,
  digits_from-cons,
}
use top_lib.Redis.Notification.{
  Payload, minus, plus, clamped, parse_digits, parse_count, count_text, encode_payload, of_parts,
  decode_payload,
}

-- The numbers of 32 bits.
abbrev pub IsInt32 : ℤ → Type 0
IsInt32 (pos n) = n < 2 ^ 31
IsInt32 (negsuc n) = n < 2 ^ 31

parse_digits-read :
    (negative : Bool) (xs : Text) (c : ℕ) (cs : Text) (n : ℕ)
    → xs ≡ c ∷ cs
    → read_digits 0 xs ≡ some n
    → parse_digits negative xs ≡ clamped negative n
parse_digits-read negative [] c cs n e h = absurd (ground (arith, e))
parse_digits-read negative (x ∷ xs) c cs n e h = rw (h, parse_digits) refl

parse_digits-digits :
    (negative : Bool) (n : ℕ) → parse_digits negative (digits n) ≡ clamped negative n
parse_digits-digits negative n =
    let (c, cs, e) = digits_from-cons n n in
    parse_digits-read negative (digits n) c cs n e (read_digits-digits_from (suc n) n (omega arith))

-- A text of digits is read with no sign.
parse_count-unsigned : (xs : Text) → All IsDigit xs → parse_count xs ≡ parse_digits false xs
unfolding parse_count
parse_count-unsigned [] h = refl
parse_count-unsigned (c ∷ cs) ((low, high), h) =
    let no_minus : (c == minus) ≡ false = ground (arith, low) in
    let no_plus : (c == plus) ≡ false = ground (arith, low) in rw (no_minus, no_plus) refl

parse_count-count_text : (count : ℤ) → IsInt32 count → parse_count (count_text count) ≡ count
parse_count-count_text (pos n) small =
    let within : ltb n (2 ^ 31) ≡ true = ground (arith, small) in
    parse_count-unsigned (digits n) (digits_from-IsDigit (suc n) n)
    ∙ parse_digits-digits false n
    ∙ rw within refl
parse_count-count_text (negsuc n) small =
    let named : (n + 1 == 0) ≡ false = ground arith in
    let within : leb (n + 1) (2 ^ 31) ≡ true = ground (arith, small) in
    unfold parse_count in
    (parse_digits-digits true (n + 1) ∙ rw (named, within) (ap negsuc (omega arith)))

count_text-IsFree : (sep : ℕ) (count : ℤ) → 57 < sep → IsFree sep (count_text count)
count_text-IsFree sep (pos n) above =
    digits-IsFree sep (digits n) above (digits_from-IsDigit (suc n) n)
count_text-IsFree sep (negsuc n) above = (
  λ e. absurd (omega (arith, e, above)),
  digits-IsFree sep (digits (n + 1)) above (digits_from-IsDigit (suc (n + 1)) (n + 1)),
)

decode_payload-retry :
    (before t : Text)
    → IsFree colon t
    → decode_payload (before ++ (colon ∷ t)) ≡ of_parts (split_bars t)
unfolding decode_payload
decode_payload-retry before t free =
    let (u, us, e) = split_on-last colon before t free in
    let two : ltb (length (u ∷ (us ++ (t ∷ [])))) 2 ≡ false =
      ground (arith, length-append us (t ∷ [])) in
    rw (e, two, last_of-append [] t us) refl

-- A payload comes back as it was from any key that ends in its text after a colon, where its value
-- has no colon and no bar and its count, which may be negative, is a number of 32 bits.
pub decode_payload-encode_payload :
    (before : Text) (p : Payload)
    → IsFree colon p.value
    → IsFree bar p.value
    → IsInt32 p.count
    → decode_payload (before ++ (colon ∷ encode_payload p)) ≡ some p
unfolding encode_payload
decode_payload-encode_payload before p no_colon no_bar small =
    let ds = count_text p.count in
    let free : IsFree colon (p.value ++ (bar ∷ bar ∷ ds)) =
      All-append (λ c. c ≢ colon) p.value (bar ∷ bar ∷ ds) no_colon
        (
          λ e. absurd (omega (arith, e)),
          (λ e. absurd (omega (arith, e)), count_text-IsFree colon p.count (omega arith)),
        ) in
    decode_payload-retry before (p.value ++ (bar ∷ bar ∷ ds)) free
    ∙ rw
        (
          split_bars-piece p.value ds no_bar,
          split_bars-free ds (count_text-IsFree bar p.count (omega arith)),
          parse_count-count_text p.count small,
        )
        refl
