-- ===== src/Utils/Address/Ranges.antt =====
-- Which addresses IsInnerIp takes for inner ones (utils/system.go).
use top_lib.Prelude.{
  ℕ, suc, ◌+◌, ◌*◌, ◌/◌, ◌^◌, ◌≤◌, ◌≡◌, refl, ◌⊎◌, ◌↔◌, Bool, true, some, [], ◌∷◌, ◌++◌, All, arith,
}
use top_lib.Prelude.Split.{Text, IsFree, split_on-piece, split_on-free}
use top_lib.Prelude.Decimal.{
  digits, IsDigit, digits_from-IsDigit, read_digits, read_digits-digits_from, digits_from-cons,
}
use top_lib.Utils.Address.{dot, atoi, net_aton, inner_number, is_inner_ip}

-- The text of an address of four numbers.
abbrev pub dotted : ℕ → ℕ → ℕ → ℕ → Text
dotted a b c d = digits a ++ (dot ∷ (digits b ++ (dot ∷ (digits c ++ (dot ∷ digits d)))))

IsDigit-IsFree : (xs : Text) → All IsDigit xs → IsFree dot xs
IsDigit-IsFree [] h = tt
IsDigit-IsFree (c ∷ cs) ((low, high), h) =
    (λ e. absurd (omega (arith, e, low)), IsDigit-IsFree cs h)

digits-IsFree-dot : (n : ℕ) → IsFree dot (digits n)
digits-IsFree-dot n = IsDigit-IsFree (digits n) (digits_from-IsDigit (suc n) n)

atoi-read :
    (xs : Text) (c : ℕ) (cs : Text) (n : ℕ) → xs ≡ c ∷ cs → read_digits 0 xs ≡ some n → atoi xs ≡ n
unfolding atoi
atoi-read [] c cs n e h = absurd (ground (arith, e))
atoi-read (x ∷ xs) c cs n e h = rw (h, atoi) refl

atoi-digits : (n : ℕ) → atoi (digits n) ≡ n
atoi-digits n =
    let (c, cs, e) = digits_from-cons n n in
    atoi-read (digits n) c cs n e (read_digits-digits_from (suc n) n (omega arith))

-- NetAton of four numbers in decimal is their number in base 256.
pub net_aton-dotted :
    (a b c d : ℕ) → net_aton (dotted a b c d) ≡ a * 2 ^ 24 + b * 2 ^ 16 + c * 2 ^ 8 + d
unfolding net_aton
net_aton-dotted a b c d =
    rw
      (
        split_on-piece dot (digits a) (digits b ++ (dot ∷ (digits c ++ (dot ∷ digits d))))
            (digits-IsFree-dot a),
        split_on-piece dot (digits b) (digits c ++ (dot ∷ digits d)) (digits-IsFree-dot b),
        split_on-piece dot (digits c) (digits d) (digits-IsFree-dot c),
        split_on-free dot (digits d) (digits-IsFree-dot d),
        atoi-digits a,
        atoi-digits b,
        atoi-digits c,
        atoi-digits d,
      )
      refl

-- The inner ranges: 10/8, 172.16/12, 192.168/16, 100.64/10 and 127/8.
abbrev pub IsInner : ℕ → ℕ → Type 0
IsInner a b =
    (a ≡ 10)
    ⊎ (((a ≡ 172) × (16 ≤ b) × (b ≤ 31))
        ⊎ (((a ≡ 192) × (b ≡ 168)) ⊎ (((a ≡ 100) × (64 ≤ b) × (b ≤ 127)) ⊎ (a ≡ 127))))

inner_number-IsInner :
    (a b c d : ℕ)
    → b ≤ 255
    → c ≤ 255
    → d ≤ 255
    → (inner_number (a * 2 ^ 24 + b * 2 ^ 16 + c * 2 ^ 8 + d) ≡ true) ↔ IsInner a b
inner_number-IsInner a b c d hb hc hd =
    let n : ℕ = a * 2 ^ 24 + b * 2 ^ 16 + c * 2 ^ 8 + d in
    let by_24 : n / 2 ^ 24 ≡ a = omega (arith, hb, hc, hd) in
    let by_20 : n / 2 ^ 20 ≡ a * 16 + b / 16 = omega (arith, hb, hc, hd) in
    let by_16 : n / 2 ^ 16 ≡ a * 256 + b = omega (arith, hb, hc, hd) in
    let by_22 : n / 2 ^ 22 ≡ a * 4 + b / 64 = omega (arith, hb, hc, hd) in
    rw (by_24, by_20, by_16, by_22) (ground arith)

-- IsInnerIp of four decimal numbers with dots between them, which net.ParseIP accepts, says yes
-- exactly where the address lies in 10/8, 172.16/12, 192.168/16, 100.64/10 or 127/8. It is not said
-- of the other texts that net.ParseIP accepts, those of IPv6.
pub is_inner_ip-IsInner :
    (check_ip : Text → Bool) (a b c d : ℕ)
    → b ≤ 255
    → c ≤ 255
    → d ≤ 255
    → check_ip (dotted a b c d) ≡ true
    → (is_inner_ip check_ip (dotted a b c d) ≡ true) ↔ IsInner a b
unfolding is_inner_ip
is_inner_ip-IsInner check_ip a b c d hb hc hd good =
    rw (good, net_aton-dotted a b c d) (inner_number-IsInner a b c d hb hc hd)
