-- ===== src/Prelude/Bits.antt =====
-- The bit operations on numbers, as sums of their binary digits.
use Prim.Native.Nat.{bit_and, bit_or, digits, bit_and-bitwise, bit_or-bitwise, min, max}
use native.Mathlib.Nat.{
  pow-suc, one-le-pow, mul_assoc, mul_comm, div-one, div-div-eq-div-mul, mod-lt, mod-eq_of_lt,
  mod-add-div', add-mul-mod_self_right,
}
use top_lib.Prelude.{
  ℕ, zero, suc, ◌+◌, ◌-◌, ◌*◌, ◌/◌, ◌%◌, ◌^◌, ◌≤◌, ◌<◌, ◌≡◌, refl, sym, ap, ◌∙◌, arith,
}

-- A count of digits that is large enough does not matter.
digits_enough :
    (z : ℕ → ℕ) (f : ℕ → ℕ → ℕ) (n m a b : ℕ) → a ≤ n → a ≤ m → digits z f n a b ≡ digits z f m a b
digits_enough z f zero zero zero b h k = refl
digits_enough z f zero (suc m) zero b h k = refl
digits_enough z f zero m (suc a) b h k = absurd (omega arith)
digits_enough z f (suc n) zero zero b h k = refl
digits_enough z f (suc n) zero (suc a) b h k = absurd (omega arith)
digits_enough z f (suc n) (suc m) zero b h k = refl
digits_enough z f (suc n) (suc m) (suc a) b h k =
    ap (λ d. d * 2 + f (suc a % 2) (b % 2))
      (digits_enough z f n m (suc a / 2) (b / 2) (omega arith) (omega arith))

zero-bit_or : (b : ℕ) → bit_or 0 b ≡ b
zero-bit_or b = bit_or-bitwise 0 b

-- One digit at a time, from the lowest.
pub bit_or_digit : (a b : ℕ) → bit_or a b ≡ bit_or (a / 2) (b / 2) * 2 + max (a % 2) (b % 2)
bit_or_digit zero b = omega (arith, zero-bit_or b, zero-bit_or (b / 2))
bit_or_digit (suc a) b =
    bit_or-bitwise (suc a) b
    ∙ ap (λ d. d * 2 + max (suc a % 2) (b % 2))
        (digits_enough (λ b. b) max a (suc a / 2) (suc a / 2) (b / 2) (omega arith) (omega arith)
          ∙ sym (bit_or-bitwise (suc a / 2) (b / 2)))

zero-bit_and : (b : ℕ) → bit_and 0 b ≡ 0
zero-bit_and b = bit_and-bitwise 0 b

pub bit_and_digit : (a b : ℕ) → bit_and a b ≡ bit_and (a / 2) (b / 2) * 2 + min (a % 2) (b % 2)
bit_and_digit zero b = omega (arith, zero-bit_and b, zero-bit_and (b / 2))
bit_and_digit (suc a) b =
    bit_and-bitwise (suc a) b
    ∙ ap (λ d. d * 2 + min (suc a % 2) (b % 2))
        (digits_enough (λ b. 0) min a (suc a / 2) (suc a / 2) (b / 2) (omega arith) (omega arith)
          ∙ sym (bit_and-bitwise (suc a / 2) (b / 2)))

bit_or-zero_upto : (n a : ℕ) → a ≤ n → bit_or a 0 ≡ a
bit_or-zero_upto n zero h = zero-bit_or 0
bit_or-zero_upto zero (suc a) h = absurd (omega arith)
bit_or-zero_upto (suc n) (suc a) h =
    omega (arith, bit_or_digit (suc a) 0, bit_or-zero_upto n (suc a / 2) (omega arith))

pub bit_or-zero : (a : ℕ) → bit_or a 0 ≡ a
bit_or-zero a = bit_or-zero_upto a a (omega arith)

bit_and-zero_upto : (n a : ℕ) → a ≤ n → bit_and a 0 ≡ 0
bit_and-zero_upto n zero h = zero-bit_and 0
bit_and-zero_upto zero (suc a) h = absurd (omega arith)
bit_and-zero_upto (suc n) (suc a) h =
    omega (arith, bit_and_digit (suc a) 0, bit_and-zero_upto n (suc a / 2) (omega arith))

pow_double : (k : ℕ) → 2 ^ suc k ≡ 2 ^ k * 2
pow_double k = pow-suc 2 k

pow_pos : (k : ℕ) → 0 < 2 ^ k
pow_pos k = one-le-pow k 2 (omega arith)

-- The lowest digit of an even number is free.
even_or : (x b : ℕ) → bit_or (x * 2) b ≡ bit_or x (b / 2) * 2 + b % 2
even_or x b =
    let halved : x * 2 / 2 ≡ x = omega arith in
    omega (arith, bit_or_digit (x * 2) b, ap (λ t. bit_or t (b / 2)) halved)

-- Where the low k digits of the one number are free for the other, `|` is the sum.
pub bit_or-add : (k a b : ℕ) → b < 2 ^ k → bit_or (a * 2 ^ k) b ≡ a * 2 ^ k + b
bit_or-add zero a b h =
    let gone : b ≡ 0 = omega arith in rw gone (omega (arith, bit_or-zero (a * 2 ^ 0)))
bit_or-add (suc k) a b h =
    let shifted : a * 2 ^ suc k ≡ a * 2 ^ k * 2 =
      ap (λ t. a * t) (pow_double k) ∙ sym (mul_assoc a (2 ^ k) 2) in
    let small : b / 2 < 2 ^ k = omega (arith, pow_double k) in
    rw shifted (omega (arith, even_or (a * 2 ^ k) b, bit_or-add k a (b / 2) small))

-- `|` with a digit that is set changes nothing.
pub bit_or_set : (k x : ℕ) → x / 2 ^ k % 2 ≡ 1 → bit_or x (2 ^ k) ≡ x
bit_or_set zero x h =
    omega (arith, bit_or_digit x 1, bit_or-zero (x / 2), ap (λ t. t % 2) (div-one x))
bit_or_set (suc k) x h =
    let halved : 2 ^ suc k / 2 ≡ 2 ^ k = omega (arith, pow_double k) in
    let even : 2 ^ suc k % 2 ≡ 0 = omega (arith, pow_double k) in
    let lower : x / 2 / 2 ^ k % 2 ≡ 1 =
      rw (div-div-eq-div-mul x 2 (2 ^ k), mul_comm 2 (2 ^ k), ← pow_double k) h in
    omega (
      arith,
      bit_or_digit x (2 ^ suc k),
      ap (λ t. bit_or (x / 2) t) halved,
      bit_or_set k (x / 2) lower,
    )

-- The remainder by 2 p, from that of the half by p.
mod_double : (p x : ℕ) → 0 < p → x % (p * 2) ≡ x / 2 % p * 2 + x % 2
mod_double p x pos =
    let r : ℕ = x / 2 % p * 2 + x % 2 in
    let small : r < p * 2 = omega (arith, mod-lt (x / 2) pos) in
    let whole : x ≡ r + x / 2 / p * (p * 2) = grind (arith, mod-add-div' (x / 2) p) in
    ap (λ t. t % (p * 2)) whole ∙ add-mul-mod_self_right r (x / 2 / p) (p * 2) ∙ mod-eq_of_lt small

-- `&` with a mask of k ones is the remainder.
pub bit_and_mask : (k x : ℕ) → bit_and x (2 ^ k - 1) ≡ x % 2 ^ k
bit_and_mask zero x = omega (arith, bit_and-zero_upto x x (omega arith))
bit_and_mask (suc k) x =
    let halved : (2 ^ suc k - 1) / 2 ≡ 2 ^ k - 1 = omega (arith, pow_double k, pow_pos k) in
    let odd : (2 ^ suc k - 1) % 2 ≡ 1 = omega (arith, pow_double k, pow_pos k) in
    rw (pow_double k) (
      omega (
        arith,
        ap (λ t. bit_and x (t - 1)) (sym (pow_double k)),
        bit_and_digit x (2 ^ suc k - 1),
        ap (λ t. bit_and (x / 2) t) halved,
        bit_and_mask k (x / 2),
        mod_double (2 ^ k) x (pow_pos k),
      ))
