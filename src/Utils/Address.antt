-- ===== src/Utils/Address.antt =====
-- utils/system.go: NetAton and IsInnerIp. CheckIp is net.ParseIP, which the section takes.
pub mod Ranges
use top_lib.Prelude.{
  ℕ, ◌+◌, ◌*◌, ◌/◌, ◌^◌, Bool, true, false, ◌||◌, Option, none, some, List, [], ◌∷◌, ◌==◌,
  if◌then◌else◌,
}
use top_lib.Prelude.Split.{Text, split_on}
use top_lib.Prelude.Decimal.{read_digits}

abbrev pub dot : ℕ
dot = 46

-- strconv.Atoi of a text with no sign and a value that an int holds: zero where it is no number.
unfoldable pub atoi : Text → ℕ
atoi [] = 0
atoi (c ∷ cs) = elim (read_digits 0 (c ∷ cs)) [ none ↦ 0 | some n ↦ n ]

abbrev sum_of : List Text → ℕ
sum_of (b0 ∷ b1 ∷ b2 ∷ b3 ∷ []) = atoi b0 * 2 ^ 24 + atoi b1 * 2 ^ 16 + atoi b2 * 2 ^ 8 + atoi b3
sum_of _ = 0

unfoldable pub net_aton : Text → ℕ
net_aton ip = sum_of (split_on dot ip)

abbrev of_octets : ℕ → ℕ → ℕ → ℕ → ℕ
of_octets a b c d = a * 2 ^ 24 + b * 2 ^ 16 + c * 2 ^ 8 + d

-- The five comparisons of IsInnerIp, with NetAton of 10.255.255.255, 172.16.255.255,
-- 192.168.255.255, 100.64.255.255 and 127.255.255.255; x >> k is x / 2 ^ k.
abbrev pub inner_number : ℕ → Bool
inner_number n =
    (n / 2 ^ 24 == of_octets 10 255 255 255 / 2 ^ 24)
    || ((n / 2 ^ 20 == of_octets 172 16 255 255 / 2 ^ 20)
        || ((n / 2 ^ 16 == of_octets 192 168 255 255 / 2 ^ 16)
            || ((n / 2 ^ 22 == of_octets 100 64 255 255 / 2 ^ 22)
                || (n / 2 ^ 24 == of_octets 127 255 255 255 / 2 ^ 24))))

module _ (check_ip : Text → Bool) where
  unfoldable pub is_inner_ip : Text → Bool
  is_inner_ip ip = if check_ip ip then inner_number (net_aton ip) else false
