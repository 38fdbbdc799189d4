-- ===== src/Uuid/Random.antt =====
-- libs/uuid/gen_string.go, gen_bytes.go, and GenString of libs/jwt/genid.go: random texts. rand.Int
-- is an argument, which gives a number or nil; its error is not looked at.
pub mod Lengths
use top_lib.Prelude.{
  ℕ, zero, suc, String, Option, none, some, List, [], ◌∷◌, ◌++◌, length, get_elem?,
}
use top_lib.Prelude.Int.{ℤ, pos, negsuc, pos_part}
use top_lib.Prelude.Split.{Text, codes}
use top_lib.Errors.Effect.{Action, pure, panic, other, ◌>>=◌}

abbrev pub letters : Text
letters = codes "abcdefghijklmnopqrstuvwxyzABCDEFGHIJKLMNOPQRSTUVWXYZ1234567890"

abbrev pub numbers : Text
numbers = codes "0123456789"

-- make([]byte, len)
abbrev pub zeros : ℕ → Text
zeros zero = []
zeros (suc n) = 0 ∷ zeros n

module _ {W : Type 0} (rand_int : ℕ → Action W (Option ℕ)) where
  -- str[i]
  abbrev pub at_index : Option ℕ → Action W ℕ
  at_index none = panic (other "index out of range")
  at_index (some c) = pure c

  -- str[randomInt.Int64()], where a nil randomInt panics.
  abbrev pub pick : Text → Option ℕ → Action W ℕ
  pick str none = panic (other "invalid memory address or nil pointer dereference")
  pick str (some k) = at_index (get_elem? str k)

  -- The loop, with `count` turns left.
  unfoldable pub gen_loop : Text → ℕ → Text → Action W Text
  gen_loop str zero container = pure container
  gen_loop str (suc count) container =
      rand_int (length str) >>= pick str >>= λ c. gen_loop str count (container ++ (c ∷ []))

  unfoldable pub gen_string : ℤ → Action W Text
  gen_string len = gen_loop letters (pos_part len) []

  unfoldable pub gen_number_string : ℤ → Action W Text
  gen_number_string len = gen_loop numbers (pos_part len) []

  -- The date as time.Now().Format gives it.
  unfoldable pub gen_date_rn_string : (date : Text) → Text → Action W Text
  gen_date_rn_string date id_string =
      gen_loop numbers 2 [] >>= λ container. pure (date ++ (id_string ++ container))

  unfoldable pub gen_bytes : ℤ → Action W Text
  gen_bytes (pos len) = gen_loop letters len (zeros len)
  gen_bytes (negsuc n) = panic (other "makeslice: len out of range")
