-- ===== src/Logs/Levels.antt =====
-- Which level a logger has (libs/logs/logger.go).
use top_lib.Prelude.{ℕ, ◌*◌, ◌≡◌, arith, true}
use top_lib.Prelude.Int.{ℤ, pos, negsuc, ◌+ℤ◌, leb_ℤ}
use top_lib.Logs.{debug_level, fatal_level, to_int8, level_of}

-- From Debug to Fatal.
abbrev pub IsLevel : ℤ → Type 0
IsLevel level = (leb_ℤ debug_level level ≡ true) × (leb_ℤ level fatal_level ≡ true)

level_of-IsLevel : (n : ℤ) → IsLevel (level_of n)
unfolding level_of to_int8
level_of-IsLevel (pos n) = ground arith
level_of-IsLevel (negsuc n) = ground arith

-- Every int gives a logger a level from Debug to Fatal; a level gives itself, and so does a level
-- with a multiple of 256 added to it.
pub level_of-shifted :
    (n level : ℤ) (k : ℕ)
    → IsLevel level
    → IsLevel (level_of n) × (level_of (level +ℤ pos (256 * k)) ≡ level)
unfolding level_of to_int8 ◌+ℤ◌
level_of-shifted n (pos m) k known = (level_of-IsLevel n, ground arith)
level_of-shifted n (negsuc m) k known = (level_of-IsLevel n, ground arith)
