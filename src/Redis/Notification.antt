-- ===== src/Redis/Notification.antt =====
-- libs/redis/redis_notification.go: the payloads and the retries of notifications.
pub mod Payloads
pub mod Retries
use top_lib.Prelude.{
  ℕ, zero, suc, ◌+◌, ◌-◌, ◌*◌, ◌/◌, ◌%◌, ◌^◌, Bool, true, false, not, ◌&&◌, ◌||◌, Option, none,
  some, List, [], ◌∷◌, ◌++◌, length, drop, ltb, leb, ◌==◌, get_elem?, if◌then◌else◌,
}
use top_lib.Prelude.Int.{ℤ, pos, negsuc, ◌+ℤ◌, ltb_ℤ}
use top_lib.Prelude.Decimal.{digits, read_digits}
use top_lib.Prelude.Split.{Text, colon, bar, split_on, split_bars, last_of}

-- Payload: value and count.
pub record Payload : Type 0 where
  pub value : Text
  pub count : ℤ

-- '-' and '+'.
abbrev pub minus : ℕ
minus = 45

abbrev pub plus : ℕ
plus = 43

-- A number in the range of 32 bits, by its sign.
abbrev pub clamped : Bool → ℕ → ℤ
clamped false n = if ltb n (2 ^ 31) then pos n else pos (2 ^ 31 - 1)
clamped true n =
    if n == 0 then pos 0 else if leb n (2 ^ 31) then negsuc (n - 1) else negsuc (2 ^ 31 - 1)

abbrev pub parse_digits : Bool → Text → ℤ
parse_digits negative [] = pos 0
parse_digits negative (c ∷ cs) = elim (read_digits 0 (c ∷ cs)) [
  | none ↦ pos 0
  | some n ↦ clamped negative n
]

-- strconv.ParseInt(s, 10, 32), its error left aside: zero for a text that is no number, the nearest
-- value of 32 bits for a number out of range.
unfoldable pub parse_count : Text → ℤ
parse_count [] = pos 0
parse_count (c ∷ cs) =
    if c == minus
    then parse_digits true cs
    else if c == plus
    then parse_digits false cs
    else parse_digits false (c ∷ cs)

-- %d
abbrev pub count_text : ℤ → Text
count_text (pos n) = digits n
count_text (negsuc n) = minus ∷ digits (n + 1)

-- fmt.Sprintf("%s||%d", p.Value, p.count)
unfoldable pub encode_payload : Payload → Text
encode_payload p = p.value ++ (bar ∷ bar ∷ count_text p.count)

abbrev of_parts : List Text → Option Payload
of_parts [] = none
of_parts (value ∷ []) = none
of_parts (value ∷ count ∷ more) = some (record { value = value; count = parse_count count })

unfoldable pub decode_payload : Text → Option Payload
decode_payload s =
    let ss = split_on colon s in
    if ltb (length ss) 2 then none else of_parts (split_bars (last_of [] (drop 1 ss)))

-- What a notification makes of an expired key: it puts the payload back under the delay, or it
-- deletes the lock. An index past the policies panics, as does a negative one.
pub data Deed (D : Type 0) : Type 0 where
  put : (delay : D) → (payload : Payload) → Deed D
  unlocked : Deed D
  panicked : Deed D

module _ {D : Type 0} (policies : List D) where
  -- n.policies[p.count]
  abbrev policy_at : ℤ → Option D
  policy_at (pos i) = get_elem? policies i
  policy_at (negsuc i) = none

  unfoldable pub put_notification : Payload → Deed D
  put_notification p = elim (policy_at p.count) [ none ↦ panicked | some d ↦ put d p ]

  -- The loop of Subscribe for one expired key: whether the lock is got, and what the handler says.
  unfoldable pub on_expired : Bool → (Payload → Bool) → Payload → List (Deed D)
  on_expired locked handler old =
      let p : Payload = record old { count = old.count +ℤ pos 1 } in
      let put_next = handler p in
      let retries = ltb_ℤ p.count (pos (length policies)) in
      if not locked
      then []
      else (if put_next && retries then put_notification p ∷ [] else [])
        ++ (if not put_next || (put_next && not retries) then unlocked ∷ [] else [])
