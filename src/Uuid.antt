-- ===== src/Uuid.antt =====
-- libs/uuid/uuid.go: ids made of a time, a worker's number and a counter. An int64 is its bit
-- pattern, a number below 2 ^ 64; the clock is the sequence of readings, in milliseconds, that
-- time.Now().UnixNano() / 1e6 gives one after the other.
pub mod Pack
pub mod Sequence
pub mod Overflow
pub mod Random
mod Tests
use Prim.Native.Nat.{bit_and, bit_or}
use top_lib.Prelude.{
  ℕ, zero, suc, ◌+◌, ◌-◌, ◌*◌, ◌/◌, ◌%◌, ◌^◌, Bool, true, false, ◌||◌, Option, none, some, List, [],
  ◌∷◌, ltb, ◌==◌, if◌then◌else◌,
}
use top_lib.Prelude.Int.{ℤ, pos, negsuc, ltb_ℤ, pos_part}

abbrev pub worker_bits : ℕ
worker_bits = 10

abbrev pub number_bits : ℕ
number_bits = 12

-- -1 ^ (-1 << workerBits)
abbrev pub worker_max : ℕ
worker_max = 2 ^ worker_bits - 1

-- -1 ^ (-1 << numberBits)
abbrev pub number_max : ℕ
number_max = 2 ^ number_bits - 1

abbrev pub time_shift : ℕ
time_shift = 22

abbrev pub worker_shift : ℕ
worker_shift = 12

abbrev pub epoch : ℕ
epoch = 1652751577000

pub record UuidWorker : Type 0 where
  pub timestamp : ℕ
  pub worker_id : ℕ
  pub number : ℕ

unfoldable pub new_uuid_worker : ℤ → Option UuidWorker
new_uuid_worker worker_id =
    if ltb_ℤ worker_id (pos 0) || ltb_ℤ (pos worker_max) worker_id
    then none
    else some (record { timestamp = 0; worker_id = pos_part worker_id; number = 0 })

-- a - b and x << k on int64
abbrev pub sub_64 : ℕ → ℕ → ℕ
sub_64 a b = (a + 2 ^ 64 - b) % 2 ^ 64

abbrev pub shl_64 : ℕ → ℕ → ℕ
shl_64 x k = x * 2 ^ k % 2 ^ 64

unfoldable pub id_of : ℕ → ℕ → ℕ → ℕ
id_of now worker_id number =
    bit_or (bit_or (shl_64 (sub_64 now epoch) time_shift) (shl_64 worker_id worker_shift)) number

-- The waiting loop: readings from the position on, until one is past the timestamp.
unfoldable pub wait : (ℕ → ℕ) → ℕ → ℕ → ℕ → ℕ → Option (ℕ × ℕ)
wait clock zero position timestamp now = if ltb timestamp now then some (now, position) else none
wait clock (suc fuel) position timestamp now =
    let again = wait clock fuel (position + 1) timestamp (clock position) in
    if ltb timestamp now then some (now, position) else again

-- Get: the id, the worker's new state, and the position of the clock. `none` is fuel run out.
unfoldable pub get : (ℕ → ℕ) → ℕ → ℕ → UuidWorker → Option (ℕ × UuidWorker × ℕ)
unfolding wait id_of
get clock fuel position w =
    let now = clock position in
    let number = w.number + 1 in
    if w.timestamp == now
    then if ltb number_max number
      then elim (wait clock fuel (position + 1) w.timestamp now) [
        | none ↦ none
        | some (later, position') ↦
            some (id_of later w.worker_id number, record w { number = number }, position')
      ]
      else some (id_of now w.worker_id number, record w { number = number }, position + 1)
    else some (id_of now w.worker_id 0, record w { number = 0; timestamp = now }, position + 1)

-- The map that Unmarshal makes of an id that is not negative.
pub record Parts : Type 0 where
  pub id : ℕ
  pub time : ℕ
  pub worker : ℕ
  pub number : ℕ

unfoldable pub unmarshal : ℕ → Parts
unmarshal id = record {
  id = id;
  time = (id / 2 ^ time_shift + epoch) / 1000;
  worker = bit_and id (2 ^ time_shift - 1) / 2 ^ worker_shift;
  number = bit_and id (2 ^ worker_shift - 1);
}

-- n calls of Get, one after the other: the ids.
unfoldable pub issue : (ℕ → ℕ) → ℕ → ℕ → ℕ → UuidWorker → Option (List ℕ)
issue clock fuel zero position w = some []
issue clock fuel (suc n) position w = elim (get clock fuel position w) [
  | none ↦ none
  | some (id, w', position') ↦ elim (issue clock fuel n position' w') [
    | none ↦ none
    | some ids ↦ some (id ∷ ids)
  ]
]
