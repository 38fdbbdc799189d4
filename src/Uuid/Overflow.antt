-- ===== src/Uuid/Overflow.antt =====
-- The counter past its 4096 values, and the waiting loop (libs/uuid/uuid.go).
use Prim.Native.Nat.{bit_or}
use top_lib.Prelude.{
  ℕ, zero, suc, ◌+◌, ◌^◌, ◌/◌, ◌%◌, ◌≤◌, ◌<◌, ◌≡◌, refl, ap, some, true, false, ltb, ◌==◌, arith,
}
use top_lib.Prelude.Bits.{bit_or_set, bit_or-zero}
use top_lib.Uuid.{UuidWorker, epoch, number_max, worker_max, sub_64, shl_64, id_of, wait, get}
use top_lib.Uuid.Pack.{InTime, id_of-sum}

wait-stop :
    (clock : ℕ → ℕ) (fuel position timestamp now : ℕ)
    → timestamp < now
    → wait clock fuel position timestamp now ≡ some (now, position)
unfolding wait
wait-stop clock zero position timestamp now past = ground arith
wait-stop clock (suc fuel) position timestamp now past = ground arith

wait-go :
    (clock : ℕ → ℕ) (fuel position timestamp now : ℕ)
    → now ≤ timestamp
    → wait clock (suc fuel) position timestamp now
      ≡ wait clock fuel (position + 1) timestamp (clock position)
unfolding wait
wait-go clock fuel position timestamp now early = ground arith

-- The loop ends with the first reading past the timestamp, where the readings before it are not
-- past it and the fuel covers them all.
pub wait-first :
    (clock : ℕ → ℕ) (fuel position timestamp now count : ℕ)
    → now ≤ timestamp
    → ((i : ℕ) → i < count → clock (position + i) ≤ timestamp)
    → timestamp < clock (position + count)
    → count < fuel
    → wait clock fuel position timestamp now ≡ some (clock (position + count), position + count + 1)
wait-first clock zero position timestamp now count early before past enough = absurd (omega arith)
wait-first clock (suc fuel) position timestamp now zero early before past enough =
    let same : position + 0 ≡ position = omega arith in
    rw (wait-go clock fuel position timestamp now early, same)
      (wait-stop clock fuel (position + 1) timestamp (clock position) (rw (← same) past))
wait-first clock (suc fuel) position timestamp now (suc count) early before past enough =
    let same : position + 0 ≡ position = omega arith in
    let shifted : (i : ℕ) → position + 1 + i ≡ position + suc i = λ i. omega arith in
    rw (wait-go clock fuel position timestamp now early, ← shifted count)
      (wait-first clock fuel (position + 1) timestamp (clock position) count
        (rw (← same) (before 0 (omega arith)))
        (λ i inside. rw (shifted i) (before (suc i) (omega arith))) (rw (shifted count) past)
        (omega arith))

-- With an odd worker number the counter's 4096 is lost in the worker's bits.
id_of-full :
    (now worker : ℕ)
    → InTime now
    → worker ≤ worker_max
    → worker % 2 ≡ 1
    → id_of now worker (number_max + 1) ≡ id_of now worker 0
id_of-full now worker h hw odd =
    let whole = id_of-sum now worker 0 h hw (omega arith) in
    let set : id_of now worker 0 / 2 ^ 12 % 2 ≡ 1 = omega (arith, whole, odd) in
    let high : ℕ = bit_or (shl_64 (sub_64 now epoch) 22) (shl_64 worker 12) in
    let plain : id_of now worker 0 ≡ high = unfold id_of in bit_or-zero high in
    rw plain (unfold id_of in bit_or_set 12 high (rw plain at set))

get-full :
    (clock : ℕ → ℕ) (fuel position later : ℕ) (w : UuidWorker)
    → w.number ≡ number_max
    → w.timestamp ≡ clock position
    → w.timestamp < later
    → clock (position + 1) ≡ later
    → get clock (suc fuel) position w
      ≡ some (
        id_of later w.worker_id (number_max + 1),
        record w { number = number_max + 1 },
        position + 2,
      )
unfolding get
get-full clock fuel position later w full still past first =
    let hit : (w.timestamp == clock position) ≡ true = ground (arith, still) in
    let over : ltb number_max (w.number + 1) ≡ true = ground (arith, full) in
    let waited : wait clock (suc fuel) (position + 1) w.timestamp (clock position)
        ≡ some (later, position + 2) =
      rw
        (
          wait-go clock fuel (position + 1) w.timestamp (clock position) (omega (arith, still)),
          first,
        )
        (rw (wait-stop clock fuel (position + 1 + 1) w.timestamp later past)
          (ap (λ p. some (later, p)) (omega arith))) in
    rw (hit, over, waited, full) refl

get-fresh :
    (clock : ℕ → ℕ) (fuel position later : ℕ) (w : UuidWorker)
    → w.timestamp < later
    → clock position ≡ later
    → get clock fuel position w
      ≡ some (id_of later w.worker_id 0, record w { number = 0; timestamp = later }, position + 1)
unfolding get
get-fresh clock fuel position later w past now =
    let miss : (w.timestamp == clock position) ≡ false = ground (arith, now, past) in
    rw (miss, now) refl

-- The 4097th call in one millisecond waits for the next one and leaves the counter and the
-- timestamp as they are, so with an odd worker number it and the first call after it, in the same
-- millisecond, give the same id.
pub get_repeats :
    (clock : ℕ → ℕ) (fuel position later : ℕ) (w : UuidWorker)
    → InTime later
    → w.worker_id ≤ worker_max
    → w.worker_id % 2 ≡ 1
    → w.number ≡ number_max
    → w.timestamp ≡ clock position
    → w.timestamp < later
    → clock (position + 1) ≡ later
    → clock (position + 2) ≡ later
    → (id : ℕ) × (after : UuidWorker) × (last : UuidWorker) × (get clock (suc fuel) position w
        ≡ some (id, after, position + 2))
      × (get clock (suc fuel) (position + 2) after ≡ some (id, last, position + 2 + 1))
get_repeats clock fuel position later w h hw odd full still past first second =
    let after : UuidWorker = record w { number = number_max + 1 } in
    (
      id_of later w.worker_id 0,
      after,
      record w { number = 0; timestamp = later },
      rw (← id_of-full later w.worker_id h hw odd)
          (get-full clock fuel position later w full still past first),
      get-fresh clock (suc fuel) (position + 2) later after past second,
    )
