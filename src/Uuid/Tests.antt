-- ===== src/Uuid/Tests.antt =====
-- Examples of libs/uuid/uuid.go.
use top_lib.Prelude.{ℕ, zero, suc, ◌+◌, ◌/◌, ◌≤◌, ◌<◌, ◌≡◌, refl, some, List, ◌∷◌, length, arith}
use top_lib.Prelude.{◌-◌, Option, []}
use top_lib.Prelude.Int.{pos}
use top_lib.Prelude.Split.{codes}
use top_lib.Errors.Effect.{Action, returns}
use top_lib.Uuid.Random.{
  letters, numbers, zeros, gen_loop, gen_string, gen_number_string, gen_date_rn_string, gen_bytes,
}
use top_lib.Uuid.Random.Lengths.{Draws, Drawn, gen_bytes-doubled}
use top_lib.Uuid.{UuidWorker, epoch, id_of, wait, get, unmarshal, issue}
use top_lib.Uuid.Pack.{InTime, unmarshal-id_of}
use top_lib.Uuid.Sequence.{IsSteady, IsAscending, issue-IsAscending}
use top_lib.Uuid.Overflow.{wait-first, get_repeats}

abbrev five_seconds : ℕ
five_seconds = epoch + 5000

five_seconds-InTime : InTime five_seconds
five_seconds-InTime = record { started = omega arith; before_end = omega arith }

unmarshal-id_of_example :
    let parts = unmarshal (id_of five_seconds 3 7) in
    (parts.worker ≡ 3) × (parts.number ≡ 7) × (parts.time ≡ five_seconds / 1000)
unmarshal-id_of_example =
    unmarshal-id_of five_seconds 3 7 five_seconds-InTime (omega arith) (omega arith)

-- A clock that shows a new millisecond at each reading.
abbrev ticking : ℕ → ℕ
ticking i = epoch + i

ticking-IsSteady : IsSteady ticking 3
ticking-IsSteady = record {
  monotone = λ i j before inside. omega (arith, before);
  spread = λ i inside. omega arith;
  in_time = λ i inside. record { started = omega arith; before_end = omega (arith, inside) };
}

abbrev worker_five : UuidWorker
worker_five = record { timestamp = 0; worker_id = 5; number = 0 }

issue-IsAscending_example :
    (id : ℕ) × (ids : List ℕ) × (issue ticking 1 3 0 worker_five ≡ some (id ∷ ids))
    × (length (id ∷ ids) ≡ 3)
    × IsAscending id ids
issue-IsAscending_example =
    issue-IsAscending ticking 1 3 worker_five ticking-IsSteady (omega arith) refl (omega arith)

-- A clock that stands at the epoch once, and then a millisecond later.
abbrev late : ℕ → ℕ
late zero = epoch
late (suc n) = epoch + 1

late_before : (i : ℕ) → i < 1 → late (0 + i) ≤ epoch
late_before zero inside = omega arith
late_before (suc i) inside = absurd (omega (arith, inside))

wait-first_example : wait late 2 0 epoch epoch ≡ some (epoch + 1, 0 + 1 + 1)
wait-first_example =
    wait-first late 2 0 epoch epoch 1 (omega arith) late_before (omega arith) (omega arith)

abbrev full_worker : UuidWorker
full_worker = record { timestamp = epoch; worker_id = 5; number = 4095 }

get_repeats_example :
    (id : ℕ) × (after : UuidWorker) × (last : UuidWorker) × (get late 1 0 full_worker
      ≡ some (id, after, 0 + 2))
    × (get late 1 (0 + 2) after ≡ some (id, last, 0 + 2 + 1))
get_repeats_example =
    get_repeats late 0 0 (epoch + 1) full_worker
      (record { started = omega arith; before_end = omega arith }) (omega arith) refl refl refl
      (omega arith) refl refl

-- A source that always gives the number before the bound.
abbrev last_below : ℕ → Action (Unit {0}) (Option ℕ)
last_below max w = (returns (some (max - 1)), w)

last_below-Draws : Draws last_below
last_below-Draws max w some_max = (max - 1, w, refl, omega (arith, some_max))

gen_bytes_test : gen_bytes last_below (pos 2) tt ≡ (returns (0 ∷ 0 ∷ 48 ∷ 48 ∷ []), tt)
unfolding gen_bytes gen_loop
gen_bytes_test = refl

gen_date_rn_string_test :
    gen_date_rn_string last_below (codes "20240131") (codes "id") tt
    ≡ (returns (codes "20240131id99"), tt)
unfolding gen_date_rn_string gen_loop
gen_date_rn_string_test = refl

gen_bytes-doubled_example :
    Drawn last_below last_below-Draws letters 3 (gen_string last_below (pos 3)) tt []
    × Drawn last_below last_below-Draws numbers 3 (gen_number_string last_below (pos 3)) tt []
    × Drawn last_below last_below-Draws letters 3 (gen_bytes last_below (pos 3)) tt (zeros 3)
    × (length (zeros 3) ≡ 3)
gen_bytes-doubled_example = gen_bytes-doubled last_below last_below-Draws 3 tt
