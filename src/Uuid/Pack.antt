-- ===== src/Uuid/Pack.antt =====
-- An id as the sum of its parts, and back (libs/uuid/uuid.go).
use top_lib.Prelude.{ℕ, ◌+◌, ◌-◌, ◌*◌, ◌/◌, ◌^◌, ◌≤◌, ◌<◌, ◌≡◌, arith}
use top_lib.Prelude.Bits.{bit_or-add, bit_and_mask}
use top_lib.Uuid.{epoch, number_max, worker_max, sub_64, shl_64, id_of, unmarshal}

-- A time that the 41 bits hold: from the epoch on, for about 69 years.
pub record InTime (now : ℕ) : Type 0 where
  pub started : epoch ≤ now
  pub before_end : now < epoch + 2 ^ 41

-- The id is the sum of the three parts, each in its own bits.
pub id_of-sum :
    (now worker number : ℕ)
    → InTime now
    → worker ≤ worker_max
    → number ≤ number_max
    → id_of now worker number ≡ (now - epoch) * 2 ^ 22 + worker * 2 ^ 12 + number
unfolding id_of
id_of-sum now worker number h hw hn =
    let t : ℕ = now - epoch in
    let high : shl_64 (sub_64 now epoch) 22 ≡ t * 2 ^ 22 = omega arith in
    let mid : shl_64 worker 12 ≡ worker * 2 ^ 12 = omega arith in
    let joined : t * 2 ^ 22 + worker * 2 ^ 12 ≡ (t * 2 ^ 10 + worker) * 2 ^ 12 = omega arith in
    rw (high, mid, bit_or-add 22 t (worker * 2 ^ 12) (omega arith), joined)
      (bit_or-add 12 (t * 2 ^ 10 + worker) number (omega arith))

-- Unmarshal gives back the worker, the counter and the second of an id.
pub unmarshal-id_of :
    (now worker number : ℕ)
    → InTime now
    → worker ≤ worker_max
    → number ≤ number_max
    → let parts = unmarshal (id_of now worker number) in
      (parts.worker ≡ worker) × (parts.number ≡ number) × (parts.time ≡ now / 1000)
unfolding unmarshal
unmarshal-id_of now worker number h hw hn =
    let id : ℕ = id_of now worker number in
    (
      omega (arith, bit_and_mask 22 id, id_of-sum now worker number h hw hn),
      omega (arith, bit_and_mask 12 id, id_of-sum now worker number h hw hn),
      omega (arith, id_of-sum now worker number h hw hn),
    )
