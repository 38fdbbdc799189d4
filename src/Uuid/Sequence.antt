-- ===== src/Uuid/Sequence.antt =====
-- A run of Get under a clock that does not go back (libs/uuid/uuid.go).
use top_lib.Prelude.{
  ℕ, zero, suc, ◌+◌, ◌≤◌, ◌<◌, ◌≢◌, ◌≡◌, refl, ap, ==_iff, Bool-cases, inl, inr, true, false, some,
  List, [], ◌∷◌, ◌==◌, length, arith,
}
use native.Mathlib.Decide.{dec_le}
use top_lib.Uuid.{UuidWorker, number_max, worker_max, id_of, get, issue}
use top_lib.Uuid.Pack.{InTime, id_of-sum}

-- The first n readings of the clock do not go back, lie in the 41 bits, and show one millisecond
-- at most 4096 times.
pub record IsSteady (clock : ℕ → ℕ) (n : ℕ) : Type 0 where
  pub monotone : (i j : ℕ) → i ≤ j → j < n → clock i ≤ clock j
  pub spread : (i : ℕ) → i + 4096 < n → clock i < clock (i + 4096)
  pub in_time : (i : ℕ) → i < n → InTime (clock i)

-- The worker's state when the clock stands at a position: its timestamp was first read at `start`,
-- and every reading since has been counted.
pub record IsCurrent (clock : ℕ → ℕ) (start position : ℕ) (w : UuidWorker) : Type 0 where
  pub read : clock start ≡ w.timestamp
  pub counted : start + w.number + 1 ≡ position
  pub room : w.number ≤ number_max
  pub known : w.worker_id ≤ worker_max

abbrev current : UuidWorker → ℕ
current w = id_of w.timestamp w.worker_id w.number

-- What one call gives.
pub record Issues (clock : ℕ → ℕ) (fuel position : ℕ) (w : UuidWorker) : Type 0 where
  pub state : UuidWorker
  pub start : ℕ
  pub gives : get clock fuel position w ≡ some (current state, state, position + 1)
  pub next : IsCurrent clock start (position + 1) state
  pub same : state.worker_id ≡ w.worker_id

-- The counter has room for one more call in the millisecond.
has_room :
    (clock : ℕ → ℕ) (n start position : ℕ) (w : UuidWorker)
    → IsSteady clock n
    → position < n
    → IsCurrent clock start position w
    → w.timestamp ≡ clock position
    → w.number + 1 ≤ number_max
has_room clock n start position w h inside c stays = elim (dec_le (w.number + 1) number_max) [
  | yes room ↦ room
  | no full ↦
      let far : start + 4096 ≡ position = omega (arith, c.counted, c.room) in
      absurd (omega (arith, h.spread start (omega (arith, far)), ap clock far, c.read))
]

same_ms :
    (clock : ℕ → ℕ) (fuel n start position : ℕ) (w : UuidWorker)
    → IsSteady clock n
    → position < n
    → IsCurrent clock start position w
    → (w.timestamp == clock position) ≡ true
    → (r : Issues clock fuel position w) × (current w < current r.state)
unfolding get
same_ms clock fuel n start position w h inside c hit =
    let stays : w.timestamp ≡ clock position = (==_iff w.timestamp (clock position)).0 hit in
    let room : w.number + 1 ≤ number_max = has_room clock n start position w h inside c stays in
    let timely : InTime w.timestamp = rw stays (h.in_time position inside) in
    let w' : UuidWorker = record w { number = w.number + 1 } in
    (
      record {
        state = w';
        start = start;
        gives = ground (arith, hit, stays);
        next = record {
          read = c.read;
          counted = omega (arith, c.counted);
          room = room;
          known = c.known;
        };
        same = refl;
      },
      omega (
        arith,
        id_of-sum w.timestamp w.worker_id w.number timely c.known c.room,
        id_of-sum w.timestamp w.worker_id (w.number + 1) timely c.known room,
      ),
    )

new_ms :
    (clock : ℕ → ℕ) (fuel n start position : ℕ) (w : UuidWorker)
    → IsSteady clock n
    → position < n
    → IsCurrent clock start position w
    → (w.timestamp == clock position) ≡ false
    → (r : Issues clock fuel position w) × (current w < current r.state)
unfolding get
new_ms clock fuel n start position w h inside c miss =
    let later : w.timestamp < clock position =
      let differs : w.timestamp ≢ clock position = ground (arith, miss) in
      omega (arith, h.monotone start position (omega (arith, c.counted)) inside, c.read) in
    let now : InTime (clock position) = h.in_time position inside in
    let before : InTime w.timestamp = rw (← c.read) (h.in_time start (omega (arith, c.counted))) in
    let w' : UuidWorker = record w { number = 0; timestamp = clock position } in
    (
      record {
        state = w';
        start = position;
        gives = rw miss;
        next = record { read = refl; counted = omega arith; room = omega arith; known = c.known };
        same = refl;
      },
      omega (
        arith,
        id_of-sum w.timestamp w.worker_id w.number before c.known c.room,
        id_of-sum (clock position) w.worker_id 0 now c.known (omega arith),
      ),
    )

one_more :
    (clock : ℕ → ℕ) (fuel n start position : ℕ) (w : UuidWorker)
    → IsSteady clock n
    → position < n
    → IsCurrent clock start position w
    → (r : Issues clock fuel position w) × (current w < current r.state)
one_more clock fuel n start position w h inside c =
    elim (Bool-cases (w.timestamp == clock position)) [
      | inl hit ↦ same_ms clock fuel n start position w h inside c hit
      | inr miss ↦ new_ms clock fuel n start position w h inside c miss
    ]

-- Each number is above the one before, the first above `last`.
abbrev pub IsAscending : ℕ → List ℕ → Type 0
IsAscending last [] = Unit
IsAscending last (id ∷ ids) = (last < id) × IsAscending id ids

issue-cons :
    (clock : ℕ → ℕ) (fuel n position position' id : ℕ) (w w' : UuidWorker) (ids : List ℕ)
    → get clock fuel position w ≡ some (id, w', position')
    → issue clock fuel n position' w' ≡ some ids
    → issue clock fuel (suc n) position w ≡ some (id ∷ ids)
unfolding issue
issue-cons clock fuel n position position' id w w' ids now later = rw (now, later, issue) refl

issue_run :
    (clock : ℕ → ℕ) (fuel n count start position : ℕ) (w : UuidWorker)
    → IsSteady clock n
    → position + count ≤ n
    → IsCurrent clock start position w
    → (ids : List ℕ) × (issue clock fuel count position w ≡ some ids)
      × (length ids ≡ count)
      × IsAscending (current w) ids
unfolding issue
issue_run clock fuel n zero start position w h inside c = ([], refl, refl, tt)
issue_run clock fuel n (suc count) start position w h inside c =
    let (r, up) = one_more clock fuel n start position w h (omega arith) c in
    let (ids, e, len, rest) =
      issue_run clock fuel n count r.start (position + 1) r.state h (omega arith) r.next in
    (
      current r.state ∷ ids,
      issue-cons clock fuel count position (position + 1) (current r.state) w r.state ids r.gives e,
      omega (arith, len),
      (up, rest),
    )

first_get :
    (clock : ℕ → ℕ) (fuel n : ℕ) (w : UuidWorker)
    → IsSteady clock n
    → 0 < n
    → w.timestamp ≡ 0
    → w.worker_id ≤ worker_max
    → Issues clock fuel 0 w
unfolding get
first_get clock fuel n w h some_call new known =
    let timely : InTime (clock 0) = h.in_time 0 some_call in
    record {
      state = record w { number = 0; timestamp = clock 0 };
      start = 0;
      gives = ground (arith, timely.started);
      next = record { read = refl; counted = omega arith; room = omega arith; known = known };
      same = refl;
    }

-- A new worker gives n ids in n calls, each above the ones before, so no two alike, where the
-- clock does not go back over these calls, stays in the 41 bits, and shows no millisecond more
-- than 4096 times. Any fuel is enough.
pub issue-IsAscending :
    (clock : ℕ → ℕ) (fuel n : ℕ) (w : UuidWorker)
    → IsSteady clock n
    → 0 < n
    → w.timestamp ≡ 0
    → w.worker_id ≤ worker_max
    → (id : ℕ) × (ids : List ℕ) × (issue clock fuel n 0 w ≡ some (id ∷ ids))
      × (length (id ∷ ids) ≡ n)
      × IsAscending id ids
issue-IsAscending clock fuel zero w h some_call new known = absurd (omega arith)
issue-IsAscending clock fuel (suc n) w h some_call new known =
    let r = first_get clock fuel (suc n) w h some_call new known in
    let (ids, e, len, up) =
      issue_run clock fuel (suc n) n r.start 1 r.state h (omega arith) r.next in
    (
      current r.state,
      ids,
      issue-cons clock fuel n 0 1 (current r.state) w r.state ids r.gives e,
      omega (arith, len),
      up,
    )
