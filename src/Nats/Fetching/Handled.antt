-- ===== src/Nats/Fetching/Handled.antt =====
-- Which messages the goroutines of StartSubscription handle, and in which order
-- (libs/nats/subscribe.go).
use top_lib.Prelude.{
  String, none, some, List, [], ◌∷◌, ◌++◌, ◌≡◌, refl, sym, ap, ◌∙◌, str_eq, if◌then◌else◌,
  Bool-cases, inl, inr,
}
use mathlib.Core.Path.{fun_ext}
use top_lib.Errors.Effect.{Action, Exit, returns, panics, pure, continue, ◌>>◌}
use top_lib.Nats.Fetching.{
  Msg, Round, done, fetched, timed_out, fetch_failed, recovered, process, fetch_loop,
  fetch_goroutine, Received, cancelled, got, chan_loop, chan_goroutine,
}

module _ {W : Type 0} where
  -- One call after the other on each message, up to a panic.
  abbrev pub each : (Msg → Action W (Unit {0})) → List Msg → Action W (Unit {0})
  each call [] = pure tt
  each call (msg ∷ msgs) = call msg >> each call msgs

  then_assoc : (m n k : Action W (Unit {0})) (w : W) → ((m >> n) >> k) w ≡ (m >> (n >> k)) w
  then_assoc m n k w = let (r, w') = m w in of_exit r w'
    where
      of_exit :
          (r : Exit (Unit {0})) (w' : W)
          → (let (r', w'') = continue r (λ _. n) w' in continue r' (λ _. k) w'')
            ≡ continue r (λ _ w. let (r', w'') = n w in continue r' (λ _. k) w'') w'
      of_exit (returns a) w' = refl
      of_exit (panics v) w' = refl

  each-append :
      (call : Msg → Action W (Unit {0})) (xs ys : List Msg) (w : W)
      → each call (xs ++ ys) w ≡ (each call xs >> each call ys) w
  each-append call [] ys w = refl
  each-append call (x ∷ xs) ys w =
      ap (λ (f : Action W (Unit {0})). (call x >> f) w) (fun_ext (each-append call xs ys))
      ∙ sym (then_assoc (call x) (each call xs) (each call ys) w)

-- The messages whose subject is the one of the subscription.
abbrev pub wanted : String → List Msg → List Msg
wanted subject [] = []
wanted subject (msg ∷ msgs) =
    let rest = wanted subject msgs in if str_eq msg.subject subject then msg ∷ rest else rest

-- The messages that Fetch gives before ctx is done.
abbrev pub messages : List Round → List Msg
messages [] = []
messages (done ∷ rounds) = []
messages (fetched msgs ∷ rounds) = msgs ++ messages rounds
messages (timed_out ∷ rounds) = messages rounds
messages (fetch_failed ∷ rounds) = messages rounds

-- The messages that the channel gives before ctx is done.
abbrev pub received : List Received → List Msg
received [] = []
received (cancelled ∷ more) = []
received (got none ∷ more) = received more
received (got (some msg) ∷ more) = msg ∷ received more

wanted-append :
    (subject : String) (xs ys : List Msg)
    → wanted subject (xs ++ ys) ≡ wanted subject xs ++ wanted subject ys
wanted-append subject [] ys = refl
wanted-append subject (x ∷ xs) ys = elim (Bool-cases (str_eq x.subject subject)) [
  | inl hit ↦ rw hit (ap (λ zs. x ∷ zs) (wanted-append subject xs ys))
  | inr miss ↦ rw miss (wanted-append subject xs ys)
]

module _ {W : Type 0} (handler : Msg → Action W (Unit {0})) (ack : Msg → Action W (Unit {0}))
    (subject : String) where
  process-each :
      (msgs : List Msg) (w : W)
      → process handler ack subject msgs w
        ≡ each (λ msg. handler msg >> ack msg) (wanted subject msgs) w
  unfolding process
  process-each [] w = refl
  process-each (x ∷ xs) w = elim (Bool-cases (str_eq x.subject subject)) [
    | inl hit ↦ rw hit (
        ap (λ (f : Action W (Unit {0})). ((handler x >> ack x) >> f) w) (fun_ext (process-each xs)))
    | inr miss ↦ rw miss (process-each xs w)
  ]

  fetch_loop-each :
      (rounds : List Round) (w : W)
      → fetch_loop handler ack subject rounds w
        ≡ each (λ msg. handler msg >> ack msg) (wanted subject (messages rounds)) w
  unfolding fetch_loop
  fetch_loop-each [] w = refl
  fetch_loop-each (done ∷ rounds) w = refl
  fetch_loop-each (fetched msgs ∷ rounds) w =
      let call : Msg → Action W (Unit {0}) = λ msg. handler msg >> ack msg in
      ap (λ (f : Action W (Unit {0})). (f >> fetch_loop handler ack subject rounds) w)
        (fun_ext (process-each msgs))
      ∙ ap (λ (f : Action W (Unit {0})). (each call (wanted subject msgs) >> f) w)
          (fun_ext (fetch_loop-each rounds))
      ∙ sym (each-append call (wanted subject msgs) (wanted subject (messages rounds)) w)
      ∙ ap (λ zs. each call zs w) (sym (wanted-append subject msgs (messages rounds)))
  fetch_loop-each (timed_out ∷ rounds) w = fetch_loop-each rounds w
  fetch_loop-each (fetch_failed ∷ rounds) w = fetch_loop-each rounds w

  -- The goroutine of a stream handles and then acknowledges, one by one and in their order, the
  -- messages that Fetch gives before ctx is done and whose subject is the very subject of the
  -- subscription, whatever errors and timeouts of Fetch lie between; and the first panic of the
  -- handler ends it, with no message handled after, and does not leave it.
  pub fetch_goroutine-each :
      (rounds : List Round) (w : W)
      → fetch_goroutine handler ack subject rounds w
        ≡ recovered (each (λ msg. handler msg >> ack msg) (wanted subject (messages rounds)) w)
  unfolding fetch_goroutine
  fetch_goroutine-each rounds w = ap recovered (fetch_loop-each rounds w)

module _ {W : Type 0} (handler : Msg → Action W (Unit {0})) where
  chan_loop-each :
      (more : List Received) (w : W) → chan_loop handler more w ≡ each handler (received more) w
  unfolding chan_loop
  chan_loop-each [] w = refl
  chan_loop-each (cancelled ∷ more) w = refl
  chan_loop-each (got none ∷ more) w = chan_loop-each more w
  chan_loop-each (got (some msg) ∷ more) w =
      ap (λ (f : Action W (Unit {0})). (handler msg >> f) w) (fun_ext (chan_loop-each more))

  -- The goroutine with no stream handles the messages of the channel before ctx is done, in their
  -- order, up to the first panic of the handler, which does not leave it.
  pub chan_goroutine-each :
      (more : List Received) (w : W)
      → chan_goroutine handler more w ≡ recovered (each handler (received more) w)
  unfolding chan_goroutine
  chan_goroutine-each more w = ap recovered (chan_loop-each more w)
