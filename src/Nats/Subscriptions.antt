-- ===== src/Nats/Subscriptions.antt =====
-- libs/nats/subscribe.go: StopSubscription and StopAllSubscriptions. Unsubscribe of
-- nats.go is an argument, as a function of the state of the connection.
pub mod Stops
use top_lib.Prelude.{
  Bool, true, false, String, Option, none, some, List, [], ◌∷◌, str_eq, if◌then◌else◌,
}
use top_lib.Errors.Value.{Error}

-- A *nats.Subscription: its subject, and the object.
pub record Subscription (A : Type 0) : Type 0 where
  pub subject : String
  pub object : A

-- What a call that returns an error answers.
pub data Outcome : Type 0 where
  done : Outcome
  failed : Error → Outcome

module _ {A : Type 0} where
  -- What StopSubscription leaves of the list from the entry on that it found.
  abbrev pub left : Outcome → Subscription A → List (Subscription A) → List (Subscription A)
  left done sub rest = rest
  left (failed e) sub rest = sub ∷ rest

  abbrev stop_found :
      {W : Type 0}
      → Outcome × W
      → Subscription A
      → List (Subscription A)
      → Outcome × (List (Subscription A) × W)
  stop_found (result, w) sub rest = (result, (left result sub rest, w))

  abbrev pub keep_first :
      {W : Type 0}
      → Subscription A
      → Outcome × (List (Subscription A) × W)
      → Outcome × (List (Subscription A) × W)
  keep_first sub (result, (subs, w)) = (result, (sub ∷ subs, w))

  -- s.subject = nil, which an error skips.
  abbrev pub after_all :
      {W : Type 0} → Outcome × W → List (Subscription A) → Outcome × (List (Subscription A) × W)
  after_all (done, w) subs = (done, ([], w))
  after_all (failed e, w) subs = (failed e, (subs, w))

-- The way out of the loop of StopAllSubscriptions at an error.
abbrev pub or_later : {W : Type 0} → Outcome → W → Outcome × W → Outcome × W
or_later done w later = later
or_later (failed e) w later = (failed e, w)

module _ {A W : Type 0} (subject_not_found : Error)
    (unsubscribe : Subscription A → W → Outcome × W) where
  unfoldable pub stop_subscription :
      String → List (Subscription A) → W → Outcome × (List (Subscription A) × W)
  stop_subscription subject [] w = (failed subject_not_found, ([], w))
  stop_subscription subject (sub ∷ subs) w =
      let later = stop_subscription subject subs w in
      if str_eq sub.subject subject
      then stop_found (unsubscribe sub w) sub subs
      else keep_first sub later

module _ {A W : Type 0} (unsubscribe : Subscription A → W → Outcome × W) where
  unfoldable pub unsubscribe_each : List (Subscription A) → W → Outcome × W
  unsubscribe_each [] w = (done, w)
  unsubscribe_each (sub ∷ subs) w =
      let (result, w') = unsubscribe sub w in
      let later = unsubscribe_each subs w' in or_later result w' later

  unfoldable pub stop_all_subscriptions :
      List (Subscription A) → W → Outcome × (List (Subscription A) × W)
  stop_all_subscriptions subs w = after_all (unsubscribe_each subs w) subs
