-- ===== src/Nats/Starting/Stopped.antt =====
-- What StopSubscription undoes of StartSubscription (libs/nats/subscribe.go).
use top_lib.Prelude.{
  String, some, [], ◌∷◌, ◌++◌, ◌≡◌, ◌≢◌, refl, ap, ◌∙◌, ◌⊎◌, inr, false, All, arith, str_eq, eq_iff,
}
use mathlib.Core.List.{append-nil}
use top_lib.Errors.Value.{Error}
use top_lib.Nats.Connection.{Server}
use top_lib.Nats.Subscriptions.{Subscription, Outcome, done, stop_subscription}
use top_lib.Nats.Subscriptions.Stops.{stop_subscription-first}
use top_lib.Nats.Starting.{Subscriber, started, start_subscription}

module _ {A H W E Info : Type 0} (server : Server W E Info)
    (pull_subscribe queue_subscribe : String → String → W → (E ⊎ Subscription A) × W) where
  -- With no stream, a handler and a subject, StartSubscription puts the new subscription last.
  start_subscription-last :
      (subject durable : String) (handler : H) (s : Subscriber A H Info) (w : W)
      (sub : Subscription A)
      → s.connection.use_stream ≡ false
      → subject ≢ ""
      → (queue_subscribe subject durable w).0 ≡ inr sub
      → let after =
          start_subscription server pull_subscribe queue_subscribe subject durable
            (some handler)
            s
            w in
        (after.0 ≡ started) × (after.1.0.subject ≡ s.subject ++ (sub ∷ []))
  unfolding start_subscription
  start_subscription-last subject durable handler s w sub off named new =
      let filled : str_eq subject "" ≡ false = ground (arith, eq_iff subject "", named) in
      rw (filled, off, new) (refl, refl)

module _ {A H V W E Info : Type 0} (subject_not_found : Error)
    (unsubscribe : Subscription A → V → Outcome × V) (server : Server W E Info)
    (pull_subscribe queue_subscribe : String → String → W → (E ⊎ Subscription A) × W) where
  -- With no stream, StopSubscription of a subject that StartSubscription has begun gives back the
  -- subscriptions as they were, where no other has the subject, QueueSubscribe gives one of the
  -- subject, and Unsubscribe gives no error at the time.
  pub stop_subscription-start_subscription :
      (subject durable : String) (handler : H) (s : Subscriber A H Info) (w : W)
      (sub : Subscription A) (v : V)
      → s.connection.use_stream ≡ false
      → subject ≢ ""
      → All (λ t. t.subject ≢ subject) s.subject
      → (queue_subscribe subject durable w).0 ≡ inr sub
      → sub.subject ≡ subject
      → (unsubscribe sub v).0 ≡ done
      → let after =
          start_subscription server pull_subscribe queue_subscribe subject durable
            (some handler)
            s
            w in
        (after.0 ≡ started)
        × (stop_subscription subject_not_found unsubscribe subject after.1.0.subject v
            ≡ (done, (s.subject, (unsubscribe sub v).1)))
  stop_subscription-start_subscription subject durable handler s w sub v off named others new same
        fine =
      let (ok, last) =
        start_subscription-last server pull_subscribe queue_subscribe subject durable handler s w
          sub off named new in
      (
        ok,
        ap (λ subs. stop_subscription subject_not_found unsubscribe subject subs v) last
            ∙ (stop_subscription-first subject_not_found unsubscribe subject s.subject [] sub v
                others same).0
            ∙ rw (fine, append-nil) refl,
      )
