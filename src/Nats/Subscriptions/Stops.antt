-- ===== src/Nats/Subscriptions/Stops.antt =====
-- What StopSubscription and StopAllSubscriptions leave (libs/nats/subscribe.go).
use top_lib.Prelude.{
  ℕ, zero, suc, String, List, [], ◌∷◌, ◌++◌, eq_iff, ◌≡◌, ◌≢◌, refl, ap, ◌∙◌, arith, All,
}
use top_lib.Errors.Value.{Error}
use top_lib.Nats.Subscriptions.{
  Subscription, Outcome, done, failed, stop_subscription, unsubscribe_each, stop_all_subscriptions,
  left, keep_first, after_all, or_later,
}

module _ {A W : Type 0} (subject_not_found : Error)
    (unsubscribe : Subscription A → W → Outcome × W) where
  stop_subscription-hit :
      (subject : String) (after : List (Subscription A)) (sub : Subscription A) (w : W)
      → sub.subject ≡ subject
      → stop_subscription subject_not_found unsubscribe subject (sub ∷ after) w
        ≡ ((unsubscribe sub w).0, (left (unsubscribe sub w).0 sub after, (unsubscribe sub w).1))
  unfolding stop_subscription
  stop_subscription-hit subject after sub w same = rw ((eq_iff sub.subject subject).1 same) refl

  stop_subscription-miss :
      (subject : String) (after : List (Subscription A)) (sub : Subscription A) (w : W)
      → sub.subject ≢ subject
      → stop_subscription subject_not_found unsubscribe subject (sub ∷ after) w
        ≡ keep_first sub (stop_subscription subject_not_found unsubscribe subject after w)
  unfolding stop_subscription
  stop_subscription-miss subject after sub w other = ground (arith, eq_iff sub.subject subject)

  -- StopSubscription unsubscribes the first subscription of the subject, and takes it out of the
  -- list exactly where that gives no error; the others stay as they are. Where no subscription
  -- has the subject it gives the error of that, and nothing changes.
  pub stop_subscription-first :
      (subject : String) (before after : List (Subscription A)) (sub : Subscription A) (w : W)
      → All (λ s. s.subject ≢ subject) before
      → sub.subject ≡ subject
      → (stop_subscription subject_not_found unsubscribe subject (before ++ (sub ∷ after)) w ≡ (
        (unsubscribe sub w).0,
        (before ++ left (unsubscribe sub w).0 sub after, (unsubscribe sub w).1),
      ))
        × (stop_subscription subject_not_found unsubscribe subject before w
            ≡ (failed subject_not_found, (before, w)))
  unfolding stop_subscription
  stop_subscription-first subject [] after sub w others same =
      (stop_subscription-hit subject after sub w same, refl)
  stop_subscription-first subject (s ∷ before) after sub w others same =
      let ih = stop_subscription-first subject before after sub w others.1 same in
      (
        stop_subscription-miss subject (before ++ (sub ∷ after)) s w others.0
            ∙ ap (keep_first s) ih.0,
        stop_subscription-miss subject before s w others.0 ∙ ap (keep_first s) ih.1,
      )

-- What Unsubscribe promises: a subscription that it ended stays ended, whatever is unsubscribed
-- after it, and ending it again is an error.
pub record EndsOnce {A W : Type 0} (unsubscribe : Subscription A → W → Outcome × W)
    (Ended : Subscription A → W → Type 0) : Type 0 where
  pub ends : (s : Subscription A) (w : W) → (unsubscribe s w).0 ≡ done → Ended s (unsubscribe s w).1
  pub stays : (s t : Subscription A) (w : W) → Ended s w → Ended s (unsubscribe t w).1
  pub refused :
      (s : Subscription A) (w : W) → Ended s w → (e : Error) × ((unsubscribe s w).0 ≡ failed e)

result_keeps :
    {W : Type 0} (result : Outcome) (w : W) (later : Outcome × W) (P : W → Type 0)
    → P w
    → P later.1
    → P (or_later result w later).1
result_keeps done w later P here there = there
result_keeps (failed e) w later P here there = here

after_all-failed :
    {A W : Type 0} (r : Outcome × W) (subs : List (Subscription A)) (e : Error)
    → (after_all r subs).0 ≡ failed e
    → after_all r subs ≡ (failed e, (subs, r.1))
after_all-failed (done, w) subs e bad = absurd (ground (arith, bad))
after_all-failed (failed e', w) subs e bad = ap (λ r. (r, (subs, w))) bad

module _ {A W : Type 0} (unsubscribe : Subscription A → W → Outcome × W)
    (Ended : Subscription A → W → Type 0) (once : EndsOnce unsubscribe Ended) where
  each_keeps_ended :
      (s : Subscription A) (subs : List (Subscription A)) (w : W)
      → Ended s w
      → Ended s (unsubscribe_each unsubscribe subs w).1
  unfolding unsubscribe_each
  each_keeps_ended s [] w h = h
  each_keeps_ended s (t ∷ subs) w h =
      let later = each_keeps_ended s subs (unsubscribe t w).1 (once.stays s t w h) in
      result_keeps (unsubscribe t w).0 (unsubscribe t w).1
        (unsubscribe_each unsubscribe subs (unsubscribe t w).1) (Ended s) (once.stays s t w h) later

  each_refused :
      (s : Subscription A) (subs : List (Subscription A)) (w : W)
      → Ended s w
      → (e : Error) × (stop_all_subscriptions unsubscribe (s ∷ subs) w
          ≡ (failed e, (s ∷ subs, (unsubscribe s w).1)))
  unfolding unsubscribe_each stop_all_subscriptions
  each_refused s subs w h = let (e, refusal) = once.refused s w h in (e, rw refusal refl)

  -- The state after some calls of StopAllSubscriptions in a row.
  abbrev pub again : ℕ → List (Subscription A) × W → List (Subscription A) × W
  again zero at = at
  again (suc n) at = again n (stop_all_subscriptions unsubscribe at.0 at.1).1

  again-refused :
      (s : Subscription A) (subs : List (Subscription A)) (n : ℕ) (w : W)
      → Ended s w
      → (w' : W) × (again n (s ∷ subs, w) ≡ (s ∷ subs, w')) × Ended s w'
  again-refused s subs zero w h = (w, refl, h)
  again-refused s subs (suc n) w h =
      let (e, refusal) = each_refused s subs w h in
      let (w', same, ended) = again-refused s subs n (unsubscribe s w).1 (once.stays s s w h) in
      (w', ap (λ out. again n out.1) refusal ∙ same, ended)

  -- Where StopAllSubscriptions ends the first subscription and then meets an error, the list stays
  -- whole, with the ended one in front; and after any number of further calls, whatever Unsubscribe
  -- answers for the others by then, the next call gives an error, asks Unsubscribe for none but the
  -- first and leaves the list as it is.
  pub stop_all_subscriptions-stuck :
      (s : Subscription A) (subs : List (Subscription A)) (w : W) (e : Error) (n : ℕ)
      → (unsubscribe s w).0 ≡ done
      → (stop_all_subscriptions unsubscribe (s ∷ subs) w).0 ≡ failed e
      → let (left_over, w') = again n (stop_all_subscriptions unsubscribe (s ∷ subs) w).1 in
        (left_over ≡ s ∷ subs)
        × ((e' : Error) × (stop_all_subscriptions unsubscribe left_over w'
              ≡ (failed e', (s ∷ subs, (unsubscribe s w').1))))
  unfolding stop_all_subscriptions unsubscribe_each
  stop_all_subscriptions-stuck s subs w e n first bad =
      let ended : Ended s (unsubscribe_each unsubscribe (s ∷ subs) w).1 =
        result_keeps (unsubscribe s w).0 (unsubscribe s w).1 _ (Ended s) (once.ends s w first)
          (each_keeps_ended s subs (unsubscribe s w).1 (once.ends s w first)) in
      let out = after_all-failed (unsubscribe_each unsubscribe (s ∷ subs) w) (s ∷ subs) e bad in
      let (w', same, still) =
        again-refused s subs n (unsubscribe_each unsubscribe (s ∷ subs) w).1 ended in
      let reached = ap (λ r. again n r.1) out ∙ same in
      let (e', refusal) = each_refused s subs w' still in rw reached (refl, (e', refusal))
