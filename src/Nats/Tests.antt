-- ===== src/Nats/Tests.antt =====
-- Examples of libs/nats/subscribe.go.
use top_lib.Prelude.{
  ℕ, String, Bool, true, false, ◌||◌, List, [], ◌∷◌, ◌==◌, if◌then◌else◌, ◌≡◌, refl, ap, arith,
}
use top_lib.Errors.Value.{Error, foreign, end}
use top_lib.Nats.Subscriptions.{
  Subscription, Outcome, done, failed, unsubscribe_each, stop_all_subscriptions,
}
use top_lib.Nats.Subscriptions.Stops.{EndsOnce, again, stop_all_subscriptions-stuck}

abbrev subscription : String → ℕ → Subscription ℕ
subscription subject n = record { subject = subject; object = n }

abbrev bad_subscription : Error
bad_subscription = foreign 1 "nats: invalid subscription" end

abbrev not_found : Error
not_found = foreign 2 "subject not found" end

-- The subscriptions that have ended.
unfoldable has : ℕ → List ℕ → Bool
has n [] = false
has n (k ∷ ks) = (k == n) || has n ks

-- Number 9 is one that the server does not let go.
unfoldable unsubscribe : Subscription ℕ → List ℕ → Outcome × List ℕ
unsubscribe s w =
    if has s.object w || (s.object == 9) then (failed bad_subscription, w) else (done, s.object ∷ w)

abbrev Ended : Subscription ℕ → List ℕ → Type 0
Ended s w = has s.object w ≡ true

unsubscribe-EndsOnce : EndsOnce unsubscribe Ended
unfolding unsubscribe has
unsubscribe-EndsOnce = record {
  ends = λ s w now. ground arith;
  stays = λ s t w now. ground arith;
  refused = λ s w now. (bad_subscription, ground arith);
}

abbrev news : List (Subscription ℕ)
news = subscription "a" 1 ∷ subscription "b" 9 ∷ []

stuck_test : stop_all_subscriptions unsubscribe news [] ≡ (failed bad_subscription, (news, 1 ∷ []))
unfolding stop_all_subscriptions unsubscribe_each unsubscribe has
stuck_test = refl

first_ends : (unsubscribe (subscription "a" 1) []).0 ≡ done
unfolding unsubscribe has
first_ends = refl

stop_all_subscriptions-stuck_example :
    let (left_over, w) =
      again unsubscribe Ended unsubscribe-EndsOnce 2
        (stop_all_subscriptions unsubscribe news []).1 in
    (left_over ≡ news)
    × ((e : Error) × (stop_all_subscriptions unsubscribe left_over w
          ≡ (failed e, (news, (unsubscribe (subscription "a" 1) w).1))))
stop_all_subscriptions-stuck_example =
    stop_all_subscriptions-stuck unsubscribe Ended unsubscribe-EndsOnce (subscription "a" 1)
      (subscription "b" 9 ∷ []) [] bad_subscription 2 first_ends
      (ap (λ (out : Outcome × (List (Subscription ℕ) × List ℕ)). out.0) stuck_test)
