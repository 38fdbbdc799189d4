-- ===== src/Utils/Http/Retries.antt =====
-- What the tries of PerformHTTPRequest come to (utils/http.go).
use top_lib.Prelude.{
  ℕ, zero, suc, ◌+◌, ◌<◌, ◌≡◌, ◌≢◌, refl, subst, ◌-◌, ◌∙◌, ap, true, false, ◌==◌, arith, List,
}
use top_lib.Prelude.Int.{ℤ}
use top_lib.Errors.Value.{Error}
use top_lib.Utils.Http.{
  Response, status, failed, Performed, succeeded, gave_up, panicked, retry_count, tried, retry,
  perform_http_request,
}

-- A try that is made again, while there are tries left: a status that is not 200, or an error with
-- a response.
abbrev pub IsRefused : Response → Type 0
IsRefused (status code) = code ≢ 200
IsRefused (failed e with_response) = with_response ≡ true

-- `n` tries from the one numbered `made` on are refused.
abbrev pub AllRefused : ℕ → ℕ → (ℕ → Response) → Type 0
AllRefused zero made do_request = Unit
AllRefused (suc n) made do_request =
    IsRefused (do_request made) × AllRefused n (made + 1) do_request

tried-refused :
    (got : Response) (made : ℕ) (rest : Performed) → IsRefused got → tried got made rest ≡ rest
tried-refused (status code) made rest other =
    let miss : (code == 200) ≡ false = ground (arith, other) in rw miss refl
tried-refused (failed e with_response) made rest there = rw there refl

retry-refused :
    (n made : ℕ) (last : Response) (do_request : ℕ → Response)
    → IsRefused (do_request made)
    → retry (suc n) made last do_request ≡ retry n (made + 1) (do_request made) do_request
unfolding retry
retry-refused n made last do_request refused = tried-refused (do_request made) made _ refused

retry-decided :
    (n made : ℕ) (last got : Response) (do_request : ℕ → Response)
    → do_request made ≡ got
    → retry (suc n) made last do_request
      ≡ tried got made (retry n (made + 1) (do_request made) do_request)
unfolding retry
retry-decided n made last got do_request e =
    ap (λ g. tried g made (retry n (made + 1) (do_request made) do_request)) e

-- The loop with k refused tries comes to what it comes to after them.
retry-after :
    (k n made : ℕ) (last : Response) (do_request : ℕ → Response) (p : Performed)
    → AllRefused k made do_request
    → ((now : ℕ) (last : Response) → now ≡ made + k → retry n now last do_request ≡ p)
    → retry (k + n) made last do_request ≡ p
retry-after zero n made last do_request p refused ends =
    subst (λ t. retry t made last do_request ≡ p) (omega arith) (ends made last (omega arith))
retry-after (suc k) n made last do_request p (here, refused) ends =
    subst (λ t. retry t made last do_request ≡ p) (omega arith)
      (retry-refused (k + n) made last do_request here
        ∙ retry-after k n (made + 1) (do_request made) do_request p refused
            (λ now last e. ends now last (omega (arith, e))))

-- Where the tries before number k are refused, by a status that is not 200 or an error with a
-- response, and k is below the retry count, try number k decides: a 200 is returned, and where
-- client.Do gives an error and no response the function panics on the response that is nil,
-- whatever tries are left. Where all tries are refused, it gives up after as many as the retry
-- count, with the error over what the last of them gave.
pub perform_http_request-decides :
    (k : ℕ) (counts : List ℤ) (do_request : ℕ → Response)
    → AllRefused k 0 do_request
    → (k < retry_count counts
        → do_request k ≡ status 200
        → perform_http_request counts do_request ≡ succeeded (k + 1))
      × ((e : Error)
          → k < retry_count counts
          → do_request k ≡ failed e false
          → perform_http_request counts do_request ≡ panicked (k + 1))
      × (retry_count counts ≡ k + 1
          → IsRefused (do_request k)
          → perform_http_request counts do_request ≡ gave_up (k + 1) (do_request k))
unfolding perform_http_request
perform_http_request-decides k counts do_request refused = (
  λ below ok. decided (succeeded (k + 1)) below (λ n last. retry-decided n k last _ do_request ok),
  λ e below err.
      decided (panicked (k + 1)) below (λ n last. retry-decided n k last _ do_request err),
  λ whole last_refused. rw whole (
      retry-after k 1 0 (status 0) do_request (gave_up (k + 1) (do_request k)) refused
        (λ now last at.
          subst (λ m. retry 1 m last do_request ≡ gave_up (k + 1) (do_request k))
            (omega (arith, at)) (retry_once last last_refused))),
)
  where
    retry_once :
        (last : Response)
        → IsRefused (do_request k)
        → retry 1 k last do_request ≡ gave_up (k + 1) (do_request k)
    retry_once last here = retry-refused 0 k last do_request here ∙ unfold retry in refl

    decided :
        (p : Performed)
        → k < retry_count counts
        → ((n : ℕ) (last : Response) → retry (suc n) k last do_request ≡ p)
        → retry (retry_count counts) 0 (status 0) do_request ≡ p
    decided p below ends =
        let left : ℕ = retry_count counts - (k + 1) in
        let split : retry_count counts ≡ k + suc left = omega (arith, below) in
        rw split (
          retry-after k (suc left) 0 (status 0) do_request p refused (λ now last at.
            subst (λ m. retry (suc left) m last do_request ≡ p) (omega (arith, at))
              (ends left last)))
