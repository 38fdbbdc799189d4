-- ===== src/Utils/Http.antt =====
-- utils/http.go: the address of a request's sender, and the request that is tried again.
pub mod Retries
use top_lib.Prelude.{
  ℕ, zero, suc, ◌+◌, ◌-◌, Bool, true, false, String, Option, none, some, List, [], ◌∷◌, ◌==◌,
  str_eq, if◌then◌else◌, ltb,
}
use top_lib.Prelude.Int.{ℤ, pos, negsuc, pos_part, ltb_ℤ}
use top_lib.Prelude.Assoc.{lookup}
use top_lib.Errors.Value.{Error}

-- Header.Get: the empty text for a header that is not there.
abbrev header_get : String → List (String × String) → String
header_get name headers = elim (lookup name headers) [ none ↦ "" | some v ↦ v ]

unfoldable pub get_remote_addr : List (String × String) → String → String
get_remote_addr headers remote_addr =
    let forwarded = header_get "X-Forwarded-For" headers in
    let real_ip = header_get "X-Real-IP" headers in
    if str_eq forwarded "" then if str_eq real_ip "" then remote_addr else real_ip else forwarded

-- What client.Do gives: a response with its status, or an error, with a response beside it, as
-- where a redirect is refused, or without.
pub data Response : Type 0 where
  status : ℕ → Response
  failed : Error → (with_response : Bool) → Response

-- What PerformHTTPRequest comes to after some tries: the response; the error over the last status
-- or the last error; or a panic, since it closes the body of a response that is nil.
pub data Performed : Type 0 where
  succeeded : (tries : ℕ) → Performed
  gave_up : (tries : ℕ) → (last : Response) → Performed
  panicked : (tries : ℕ) → Performed

-- The default is 3; the first of retryCounts counts where it is positive.
unfoldable pub retry_count : List ℤ → ℕ
retry_count [] = 3
retry_count (n ∷ ns) = if ltb_ℤ (pos 0) n then pos_part n else 3

-- One pass of the loop, from what client.Do gave and what the passes after it come to.
abbrev pub tried : Response → ℕ → Performed → Performed
tried (status code) made rest = if code == 200 then succeeded (made + 1) else rest
tried (failed e with_response) made rest = if with_response then rest else panicked (made + 1)

-- The loop: the tries left, those made, what the last gave, and what each try of client.Do gives.
unfoldable pub retry : ℕ → ℕ → Response → (ℕ → Response) → Performed
retry zero made last do_request = gave_up made last
retry (suc n) made last do_request =
    let rest = retry n (made + 1) (do_request made) do_request in tried (do_request made) made rest

-- There is one try at least, so what stands for the last before it is not looked at.
unfoldable pub perform_http_request : List ℤ → (ℕ → Response) → Performed
perform_http_request retry_counts do_request =
    retry (retry_count retry_counts) 0 (status 0) do_request
