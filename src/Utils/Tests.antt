-- ===== src/Utils/Tests.antt =====
-- Examples of utils/http.go and utils/system.go.
use top_lib.Prelude.{◌+◌, ◌↔◌, Bool, true, false, ◌<◌, ℕ, zero, suc, [], ◌∷◌, ◌≡◌, refl, arith}
use top_lib.Prelude.Assoc.{lookup}
use top_lib.Errors.Value.{Error}
use top_lib.Prelude.Split.{Text}
use top_lib.Utils.Http.{
  Response, status, failed, succeeded, gave_up, panicked, retry_count, perform_http_request,
  get_remote_addr,
}
use top_lib.Utils.Http.Retries.{IsRefused, perform_http_request-decides}
use top_lib.Utils.Address.{is_inner_ip}
use top_lib.Utils.Address.Ranges.{dotted, IsInner, is_inner_ip-IsInner}

remote_addr_test : get_remote_addr (("X-Real-IP", "10.0.0.1") ∷ []) "10.0.0.2" ≡ "10.0.0.1"
unfolding get_remote_addr lookup
remote_addr_test = refl

-- A server that is not ready once.
abbrev second_time : ℕ → Response
second_time zero = status 503
second_time (suc n) = status 200

perform_http_request-decides_example :
    (1 < retry_count []
      → second_time 1 ≡ status 200
      → perform_http_request [] second_time ≡ succeeded (1 + 1))
    × ((e : Error)
        → 1 < retry_count []
        → second_time 1 ≡ failed e false
        → perform_http_request [] second_time ≡ panicked (1 + 1))
    × (retry_count [] ≡ 1 + 1
        → IsRefused (second_time 1)
        → perform_http_request [] second_time ≡ gave_up (1 + 1) (second_time 1))
perform_http_request-decides_example =
    perform_http_request-decides 1 [] second_time ((λ e. absurd (omega (arith, e))), tt)

abbrev never : ℕ → Response
never n = status 503

-- net.ParseIP where every text is an address.
abbrev any_ip : Text → Bool
any_ip ip = true

is_inner_ip-IsInner_example : (is_inner_ip any_ip (dotted 172 20 0 1) ≡ true) ↔ IsInner 172 20
is_inner_ip-IsInner_example =
    is_inner_ip-IsInner any_ip 172 20 0 1 (omega arith) (omega arith) (omega arith) refl
