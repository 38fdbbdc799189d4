-- ===== src/Services/Tests.antt =====
-- Examples of services/base_service.go.
use top_lib.Prelude.{none, some, [], ◌∷◌, ◌≡◌, refl}
use top_lib.Services.{
  base_service, no_contexts, init, starting, stopping, calls, http_service, text, other,
  service_init, service_factory,
}
use top_lib.Services.Lifetimes.{IsTidy, stopped, calls-IsTidy}

factory_test : service_factory "http" ≡ some (http_service base_service "")
unfolding service_factory
factory_test = refl

service_init_test :
    service_init (text "addr" ∷ other ∷ []) (http_service base_service "")
    ≡ http_service base_service "addr"
unfolding service_init init
service_init_test = refl

calls-IsTidy_example :
    IsTidy (calls (starting ∷ starting ∷ stopping ∷ starting ∷ []) (base_service, no_contexts))
calls-IsTidy_example =
    calls-IsTidy (starting ∷ starting ∷ stopping ∷ starting ∷ []) (base_service, no_contexts)
      (stopped none 0)
