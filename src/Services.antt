-- ===== src/Services.antt =====
-- services/base_service.go: the services, their contexts and the factory. A context is a number;
-- a service's world counts those made and lists those not cancelled.
pub mod Lifetimes
mod Tests
use top_lib.Prelude.{
  ℕ, zero, suc, ◌+◌, String, Bool, true, false, Option, none, some, List, [], ◌∷◌, ◌==◌,
  if◌then◌else◌, str_eq,
}

pub record BaseService : Type 0 where
  pub ctx : Option ℕ
  pub is_run : Bool

pub record Contexts : Type 0 where
  pub made : ℕ
  pub live : List ℕ

abbrev pub without : ℕ → List ℕ → List ℕ
without n [] = []
without n (m ∷ ms) = let rest = without n ms in if m == n then rest else m ∷ rest

-- The zero value that the factory's services hold.
abbrev pub base_service : BaseService
base_service = record { ctx = none; is_run = false }

abbrev pub no_contexts : Contexts
no_contexts = record { made = 0; live = [] }

unfoldable pub init : BaseService → BaseService
init bs = record bs { is_run = false }

unfoldable pub start : BaseService × Contexts → BaseService × Contexts
start (bs, cs) = if bs.is_run then (bs, cs) else (
  record { ctx = some cs.made; is_run = true },
  record { made = cs.made + 1; live = cs.made ∷ cs.live },
)

abbrev cancel : Option ℕ → Contexts → Contexts
cancel none cs = cs
cancel (some n) cs = record cs { live = without n cs.live }

unfoldable pub stop : BaseService × Contexts → BaseService × Contexts
stop (bs, cs) = if bs.is_run then (record bs { is_run = false }, cancel bs.ctx cs) else (bs, cs)

abbrev pub is_running : BaseService → Bool
is_running bs = bs.is_run

-- A value given to Init: a string, or of any other type.
pub data Config : Type 0 where
  text : String → Config
  other : Config

-- The text that an Init takes from its arguments, the one it has otherwise.
abbrev first_text : String → List Config → String
first_text old [] = old
first_text old (text s ∷ cs) = s
first_text old (other ∷ cs) = old

-- HttpService and QueueService; `name` is the config of the one and the queueName of the other.
pub data Service : Type 0 where
  http_service : (base : BaseService) → (name : String) → Service
  queue_service : (base : BaseService) → (name : String) → Service

unfoldable pub service_init : List Config → Service → Service
service_init config (http_service base name) = http_service (init base) (first_text name config)
service_init config (queue_service base name) = queue_service (init base) (first_text name config)

unfoldable pub service_factory : String → Option Service
service_factory service_type =
    if str_eq service_type "http"
    then some (http_service base_service "")
    else if str_eq service_type "queue"
    then some (queue_service base_service "")
    else none

pub data Call : Type 0 where
  starting : Call
  stopping : Call

unfoldable pub calls : List Call → BaseService × Contexts → BaseService × Contexts
calls [] w = w
calls (starting ∷ cs) w = calls cs (start w)
calls (stopping ∷ cs) w = calls cs (stop w)
