-- ===== src/Services/Lifetimes.antt =====
-- The contexts that services make and cancel (services/base_service.go).
use top_lib.Prelude.{
  ℕ, ◌+◌, ◌≡◌, ◌<◌, ◌⊎◌, refl, true, false, Option, some, List, [], ◌∷◌, arith, ◌==◌, Bool-cases,
  inl, inr,
}
use top_lib.Services.{
  BaseService, Contexts, base_service, init, start, stop, Call, starting, stopping, calls, without,
}

-- The context of a running service is the only one not cancelled, and a stopped one has none.
pub data IsTidy : BaseService × Contexts → Type 0 where
  running :
      (n made : ℕ)
      → IsTidy (record { ctx = some n; is_run = true }, record { made = made; live = n ∷ [] })
  stopped :
      (ctx : Option ℕ)
      → (made : ℕ)
      → IsTidy (record { ctx = ctx; is_run = false }, record { made = made; live = [] })

start-IsTidy : (w : BaseService × Contexts) → IsTidy w → IsTidy (start w)
unfolding start
start-IsTidy _ (running n made) = running n made
start-IsTidy _ (stopped ctx made) = running made (made + 1)

stop-IsTidy : (w : BaseService × Contexts) → IsTidy w → IsTidy (stop w)
unfolding stop
stop-IsTidy _ (running n made) =
    let hit : (n == n) ≡ true = ground arith in rw hit (stopped (some n) made)
stop-IsTidy _ (stopped ctx made) = stopped ctx made

-- Over every sequence of Start and Stop, repeated calls included, a running service has the one
-- context that is not cancelled, and after it has stopped there is none.
pub calls-IsTidy : (cs : List Call) (w : BaseService × Contexts) → IsTidy w → IsTidy (calls cs w)
unfolding calls
calls-IsTidy [] w h = h
calls-IsTidy (starting ∷ cs) w h = calls-IsTidy cs (start w) (start-IsTidy w h)
calls-IsTidy (stopping ∷ cs) w h = calls-IsTidy cs (stop w) (stop-IsTidy w h)

abbrev pub IsLive : ℕ → List ℕ → Type 0
IsLive n [] = ⊥
IsLive n (m ∷ ms) = (m ≡ n) ⊎ IsLive n ms

IsLive-without : (n m : ℕ) (ms : List ℕ) → n < m → IsLive n ms → IsLive n (without m ms)
IsLive-without n m [] apart h = h
IsLive-without n m (k ∷ ms) apart (inl here) =
    let miss : (k == m) ≡ false = ground (arith, here, apart) in rw miss (inl here)
IsLive-without n m (k ∷ ms) apart (inr there) = elim (Bool-cases (k == m)) [
  | inl hit ↦ rw hit (IsLive-without n m ms apart there)
  | inr miss ↦ rw miss (inr (IsLive-without n m ms apart there))
]

-- The context n is live, and the service would cancel only a later one.
data Leaks (n : ℕ) : BaseService × Contexts → Type 0 where
  idle :
      (ctx : Option ℕ) (made : ℕ) (live : List ℕ)
      → n < made
      → IsLive n live
      → Leaks n (record { ctx = ctx; is_run = false }, record { made = made; live = live })
  busy :
      (m made : ℕ) (live : List ℕ)
      → n < m
      → m < made
      → IsLive n live
      → Leaks n (record { ctx = some m; is_run = true }, record { made = made; live = live })

start-Leaks : (n : ℕ) (w : BaseService × Contexts) → Leaks n w → Leaks n (start w)
unfolding start
start-Leaks n _ (idle ctx made live early h) =
    busy made (made + 1) (made ∷ live) early (omega arith) (inr h)
start-Leaks n _ (busy m made live early known h) = busy m made live early known h

stop-Leaks : (n : ℕ) (w : BaseService × Contexts) → Leaks n w → Leaks n (stop w)
unfolding stop
stop-Leaks n _ (idle ctx made live early h) = idle ctx made live early h
stop-Leaks n _ (busy m made live early known h) =
    idle (some m) made (without m live) (omega arith) (IsLive-without n m live early h)

calls-Leaks :
    (n : ℕ) (cs : List Call) (w : BaseService × Contexts) → Leaks n w → Leaks n (calls cs w)
unfolding calls
calls-Leaks n [] w h = h
calls-Leaks n (starting ∷ cs) w h = calls-Leaks n cs (start w) (start-Leaks n w h)
calls-Leaks n (stopping ∷ cs) w h = calls-Leaks n cs (stop w) (stop-Leaks n w h)

Leaks-IsLive : (n : ℕ) (w : BaseService × Contexts) → Leaks n w → IsLive n w.1.live
Leaks-IsLive n _ (idle ctx made live early h) = h
Leaks-IsLive n _ (busy m made live early known h) = h

-- Init on a running service only clears the mark: the context that Start made stays live, and no
-- sequence of Start and Stop after it cancels that context.
pub init-IsLive :
    (n : ℕ) (live : List ℕ) (cs : List Call)
    → let (bs, contexts) = start (base_service, record { made = n; live = live }) in
      IsLive n (calls cs (init bs, contexts)).1.live
unfolding start init
init-IsLive n live cs =
    Leaks-IsLive n _
      (calls-Leaks n cs _ (idle (some n) (n + 1) (n ∷ live) (omega arith) (inl refl)))
