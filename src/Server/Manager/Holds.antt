-- ===== src/Server/Manager/Holds.antt =====
-- That every event keeps the manager's invariant and none panics
-- (libs/server/ws_client_manager.go).
use top_lib.Prelude.{
  ◌++◌, ℕ, String, ◌≡◌, ◌≢◌, refl, ◌∙◌, ◌⊎◌, inl, inr, Bool-cases, Option-cases, false, none, List,
  [], ◌∷◌, ◌==◌, All, arith, ==_iff, ltb, length,
}
use top_lib.Prelude.Assoc.{lookup}
use top_lib.Prelude.Entries.{All-weaken}
use top_lib.Server.Client.{Outcome, done, crashed, waiting, and_then, Client, send_capacity}
use top_lib.Server.Manager.Serving.{
  Serves, Keeps, and_then-Keeps, drop-Serves, register-Serves, as_step, kick_all-Keeps,
}
use top_lib.Server.Manager.Steps.{
  IsServed, put-same, put-other, unregister-held, unregister-absent, queue_at, send_to-room,
  send_to-full,
}
use top_lib.Server.Manager.{
  ClientManager, put, send_to, unregister, send_all, broadcast, kick_all, stop, stop_signal, Event,
  registering, unregistering, broadcasting, stopping, handle, start,
}

-- The object is not closed, or the map has nothing under its session.
abbrev pub MayLeave : ℕ → ClientManager → Type 0
MayLeave a m =
    (lookup (m.objects a).session_id m.clients ≡ none) ⊎ ((m.objects a).is_closed ≡ false)

unregister-Keeps : (a : ℕ) (m : ClientManager) → MayLeave a m → Serves m → Keeps (unregister a m)
unregister-Keeps a m (inl absent) h = as_step (unregister-absent a m absent) h
unregister-Keeps a m (inr opened) h =
    elim (Option-cases (lookup (m.objects a).session_id m.clients)) [
      | inl absent ↦ as_step (unregister-absent a m absent) h
      | inr (b, found) ↦
          as_step (unregister-held a b m found opened)
            (drop-Serves a m (m.objects a).session_id m.user_ids h refl)
    ]

-- Entries stay served when an open client changes and keeps its session.
IsServed-change :
    (a : ℕ) (c : Client) (objects : ℕ → Client) (entries : List (String × ℕ))
    → c.session_id ≡ (objects a).session_id
    → c.is_closed ≡ false
    → All (IsServed objects) entries
    → All (IsServed (put a c objects)) entries
IsServed-change a c objects entries own opened =
    All-weaken
      (λ (session_id, b) h. elim (Bool-cases (a == b)) [
        | inl hit ↦
            let same : a ≡ b = (==_iff a b).0 hit in
            let changed : put a c objects b ≡ c = rw (← same) (put-same a c objects) in
            rw changed (own ∙ (rw same (h.0)), opened)
        | inr miss ↦
            let apart : a ≢ b = ground (arith, miss) in rw (put-other a b c objects apart) h
      ])
      entries

send_all-next :
    (message session_id : String) (a : ℕ) (entries : List (String × ℕ)) (m m' : ClientManager)
    → send_to message a m ≡ done m'
    → send_all message ((session_id, a) ∷ entries) m ≡ send_all message entries m'
unfolding send_all
send_all-next message session_id a entries m m' sent = rw sent refl

send_all-waits :
    (message session_id : String) (a : ℕ) (entries : List (String × ℕ)) (m : ClientManager)
    → send_to message a m ≡ waiting m
    → send_all message ((session_id, a) ∷ entries) m ≡ waiting m
unfolding send_all
send_all-waits message session_id a entries m sent = rw sent refl

send_all-Keeps :
    (message : String) (entries : List (String × ℕ)) (m : ClientManager)
    → Serves m
    → All (IsServed m.objects) entries
    → Keeps (send_all message entries m)
send_all-Keeps message [] m h served = unfold send_all in h
send_all-Keeps message ((session_id, a) ∷ entries) m h ((own, opened), served) =
    elim (Bool-cases (ltb (length (m.objects a).queued) send_capacity)) [
      | inl room ↦
          let c : Client = record (m.objects a) {
            queued = (m.objects a).queued ++ (message ∷ []);
          } in
          let kept : Serves (queue_at message a m) = record {
            served = IsServed-change a c m.objects m.clients refl opened h.served;
            distinct = h.distinct;
          } in
          as_step
            (send_all-next message session_id a entries m (queue_at message a m)
              (send_to-room message a m opened room))
            (send_all-Keeps message entries (queue_at message a m) kept
              (IsServed-change a c m.objects entries refl opened served))
      | inr full ↦
          as_step
            (send_all-waits message session_id a entries m (send_to-full message a m opened full)) h
    ]

stop_signal-Keeps : (m : ClientManager) → Serves m → Keeps (stop_signal m)
unfolding stop_signal stop
stop_signal-Keeps m h =
    and_then-Keeps (kick_all m.clients m) waiting (kick_all-Keeps m.clients m h h.served h.distinct)
      (λ m' h'. h')

-- What an event needs: a client that registers is open, and one that unregisters is open, or has no
-- session in the map.
abbrev pub Fits : Event → ClientManager → Type 0
Fits (registering a) m = (m.objects a).is_closed ≡ false
Fits (unregistering a) m = MayLeave a m
Fits (broadcasting message) m = Unit
Fits stopping m = Unit

pub handle-Keeps : (e : Event) (m : ClientManager) → Fits e m → Serves m → Keeps (handle e m)
handle-Keeps (registering a) m fits h = unfold handle in register-Serves a m fits h
handle-Keeps (unregistering a) m fits h = unfold handle in unregister-Keeps a m fits h
handle-Keeps (broadcasting message) m fits h =
    unfold handle broadcast in send_all-Keeps message m.clients m h h.served
handle-Keeps stopping m fits h = unfold handle in stop_signal-Keeps m h

-- Each event of the sequence fits the state that it meets.
abbrev pub AllFit : List Event → ClientManager → Type 0
AllFit [] m = Unit
AllFit (e ∷ events) m = Fits e m × ((m' : ClientManager) → handle e m ≡ done m' → AllFit events m')

start-after :
    (events : List Event) (o : Outcome ClientManager)
    → Keeps o
    → ((m' : ClientManager) → o ≡ done m' → Serves m' → Keeps (start events m'))
    → Keeps (and_then o (start events))
start-after events (done m) h k = k m refl h
start-after events (crashed why) h k = absurd h
start-after events (waiting m) h k = h

-- Over a sequence of events that each fit the state they meet, the loop of Start does not panic,
-- and in the state that it reaches or waits in, every session in the map is that of the client it
-- holds, that client is not closed, and no session stands twice.
pub start-Keeps :
    (events : List Event) (m : ClientManager) → AllFit events m → Serves m → Keeps (start events m)
unfolding start
start-Keeps [] m fits h = h
start-Keeps (e ∷ events) m (fits, later) h =
    start-after events (handle e m) (handle-Keeps e m fits h)
      (λ m' now h'. start-Keeps events m' (later m' now) h')
