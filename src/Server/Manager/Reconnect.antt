-- ===== src/Server/Manager/Reconnect.antt =====
-- A session that comes back on a new connection (libs/server/ws_client_manager.go).
use top_lib.Prelude.{ℕ, ◌≡◌, ◌≢◌, refl, true, false, some}
use top_lib.Prelude.Assoc.{lookup, erase, lookup-insert_same}
use top_lib.Server.Client.{done, crashed, close}
use top_lib.Server.Manager.{
  ClientManager, close_at, register, unregister, kick_client_by_session_id,
}
use top_lib.Server.Manager.Steps.{closed, put-same, put-other, dropped, kick_session-held}

unregister-closed :
    (a b : ℕ) (m : ClientManager)
    → lookup (m.objects a).session_id m.clients ≡ some b
    → (m.objects a).is_closed ≡ true
    → unregister a m ≡ crashed "close of closed channel"
unfolding unregister close_at close
unregister-closed a b m found was = rw (found, was, unregister) refl

-- A client is kicked and its session registers again on a new connection. When the first
-- connection's reading loop then leaves the manager, as it does at its end, the manager finds the
-- session, closes the first client once more and panics.
pub reconnect_crashes :
    (a b : ℕ) (m : ClientManager)
    → a ≢ b
    → (m.objects a).session_id ≡ (m.objects b).session_id
    → (m.objects a).is_closed ≡ false
    → (m' : ClientManager) × (kick_client_by_session_id (m.objects a).session_id (register a m)
        ≡ done m')
      × (unregister a (register b m') ≡ crashed "close of closed channel")
unfolding register
reconnect_crashes a b m apart same opened =
    let s = (m.objects a).session_id in
    let first : ClientManager = register a m in
    let m' : ClientManager = dropped a s (erase (m.objects a).user_id first.user_ids) first in
    let gone : m'.objects a ≡ closed (m.objects a) = put-same a (closed (m.objects a)) m.objects in
    let new : m'.objects b ≡ m.objects b = put-other a b (closed (m.objects a)) m.objects apart in
    (
      m',
      kick_session-held s a first (lookup-insert_same s a m.clients) opened,
      unregister-closed a b (register b m')
          (rw (gone, new, same) (lookup-insert_same (m.objects b).session_id b _)) (rw gone refl),
    )
