-- ===== src/Server/Manager/Steps.antt =====
-- What each operation comes to where the clients it closes are open
-- (libs/server/ws_client_manager.go).
use top_lib.Prelude.{
  ◌++◌, ℕ, String, ◌≡◌, ◌≢◌, refl, true, false, none, some, List, [], ◌∷◌, arith, ltb, length,
}
use top_lib.Prelude.Assoc.{lookup, erase}
use top_lib.Server.Client.{done, waiting, Client, close, send, send_capacity}
use top_lib.Server.Manager.{
  ClientManager, put, close_at, send_to, unregister, kick_client_by_user_id,
  kick_client_by_session_id, kick_all,
}

-- The entry's key is its client's session, and Close has not run on the client.
abbrev pub IsServed : (ℕ → Client) → String × ℕ → Type 0
IsServed objects (session_id, a) =
    ((objects a).session_id ≡ session_id) × ((objects a).is_closed ≡ false)

pub put-same : (a : ℕ) (c : Client) (objects : ℕ → Client) → put a c objects a ≡ c
unfolding put
put-same a c objects = ground arith

pub put-other :
    (a b : ℕ) (c : Client) (objects : ℕ → Client) → a ≢ b → put a c objects b ≡ objects b
unfolding put
put-other a b c objects h = ground (arith, h)

-- The client once Close has run.
abbrev pub closed : Client → Client
closed c = record c { is_closed = true; is_up = false }

pub close_at-open :
    (a : ℕ) (m : ClientManager)
    → (m.objects a).is_closed ≡ false
    → close_at a m ≡ done (record m { objects = put a (closed (m.objects a)) m.objects })
unfolding close_at close
close_at-open a m opened = rw opened refl

-- The state after the client at the address is closed and the session has left the map.
abbrev pub dropped : ℕ → String → List (String × String) → ClientManager → ClientManager
dropped a session_id users m = record {
  clients = erase session_id m.clients;
  user_ids = users;
  objects = put a (closed (m.objects a)) m.objects;
}

pub unregister-held :
    (a b : ℕ) (m : ClientManager)
    → lookup (m.objects a).session_id m.clients ≡ some b
    → (m.objects a).is_closed ≡ false
    → unregister a m ≡ done (dropped a (m.objects a).session_id m.user_ids m)
unfolding unregister
unregister-held a b m found opened = rw (found, close_at-open a m opened, unregister) refl

pub unregister-absent :
    (a : ℕ) (m : ClientManager)
    → lookup (m.objects a).session_id m.clients ≡ none
    → unregister a m ≡ done m
unfolding unregister
unregister-absent a m absent = rw (absent, unregister) refl

pub kick_session-held :
    (session_id : String) (a : ℕ) (m : ClientManager)
    → lookup session_id m.clients ≡ some a
    → (m.objects a).is_closed ≡ false
    → kick_client_by_session_id session_id m
      ≡ done (dropped a session_id (erase (m.objects a).user_id m.user_ids) m)
unfolding kick_client_by_session_id
kick_session-held session_id a m found opened =
    rw
      (
        found,
        close_at-open a m opened,
        put-same a (closed (m.objects a)) m.objects,
        kick_client_by_session_id,
      )
      refl

pub kick_session-absent :
    (session_id : String) (m : ClientManager)
    → lookup session_id m.clients ≡ none
    → kick_client_by_session_id session_id m ≡ done m
unfolding kick_client_by_session_id
kick_session-absent session_id m absent = rw (absent, kick_client_by_session_id) refl

pub kick_user-held :
    (user_id session_id : String) (a : ℕ) (m : ClientManager)
    → lookup user_id m.user_ids ≡ some session_id
    → lookup session_id m.clients ≡ some a
    → (m.objects a).is_closed ≡ false
    → kick_client_by_user_id user_id m ≡ done (dropped a session_id (erase user_id m.user_ids) m)
unfolding kick_client_by_user_id
kick_user-held user_id session_id a m known found opened =
    rw (known, found, close_at-open a m opened, kick_client_by_user_id) refl

pub kick_user-unknown :
    (user_id : String) (m : ClientManager)
    → lookup user_id m.user_ids ≡ none
    → kick_client_by_user_id user_id m ≡ done m
unfolding kick_client_by_user_id
kick_user-unknown user_id m unknown = rw (unknown, kick_client_by_user_id) refl

pub kick_user-absent :
    (user_id session_id : String) (m : ClientManager)
    → lookup user_id m.user_ids ≡ some session_id
    → lookup session_id m.clients ≡ none
    → kick_client_by_user_id user_id m ≡ done m
unfolding kick_client_by_user_id
kick_user-absent user_id session_id m known absent = rw (known, absent, kick_client_by_user_id) refl

pub kick_all-next :
    (session_id : String) (a : ℕ) (entries : List (String × ℕ)) (m : ClientManager)
    → IsServed m.objects (session_id, a)
    → kick_all ((session_id, a) ∷ entries) m
      ≡ kick_all entries (dropped a session_id (erase (m.objects a).user_id m.user_ids) m)
unfolding kick_all
kick_all-next session_id a entries m (own, opened) =
    rw (close_at-open a m opened, put-same a (closed (m.objects a)) m.objects, own) refl

-- The state after the client at the address has the message in its channel.
abbrev pub queue_at : String → ℕ → ClientManager → ClientManager
queue_at message a m = record m {
  objects =
      put a (record (m.objects a) { queued = (m.objects a).queued ++ (message ∷ []) }) m.objects;
}

pub send_to-room :
    (message : String) (a : ℕ) (m : ClientManager)
    → (m.objects a).is_closed ≡ false
    → ltb (length (m.objects a).queued) send_capacity ≡ true
    → send_to message a m ≡ done (queue_at message a m)
unfolding send_to send
send_to-room message a m opened room = rw (opened, room, send_to) refl

pub send_to-full :
    (message : String) (a : ℕ) (m : ClientManager)
    → (m.objects a).is_closed ≡ false
    → ltb (length (m.objects a).queued) send_capacity ≡ false
    → send_to message a m ≡ waiting m
unfolding send_to send
send_to-full message a m opened full = rw (opened, full, send_to) refl
