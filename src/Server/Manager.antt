-- ===== src/Server/Manager.antt =====
-- libs/server/ws_client_manager.go: the manager. The clients are objects with an address, so two
-- connections of one session are two objects; the two maps are association lists, and a range over
-- one takes its entries in the list's order, whatever that is.
pub mod Steps
pub mod Serving
pub mod Holds
pub mod Kicks
pub mod Reconnect
use top_lib.Prelude.{
  ℕ, String, Bool, Option, none, some, List, [], ◌∷◌, length, ◌==◌, if◌then◌else◌,
}
use top_lib.Prelude.Assoc.{lookup, insert, erase}
use top_lib.Server.Client.{Outcome, done, crashed, waiting, and_then, Client, send, close}

pub record ClientManager : Type 0 where
  pub clients : List (String × ℕ)
  pub user_ids : List (String × String)
  pub objects : ℕ → Client

unfoldable pub put : ℕ → Client → (ℕ → Client) → ℕ → Client
put a c objects b = if a == b then c else objects b

-- A call on the client at an address, and its effect on it.
abbrev stored : ClientManager → ℕ → Outcome Client → Outcome ClientManager
stored m a (done c) = done (record m { objects = put a c m.objects })
stored m a (crashed why) = crashed why
stored m a (waiting c) = waiting m

unfoldable pub close_at : ℕ → ClientManager → Outcome ClientManager
close_at a m = stored m a (close (m.objects a))

unfoldable pub send_to : String → ℕ → ClientManager → Outcome ClientManager
send_to message a m = stored m a (send message (m.objects a))

unfoldable pub new_client_manager : (ℕ → Client) → ClientManager
new_client_manager objects = record { clients = []; user_ids = []; objects = objects }

-- len(m.clients)
unfoldable pub client_count : ClientManager → ℕ
client_count m = length m.clients

-- The cases of Start's select.
unfoldable pub register : ℕ → ClientManager → ClientManager
register a m =
    let c = m.objects a in
    record m {
      clients = insert c.session_id a m.clients;
      user_ids = insert c.user_id c.session_id m.user_ids;
    }

abbrev without_session : String → ClientManager → ClientManager
without_session session_id m = record m { clients = erase session_id m.clients }

unfoldable pub unregister : ℕ → ClientManager → Outcome ClientManager
unregister a m =
    let session_id = (m.objects a).session_id in
    elim (lookup session_id m.clients) [
      | none ↦ done m
      | some _ ↦ and_then (close_at a m) (λ m'. done (without_session session_id m'))
    ]

unfoldable pub send_all : String → List (String × ℕ) → ClientManager → Outcome ClientManager
send_all message [] m = done m
send_all message ((session_id, a) ∷ entries) m =
    and_then (send_to message a m) (send_all message entries)

unfoldable pub broadcast : String → ClientManager → Outcome ClientManager
broadcast message m = send_all message m.clients m

unfoldable pub client_keep_live : ClientManager → Outcome ClientManager
client_keep_live m = send_all "keepalive" m.clients m

unfoldable pub kick_client_by_user_id : String → ClientManager → Outcome ClientManager
kick_client_by_user_id user_id m = elim (lookup user_id m.user_ids) [
  | none ↦ done m
  | some session_id ↦ elim (lookup session_id m.clients) [
    | none ↦ done m
    | some a ↦ and_then (close_at a m) (λ m'.
        done (record m' {
          clients = erase session_id m'.clients;
          user_ids = erase user_id m'.user_ids;
        }))
  ]
]

unfoldable pub kick_client_by_session_id : String → ClientManager → Outcome ClientManager
kick_client_by_session_id session_id m = elim (lookup session_id m.clients) [
  | none ↦ done m
  | some a ↦ and_then (close_at a m) (λ m'. done (record m' {
    clients = erase session_id m'.clients;
    user_ids = erase (m'.objects a).user_id m'.user_ids;
  }))
]

-- The loop of Stop, over the entries that the map has when it starts.
unfoldable pub kick_all : List (String × ℕ) → ClientManager → Outcome ClientManager
kick_all [] m = done m
kick_all ((_, a) ∷ entries) m = and_then (close_at a m) (λ m'. kick_all entries (record m' {
  clients = erase (m'.objects a).session_id m'.clients;
  user_ids = erase (m'.objects a).user_id m'.user_ids;
}))

-- Stop, up to where its send on stopChan is taken.
unfoldable pub stop : ClientManager → Outcome ClientManager
stop m = kick_all m.clients m

-- The loop of Start is the only receiver of stopChan, and its case calls Stop, which sends on that
-- channel, with nobody left to receive.
unfoldable pub stop_signal : ClientManager → Outcome ClientManager
stop_signal m = and_then (stop m) waiting

pub data Event : Type 0 where
  registering : ℕ → Event
  unregistering : ℕ → Event
  broadcasting : String → Event
  stopping : Event

unfoldable pub handle : Event → ClientManager → Outcome ClientManager
handle (registering a) m = done (register a m)
handle (unregistering a) m = unregister a m
handle (broadcasting message) m = broadcast message m
handle stopping m = stop_signal m

-- Start, over what its channels give, one after the other.
unfoldable pub start : List Event → ClientManager → Outcome ClientManager
start [] m = done m
start (e ∷ events) m = and_then (handle e m) (start events)
