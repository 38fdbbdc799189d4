-- ===== src/Server/Client.antt =====
-- libs/server/ws_client.go: one WebSocket client, its two channels, and its two pumps.
pub mod Pumps
use top_lib.Prelude.{
  ℕ, zero, suc, Bool, true, false, String, Option, none, some, List, [], ◌∷◌, ◌++◌, length, ltb,
  ◌==◌, if◌then◌else◌,
}

-- What a call on the program's channels comes to: it is done, it panics, or its goroutine waits:
-- at a full send channel until the client's pump takes a message from it, which is not followed
-- further, or, in the loop's own call of Stop, at stopChan, from which only the loop receives.
pub data Outcome (A : Type 0) : Type 0 where
  done : A → Outcome A
  crashed : String → Outcome A
  waiting : A → Outcome A

abbrev pub and_then : {A : Type 0} → Outcome A → (A → Outcome A) → Outcome A
and_then (done a) f = f a
and_then (crashed why) f = crashed why
and_then (waiting a) f = waiting a

-- Client: `queued` is what the channel send holds, `is_closed` that Close has closed it, `is_up`
-- that its connection is not closed.
pub record Client : Type 0 where
  pub session_id : String
  pub user_id : String
  pub queued : List String
  pub is_closed : Bool
  pub is_up : Bool

unfoldable pub new_client : String → String → Client
new_client user_id session_id = record {
  session_id = session_id;
  user_id = user_id;
  queued = [];
  is_closed = false;
  is_up = true;
}

-- make(chan []byte, 1024)
abbrev pub send_capacity : ℕ
send_capacity = 1024

-- c.send <- message
unfoldable pub send : String → Client → Outcome Client
send message c =
    if c.is_closed
    then crashed "send on closed channel"
    else if ltb (length c.queued) send_capacity
    then done (record c { queued = c.queued ++ (message ∷ []) })
    else waiting c

-- close(c.send), close(c.closed), c.conn.Close()
unfoldable pub close : Client → Outcome Client
close c =
    if c.is_closed
    then crashed "close of closed channel"
    else done (record c { is_closed = true; is_up = false })
