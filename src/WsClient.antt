-- ===== src/WsClient.antt =====
-- libs/ws_client/ws_client.go: the client as a step relation, since its three pumps, its senders and
-- Close run side by side. What the connection answers is the choice of the step.
pub mod Order
mod Tests
use top_lib.Prelude.{
  ℕ, ◌<◌, ◌≡◌, Bool, true, false, String, Option, none, some, List, [], ◌∷◌, ◌++◌, length,
}
use top_lib.Protocol.{Message}

-- WSClient: what sendChan holds and whether it is closed, whether ctx is cancelled, the connection
-- open and `done` closed, and which pumps run; the message that writePump has a writer open for;
-- and, for what is said of a run, the messages that SendMessage took, those that writePump was done
-- with and whether they were written, those given to the handler, whether a ping was written while
-- a writer was open, and whether a send or a Close panicked, or two writes at once.
pub record WsClient : Type 0 where
  pub send_chan : List String
  pub chan_closed : Bool
  pub cancelled : Bool
  pub conn_open : Bool
  pub done_closed : Bool
  pub reading : Bool
  pub writing : Bool
  pub pinging : Bool
  pub in_flight : Option String
  pub accepted : List String
  pub ended : List (String × Bool)
  pub handled : List Message
  pub overlapped : Bool
  pub panicked : Bool
  pub collided : Bool

abbrev pub chan_capacity : ℕ
chan_capacity = 256

-- NewWSClient after a dial that succeeds, and Start.
abbrev pub new_ws_client : WsClient
new_ws_client = record {
  send_chan = [];
  chan_closed = false;
  cancelled = false;
  conn_open = true;
  done_closed = false;
  reading = true;
  writing = true;
  pinging = true;
  in_flight = none;
  accepted = [];
  ended = [];
  handled = [];
  overlapped = false;
  panicked = false;
  collided = false;
}

-- handleMessage: a message that cannot be decoded is only logged, as is an error of the handler.
abbrev pub handle_message : Option Message → List Message → List Message
handle_message none handled = handled
handle_message (some msg) handled = handled ++ (msg ∷ [])

-- Whether a writer has been open at a ping: now, or before.
abbrev pub or_open : Option String → Bool → Bool
or_open none before = before
or_open (some m) before = true

pub data Step : WsClient → WsClient → Type 0 where
  -- SendMessage: the two cases of its select, and the send on a closed channel.
  queued :
      (c : WsClient) (message : String)
      → c.chan_closed ≡ false
      → length c.send_chan < chan_capacity
      → Step c (record c {
        send_chan = c.send_chan ++ (message ∷ []);
        accepted = c.accepted ++ (message ∷ []);
      })
  send_refused : (c : WsClient) → c.cancelled ≡ true → Step c c
  send_panicked : (c : WsClient) → c.chan_closed ≡ true → Step c (record c { panicked = true })
  -- readPump: ReadMessage gives bytes, which the codec decodes or not; it fails; or ctx is done.
  reader_read :
      (c : WsClient) (msg : Option Message)
      → c.reading ≡ true
      → c.conn_open ≡ true
      → Step c (record c { handled = handle_message msg c.handled })
  reader_failed :
      (c : WsClient)
      → c.reading ≡ true
      → Step c (record c { reading = false; conn_open = false; done_closed = true })
  reader_cancelled :
      (c : WsClient)
      → c.reading ≡ true
      → c.cancelled ≡ true
      → Step c (record c { reading = false; conn_open = false; done_closed = true })
  -- writePump: NextWriter opens a writer or fails; then w.Write and w.Close, whose errors are not
  -- looked at.
  writer_opened :
      (c : WsClient) (message : String) (rest : List String)
      → c.writing ≡ true
      → c.in_flight ≡ none
      → c.send_chan ≡ message ∷ rest
      → Step c (record c { send_chan = rest; in_flight = some message })
  writer_wrote :
      (c : WsClient) (message : String) (written : Bool)
      → c.writing ≡ true
      → c.in_flight ≡ some message
      → Step c (record c { in_flight = none; ended = c.ended ++ ((message, written) ∷ []) })
  writer_failed :
      (c : WsClient) (message : String) (rest : List String)
      → c.writing ≡ true
      → c.in_flight ≡ none
      → c.send_chan ≡ message ∷ rest
      → Step c (record c {
        send_chan = rest;
        ended = c.ended ++ ((message, false) ∷ []);
        writing = false;
        conn_open = false;
      })
  writer_drained :
      (c : WsClient)
      → c.writing ≡ true
      → c.in_flight ≡ none
      → c.send_chan ≡ []
      → c.chan_closed ≡ true
      → Step c (record c { writing = false; conn_open = false })
  writer_pinged : (c : WsClient) → c.writing ≡ true → c.in_flight ≡ none → Step c c
  writer_ping_failed :
      (c : WsClient)
      → c.writing ≡ true
      → c.in_flight ≡ none
      → Step c (record c { writing = false; conn_open = false })
  writer_cancelled :
      (c : WsClient)
      → c.writing ≡ true
      → c.in_flight ≡ none
      → c.cancelled ≡ true
      → Step c (record c { writing = false; conn_open = false })
  -- pingPump, which does not close the connection.
  pinged :
      (c : WsClient)
      → c.pinging ≡ true
      → Step c (record c { overlapped = or_open c.in_flight c.overlapped })
  ping_failed : (c : WsClient) → c.pinging ≡ true → Step c (record c { pinging = false })
  ping_cancelled :
      (c : WsClient) → c.pinging ≡ true → c.cancelled ≡ true → Step c (record c { pinging = false })
  -- The connection panics where it finds the two pumps writing at once, as they may, with no lock.
  writes_collided :
      (c : WsClient) → c.writing ≡ true → c.pinging ≡ true → Step c (record c { collided = true })
  -- Close: cancel, close(c.sendChan), which panics in a second Close, and conn.Close.
  close_cancelled : (c : WsClient) → Step c (record c { cancelled = true })
  close_closed :
      (c : WsClient)
      → c.cancelled ≡ true
      → c.chan_closed ≡ false
      → Step c (record c { chan_closed = true; conn_open = false })
  close_panicked : (c : WsClient) → c.chan_closed ≡ true → Step c (record c { panicked = true })

pub data Reach (s : WsClient) : WsClient → Type 0 where
  here : Reach s s
  next : {t u : WsClient} → Reach s t → Step t u → Reach s u
