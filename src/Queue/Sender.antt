-- ===== src/Queue/Sender.antt =====
-- queue/message_sender.go: the sender as a step relation, since its callers, its pump and Stop run
-- side by side and select picks any case that is ready.
pub mod Order
use top_lib.Prelude.{
  ℕ, ◌+◌, ◌≤◌, ◌<◌, ◌≡◌, refl, sym, ap, ◌∙◌, Bool, true, false, String, List, [], ◌∷◌, ◌++◌, length,
  length-append, arith,
}
use mathlib.Core.List.{append-nil, append_assoc}

-- MessageSender: what sendChan holds and whether it is closed, whether ctx is cancelled, whether
-- the pump runs; and, for what is said of a run, the messages that SendRawBytes took, those
-- written to the connection, those the pump took and could not write, and whether a send panicked.
pub record MessageSender : Type 0 where
  pub send_chan : List String
  pub chan_closed : Bool
  pub cancelled : Bool
  pub pumping : Bool
  pub accepted : List String
  pub written : List String
  pub lost : List String
  pub panicked : Bool

abbrev pub chan_capacity : ℕ
chan_capacity = 256

-- NewMessageSender, and Start's `go s.sendPump()`.
abbrev pub new_message_sender : MessageSender
new_message_sender = record {
  send_chan = [];
  chan_closed = false;
  cancelled = false;
  pumping = true;
  accepted = [];
  written = [];
  lost = [];
  panicked = false;
}

pub data Step : MessageSender → MessageSender → Type 0 where
  -- SendRawBytes: its three cases, and the send on a closed channel. The two that give an error
  -- change nothing.
  queued :
      (s : MessageSender) (data_ : String)
      → s.chan_closed ≡ false
      → length s.send_chan < chan_capacity
      → Step s (record s {
        send_chan = s.send_chan ++ (data_ ∷ []);
        accepted = s.accepted ++ (data_ ∷ []);
      })
  send_refused : (s : MessageSender) → s.cancelled ≡ true → Step s s
  send_timed_out : (s : MessageSender) → Step s s
  send_panicked : (s : MessageSender) → s.chan_closed ≡ true → Step s (record s { panicked = true })
  -- sendPump: its three cases.
  pump_wrote :
      (s : MessageSender) (message : String) (rest : List String)
      → s.pumping ≡ true
      → s.send_chan ≡ message ∷ rest
      → Step s (record s { send_chan = rest; written = s.written ++ (message ∷ []) })
  pump_failed :
      (s : MessageSender) (message : String) (rest : List String)
      → s.pumping ≡ true
      → s.send_chan ≡ message ∷ rest
      → Step s (record s { send_chan = rest; lost = s.lost ++ (message ∷ []); pumping = false })
  pump_drained :
      (s : MessageSender)
      → s.pumping ≡ true
      → s.send_chan ≡ []
      → s.chan_closed ≡ true
      → Step s (record s { pumping = false })
  pump_pinged : (s : MessageSender) → s.pumping ≡ true → Step s s
  ping_failed : (s : MessageSender) → s.pumping ≡ true → Step s (record s { pumping = false })
  pump_cancelled :
      (s : MessageSender)
      → s.pumping ≡ true
      → s.cancelled ≡ true
      → Step s (record s { pumping = false })
  -- Stop: cancel, then close(s.sendChan), which panics in a second Stop.
  stop_cancelled : (s : MessageSender) → Step s (record s { cancelled = true })
  stop_closed :
      (s : MessageSender)
      → s.cancelled ≡ true
      → s.chan_closed ≡ false
      → Step s (record s { chan_closed = true })
  stop_panicked : (s : MessageSender) → s.chan_closed ≡ true → Step s (record s { panicked = true })

pub data Reach (s : MessageSender) : MessageSender → Type 0 where
  here : Reach s s
  next : {t u : MessageSender} → Reach s t → Step t u → Reach s u
