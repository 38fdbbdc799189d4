-- ===== src/Queue/Receiver.antt =====
-- queue/message_revice.go: the receiver. A turn of its pump says what happens around one pass of
-- the loop, Stop and the readers of messageChan included.
pub mod Pump
pub mod Reply
use top_lib.Prelude.{
  ℕ, Bool, true, false, ◌&&◌, not, String, Option, none, some, List, [], ◌∷◌, ◌++◌, ◌⊎◌, inl, inr,
  length, drop, ltb, str_eq, if◌then◌else◌,
}
use top_lib.Errors.Value.{Error}

-- make(chan protocol.IMessage, 100)
abbrev pub chan_capacity : ℕ
chan_capacity = 100

-- MessageReceiver: what messageChan holds, whether ctx is cancelled and whether a processor is
-- set; and the messages that a goroutine of processMessage was started for, in the order of the go
-- statements, and those the full channel dropped. The goroutines run side by side, so this is not
-- the order in which the processor is called.
pub record MessageReceiver (M : Type 0) : Type 0 where
  pub message_chan : List M
  pub cancelled : Bool
  pub has_processor : Bool
  pub spawned : List M
  pub dropped : List M

-- One pass of the loop: how many messages the readers take, whether Stop cancels before the check
-- of ctx, what ReadMessage gives, whether Stop cancels while it reads, and which case a select
-- with two ready cases picks.
pub record Turn : Type 0 where
  pub taken : ℕ
  pub stops_before : Bool
  pub reading : Error ⊎ String
  pub stops_during : Bool
  pub picks_send : Bool

module _ {M : Type 0} where
  unfoldable pub new_message_receiver : Bool → MessageReceiver M
  new_message_receiver has_processor = record {
    message_chan = [];
    cancelled = false;
    has_processor = has_processor;
    spawned = [];
    dropped = [];
  }

  abbrev pub cancel_if : Bool → MessageReceiver M → MessageReceiver M
  cancel_if b r = record r { cancelled = if b then true else r.cancelled }

  -- if r.processor != nil { go r.processMessage(msg) }
  abbrev spawn : M → MessageReceiver M → MessageReceiver M
  spawn m r = record r { spawned = if r.has_processor then r.spawned ++ (m ∷ []) else r.spawned }

  -- The select that offers the message to messageChan.
  unfoldable pub offer : Bool → M → MessageReceiver M → MessageReceiver M
  offer picks_send m r =
      let put = spawn m (record r { message_chan = r.message_chan ++ (m ∷ []) }) in
      if ltb (length r.message_chan) chan_capacity
      then if r.cancelled then if picks_send then put else r else put
      else if r.cancelled
      then r
      else spawn m (record r { dropped = r.dropped ++ (m ∷ []) })

  module _ (decode : String → Error ⊎ Option M) where
    -- A text's message: none for an empty text, one that does not decode, or a nil message.
    unfoldable pub message_of : String → Option M
    message_of data_ =
        if str_eq data_ "" then none else elim (decode data_) [ inl e ↦ none | inr m ↦ m ]

    abbrev offer_some : Bool → Option M → MessageReceiver M → MessageReceiver M
    offer_some picks_send none r = r
    offer_some picks_send (some m) r = offer picks_send m r

    unfoldable pub handle_raw_message : Bool → String → MessageReceiver M → MessageReceiver M
    handle_raw_message picks_send data_ r = offer_some picks_send (message_of data_) r

    -- Whether the pump has returned, and the receiver's state.
    unfoldable pub receive_pump : List Turn → MessageReceiver M → Bool × MessageReceiver M
    receive_pump [] r = (false, r)
    receive_pump (t ∷ turns) r =
        let started : MessageReceiver M =
          cancel_if t.stops_before (record r { message_chan = drop t.taken r.message_chan }) in
        let read : MessageReceiver M = cancel_if t.stops_during started in
        if started.cancelled then (true, started) else elim t.reading [
          | inl e ↦ (true, read)
          | inr data_ ↦ receive_pump turns (handle_raw_message t.picks_send data_ read)
        ]

-- processMessage: whether ctx is cancelled before and after the handler, what the handler gives,
-- and the sender if there is one, whether it runs and what its SendRawBytes answers. The result is
-- the texts given to SendRawBytes.
unfoldable pub process_message :
    Bool → Error ⊎ String → Bool → Option (Bool × (String → Option Error)) → List String
process_message before result after sender = if before then [] else elim result [
  | inl e ↦ []
  | inr result_msg ↦ if after then [] else elim sender [
    | none ↦ []
    | some (is_running, send_raw_bytes) ↦
        if not (str_eq result_msg "") && is_running then result_msg ∷ [] else []
  ]
]
