-- ===== src/Queue/Receiver/Reply.antt =====
-- When processMessage replies (queue/message_revice.go).
use top_lib.Prelude.{
  Bool, true, false, String, Option, none, some, [], ◌∷◌, ◌⊎◌, inl, inr, ◌≡◌, ◌≢◌, ◌↔◌, arith,
  eq_iff,
}
use top_lib.Errors.Value.{Error}
use top_lib.Queue.Receiver.{process_message}

abbrev pub Runs : Option (Bool × (String → Option Error)) → Type 0
Runs none = ⊥
Runs (some (is_running, send_raw_bytes)) = is_running ≡ true

-- A text is given to the sender exactly where the context is cancelled neither before nor after
-- the handler, the handler gives that text and no error, the text is not empty, and there is a
-- sender that runs.
pub process_message-replies :
    (before after : Bool)
    → (result : Error ⊎ String) → (sender : Option (Bool × (String → Option Error)))
    → (reply : String)
    → (process_message before result after sender ≡ reply ∷ [])
      ↔ ((before ≡ false) × (result ≡ inr reply) × (after ≡ false) × (reply ≢ "") × Runs sender)
unfolding process_message
process_message-replies true after result sender reply = ground arith
process_message-replies false after (inl e) sender reply = ground arith
process_message-replies false true (inr m) sender reply = ground arith
process_message-replies false false (inr m) none reply = ground arith
process_message-replies false false (inr m) (some (true, send)) reply =
    ground (arith, eq_iff m "", eq_iff reply "")
process_message-replies false false (inr m) (some (false, send)) reply = ground (arith, eq_iff m "")
