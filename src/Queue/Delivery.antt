-- ===== src/Queue/Delivery.antt =====
-- What a sender's messages come to at a receiver that reads its connection: queue/message_sender.go,
-- queue/message_revice.go and codec/json_codec.go together.
use top_lib.Prelude.{
  true, false, String, Option, some, List, [], ◌∷◌, ◌++◌, ◌⊎◌, inl, inr, ◌≡◌, ◌≢◌, refl, sym, ap,
  ◌∙◌, str_eq, eq_iff, arith, subst,
}
use mathlib.Core.List.{append_assoc, Perm, perm_middle}
use mathlib.Core.List.Perm
use top_lib.Errors.Value.{Error}
use top_lib.Protocol.{Message, Json, decode, encode}
use top_lib.Protocol.Echo.{IsFaithful}
use top_lib.Queue.Sender.{MessageSender, new_message_sender, Reach}
use top_lib.Queue.Sender.Order.{new_message_sender-InOrder, Reach-InOrder}
use top_lib.Queue.Receiver.{Turn, message_of, new_message_receiver, receive_pump}
use top_lib.Queue.Receiver.Pump.{messages, AllRead, EndsPump, receive_pump-spawned}

-- The goroutines of processMessage, which run side by side: from the messages that they were
-- started for, those that the processor is called with, in the order of the calls, and those that a
-- goroutine has not called it with, since it found ctx done or has not run.
pub data Called {M : Type 0} : List M → List M → List M → Type 0 where
  all_ended : Called [] [] []
  called :
      (before after : List M) (m : M) (calls missed : List M)
      → Called (before ++ after) calls missed
      → Called (before ++ (m ∷ after)) (m ∷ calls) missed
  skipped :
      (before after : List M) (m : M) (calls missed : List M)
      → Called (before ++ after) calls missed
      → Called (before ++ (m ∷ after)) calls (m ∷ missed)

Called-Perm :
    {M : Type 0} {started calls missed : List M}
    → Called started calls missed
    → Perm started (calls ++ missed)
Called-Perm all_ended = Perm.refl []
Called-Perm (called before after m calls missed c) =
    Perm.trans (perm_middle before after) (Perm.cons m (Called-Perm c))
Called-Perm (skipped before after m calls missed c) =
    Perm.trans (perm_middle before after)
      (Perm.trans (Perm.cons m (Called-Perm c)) (Perm.symm (perm_middle calls missed)))

abbrev decoded : Error ⊎ Message → Error ⊎ Option Message
decoded (inl e) = inl e
decoded (inr m) = inr (some m)

module _ (json : Json String Error) where
  -- The JSON codec as the receiver calls it, which gives a message that is not nil.
  abbrev pub json_decode : String → Error ⊎ Option Message
  json_decode t = decoded (decode json t)

  -- The texts are those of the messages, one by one.
  abbrev pub Encoded : List Message → List String → Type 0
  Encoded [] [] = Unit
  Encoded (m ∷ ms) (t ∷ ts) = (encode json (some m) ≡ inr t) × Encoded ms ts
  Encoded _ _ = ⊥

  Encoded-split :
      (ms : List Message) (xs ys : List String)
      → Encoded ms (xs ++ ys)
      → (done late : List Message) × (ms ≡ done ++ late) × Encoded done xs × Encoded late ys
  Encoded-split ms [] ys h = ([], ms, refl, tt, h)
  Encoded-split [] (x ∷ xs) ys h = absurd h
  Encoded-split (m ∷ ms) (x ∷ xs) ys (here, h) =
      let (done, late, same, before, after) = Encoded-split ms xs ys h in
      (m ∷ done, late, ap (λ rest. m ∷ rest) same, (here, before), after)

  module _ (faithful : IsFaithful json)
      (no_empty : (e : Error) × (json.unmarshal_message "" ≡ inl e)) where
    abbrev text_or : String → Error ⊎ String → String
    text_or t (inl e) = t
    text_or t (inr s) = s

    decode-encode :
        (m : Message) (t : String) → encode json (some m) ≡ inr t → decode json t ≡ inr m
    unfolding decode encode
    decode-encode m t made =
        let (t', marshalled, back) = faithful.message_back m in
        ap json.unmarshal_message (ap (text_or t) (sym made ∙ marshalled)) ∙ back

    not_empty : (m : Message) (t : String) → encode json (some m) ≡ inr t → str_eq t "" ≡ false
    unfolding decode
    not_empty m t made =
        let (e, failed) = no_empty in
        let named : t ≢ "" = λ same. absurd (
          ground
            (arith, sym failed ∙ ap json.unmarshal_message (sym same) ∙ decode-encode m t made)) in
        ground (arith, eq_iff t "", named)

    message_of-encode :
        (m : Message) (t : String)
        → encode json (some m) ≡ inr t
        → message_of json_decode t ≡ some m
    unfolding message_of
    message_of-encode m t made = rw (not_empty m t made, decode-encode m t made) refl

    messages-Encoded :
        (ms : List Message) (ts : List String) → Encoded ms ts → messages json_decode ts ≡ ms
    messages-Encoded [] [] h = refl
    messages-Encoded [] (t ∷ ts) h = absurd h
    messages-Encoded (m ∷ ms) [] h = absurd h
    messages-Encoded (m ∷ ms) (t ∷ ts) (here, h) =
        rw (message_of-encode m t here, messages-Encoded ms ts h) refl

    -- Where JSON gives back what it encodes and an empty text is no JSON, and a sender, whatever its
    -- callers, its pump and Stop have done, has taken the texts of some messages, and a new receiver
    -- with a processor reads what the sender has written, until a read fails or Stop comes: then its
    -- pump returns, and in whatever order the goroutines that it started run, the messages taken are,
    -- each as often as it was taken, those that the processor is called with, those whose goroutine
    -- did not call it, and those that did not come: the one that the sender could not write, if
    -- there is one, and those in its channel.
    pub receive_pump-Encoded :
        (s : MessageSender) (ms : List Message) (turns : List Turn) (t : Turn) (later : List Turn)
        (calls missed : List Message)
        → Reach new_message_sender s
        → Encoded ms s.accepted
        → AllRead json_decode s.written turns
        → EndsPump json_decode t
        → Called
            (receive_pump json_decode (turns ++ (t ∷ later)) (new_message_receiver true)).1.spawned
            calls
            missed
        → ((receive_pump json_decode (turns ++ (t ∷ later)) (new_message_receiver true)).0 ≡ true)
          × (late : List Message) × Perm ms (calls ++ (missed ++ late))
          × Encoded late (s.lost ++ s.send_chan)
    unfolding new_message_receiver
    receive_pump-Encoded s ms turns t later calls missed reached taken reads ends runs =
        let in_order = Reach-InOrder new_message_sender-InOrder reached in
        let (done, late, same, before, after) =
          Encoded-split ms s.written (s.lost ++ s.send_chan) (rw in_order.order at taken) in
        let (returned, all) =
          receive_pump-spawned json_decode s.written turns t later (new_message_receiver true) refl
            refl reads ends in
        (
          returned,
          late,
          subst (λ xs. Perm xs (calls ++ (missed ++ late)))
              (ap (λ handed. handed ++ late) (all ∙ messages-Encoded done s.written before)
                ∙ sym same)
              (subst (Perm _) (append_assoc calls missed late)
                (Perm.append_right late (Called-Perm runs))),
          after,
        )
