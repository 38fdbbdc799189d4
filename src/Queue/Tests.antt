-- ===== src/Queue/Tests.antt =====
-- Examples of the queue package.
use top_lib.Prelude.{
  true, false, String, Option, some, [], ◌∷◌, ◌++◌, ◌⊎◌, inl, inr, ◌≡◌, refl, arith,
}
use Prim.Native.Char.{Char, code}
use top_lib.Prelude.{Bool, Option, none, List, ap, ◌∙◌, ◌==◌, if◌then◌else◌}
use top_lib.Protocol.{Message, Json, encode, decode}
use top_lib.Protocol.Echo.{IsFaithful}
use mathlib.Core.List.{Perm}
use top_lib.Queue.Delivery.{Called, all_ended, called, json_decode, Encoded, receive_pump-Encoded}
use top_lib.Errors.Value.{Error, foreign, end}
use top_lib.Queue.Sender.{MessageSender, new_message_sender, Reach, here, next, queued, pump_wrote}
use top_lib.Queue.Sender.Order.{InOrder, Reach-InOrder, new_message_sender-InOrder}
use top_lib.Queue.Receiver.{
  Turn, new_message_receiver, receive_pump, handle_raw_message, message_of, offer,
}

abbrev one_queued : MessageSender
one_queued = record new_message_sender { send_chan = "a" ∷ []; accepted = "a" ∷ [] }

abbrev one_written : MessageSender
one_written = record new_message_sender { accepted = "a" ∷ []; written = "a" ∷ [] }

one_written-Reach : Reach new_message_sender one_written
one_written-Reach =
    next (next here (queued new_message_sender "a" refl (omega arith)))
      (pump_wrote one_queued "a" [] refl refl)

Reach-InOrder_example : InOrder one_written
Reach-InOrder_example = Reach-InOrder new_message_sender-InOrder one_written-Reach

abbrev decode_all : String → Error ⊎ Option String
decode_all data_ = inr (some data_)

abbrev reads_hello : Turn
reads_hello = record {
  taken = 0;
  stops_before = false;
  reading = inr "hello";
  stops_during = false;
  picks_send = false;
}

abbrev fails : Turn
fails = record reads_hello { reading = inl (foreign 1 "closed" end) }

abbrev reply : String
reply = "pong"

abbrev pong : Error ⊎ String
pong = inr "pong"

-- Texts one after the other, each character behind a c, and a semicolon behind the last.
abbrev put_text : String → String → String
put_text String.[] rest = String.◌∷◌ ";" rest
put_text (String.◌∷◌ c s) rest = String.◌∷◌ "c" (String.◌∷◌ c (put_text s rest))

abbrev is_end : Char → Bool
is_end c = code c == 59

abbrev with_char : Char → Option (String × String) → Option (String × String)
with_char c none = none
with_char c (some (s, rest)) = some (String.◌∷◌ c s, rest)

abbrev take_text : String → Option (String × String)
take_text String.[] = none
take_text (String.◌∷◌ m String.[]) = if is_end m then some ("", "") else none
take_text (String.◌∷◌ m (String.◌∷◌ c s)) =
    let more = with_char c (take_text s) in if is_end m then some ("", String.◌∷◌ c s) else more

take_text-put_text : (s rest : String) → take_text (put_text s rest) ≡ some (s, rest)
take_text-put_text String.[] String.[] = refl
take_text-put_text String.[] (String.◌∷◌ c rest) = refl
take_text-put_text (String.◌∷◌ c s) rest = ap (with_char c) (take_text-put_text s rest)

abbrev put_message : Option Message → Error ⊎ String
put_message none = inr "null"
put_message (some m) = inr (put_text m.main (put_text m.sub (put_text m.payload "")))

abbrev with_payload : String → String → Option (String × String) → Error ⊎ Message
with_payload main sub none = inl (foreign 2 "unexpected end of JSON input" end)
with_payload main sub (some (payload, rest)) =
    inr (record { main = main; sub = sub; payload = payload })

abbrev with_sub : String → Option (String × String) → Error ⊎ Message
with_sub main none = inl (foreign 2 "unexpected end of JSON input" end)
with_sub main (some (sub, rest)) = with_payload main sub (take_text rest)

abbrev with_main : Option (String × String) → Error ⊎ Message
with_main none = inl (foreign 2 "unexpected end of JSON input" end)
with_main (some (main, rest)) = with_sub main (take_text rest)

abbrev json : Json String Error
json = record {
  marshal_message = put_message;
  marshal_text = λ s. inr s;
  unmarshal_message = λ t. with_main (take_text t);
  unmarshal_text = λ s. inr s;
}

json-IsFaithful : IsFaithful json
json-IsFaithful = record {
  message_back = λ m.
      let last = put_text m.payload "" in
      let middle = put_text m.sub last in
      (
        put_text m.main middle,
        refl,
        ap with_main (take_text-put_text m.main middle)
            ∙ ap (with_sub m.main) (take_text-put_text m.sub last)
            ∙ ap (with_payload m.main m.sub) (take_text-put_text m.payload ""),
      );
  text_back = λ s. (s, refl, refl);
}

abbrev ping : Message
ping = record { main = "m"; sub = "s"; payload = "p" }

abbrev ping_text : String
ping_text = "cm;cs;cp;"

-- A sender that has taken two messages and written one.
abbrev two_taken : MessageSender
two_taken = record new_message_sender {
  send_chan = ping_text ∷ [];
  accepted = ping_text ∷ ping_text ∷ [];
  written = ping_text ∷ [];
}

two_taken-Reach : Reach new_message_sender two_taken
two_taken-Reach =
    let first = record new_message_sender {
      send_chan = ping_text ∷ [];
      accepted = ping_text ∷ [];
    } in
    let sent = record first { send_chan = []; written = ping_text ∷ [] } in
    next
      (next (next here (queued new_message_sender ping_text refl (omega arith)))
        (pump_wrote first ping_text [] refl refl))
      (queued sent ping_text refl (omega arith))

abbrev reads_ping : Turn
reads_ping = record reads_hello { reading = inr ping_text }

ping_encoded : encode json (some ping) ≡ inr ping_text
unfolding encode
ping_encoded = refl

ping-Called :
    Called
      (receive_pump
        (json_decode json)
        ((reads_ping ∷ []) ++ (fails ∷ []))
        (new_message_receiver true)).1.spawned
      (ping ∷ [])
      []
unfolding new_message_receiver receive_pump handle_raw_message message_of offer decode
ping-Called = called [] [] ping [] [] all_ended

receive_pump-Encoded_example :
    ((receive_pump
        (json_decode json)
        ((reads_ping ∷ []) ++ (fails ∷ []))
        (new_message_receiver true)).0
      ≡ true)
    × (late : List Message) × Perm (ping ∷ ping ∷ []) ((ping ∷ []) ++ ([] ++ late))
    × Encoded json late ([] ++ (ping_text ∷ []))
receive_pump-Encoded_example =
    receive_pump-Encoded json json-IsFaithful (foreign 2 "unexpected end of JSON input" end, refl)
      two_taken (ping ∷ ping ∷ []) (reads_ping ∷ []) fails [] (ping ∷ []) [] two_taken-Reach
      (ping_encoded, (ping_encoded, tt)) ((refl, refl, refl), tt)
      (inr (foreign 1 "closed" end, refl)) ping-Called
