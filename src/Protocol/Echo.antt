-- ===== src/Protocol/Echo.antt =====
-- What the default message processor answers (protocol/ws_message.go, codec/json_codec.go).
use top_lib.Prelude.{String, some, ◌⊎◌, inl, inr, ◌≡◌, refl}
use top_lib.Prelude.Text.{str_append}
use top_lib.Protocol.{Message, Json, new_json_message, decode, handler_message}

-- What is relied on of encoding/json: a message and a text are encoded, and come back.
pub record IsFaithful {B E : Type 0} (json : Json B E) : Type 0 where
  pub message_back :
      (m : Message)
      → (t : B) × (json.marshal_message (some m) ≡ inr t) × (json.unmarshal_message t ≡ inr m)
  pub text_back :
      (s : String) → (t : String) × (json.marshal_text s ≡ inr t) × (json.unmarshal_text t ≡ inr s)

-- What decoding and the default processor make of some bytes.
abbrev pub answered : {B E : Type 0} → Json B E → B → E ⊎ B
answered json sent = elim (decode json sent) [ inl e ↦ inl e | inr m ↦ handler_message json m ]

module _ {B E : Type 0} (json : Json B E) (faithful : IsFaithful json) where
  -- Where JSON gives back what it encodes, any bytes that decode to a message, given to the default
  -- processor as that message, are answered without an error by bytes that decode to a message of
  -- the main command system and the sub command echo, whose payload is the JSON of the text
  -- "you send message ", the first message's payload, and a colon.
  pub decode-handler_message :
      (sent : B) (m : Message)
      → decode json sent ≡ inr m
      → (answer : B) × (reply : Message) × (answered json sent ≡ inr answer)
        × (decode json answer ≡ inr reply)
        × (reply.main ≡ "system")
        × (reply.sub ≡ "echo")
        × (json.unmarshal_text reply.payload
            ≡ inr (str_append "you send message " (str_append m.payload ":")))
  unfolding handler_message new_json_message
  decode-handler_message sent m got =
      let echo = str_append "you send message " (str_append m.payload ":") in
      let (payload, encoded, back) = faithful.text_back echo in
      let reply : Message = record { main = "system"; sub = "echo"; payload = payload } in
      let (answer, marshalled, unmarshalled) = faithful.message_back reply in
      (
        answer,
        reply,
        rw (answered, got, encoded, handler_message, new_json_message) marshalled,
        unfold decode in unmarshalled,
        refl,
        refl,
        back,
      )
