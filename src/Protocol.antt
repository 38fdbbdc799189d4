-- ===== src/Protocol.antt =====
-- protocol/ws_message.go, response.go and codec/json_codec.go: messages, responses and their JSON.
-- encoding/json and protobuf are arguments.
pub mod Echo
mod Tests
use top_lib.Prelude.{String, Option, none, some, ◌⊎◌, inl, inr}
use top_lib.Prelude.Int.{ℤ, pos}
use top_lib.Prelude.Text.{str_append}
use top_lib.Errors.StackError.{StackError, msg}

pub record Message : Type 0 where
  pub main : String
  pub sub : String
  pub payload : String

-- json.Marshal of a message, or of nil, and of a text; json.Unmarshal into a Message and into a
-- text. B are the encoded bytes of messages.
pub record Json (B E : Type 0) : Type 0 where
  pub marshal_message : Option Message → E ⊎ B
  pub marshal_text : String → E ⊎ String
  pub unmarshal_message : B → E ⊎ Message
  pub unmarshal_text : String → E ⊎ String

module _ {E : Type 0} where
  -- NewJsonMessage and NewProtobufMessage: nil where the data cannot be encoded.
  unfoldable pub new_json_message :
      {T : Type 0} (struct2bytes : T → E ⊎ String) → String → String → T → Option Message
  new_json_message struct2bytes main sub payload = elim (struct2bytes payload) [
    | inl e ↦ none
    | inr payload' ↦ some (record { main = main; sub = sub; payload = payload' })
  ]

  unfoldable pub new_protobuf_message :
      {P : Type 0} (marshal : P → E ⊎ String) → String → String → P → Option Message
  new_protobuf_message marshal main sub payload = elim (marshal payload) [
    | inl e ↦ none
    | inr payload' ↦ some (record { main = main; sub = sub; payload = payload' })
  ]

  module _ {B : Type 0} (json : Json B E) where
    -- JsonCodec.
    unfoldable pub decode : B → E ⊎ Message
    decode data_ = json.unmarshal_message data_

    unfoldable pub encode : Option Message → E ⊎ B
    encode message = json.marshal_message message

    -- fmt.Sprintf("you send message %s:", payload)
    abbrev pub echo_text : Message → String
    echo_text message = str_append "you send message " (str_append message.payload ":")

    -- DefaultMessageProcessor.HandlerMessage
    unfoldable pub handler_message : Message → E ⊎ B
    handler_message message =
        json.marshal_message
          (new_json_message json.marshal_text "system" "echo" (echo_text message))

pub record BaseResponse (D : Type 0) : Type 0 where
  pub err_code : ℤ
  pub err_msg : String
  pub payload : Option D

abbrev failed : {D : Type 0} → StackError → Option String → Option (BaseResponse D)
failed err none = none
failed err (some text) = some (record { err_code = err.code; err_msg = text; payload = none })

-- What Response sends with the status 200, or none where err.Msg() panics.
unfoldable pub response : {D : Type 0} → Option StackError → Option D → Option (BaseResponse D)
response none payload = some (record { err_code = pos 0; err_msg = "操作成功!"; payload = payload })
response (some err) payload = failed err (msg err)
