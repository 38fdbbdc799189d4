-- ===== src/Protocol/Tests.antt =====
-- Examples of protocol and codec, over an encoding that keeps the message.
use top_lib.Prelude.{String, Option, none, some, ◌⊎◌, inl, inr, ◌≡◌, refl}
use top_lib.Prelude.Int.{pos}
use top_lib.Errors.Value.{foreign, end, error, nilable_text}
use top_lib.Errors.StackError.{StackError, msg, exist_extra, to_str_by_extra}
use top_lib.Protocol.{Message, Json, decode, echo_text, response}
use top_lib.Protocol.Echo.{IsFaithful, answered, decode-handler_message}
use top_lib.Prelude.Text.{str_append}

abbrev or_error : Option Message → String ⊎ Message
or_error none = inl "no message"
or_error (some m) = inr m

abbrev kept : Json (Option Message) String
kept = record {
  marshal_message = λ m. inr m;
  marshal_text = λ s. inr s;
  unmarshal_message = or_error;
  unmarshal_text = λ s. inr s;
}

kept-IsFaithful : IsFaithful kept
kept-IsFaithful = record {
  message_back = λ m. (some m, refl, refl);
  text_back = λ s. (s, refl, refl);
}

abbrev hello : Message
hello = record { main = "chat"; sub = "say"; payload = "hello" }

echo_test : echo_text kept hello ≡ "you send message hello:"
echo_test = refl

abbrev not_found : StackError
not_found = record {
  pointer = 1;
  code = pos 404;
  err = error (foreign 2 "not found" end);
  extra_errs = end;
}

response_test :
    (response {D = String} (some not_found) (some "row"))
    ≡ some (record { err_code = pos 404; err_msg = "not found"; payload = none })
unfolding response msg exist_extra to_str_by_extra nilable_text
response_test = refl

decode-handler_message_example :
    (answer : Option Message) × (reply : Message) × (answered kept (some hello) ≡ inr answer)
    × (decode kept answer ≡ inr reply)
    × (reply.main ≡ "system")
    × (reply.sub ≡ "echo")
    × (kept.unmarshal_text reply.payload
        ≡ inr (str_append "you send message " (str_append "hello" ":")))
unfolding decode
decode-handler_message_example = decode-handler_message kept kept-IsFaithful (some hello) hello refl
