-- ===== src/Coap/Runs.antt =====
-- Runs of the CoAP codec on concrete messages, and its theorems at concrete inputs.
use nu_maker_mbed_aliyun_io.Base.{◌≡◌, ◌≢◌, refl, arith, true, none, some, [], ◌∷◌, ◌++◌, pos}
use nu_maker_mbed_aliyun_io.Coap.Message.{MsgOption, Message, invalid_length}
use nu_maker_mbed_aliyun_io.Coap.Message.Options.{uint_value-uint_bytes}
use nu_maker_mbed_aliyun_io.Coap.Message.{uint_bytes, uint_value}
use nu_maker_mbed_aliyun_io.Coap.Serialize.{
  IsMessage, nibble, extension, option_head, serialize_message, message_length, serialize_header,
  serialize_token, serialize_option, serialize_options_from, serialize_options, serialize_payload,
}
use nu_maker_mbed_aliyun_io.Coap.Serialize.Length.{message_bytes, serialize_message-size}
use nu_maker_mbed_aliyun_io.Coap.Deserialize.{ok, fail, fault, deserialize_message}
use nu_maker_mbed_aliyun_io.Coap.Deserialize.Bounds.{deserialize_message-ne-fault}
use nu_maker_mbed_aliyun_io.Coap.Codec.{
  received, deserialize-serialize, deserialize-serialize-Unclosed,
}

abbrev path_option : MsgOption
path_option = record { num = 11; len = 2; val = 97 ∷ 98 ∷ [] }

abbrev observe_option : MsgOption
observe_option = record { num = 6; len = 0; val = [] }

abbrev blank : Message
blank = record {
  header = record { version = 0; type = 0; tokenlen = 0; code = 0; msgid = 0 };
  token = 0 ∷ 0 ∷ 0 ∷ 0 ∷ 0 ∷ 0 ∷ 0 ∷ 0 ∷ [];
  options = [];
  optdelta = 0;
  payloadlen = 0;
  payload = none;
  handler = none;
  resp = none;
  user = none;
  keep = pos 0;
}

-- A confirmable GET of a path with a payload of three bytes.
abbrev request : Message
request = record blank {
  header = record { version = 1; type = 0; tokenlen = 2; code = 1; msgid = 0x1234 };
  token = 7 ∷ 8 ∷ 0 ∷ 0 ∷ 0 ∷ 0 ∷ 0 ∷ 0 ∷ [];
  options = path_option ∷ [];
  optdelta = 11;
  payloadlen = 3;
  payload = some (1 ∷ 2 ∷ 3 ∷ []);
}

-- A notification whose only option is an Observe of value 0.
abbrev notification : Message
notification = record blank { options = observe_option ∷ []; optdelta = 6 }

request_bytes :
    (serialize_message (some request) true 100).1
    ≡ 66 ∷ 1 ∷ 0x12 ∷ 0x34 ∷ 7 ∷ 8 ∷ 178 ∷ 97 ∷ 98 ∷ 0xff ∷ 1 ∷ 2 ∷ 3 ∷ []
unfolding serialize_message serialize_header serialize_token serialize_options
    serialize_options_from serialize_option serialize_payload option_head nibble extension
request_bytes = refl

-- A buffer that is too small for the payload: the message is sent without it.
request_cut :
    serialize_message (some request) true 12
    ≡ (pos 9, 66 ∷ 1 ∷ 0x12 ∷ 0x34 ∷ 7 ∷ 8 ∷ 178 ∷ 97 ∷ 98 ∷ [])
unfolding serialize_message serialize_header serialize_token serialize_options
    serialize_options_from serialize_option serialize_payload option_head nibble extension
request_cut = refl

request-IsMessage : IsMessage request
request-IsMessage = omega arith

notification-IsMessage : IsMessage notification
notification-IsMessage = omega arith

serialize_message-size_example :
    serialize_message (some request) true 20 ≡ (pos 13, message_bytes request)
unfolding option_head extension
serialize_message-size_example =
    serialize_message-size request 20 request-IsMessage (omega arith) (omega arith)

deserialize-serialize_example :
    deserialize_message
      (some blank)
      (some ((serialize_message (some request) true (message_length request)).1 ++ 9 ∷ []))
      (message_length request)
    ≡ ok (received request blank (9 ∷ []))
unfolding option_head extension
deserialize-serialize_example =
    deserialize-serialize request blank (9 ∷ []) request-IsMessage (omega arith) (omega arith)
      (omega arith) tt

deserialize-serialize-Unclosed_example :
    deserialize_message
      (some blank)
      (some
        ((serialize_message (some notification) true (message_length notification)).1 ++ 0 ∷ []))
      (message_length notification)
    ≡ fail invalid_length
unfolding option_head extension
deserialize-serialize-Unclosed_example =
    deserialize-serialize-Unclosed notification blank (0 ∷ []) notification-IsMessage (omega arith)
      (omega arith) refl refl

deserialize_message-ne-fault_example :
    deserialize_message
      (some blank)
      (some (0x68 ∷ 1 ∷ 0 ∷ 1 ∷ 0 ∷ 0 ∷ 0 ∷ 0 ∷ 0 ∷ 0 ∷ 0 ∷ 0 ∷ []))
      4
    ≢ fault
deserialize_message-ne-fault_example = deserialize_message-ne-fault blank _ 4 (omega arith)

uint_value-uint_bytes_example : uint_value (uint_bytes 0x12345678) 0 ≡ 0x12345678
uint_value-uint_bytes_example = uint_value-uint_bytes 0x12345678 (omega arith)
