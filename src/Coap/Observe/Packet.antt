-- ===== src/Coap/Observe/Packet.antt =====
-- The message of a notification, and that CoAPMessage_send hands it to the network.
use nu_maker_mbed_aliyun_io.Base.{
  ℕ, ◌≤◌, ◌≡◌, refl, arith, true, false, ltb, le→ltb, if◌then◌else◌, Option, none, some, List, [],
  ◌∷◌, ◌++◌, length, take, drop, replicate, pos,
}
use nu_maker_mbed_aliyun_io.Coap.Message.{MsgOption, Message, uint_bytes, max_token_len}
use nu_maker_mbed_aliyun_io.Coap.Serialize.{extension, message_length, serialize_message}
use nu_maker_mbed_aliyun_io.Coap.Serialize.Length.{
  length-option_head, option_size, payload_size, message_length-eq-size,
}
use nu_maker_mbed_aliyun_io.Coap.Observe.{Observer, option_observe}
use nu_maker_mbed_aliyun_io.Coap.Observe.Client.{option_maxage}
use nu_maker_mbed_aliyun_io.Coap.Observe.Send.{Outside, Sender, code_205, max_pdu_len, message_send}
use nu_maker_mbed_aliyun_io.Coap.Observe.Notify.{option_content_format}

-- The block of an option, and the three options of a notification as differences of numbers.
abbrev pub number_option : Outside → ℕ → ℕ → ℕ → MsgOption
number_option w optnum delta value = record {
  num = delta;
  len = length (uint_bytes value);
  val = if w.alloc_option optnum then uint_bytes value else [];
}

-- The message of an observer up to its payload.
abbrev pub built : Outside → Observer → ℕ → ℕ → Message
built w o maxage id = record {
  header = record {
    version = 1;
    type = o.msg_type;
    tokenlen = o.tokenlen;
    code = code_205;
    msgid = id;
  };
  token = take o.tokenlen o.token ++ drop o.tokenlen (replicate max_token_len 0);
  options =
      number_option w option_observe 6 o.observer_sequence_num
      ∷ number_option w option_content_format 6 o.ctype
      ∷ number_option w option_maxage 2 maxage
      ∷ [];
  optdelta = 14;
  payloadlen = 0;
  payload = none;
  handler = none;
  resp = none;
  user = some o.resource_of_interest;
  keep = pos 0;
}

length-uint_bytes : (value : ℕ) → length (uint_bytes value) ≤ 4
unfolding uint_bytes
length-uint_bytes value = ground arith

option_size-number :
    (w : Outside) (optnum delta value : ℕ)
    → delta ≤ 6
    → option_size (number_option w optnum delta value) ≤ 5
unfolding extension
option_size-number w optnum delta value h =
    ground (arith, length-uint_bytes value, length-option_head (number_option w optnum delta value))

-- With a payload of at most 1200 bytes the message stays within the largest size that is sent.
pub message_length-built :
    (w : Outside) (o : Observer) (maxage id : ℕ) (payload : Option (List ℕ)) (payloadlen : ℕ)
    → o.tokenlen ≤ max_token_len
    → payloadlen ≤ 1200
    → ltb max_pdu_len (
        message_length
          (record (built w o maxage id) { payload = payload; payloadlen = payloadlen }))
      ≡ false
message_length-built w o maxage id payload payloadlen short small =
    let m : Message = record (built w o maxage id) { payload = payload; payloadlen = payloadlen } in
    let a = option_size-number w option_observe 6 o.observer_sequence_num (omega arith) in
    let b = option_size-number w option_content_format 6 o.ctype (omega arith) in
    let c = option_size-number w option_maxage 2 maxage (omega arith) in
    let d : payload_size payloadlen ≤ 1201 = ground arith in
    le→ltb max_pdu_len (message_length m)
      (omega (arith, message_length-eq-size m (omega (arith, a, b, c, d)), a, b, c, d))

-- What CoAPMessage_send hands to the network for a message.
abbrev pub packet_of : Message → List ℕ
packet_of m = (serialize_message (some m) true (message_length m)).1

pub message_send-hands :
    (w : Outside) (s : Sender) (remote : ℕ) (m : Message)
    → ltb max_pdu_len (message_length m) ≡ false
    → w.alloc ≡ true
    → (message_send w s remote m).2 ≡ some (packet_of m)
unfolding message_send
message_send-hands w s remote m fits alloc = rw (fits, alloc, message_send) refl
