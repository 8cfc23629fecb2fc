-- ===== src/Coap/Serialize/Length.antt =====
-- The bytes of a message in plain terms, and what the writers of CoAPSerialize_common.c make of them.
use nu_maker_mbed_aliyun_io.Base.{
  ℕ, ◌+◌, ◌*◌, ◌%◌, ◌/◌, ◌≤◌, ◌<◌, ◌≡◌, refl, sym, arith, true, ltb, if◌then◌else◌, Option, none,
  some, List, [], ◌∷◌, ◌++◌, length, take, length-append, length-take, take-length, pos, All,
}
use nu_maker_mbed_aliyun_io.Base.Bits.{u16}
use nu_maker_mbed_aliyun_io.Coap.Message.{MsgHeader, MsgOption, Message}
use nu_maker_mbed_aliyun_io.Coap.Serialize.{
  IsOption, IsMessage, IsPayload, extension, extension_len, option_head, serialize_option,
  serialize_option_len, serialize_options_from, serialize_options_len_from, serialize_options,
  serialize_options_len, serialize_header, serialize_token, serialize_payload, message_length,
  serialize_message, sub16,
}

-- The size of an option on the wire, with no wrap-around.
abbrev pub option_size : MsgOption → ℕ
option_size o = length (option_head o) + o.len

abbrev pub options_size : List MsgOption → ℕ
options_size [] = 0
options_size (o ∷ os) = option_size o + options_size os

abbrev pub options_bytes : List MsgOption → List ℕ
options_bytes [] = []
options_bytes (o ∷ os) = (option_head o ++ o.val) ++ options_bytes os

abbrev pub payload_size : ℕ → ℕ
payload_size n = if ltb 0 n then n + 1 else 0

abbrev pub payload_bytes : Option (List ℕ) → ℕ → List ℕ
payload_bytes none n = []
payload_bytes (some p) n = if ltb 0 n then 0xff ∷ take n p else []

abbrev pub header_bytes : MsgHeader → List ℕ
header_bytes h =
    (h.version * 64 + h.type * 16 + h.tokenlen)
    ∷ h.code
    ∷ (h.msgid / 0x100)
    ∷ (h.msgid % 0x100)
    ∷ []

abbrev pub message_size : Message → ℕ
message_size m = 4 + m.header.tokenlen + options_size m.options + payload_size m.payloadlen

abbrev pub message_bytes : Message → List ℕ
message_bytes m =
    header_bytes m.header
    ++ (take m.header.tokenlen m.token
        ++ (options_bytes m.options ++ payload_bytes m.payload m.payloadlen))

length-extension : (n : ℕ) → length (extension n) ≡ extension_len n
unfolding extension extension_len
length-extension n = ground arith

pub length-option_head :
    (o : MsgOption)
    → length (option_head o) ≡ 1 + length (extension o.num) + length (extension o.len)
unfolding option_head
length-option_head o = omega (arith, length-append (extension o.num) (extension o.len))

serialize_option_lem :
    (o : MsgOption)
    → IsOption o
    → option_size o < 0x10000
    → serialize_option o ≡ (option_size o, option_head o ++ o.val)
unfolding serialize_option
serialize_option_lem o v h =
    ap₂' (u16_id (option_size o) h) (take-length o.val o.len (sym v.val_block))
  where
    u16_id : (n : ℕ) → n < 0x10000 → u16 n ≡ n
    u16_id n p = omega arith

    ap₂' :
        {a b : ℕ} {xs ys : List ℕ}
        → a ≡ b
        → xs ≡ ys
        → ◌≡◌ {A = ℕ × List ℕ} (a, option_head o ++ xs) (b, option_head o ++ ys)
    ap₂' p q = λ i. (p i, option_head o ++ q i)

serialize_option_len_lem :
    (o : MsgOption) → option_size o < 0x10000 → serialize_option_len o ≡ option_size o
unfolding serialize_option_len
serialize_option_len_lem o h =
    omega (arith, length-option_head o, length-extension o.num, length-extension o.len)

pub option_size-pos : (o : MsgOption) → 0 < option_size o
option_size-pos o = omega (arith, length-option_head o)

pub serialize_options_from_lem :
    (os : List MsgOption) (count : ℕ)
    → All IsOption os
    → count + options_size os < 0x10000
    → serialize_options_from os count ≡ (count + options_size os, options_bytes os)
unfolding serialize_options_from
serialize_options_from_lem [] count v h = ground arith
serialize_options_from_lem (o ∷ os) count (v, vs) h = ground (
  arith,
  option_size-pos o,
  serialize_option_lem o v,
  serialize_options_from_lem os (u16 (count + option_size o)) vs,
)

pub serialize_options_len_from_lem :
    (os : List MsgOption) (count : ℕ)
    → count + options_size os < 0x10000
    → serialize_options_len_from os count ≡ count + options_size os
unfolding serialize_options_len_from
serialize_options_len_from_lem [] count h = omega arith
serialize_options_len_from_lem (o ∷ os) count h = ground (
  arith,
  option_size-pos o,
  serialize_option_len_lem o,
  serialize_options_len_from_lem os (u16 (count + option_size o)),
)

pub length-options_bytes :
    (os : List MsgOption) → All IsOption os → length (options_bytes os) ≡ options_size os
length-options_bytes [] v = refl
length-options_bytes (o ∷ os) (v, vs) = omega (
  arith,
  length-append (option_head o ++ o.val) (options_bytes os),
  length-append (option_head o) o.val,
  length-options_bytes os vs,
  v.val_block,
)

length-payload_bytes :
    (p : Option (List ℕ)) (n : ℕ) → IsPayload p n → length (payload_bytes p n) ≡ payload_size n
length-payload_bytes none n h = ground arith
length-payload_bytes (some p) n h = ground (arith, length-take n p)

pub length-message_bytes : (m : Message) → IsMessage m → length (message_bytes m) ≡ message_size m
length-message_bytes m v = omega (
  arith,
  length-append (take m.header.tokenlen m.token)
      (options_bytes m.options ++ payload_bytes m.payload m.payloadlen),
  length-append (options_bytes m.options) (payload_bytes m.payload m.payloadlen),
  length-take m.header.tokenlen m.token,
  length-options_bytes m.options v.all_options,
  length-payload_bytes m.payload m.payloadlen v.payload_block,
  v.token_block,
  v.tokenlen_max,
)

-- CoAPSerialize_MessageLength is the exact size of a message that fits 16 bits.
pub message_length-eq-size :
    (m : Message) → message_size m < 0x10000 → message_length m ≡ message_size m
unfolding message_length serialize_options_len
message_length-eq-size m h = ground (arith, serialize_options_len_from_lem m.options 0)

serialize_header_lem :
    (m : Message) (buflen : ℕ)
    → IsMessage m
    → 4 ≤ buflen
    → serialize_header m buflen ≡ (4, header_bytes m.header)
unfolding serialize_header
serialize_header_lem m buflen v h = ground arith

serialize_token_lem :
    (m : Message) (buflen : ℕ)
    → m.header.tokenlen ≤ buflen
    → serialize_token m buflen ≡ (m.header.tokenlen, take m.header.tokenlen m.token)
unfolding serialize_token
serialize_token_lem m buflen h = ground arith

serialize_options_lem :
    (m : Message) (buflen : ℕ)
    → IsMessage m
    → options_size m.options < 0x10000
    → serialize_options m buflen ≡ (options_size m.options, options_bytes m.options)
unfolding serialize_options
serialize_options_lem m buflen v h =
    ground (arith, serialize_options_from_lem m.options 0 v.all_options)

serialize_payload_lem :
    (m : Message) (buflen : ℕ)
    → IsMessage m
    → payload_size m.payloadlen ≤ buflen
    → serialize_payload m buflen ≡ (payload_size m.payloadlen, payload_bytes m.payload m.payloadlen)
unfolding serialize_payload
serialize_payload_lem m buflen v h = go m.payload v.payload_block
  where
    go :
        (p : Option (List ℕ))
        → IsPayload p m.payloadlen
        → serialize_payload (record m { payload = p }) buflen
          ≡ (payload_size m.payloadlen, payload_bytes p m.payloadlen)
    go none e = ground arith
    go (some p) e = ground arith

-- In a buffer of at least the message's size the whole message is written, and nothing else; the
-- return value is the number of bytes.
pub serialize_message-size :
    (m : Message) (buflen : ℕ)
    → IsMessage m
    → message_size m ≤ buflen
    → buflen < 0x10000
    → serialize_message (some m) true buflen ≡ (pos (message_size m), message_bytes m)
unfolding serialize_message
serialize_message-size m buflen v fits word = ground (
  arith,
  serialize_header_lem m buflen v,
  serialize_token_lem m (sub16 buflen 4),
  serialize_options_lem m (sub16 (sub16 buflen 4) m.header.tokenlen) v,
  serialize_payload_lem m
      (sub16 (sub16 (sub16 buflen 4) m.header.tokenlen) (options_size m.options)) v,
)
