-- ===== src/Coap/Serialize.antt =====
-- eng/coap/CoAPPacket/CoAPSerialize_common.c: writing a message to a buffer.
-- Each writer returns its C return value with the bytes it stores from `buf` on, in order. They lie
-- one behind the other as long as the 16-bit offset of CoAPSerialize_Options does not wrap.
pub mod Length
use nu_maker_mbed_aliyun_io.Base.{
  ℕ, zero, suc, ◌+◌, ◌-◌, ◌*◌, ◌/◌, ◌%◌, ◌≤◌, ◌<◌, ◌≡◌, Bool, true, false, ◌||◌, not, ltb, leb,
  if◌then◌else◌, Option, none, some, List, [], ◌∷◌, ◌++◌, length, take, ℤ, pos, sub_ℕ, All,
}
use nu_maker_mbed_aliyun_io.Base.Bits.{u8, u16, IsByte}
use nu_maker_mbed_aliyun_io.Coap.Message.{
  MsgHeader, MsgOption, Message, max_token_len, max_option_num, optcount, invalid_param,
}

unfoldable pub serialize_header : Message → ℕ → ℕ × List ℕ
serialize_header m buflen = if ltb buflen 4 then (0, []) else (
  4,
  u8 (m.header.version % 4 * 64 + m.header.type % 4 * 16 + m.header.tokenlen % 16)
      ∷ u8 m.header.code
      ∷ (m.header.msgid / 0x100 % 0x100)
      ∷ (m.header.msgid % 0x100)
      ∷ [],
)

unfoldable pub serialize_token : Message → ℕ → ℕ × List ℕ
serialize_token m buflen =
    if ltb buflen m.header.tokenlen
    then (0, [])
    else (m.header.tokenlen, take m.header.tokenlen m.token)

-- The four bits of the first byte for an option's number or length, and the bytes that extend them.
unfoldable pub nibble : ℕ → ℕ
nibble n = if leb 269 n then 14 else if leb 13 n then 13 else n

unfoldable pub extension : ℕ → List ℕ
extension n =
    if leb 269 n
    then ((n - 269) / 0x100 % 0x100) ∷ ((n - 269) % 0x100) ∷ []
    else if leb 13 n
    then u8 (n - 13) ∷ []
    else []

-- The bytes in front of the option's value.
unfoldable pub option_head : MsgOption → List ℕ
option_head o = (nibble o.num * 16 + nibble o.len) ∷ extension o.num ++ extension o.len

unfoldable pub serialize_option : MsgOption → ℕ × List ℕ
serialize_option o = (u16 (length (option_head o) + o.len), option_head o ++ take o.len o.val)

-- The loop of CoAPSerialize_Options from an option and `count` on.
unfoldable pub serialize_options_from : List MsgOption → ℕ → ℕ × List ℕ
serialize_options_from [] count = (count, [])
serialize_options_from (o ∷ os) count =
    let (len, bytes) = serialize_option o in
    let (total, rest) = serialize_options_from os (u16 (count + len)) in
    if ltb 0 len then (total, bytes ++ rest) else (0, bytes)

-- `buflen` is a parameter of the C function and is not read there.
unfoldable pub serialize_options : Message → ℕ → ℕ × List ℕ
serialize_options m buflen = serialize_options_from m.options 0

unfoldable pub extension_len : ℕ → ℕ
extension_len n = if leb 269 n then 2 else if leb 13 n then 1 else 0

unfoldable pub serialize_option_len : MsgOption → ℕ
serialize_option_len o = u16 (1 + extension_len o.num + extension_len o.len + o.len)

unfoldable pub serialize_options_len_from : List MsgOption → ℕ → ℕ
serialize_options_len_from [] count = count
serialize_options_len_from (o ∷ os) count =
    let len = serialize_option_len o in
    let total = serialize_options_len_from os (u16 (count + len)) in if ltb 0 len then total else 0

unfoldable pub serialize_options_len : Message → ℕ
serialize_options_len m = serialize_options_len_from m.options 0

unfoldable pub serialize_payload : Message → ℕ → ℕ × List ℕ
serialize_payload m buflen = if ltb buflen (m.payloadlen + 1) then (0, []) else elim m.payload [
  | none ↦ (0, [])
  | some p ↦ if ltb 0 m.payloadlen then (m.payloadlen + 1, 0xff ∷ take m.payloadlen p) else (0, [])
]

-- Each `+=` stores an `unsigned short`.
unfoldable pub message_length : Message → ℕ
message_length m =
    let msglen = u16 (u16 (4 + m.header.tokenlen) + serialize_options_len m) in
    if ltb 0 m.payloadlen then u16 (u16 (msglen + m.payloadlen) + 1) else msglen

-- `remlen -= count` on an `unsigned short`.
abbrev pub sub16 : ℕ → ℕ → ℕ
sub16 a b = u16 (a + 0x10000 - u16 b)

-- `buf` says whether the buffer pointer is given; `buflen` is the size that the caller states.
unfoldable pub serialize_message : Option Message → Bool → ℕ → ℤ × List ℕ
serialize_message none buf buflen = (pos invalid_param, [])
serialize_message (some m) buf buflen =
    if not buf
    then (pos invalid_param, [])
    else let (count, header) = serialize_header m buflen in
      let remlen = sub16 buflen count in
      let (count, token) = serialize_token m remlen in
      let remlen = sub16 remlen count in
      let (count, options) = serialize_options m remlen in
      let remlen = sub16 remlen count in
      let (count, payload) = serialize_payload m remlen in
      let remlen = sub16 remlen count in
      (sub_ℕ buflen remlen, header ++ (token ++ (options ++ payload)))

-- An option whose fields are words and whose block has the stated length.
pub record IsOption (o : MsgOption) : Type 0 where
  pub num_word : o.num < 0x10000
  pub len_word : o.len < 0x10000
  pub val_block : length o.val ≡ o.len
  pub val_bytes : All IsByte o.val

-- A payload pointer shows at least `payloadlen` bytes, and no pointer goes with no length.
abbrev pub IsPayload : Option (List ℕ) → ℕ → Type 0
IsPayload none n = n ≡ 0
IsPayload (some p) n = n ≤ length p

-- A message that the setters can build: field widths, and blocks of the stated lengths.
pub record IsMessage (m : Message) : Type 0 where
  pub version_bits : m.header.version < 4
  pub type_bits : m.header.type < 4
  pub tokenlen_max : m.header.tokenlen ≤ max_token_len
  pub code_byte : m.header.code < 0x100
  pub msgid_word : m.header.msgid < 0x10000
  pub token_block : length m.token ≡ max_token_len
  pub optcount_max : optcount m ≤ max_option_num
  pub all_options : All IsOption m.options
  pub payload_block : IsPayload m.payload m.payloadlen
