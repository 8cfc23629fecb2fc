-- ===== src/Coap/Message.antt =====
-- eng/coap/iotx_coap_internal.h and eng/coap/CoAPPacket/CoAPMessage_common.c: the message record,
-- its option list and its setters.
-- A pointer argument that the code tests for NULL is an `Option`. `options` holds the first
-- `optcount` slots of the C array; a slot's `val` is the block that its pointer shows (NULL is []).
pub mod Options
use Prim.Native.Nat.{bit_or}
use nu_maker_mbed_aliyun_io.Base.{
  ℕ, zero, suc, ◌+◌, ◌-◌, ◌*◌, ◌/◌, ◌%◌, Bool, true, false, ◌&&◌, ◌||◌, not, ◌==◌, ltb, leb,
  if◌then◌else◌, Option, none, some, List, [], ◌∷◌, ◌++◌, length, take, drop, replicate, ℤ, pos,
  negsuc,
}
use nu_maker_mbed_aliyun_io.Base.Bits.{u8, u16, u32}

abbrev pub max_token_len : ℕ
max_token_len = 8

abbrev pub max_option_num : ℕ
max_option_num = 12

abbrev pub success : ℕ
success = 0

abbrev pub invalid_param : ℕ
invalid_param = 257

abbrev pub null_error : ℕ
null_error = 258

abbrev pub malloc_error : ℕ
malloc_error = 259

abbrev pub invalid_length : ℕ
invalid_length = 260

abbrev pub not_found : ℕ
not_found = 263

pub record MsgHeader : Type 0 where
  pub version : ℕ
  pub type : ℕ
  pub tokenlen : ℕ
  pub code : ℕ
  pub msgid : ℕ

pub record MsgOption : Type 0 where
  pub num : ℕ
  pub len : ℕ
  pub val : List ℕ

pub record Message : Type 0 where
  pub header : MsgHeader
  pub token : List ℕ
  pub options : List MsgOption
  pub optdelta : ℕ
  pub payloadlen : ℕ
  pub payload : Option (List ℕ)
  pub handler : Option ℕ
  pub resp : Option ℕ
  pub user : Option ℕ
  pub keep : ℤ

abbrev pub optcount : Message → ℕ
optcount m = length m.options

-- COAP_MESSAGE_TYPE_ACK is 2; every other field is zeroed.
unfoldable pub message_init : Option Message → Option Message × ℕ
message_init none = (none, null_error)
message_init (some m) = (
  some (record {
    header = record { version = 1; type = 2; tokenlen = 0; code = 0; msgid = 0 };
    token = replicate max_token_len 0;
    options = [];
    optdelta = 0;
    payloadlen = 0;
    payload = none;
    handler = none;
    resp = none;
    user = none;
    keep = pos 0;
  }),
  success,
)

-- The new last option: its number is stored as the difference to `optdelta`, a wrapped
-- `unsigned short`, and `optdelta` itself is an `unsigned char`.
abbrev pub push_option : Message → ℕ → ℕ → List ℕ → Message
push_option m optnum len val = record m {
  options =
      m.options ++ record { num = u16 (optnum + 0x10000 - m.optdelta); len = len; val = val } ∷ [];
  optdelta = u8 optnum;
}

-- `alloc` says whether the allocation succeeds.
unfoldable pub str_option_add : Bool → Message → ℕ → List ℕ → ℕ → Message × ℕ
str_option_add alloc m optnum bytes datalen =
    if leb max_option_num (optcount m)
    then (m, invalid_param)
    else if alloc
    then (push_option m optnum datalen (take datalen bytes), success)
    else (m, malloc_error)

-- The result is the status, the bytes copied to `data`, and the new `*datalen`.
abbrev pub str_option_result : ℕ → MsgOption → ℕ × List ℕ × ℕ
str_option_result datalen o =
    if leb o.len datalen then (success, take o.len o.val, o.len) else (invalid_length, [], datalen)

unfoldable pub str_option_get : List MsgOption → ℕ → ℕ → ℕ × List ℕ × ℕ
str_option_get [] optnum datalen = (not_found, [], datalen)
str_option_get (o ∷ os) optnum datalen =
    if o.num == optnum then str_option_result datalen o else str_option_get os optnum datalen

-- The bytes that CoAPUintOption_add stores, big end first.
unfoldable pub uint_bytes : ℕ → List ℕ
uint_bytes value =
    if 0 == value
    then []
    else if leb value 0xff
    then u8 value ∷ []
    else if leb value 0xffff
    then u8 (value / 0x100) ∷ u8 value ∷ []
    else u8 (value / 0x1000000) ∷ u8 (value / 0x10000) ∷ u8 (value / 0x100) ∷ u8 value ∷ []

-- A failed allocation leaves the pointer NULL and is not reported.
unfoldable pub uint_option_add : Bool → Message → ℕ → ℕ → Message × ℕ
uint_option_add alloc m optnum value =
    if leb max_option_num (optcount m) then (m, invalid_param) else (
      push_option m optnum (length (uint_bytes value)) (if alloc then uint_bytes value else []),
      success,
    )

-- `*data |= …` for each byte, by the length of the option; `stored` is the old `*data`.
unfoldable pub uint_value : List ℕ → ℕ → ℕ
uint_value (a ∷ []) stored = bit_or stored a
uint_value (a ∷ b ∷ []) stored = bit_or (bit_or stored (a * 0x100)) b
uint_value (a ∷ b ∷ c ∷ []) stored = bit_or (bit_or (bit_or stored (a * 0x10000)) (b * 0x100)) c
uint_value (a ∷ b ∷ c ∷ d ∷ []) stored =
    bit_or (bit_or (bit_or (bit_or stored (a * 0x1000000)) (b * 0x10000)) (c * 0x100)) d
uint_value _ stored = 0

-- The status and the new `*data`.
unfoldable pub uint_option_get : List MsgOption → ℕ → ℕ → ℕ × ℕ
uint_option_get [] optnum stored = (not_found, stored)
uint_option_get (o ∷ os) optnum stored =
    if o.num == optnum
    then (success, uint_value (take o.len o.val) stored)
    else uint_option_get os optnum stored

unfoldable pub option_present : List MsgOption → ℕ → ℕ
option_present [] optnum = not_found
option_present (o ∷ os) optnum = if o.num == optnum then success else option_present os optnum

unfoldable pub message_id_set : Option Message → ℕ → Option Message × ℕ
message_id_set none msgid = (none, null_error)
message_id_set (some m) msgid =
    (some (record m { header = record (m.header) { msgid = msgid } }), success)

unfoldable pub message_type_set : Option Message → ℕ → Option Message × ℕ
message_type_set none type = (none, null_error)
message_type_set (some m) type =
    if not (type == 0) && (not (type == 1) && (not (type == 2) && not (type == 3)))
    then (some m, invalid_param)
    else (some (record m { header = record (m.header) { type = type } }), success)

unfoldable pub message_code_set : Option Message → ℕ → Option Message × ℕ
message_code_set none code = (none, null_error)
message_code_set (some m) code =
    (some (record m { header = record (m.header) { code = u8 code } }), success)

-- The token array keeps what stood behind the new bytes.
unfoldable pub message_token_set : Option Message → Option (List ℕ) → ℕ → Option Message × ℕ
message_token_set none token tokenlen = (none, null_error)
message_token_set (some m) none tokenlen = (some m, null_error)
message_token_set (some m) (some bytes) tokenlen =
    if ltb max_token_len tokenlen then (some m, invalid_length) else (
      some (record m {
        token = take tokenlen bytes ++ drop tokenlen m.token;
        header = record (m.header) { tokenlen = tokenlen };
      }),
      success,
    )

unfoldable pub message_user_data_set : Option Message → Option ℕ → Option Message × ℕ
message_user_data_set none userdata = (none, null_error)
message_user_data_set (some m) none = (some m, null_error)
message_user_data_set (some m) (some u) = (some (record m { user = some u }), success)

unfoldable pub message_keep_set : Option Message → ℤ → Option Message × ℕ
message_keep_set none keep = (none, null_error)
message_keep_set (some m) (negsuc n) = (some m, null_error)
message_keep_set (some m) (pos n) = (some (record m { keep = pos n }), success)

abbrev is_null {ℓ} : {A : Type ℓ} → Option A → Bool
is_null none = true
is_null (some a) = false

unfoldable pub message_payload_set : Option Message → Option (List ℕ) → ℕ → Option Message × ℕ
message_payload_set none payload payloadlen = (none, null_error)
message_payload_set (some m) payload payloadlen =
    if ltb 0 payloadlen && is_null payload
    then (some m, null_error)
    else (some (record m { payload = payload; payloadlen = payloadlen }), success)
