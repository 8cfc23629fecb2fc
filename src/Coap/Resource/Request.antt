-- ===== src/Coap/Resource/Request.antt =====
-- eng/coap/server/CoAPMessage.c: CoAPRequestMessage_handle puts the path of a request together and asks
-- the resource, and CoAPMessage_handle sorts the messages.
-- The path is the text written to a zeroed array of 128 characters. A call of a callback and the
-- messages sent are results; what they do is not followed.
pub mod Paths
use nu_maker_mbed_aliyun_io.Base.{
  ℕ, zero, suc, ◌+◌, ◌-◌, ◌*◌, ◌/◌, ◌%◌, ◌^◌, ◌≤◌, ◌<◌, ◌≡◌, refl, sym, ap, ◌∙◌, arith, Bool, true,
  false, ◌&&◌, ◌||◌, not, ltb, leb, ◌==◌, if◌then◌else◌, Option, none, some, List, [], ◌∷◌, ◌++◌,
  length, take, drop, replicate, All, Bool-cases, Option-cases, inl, inr, ◌⊎◌, ◌≢◌, ◌↔◌,
  length-append,
}
use nu_maker_mbed_aliyun_io.Coap.Message.{MsgHeader, MsgOption, Message}
use nu_maker_mbed_aliyun_io.Coap.SendList.{is_resp}
use nu_maker_mbed_aliyun_io.Coap.Resource.{max_path_len, Resource, by_path_get}
use mathlib.Core.Option

abbrev pub uri_path : ℕ
uri_path = 11

-- `strncpy` of `len` characters: those before the first zero, then zeros.
unfoldable pub copy_text : ℕ → List ℕ → List ℕ
copy_text zero text = []
copy_text (suc len) [] = replicate (suc len) 0
copy_text (suc len) (zero ∷ text) = replicate (suc len) 0
copy_text (suc len) (suc c ∷ text) = suc c ∷ copy_text len text

-- The characters written so far, and then each Uri-Path option behind a slash.
unfoldable pub write_path : List ℕ → List MsgOption → List ℕ
write_path written [] = written
write_path written (o ∷ os) =
    let next : List ℕ =
      if uri_path == o.num
      then if leb (length written + o.len) (max_path_len - 1)
        then written ++ b'/' ∷ copy_text o.len o.val
        else written
      else written in
    write_path next os

-- The text before the first zero, if there is one.
unfoldable pub text_of : List ℕ → Option (List ℕ)
text_of [] = none
text_of (zero ∷ cs) = some []
text_of (suc c ∷ cs) = Option.map (λ t. suc c ∷ t) (text_of cs)

-- The array `path` after the loop, read as a text.
unfoldable pub request_path : List MsgOption → Option (List ℕ)
request_path os =
    let written = write_path [] os in
    text_of (written ++ replicate (max_path_len - length written) 0)

-- A text without an end in the array, an error response with its code, or the callback with the
-- acknowledgement of a confirmable request before it.
pub data Answer : Type 0 where
  unterminated : Answer
  respond : (code : ℕ) → Answer
  call : (acknowledged : Bool) (callback : ℕ) (path : List ℕ) → Answer

-- COAP_MSG_CODE_404_NOT_FOUND and COAP_MSG_CODE_405_METHOD_NOT_ALLOWED
abbrev pub code_404 : ℕ
code_404 = 0x84

abbrev pub code_405 : ℕ
code_405 = 0x85

-- `permission & (1 << (code - 1))` is not 0
abbrev pub is_permitted : ℕ → ℕ → Bool
is_permitted permission code = not (permission / 2 ^ (code - 1) % 2 == 0)

unfoldable pub answer_resource : MsgHeader → List ℕ → Option Resource → Answer
answer_resource h path none = respond code_404
answer_resource h path (some r) = elim r.callback [
  | none ↦ respond code_405
  | some f ↦
      if is_permitted r.permission h.code then call (h.type == 0) f path else respond code_405
]

unfoldable pub request_handle : (List ℕ → List ℕ) → List Resource → Message → Answer
request_handle md5 rs m = elim (request_path m.options) [
  | none ↦ unterminated
  | some path ↦ answer_resource m.header path (by_path_get md5 rs path)
]

-- The handler that CoAPMessage_handle chooses.
pub data Handler : Type 0 where
  ack_handler resp_handler ping_handler request_handler dropped : Handler

unfoldable pub message_handle : MsgHeader → Handler
message_handle h =
    if (h.code == 0 && h.type == 2) || h.type == 3
    then ack_handler
    else if is_resp h
    then resp_handler
    else if h.code == 0 && h.type == 0
    then ping_handler
    else if leb 1 h.code && ltb h.code 32
    then request_handler
    else dropped
