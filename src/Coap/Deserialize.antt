-- ===== src/Coap/Deserialize.antt =====
-- eng/coap/CoAPPacket/CoAPDeserialize_common.c: reading a message from a received datagram.
-- A pointer into the receive buffer is the list of the bytes from there to the end of the memory
-- behind it, which may hold more than the `buflen` bytes of the datagram. `fault` is a read past
-- that end. A length that the code keeps in an `int` and only tests for `> 0` is cut off at 0.
pub mod Bounds
pub mod RoundTrip
use nu_maker_mbed_aliyun_io.Base.{
  ℕ, zero, suc, ◌+◌, ◌-◌, ◌*◌, ◌/◌, ◌%◌, Bool, true, false, not, ltb, leb, ◌==◌, if◌then◌else◌,
  Option, none, some, List, [], ◌∷◌, ◌++◌, length, take, drop,
}
use nu_maker_mbed_aliyun_io.Base.Bits.{u16}
use nu_maker_mbed_aliyun_io.Coap.Message.{
  MsgHeader, MsgOption, Message, max_token_len, max_option_num, invalid_param, invalid_length,
}

-- `fail` is an error return, with its code; -1 is `option_failure`.
pub data Read {ℓ} (A : Type ℓ) : Type ℓ where
  ok : A → Read A
  fail : ℕ → Read A
  fault : Read A

infixl 5 ◌>>=◌
abbrev pub ◌>>=◌ {ℓ κ} : {A : Type ℓ} {B : Type κ} → Read A → (A → Read B) → Read B
ok a >>= f = f a
fail e >>= f = fail e
fault >>= f = fault

-- The -1 of CoAPDeserialize_Option, which its callers only compare with 0.
abbrev pub option_failure : ℕ
option_failure = 1

abbrev pub fail_if : Bool → ℕ → Read (Unit {0})
fail_if true e = fail e
fail_if false e = ok tt

-- `*ptr`
abbrev pub read_byte : List ℕ → Read ℕ
read_byte [] = fault
read_byte (b ∷ bs) = ok b

-- COAP_OPT_CHECK(ptr, left, step): the bytes left behind the step, of which there must be one.
unfoldable pub advance : ℕ → ℕ → Read ℕ
advance left step =
    if ltb left step
    then fail option_failure
    else if ltb (left - step) 1
    then fail option_failure
    else ok (left - step)

unfoldable pub deserialize_header : Message → List ℕ → Read (Message × List ℕ)
deserialize_header m (b0 ∷ b1 ∷ b2 ∷ b3 ∷ rest) = ok (
  record m {
    header = record {
      version = b0 / 64 % 4;
      type = b0 / 16 % 4;
      tokenlen = b0 % 16;
      code = b1;
      msgid = u16 (b2 * 0x100 + b3);
    };
  },
  rest,
)
deserialize_header m _ = fault

-- The copy is cut at the size of the token array, the returned length is not.
abbrev pub copied_len : ℕ → ℕ
copied_len tokenlen = if ltb max_token_len tokenlen then max_token_len else tokenlen

unfoldable pub deserialize_token : Message → List ℕ → Read (Message × ℕ)
deserialize_token m buf =
    let n = copied_len m.header.tokenlen in
    if ltb (length buf) n
    then fault
    else ok (record m { token = take n buf ++ drop n m.token }, m.header.tokenlen)

-- The option's number, from the upper four bits of its first byte, and where reading goes on.
unfoldable pub read_delta : ℕ → List ℕ → ℕ → ℕ → Read (ℕ × List ℕ × ℕ)
read_delta optdelta ptr left predelta =
    let one = do
      b ← read_byte ptr
      left' ← advance left 1
      ok (u16 (predelta + (13 + b)), drop 1 ptr, left')
    in let two = do
      b0 ← read_byte ptr
      b1 ← read_byte (drop 1 ptr)
      left' ← advance left 2
      ok (u16 (u16 (u16 (predelta + 269) + b0 * 0x100) + b1), drop 2 ptr, left')
      in if optdelta == 13
        then one
        else if optdelta == 14
        then two
        else ok (u16 (predelta + optdelta), ptr, left)

-- The option's length, from the lower four bits. The test for a wrapped sum is on an `int`.
unfoldable pub read_len : ℕ → List ℕ → ℕ → Read (ℕ × List ℕ × ℕ)
read_len optlen ptr left =
    let one = do b ← read_byte ptr; left' ← advance left 1; ok (13 + b, drop 1 ptr, left')
    in let two = do
      b0 ← read_byte ptr
      b1 ← read_byte (drop 1 ptr)
      let word = u16 (b0 * 0x100 + b1)
      _ ← fail_if (ltb (word + 269) 269) option_failure
      left' ← advance left 2
      ok (u16 (word + 269), drop 2 ptr, left')
      in if optlen == 13 then one else if optlen == 14 then two else ok (optlen, ptr, left)

-- The option, whose number is the new `*predeltas`, and the returned count of bytes.
unfoldable pub deserialize_option : List ℕ → ℕ → ℕ → Read (MsgOption × ℕ)
deserialize_option buf left predeltas = do
  head ← read_byte buf
  left1 ← advance left 1
  (num, ptr2, left2) ← read_delta (head / 16 % 16) (drop 1 buf) left1 predeltas
  (len, ptr3, left3) ← read_len (head % 16) ptr2 left2
  ok (record { num = num; len = len; val = take len ptr3 }, length buf - length ptr3 + len)

-- The loop of CoAPDeserialize_Options, with `slots` places of the option array left: the options
-- and the number of bytes that the loop moves on.
unfoldable pub deserialize_options : ℕ → List ℕ → ℕ → ℕ → Read (List MsgOption × ℕ)
deserialize_options zero ptr left optdeltas =
    if ltb 0 left then read_byte ptr >>= (λ b. ok ([], 0)) else ok ([], 0)
deserialize_options (suc slots) ptr left optdeltas =
    let more = do
      (o, len) ← deserialize_option ptr left optdeltas
      (os, count) ← deserialize_options slots (drop len ptr) (left - len) o.num
      ok (o ∷ os, len + count)
    in let body = read_byte ptr >>= λ b. if b == 0xff then ok ([], 0) else more in
      if ltb 0 left then body else ok ([], 0)

-- `payloadlen` is an `unsigned short`; the pointer shows all memory from there on.
unfoldable pub deserialize_payload : Message → List ℕ → ℕ → Read Message
deserialize_payload m buf buflen = read_byte buf >>= λ b.
    if b == 0xff
    then ok (record m { payloadlen = u16 (buflen + 0x10000 - 1); payload = some (drop 1 buf) })
    else ok m

-- A negative count from CoAPDeserialize_Options becomes COAP_ERROR_INVALID_LENGTH.
abbrev pub to_length_error {ℓ} : {A : Type ℓ} → Read A → Read A
to_length_error (ok a) = ok a
to_length_error (fail e) = fail invalid_length
to_length_error fault = fault

-- COAP_SUCCESS with the message, or an error code.
unfoldable pub deserialize_message : Option Message → Option (List ℕ) → ℕ → Read Message
deserialize_message none buf buflen = fail invalid_param
deserialize_message (some m) none buflen = fail invalid_param
deserialize_message (some m) (some buf) buflen =
    let parsed = do
      (m1, buf1) ← deserialize_header m buf
      (m2, count) ← deserialize_token m1 buf1
      _ ← fail_if (ltb (buflen - 4) count) invalid_length
      (options, used) ←
          to_length_error
            (deserialize_options max_option_num (drop count buf1) (buflen - 4 - count) 0)
      _ ← fail_if (ltb (buflen - 4 - count) used) invalid_length
      deserialize_payload (record m2 { options = options }) (drop used (drop count buf1))
          (buflen - 4 - count - used)
    in if ltb buflen 4 then fail invalid_length else parsed
