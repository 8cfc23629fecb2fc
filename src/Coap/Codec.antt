-- ===== src/Coap/Codec.antt =====
-- The two halves of eng/coap/CoAPPacket together: CoAPDeserialize_Message on the bytes that
-- CoAPSerialize_Message stores.
use nu_maker_mbed_aliyun_io.Base.{
  ℕ, zero, suc, ◌-◌, ◌<◌, ◌≡◌, refl, sym, ap, ◌∙◌, arith, true, ltb, lt→ltb, le→ltb, Option, none,
  some, List, [], ◌∷◌, ◌++◌, take, drop, length-append, take-append_length, append_assoc,
  drop-append_length, length-take, inl, inr, ◌≢◌,
}
use nu_maker_mbed_aliyun_io.Coap.Message.{Message, invalid_length, max_option_num}
use nu_maker_mbed_aliyun_io.Coap.Message.Options.{numbers_sum, number_all}
use nu_maker_mbed_aliyun_io.Coap.Serialize.{IsMessage, IsPayload, serialize_message, message_length}
use nu_maker_mbed_aliyun_io.Coap.Serialize.Length.{
  options_size, options_bytes, message_size, length-options_bytes, message_bytes, header_bytes,
  payload_bytes, payload_size, serialize_message-size, message_length-eq-size,
}
use nu_maker_mbed_aliyun_io.Coap.Deserialize.{
  ok, fail, ◌>>=◌, deserialize_header, deserialize_token, deserialize_options, deserialize_payload,
  deserialize_message, fail_if, to_length_error,
}
use nu_maker_mbed_aliyun_io.Coap.Deserialize.RoundTrip.{
  Closed, Unclosed, Follows, deserialize_options-bytes, deserialize_options-Unclosed,
}

-- The memory behind the datagram: with no payload the reader looks at one byte of it, which must
-- be there and must not look like the payload marker.
abbrev pub Idle : ℕ → List ℕ → Type 0
Idle zero [] = ⊥
Idle zero (s ∷ slack) = s ≢ 0xff
Idle (suc n) slack = Unit {0}

-- The payload pointer and its length after reading: what was there before, if none was sent.
abbrev pub with_payload : Message → ℕ → Option (List ℕ) → List ℕ → Message
with_payload b zero p slack = b
with_payload b (suc n) none slack = b
with_payload b (suc n) (some p) slack = record b {
  payloadlen = suc n;
  payload = some (take (suc n) p ++ slack);
}

-- The message `m` as read into the record `b`.
abbrev pub received : Message → Message → List ℕ → Message
received m b slack =
    with_payload
      (record b {
        header = m.header;
        token = take m.header.tokenlen m.token ++ drop m.header.tokenlen b.token;
        options = number_all 0 m.options;
      })
      m.payloadlen m.payload slack

deserialize_header-bytes :
    (m b : Message) (rest : List ℕ)
    → IsMessage m
    → deserialize_header b (header_bytes m.header ++ rest)
      ≡ ok (record b { header = m.header }, rest)
unfolding deserialize_header
deserialize_header-bytes m b rest v = ground arith

deserialize_token-bytes :
    (m b : Message) (rest : List ℕ)
    → IsMessage m
    → b.header ≡ m.header
    → deserialize_token b (take m.header.tokenlen m.token ++ rest)
      ≡ ok (
        record b { token = take m.header.tokenlen m.token ++ drop m.header.tokenlen b.token },
        m.header.tokenlen,
      )
unfolding deserialize_token
deserialize_token-bytes m b rest v e = ground (
  arith,
  length-append (take m.header.tokenlen m.token) rest,
  length-take m.header.tokenlen m.token,
  take-append_length (take m.header.tokenlen m.token) rest m.header.tokenlen,
)

deserialize_payload-bytes :
    (b : Message) (n : ℕ) (p : Option (List ℕ)) (slack : List ℕ)
    → IsPayload p n
    → n < 0x10000
    → Idle n slack
    → deserialize_payload b (payload_bytes p n ++ slack) (payload_size n)
      ≡ ok (with_payload b n p slack)
unfolding deserialize_payload
deserialize_payload-bytes b zero none [] v h i = absurd i
deserialize_payload-bytes b zero (some p) [] v h i = absurd i
deserialize_payload-bytes b zero none (s ∷ slack) v h i = ground arith
deserialize_payload-bytes b zero (some p) (s ∷ slack) v h i = ground arith
deserialize_payload-bytes b (suc n) none slack v h i = absurd (omega arith)
deserialize_payload-bytes b (suc n) (some p) slack v h i = ground arith

Follows-payload :
    (n : ℕ) (p : Option (List ℕ)) (slack : List ℕ)
    → IsPayload p n
    → Follows (payload_size n) (payload_bytes p n ++ slack)
Follows-payload zero none [] v = refl
Follows-payload zero none (s ∷ slack) v = inl refl
Follows-payload zero (some p) [] v = refl
Follows-payload zero (some p) (s ∷ slack) v = inl refl
Follows-payload (suc n) none slack v = absurd (omega arith)
Follows-payload (suc n) (some p) slack v = rw (lt→ltb 0 (suc n) (omega arith)) (inr refl)

module _ (m b : Message) (slack : List ℕ) (v : IsMessage m) (fits : message_size m < 0x10000) where
  -- The parts of the datagram from the token, the options and the payload on.
  abbrev from_payload : List ℕ
  from_payload = payload_bytes m.payload m.payloadlen ++ slack

  abbrev from_options : List ℕ
  from_options = options_bytes m.options ++ from_payload

  message_bytes-append :
      message_bytes m ++ slack
      ≡ header_bytes m.header ++ (take m.header.tokenlen m.token ++ from_options)
  message_bytes-append =
      append_assoc (header_bytes m.header) _ slack
      ∙ ap (◌++◌ (header_bytes m.header)) (
          append_assoc (take m.header.tokenlen m.token) _ slack
          ∙ ap (◌++◌ (take m.header.tokenlen m.token))
              (append_assoc (options_bytes m.options) (payload_bytes m.payload m.payloadlen) slack))

  -- The record once the header and the token are read, and what is left of the datagram then.
  abbrev headed : Message
  headed = record b {
    header = m.header;
    token = take m.header.tokenlen m.token ++ drop m.header.tokenlen b.token;
  }

  abbrev options_left : ℕ
  options_left = message_size m - 4 - m.header.tokenlen

  deserialize_message-options :
      deserialize_message (some b) (some (message_bytes m ++ slack)) (message_size m) ≡ (
        to_length_error (deserialize_options max_option_num from_options options_left 0) >>= λ r.
        fail_if (ltb options_left r.1) invalid_length >>= λ _.
        deserialize_payload
          (record headed { options = r.0 })
          (drop r.1 from_options)
          (options_left - r.1))
  unfolding deserialize_message
  deserialize_message-options =
      rw (message_bytes-append, le→ltb (message_size m) 4 (omega arith))
        (rw (deserialize_header-bytes m b (take m.header.tokenlen m.token ++ from_options) v) (
          rw (deserialize_token-bytes m (record b { header = m.header }) from_options v refl)
            (rw (le→ltb (message_size m - 4) m.header.tokenlen (omega arith), dropped))))
    where
      dropped :
          drop m.header.tokenlen (take m.header.tokenlen m.token ++ from_options) ≡ from_options
      dropped =
          drop-append_length (take m.header.tokenlen m.token) from_options m.header.tokenlen
            (omega (arith, length-take m.header.tokenlen m.token, v.token_block, v.tokenlen_max))

  deserialize-bytes :
      numbers_sum m.options < 0x10000
      → Closed m.options (payload_size m.payloadlen)
      → Idle m.payloadlen slack
      → deserialize_message (some b) (some (message_bytes m ++ slack)) (message_size m)
        ≡ ok (received m b slack)
  deserialize-bytes sum closed idle =
      rw (deserialize_message-options, options_read)
        (rw
          (
            le→ltb options_left (options_size m.options) (omega arith),
            options_dropped,
            payload_left,
          )
          (deserialize_payload-bytes _ m.payloadlen m.payload slack v.payload_block (ground arith)
            idle))
    where
      options_read :
          deserialize_options max_option_num from_options options_left 0
          ≡ ok (number_all 0 m.options, options_size m.options)
      options_read =
          deserialize_options-bytes m.options 12 0 (payload_size m.payloadlen) options_left
            from_payload v.all_options (omega arith) v.optcount_max closed
            (Follows-payload m.payloadlen m.payload slack v.payload_block) (omega arith)

      options_dropped : drop (options_size m.options) from_options ≡ from_payload
      options_dropped =
          drop-append_length (options_bytes m.options) from_payload (options_size m.options)
            (sym (length-options_bytes m.options v.all_options))

      payload_left : options_left - options_size m.options ≡ payload_size m.payloadlen
      payload_left = omega arith

-- CoAPDeserialize_Message on what CoAPSerialize_Message stores for a message gives the message back, with
-- each option's number the sum of the differences up to it, if: the message is one that the setters can
-- build, its size and the sum of its option numbers fit in 16 bits; its last option has a value or
-- there is a payload (a message without options needs neither); and where there is no payload, the byte
-- behind the message in memory exists and is not the payload marker 0xFF.
pub deserialize-serialize :
    (m b : Message) (slack : List ℕ)
    → IsMessage m
    → message_size m < 0x10000
    → numbers_sum m.options < 0x10000
    → Closed m.options (payload_size m.payloadlen)
    → Idle m.payloadlen slack
    → deserialize_message
        (some b)
        (some ((serialize_message (some m) true (message_length m)).1 ++ slack))
        (message_length m)
      ≡ ok (received m b slack)
deserialize-serialize m b slack v fits sum closed idle =
    rw
      (
        message_length-eq-size m fits,
        serialize_message-size m (message_size m) v (omega arith) fits,
      )
      (deserialize-bytes m b slack v fits sum closed idle)

-- A message with no payload whose last option has no value is stored whole and is then rejected by
-- CoAPDeserialize_Message, whatever lies behind it.
pub deserialize-serialize-Unclosed :
    (m b : Message) (slack : List ℕ)
    → IsMessage m
    → message_size m < 0x10000
    → numbers_sum m.options < 0x10000
    → m.payloadlen ≡ 0
    → Unclosed m.options
    → deserialize_message
        (some b)
        (some ((serialize_message (some m) true (message_length m)).1 ++ slack))
        (message_length m)
      ≡ fail invalid_length
deserialize-serialize-Unclosed m b slack v fits sum e u = rw (
  message_length-eq-size m fits,
  serialize_message-size m (message_size m) v (omega arith) fits,
  deserialize_message-options m b slack v fits,
  left,
  deserialize_options-Unclosed m.options 12 0 (from_payload m b slack v fits) v.all_options
      (omega arith) v.optcount_max u,
)
  where
    left : options_left m b slack v fits ≡ options_size m.options
    left = ground arith
