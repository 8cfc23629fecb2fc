-- ===== src/Coap/Deserialize/Bounds.antt =====
-- Which memory CoAPDeserialize_Message reads.
use nu_maker_mbed_aliyun_io.Base.{
  ℕ, zero, suc, ◌+◌, ◌-◌, ◌%◌, ◌/◌, ◌≤◌, ◌<◌, ◌≡◌, refl, arith, true, false, ltb, ◌==◌, some, List,
  [], ◌∷◌, ◌++◌, ◌*◌, take, length, drop, length-drop, ltb→ge, le→ltb, ◌≢◌, lt→ltb, Bool-cases,
  subst, inl, inr,
}
use nu_maker_mbed_aliyun_io.Base.Bits.{u16}
use nu_maker_mbed_aliyun_io.Coap.Message.{MsgOption, Message, invalid_length}
use nu_maker_mbed_aliyun_io.Coap.Deserialize.{
  Read, ok, fail, fault, ◌>>=◌, advance, read_delta, read_len, deserialize_option,
  deserialize_options, deserialize_header, deserialize_token, deserialize_payload,
  deserialize_message, to_length_error, fail_if, option_failure, copied_len,
}

-- A step that reads from `ptr` with `left` bytes to go ends without a fault, and a step that succeeds
-- moves on by as many bytes as it takes off `left`, leaving at least one.
abbrev Moves : List ℕ → ℕ → Read (ℕ × List ℕ × ℕ) → Type 0
Moves ptr left (ok (n, ptr', left')) =
    (length ptr + left' ≡ length ptr' + left) × (1 ≤ left') × (left' ≤ left)
Moves ptr left (fail e) = Unit {0}
Moves ptr left fault = ⊥

read_delta-Moves :
    (d p left : ℕ) (ptr : List ℕ)
    → 1 ≤ left
    → left + 1 ≤ length ptr
    → Moves ptr left (read_delta d ptr left p)
unfolding read_delta advance
read_delta-Moves d p left [] h room = absurd (omega arith)
read_delta-Moves d p left (a ∷ []) h room = absurd (omega arith)
read_delta-Moves d p left (a ∷ b ∷ ptr) h room = ground arith

read_len-Moves :
    (d left : ℕ) (ptr : List ℕ)
    → 1 ≤ left
    → left + 1 ≤ length ptr
    → Moves ptr left (read_len d ptr left)
unfolding read_len advance
read_len-Moves d left [] h room = absurd (omega arith)
read_len-Moves d left (a ∷ []) h room = absurd (omega arith)
read_len-Moves d left (a ∷ b ∷ ptr) h room = ground arith

abbrev Counts : Read (MsgOption × ℕ) → Type 0
Counts (ok (o, n)) = 1 ≤ n
Counts (fail e) = Unit {0}
Counts fault = ⊥

>>=-Counts :
    (ptr : List ℕ) (left : ℕ) (r : Read (ℕ × List ℕ × ℕ))
    (f : ℕ × List ℕ × ℕ → Read (MsgOption × ℕ))
    → Moves ptr left r
    → ((n : ℕ) (ptr' : List ℕ) (left' : ℕ)
        → length ptr + left' ≡ length ptr' + left
        → 1 ≤ left'
        → left' ≤ left
        → Counts (f (n, ptr', left')))
    → Counts (r >>= f)
>>=-Counts ptr left (ok (n, ptr', left')) f m k = k n ptr' left' m.0 m.1 m.2
>>=-Counts ptr left (fail e) f m k = tt
>>=-Counts ptr left fault f m k = m

deserialize_option-Counts :
    (ptr : List ℕ) (left p : ℕ)
    → 1 ≤ left
    → left + 1 ≤ length ptr
    → Counts (deserialize_option ptr left p)
unfolding deserialize_option
deserialize_option-Counts [] left p h room = absurd (omega arith)
deserialize_option-Counts (b ∷ ptr) left p h room = elim (Bool-cases (ltb left 2)) [
  | inl short ↦ rw (stops short) tt
  | inr more ↦ rw (goes more) (
      >>=-Counts ptr (left - 1) _ _
        (read_delta-Moves (b / 16 % 16) p (left - 1) ptr (ground arith) (omega arith))
        λ n ptr2 left2 e2 h2 l2.
          >>=-Counts ptr2 left2 _ _ (read_len-Moves (b % 16) left2 ptr2 h2 (ground arith))
            λ len ptr3 left3 e3 h3 l3. ground arith)
]
  where
    stops : ltb left 2 ≡ true → advance left 1 ≡ fail option_failure
    stops e = unfold advance in ground arith

    goes : ltb left 2 ≡ false → advance left 1 ≡ ok (left - 1)
    goes e = unfold advance in ground arith

-- The options loop reads only `left` bytes and one more, and moves on by a number of bytes.
abbrev NoFault {ℓ} : {A : Type ℓ} → Read A → Type 0
NoFault (ok a) = Unit {0}
NoFault (fail e) = Unit {0}
NoFault fault = ⊥

>>=-NoFault :
    (r : Read (MsgOption × ℕ)) (f : MsgOption × ℕ → Read (List MsgOption × ℕ))
    → Counts r
    → ((o : MsgOption) (n : ℕ) → 1 ≤ n → NoFault (f (o, n)))
    → NoFault (r >>= f)
>>=-NoFault (ok (o, n)) f c k = k o n c
>>=-NoFault (fail e) f c k = tt
>>=-NoFault fault f c k = c

ok-NoFault {ℓ κ} :
    {A : Type ℓ} {B : Type κ} (r : Read A) (f : A → B) → NoFault r → NoFault (r >>= λ a. ok (f a))
ok-NoFault (ok a) f h = tt
ok-NoFault (fail e) f h = tt
ok-NoFault fault f h = h

deserialize_options-NoFault :
    (slots : ℕ) (ptr : List ℕ) (left p : ℕ)
    → (0 < left → left + 1 ≤ length ptr)
    → NoFault (deserialize_options slots ptr left p)
unfolding deserialize_options
deserialize_options-NoFault zero ptr zero p room = tt
deserialize_options-NoFault (suc slots) ptr zero p room = tt
deserialize_options-NoFault slots [] (suc left) p room = absurd (omega (arith, room (omega arith)))
deserialize_options-NoFault zero (b ∷ ptr) (suc left) p room = ground arith
deserialize_options-NoFault (suc slots) (b ∷ ptr) (suc left) p room =
    elim (Bool-cases (b == 0xff)) [
      | inl marker ↦ rw (lt→ltb 0 (suc left) (omega arith), marker) tt
      | inr more ↦
          rw (lt→ltb 0 (suc left) (omega arith), more)
            (>>=-NoFault _ _
              (deserialize_option-Counts (b ∷ ptr) (suc left) p (omega arith) (room (omega arith)))
              λ o n h. ok-NoFault _ _ (
                deserialize_options-NoFault slots (drop n (b ∷ ptr)) (suc left - n) o.num
                  (λ some_left. omega (arith, length-drop n (b ∷ ptr), room (omega arith)))))
    ]

to_length_error-NoFault {ℓ} : {A : Type ℓ} (r : Read A) → NoFault r → NoFault (to_length_error r)
to_length_error-NoFault (ok a) h = tt
to_length_error-NoFault (fail e) h = tt
to_length_error-NoFault fault h = h

deserialize_payload-NoFault :
    (m : Message) (buf : List ℕ) (buflen : ℕ)
    → 1 ≤ length buf
    → NoFault (deserialize_payload m buf buflen)
unfolding deserialize_payload
deserialize_payload-NoFault m [] buflen h = absurd (omega arith)
deserialize_payload-NoFault m (b ∷ buf) buflen h = ground arith

payload_part-NoFault :
    (m : Message) (ptr : List ℕ) (left : ℕ) (r : Read (List MsgOption × ℕ))
    → left + 1 ≤ length ptr
    → NoFault r
    → NoFault (
        r >>= λ q. fail_if (ltb left q.1) invalid_length >>= λ _.
        deserialize_payload (record m { options = q.0 }) (drop q.1 ptr) (left - q.1))
payload_part-NoFault m ptr left (fail e) room h = tt
payload_part-NoFault m ptr left fault room h = h
payload_part-NoFault m ptr left (ok (os, used)) room h = elim (Bool-cases (ltb left used)) [
  | inl over ↦ rw over tt
  | inr within ↦ rw within (
      deserialize_payload-NoFault _ (drop used ptr) _
        (omega (arith, length-drop used ptr, ltb→ge left used within)))
]

token_copied :
    (tokenlen n buflen : ℕ)
    → buflen + 8 ≤ n + 4
    → ltb buflen 4 ≡ false
    → ltb n (copied_len tokenlen) ≡ false
token_copied tokenlen n buflen h long = ground arith

-- The record behind the header and the token.
abbrev token_read : Message → ℕ → ℕ → ℕ → ℕ → List ℕ → Message
token_read m b0 b1 b2 b3 rest = record m {
  header = record {
    version = b0 / 64 % 4;
    type = b0 / 16 % 4;
    tokenlen = b0 % 16;
    code = b1;
    msgid = u16 (b2 * 0x100 + b3);
  };
  token = take (copied_len (b0 % 16)) rest ++ drop (copied_len (b0 % 16)) m.token;
}

deserialize_message-NoFault :
    (m : Message) (buf : List ℕ) (buflen : ℕ)
    → buflen + 8 ≤ length buf
    → NoFault (deserialize_message (some m) (some buf) buflen)
unfolding deserialize_message deserialize_header deserialize_token
deserialize_message-NoFault m [] buflen h = absurd (omega arith)
deserialize_message-NoFault m (b0 ∷ []) buflen h = absurd (omega arith)
deserialize_message-NoFault m (b0 ∷ b1 ∷ []) buflen h = absurd (omega arith)
deserialize_message-NoFault m (b0 ∷ b1 ∷ b2 ∷ []) buflen h = absurd (omega arith)
deserialize_message-NoFault m (b0 ∷ b1 ∷ b2 ∷ b3 ∷ rest) buflen h =
    elim (Bool-cases (ltb buflen 4)) [
      | inl short ↦ rw short tt
      | inr long ↦
          rw (long, token_copied (b0 % 16) (length rest) buflen (omega arith) long)
            (elim (Bool-cases (ltb (buflen - 4) (b0 % 16))) [
              | inl over ↦ rw over tt
              | inr within ↦ rw within (
                  payload_part-NoFault (token_read m b0 b1 b2 b3 rest) (drop (b0 % 16) rest)
                    (buflen - 4 - b0 % 16) _
                    (omega (
                      arith,
                      length-drop (b0 % 16) rest,
                      ltb→ge (buflen - 4) (b0 % 16) within,
                      ltb→ge buflen 4 long,
                    ))
                    (to_length_error-NoFault _ (
                      deserialize_options-NoFault 12 (drop (b0 % 16) rest) (buflen - 4 - b0 % 16) 0
                        (λ _.
                          (omega (
                            arith,
                            length-drop (b0 % 16) rest,
                            ltb→ge (buflen - 4) (b0 % 16) within,
                            ltb→ge buflen 4 long,
                          ))))))
            ])
    ]

-- With eight bytes of memory behind the datagram no byte outside the memory is read, on any input.
pub deserialize_message-ne-fault :
    (m : Message) (buf : List ℕ) (buflen : ℕ)
    → buflen + 8 ≤ length buf
    → deserialize_message (some m) (some buf) buflen ≢ fault
deserialize_message-ne-fault m buf buflen h e =
    subst NoFault e (deserialize_message-NoFault m buf buflen h)

-- A datagram of four bytes with no token and no memory behind it makes the reader fault, and a
-- stale 0xFF behind it is taken for a payload marker: the payload then counts 65535 bytes.
pub deserialize_message-over_read :
    (m : Message) (b0 b1 b2 b3 : ℕ) (slack : List ℕ)
    → b0 % 16 ≡ 0
    → (deserialize_message (some m) (some (b0 ∷ b1 ∷ b2 ∷ b3 ∷ [])) 4 ≡ fault)
      × ((r : Message) × (deserialize_message (some m) (some (b0 ∷ b1 ∷ b2 ∷ b3 ∷ 0xff ∷ slack)) 4
            ≡ ok r)
          × (r.payloadlen ≡ 0xffff)
          × (r.payload ≡ some slack))
unfolding deserialize_message deserialize_header deserialize_token deserialize_options
    deserialize_payload
deserialize_message-over_read m b0 b1 b2 b3 slack h = (
  rw h,
  (
    record m {
      header = record {
        version = b0 / 64 % 4;
        type = b0 / 16 % 4;
        tokenlen = 0;
        code = b1;
        msgid = u16 (b2 * 0x100 + b3);
      };
      options = [];
      payloadlen = 0xffff;
      payload = some slack;
    },
    rw (h, le→ltb (length (0xff ∷ slack)) 0 (omega arith)),
    refl,
    refl,
  ),
)
