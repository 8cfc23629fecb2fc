-- ===== src/Coap/Deserialize/RoundTrip.antt =====
-- What the reader makes of the bytes that the writer stores.
use nu_maker_mbed_aliyun_io.Base.{
  ℕ, zero, suc, ◌+◌, ◌-◌, ◌*◌, ◌≤◌, ◌<◌, ◌≡◌, refl, arith, List, [], ◌∷◌, ◌++◌, length,
  length-append, take-append_length, append_assoc, append-nil, drop-append_length, All, ◌⊎◌, ◌≢◌,
}
use nu_maker_mbed_aliyun_io.Coap.Message.{MsgOption}
use nu_maker_mbed_aliyun_io.Coap.Message.Options.{numbered, numbers_sum, number_all}
use nu_maker_mbed_aliyun_io.Coap.Serialize.{IsOption, nibble, extension, option_head}
use nu_maker_mbed_aliyun_io.Coap.Serialize.Length.{
  option_size, options_size, options_bytes, option_size-pos,
}
use nu_maker_mbed_aliyun_io.Coap.Deserialize.{
  Read, ok, fail, ◌>>=◌, advance, read_delta, read_len, deserialize_option, deserialize_options,
  option_failure,
}

read_delta-nibble :
    (n p left : ℕ) (rest : List ℕ)
    → p + n < 0x10000
    → length (extension n) < left
    → read_delta (nibble n) (extension n ++ rest) left p
      ≡ ok (p + n, rest, left - length (extension n))
unfolding read_delta nibble extension advance
read_delta-nibble n p left rest h room = ground arith

read_len-nibble :
    (n left : ℕ) (rest : List ℕ)
    → n < 0x10000
    → length (extension n) < left
    → read_len (nibble n) (extension n ++ rest) left ≡ ok (n, rest, left - length (extension n))
unfolding read_len nibble extension advance
read_len-nibble n left rest h room = ground arith

nibble-le : (n : ℕ) → nibble n ≤ 14
unfolding nibble
nibble-le n = ground arith

pub deserialize_option-head :
    (o : MsgOption) (p left : ℕ) (rest : List ℕ)
    → IsOption o
    → p + o.num < 0x10000
    → length (option_head o) < left
    → deserialize_option ((option_head o ++ o.val) ++ rest) left p
      ≡ ok (numbered p o, option_size o)
unfolding deserialize_option option_head advance
deserialize_option-head o p left rest v h room = ground (
  arith,
  nibble-le o.num,
  nibble-le o.len,
  length-append (extension o.num) (extension o.len),
  append_assoc (extension o.num ++ extension o.len) o.val rest,
  append_assoc (extension o.num) (extension o.len) (o.val ++ rest),
  read_delta-nibble o.num p (left - 1) (extension o.len ++ (o.val ++ rest)),
  read_len-nibble o.len (left - 1 - length (extension o.num)) (o.val ++ rest),
  take-append_length o.val rest o.len,
  length-append o.val rest,
  length-append (extension o.len) (o.val ++ rest),
  length-append (extension o.num) (extension o.len ++ (o.val ++ rest)),
  v.val_block,
)

-- The last option has a value, or `tail` more bytes of the datagram stand behind the options.
abbrev pub Closed : List MsgOption → ℕ → Type 0
Closed [] tail = Unit {0}
Closed (o ∷ []) tail = 0 < o.len + tail
Closed (o ∷ o' ∷ os) tail = Closed (o' ∷ os) tail

-- What stands behind the options: nothing of the datagram, or the payload marker.
abbrev pub Follows : ℕ → List ℕ → Type 0
Follows tail [] = tail ≡ 0
Follows tail (b ∷ bs) = (tail ≡ 0) ⊎ (b ≡ 0xff)

first_byte :
    (o : MsgOption) (xs : List ℕ)
    → (b : ℕ) × (bs : List ℕ) × (option_head o ++ xs ≡ b ∷ bs) × (b ≢ 0xff)
unfolding option_head
first_byte o xs = (
  nibble o.num * 16 + nibble o.len,
  (extension o.num ++ extension o.len) ++ xs,
  refl,
  omega (arith, nibble-le o.num, nibble-le o.len),
)

abbrev cons_option : MsgOption → ℕ → Read (List MsgOption × ℕ) → Read (List MsgOption × ℕ)
cons_option o n r = r >>= λ p. ok (o ∷ p.0, n + p.1)

deserialize_options_head :
    (o : MsgOption) (slots p left : ℕ) (more : List ℕ)
    → IsOption o
    → p + o.num < 0x10000
    → length (option_head o) < left
    → deserialize_options (suc slots) ((option_head o ++ o.val) ++ more) left p
      ≡ cons_option
          (numbered p o)
          (option_size o)
          (deserialize_options slots more (left - option_size o) (p + o.num))
unfolding deserialize_options
deserialize_options_head o slots p left more v h room =
    let (b, bs, e, ne) = first_byte o (o.val ++ more) in
    ground (
      arith,
      append_assoc (option_head o) o.val more,
      deserialize_option-head o p left more v,
      drop-append_length (option_head o ++ o.val) more (option_size o),
      length-append (option_head o) o.val,
      v.val_block,
    )

Closed-room :
    (o : MsgOption) (os : List MsgOption) (tail : ℕ)
    → Closed (o ∷ os) tail
    → 0 < o.len + options_size os + tail
Closed-room o [] tail h = omega arith
Closed-room o (o' ∷ os) tail h = omega (arith, option_size-pos o')

Closed-tail :
    (o : MsgOption) (os : List MsgOption) (tail : ℕ) → Closed (o ∷ os) tail → Closed os tail
Closed-tail o [] tail h = tt
Closed-tail o (o' ∷ os) tail h = h

pub deserialize_options-bytes :
    (os : List MsgOption) (slots p tail left : ℕ) (rest : List ℕ)
    → All IsOption os
    → p + numbers_sum os < 0x10000
    → length os ≤ slots
    → Closed os tail
    → Follows tail rest
    → left ≡ options_size os + tail
    → deserialize_options slots (options_bytes os ++ rest) left p
      ≡ ok (number_all p os, options_size os)
deserialize_options-bytes [] zero p tail left [] v h room c f e =
    unfold deserialize_options in ground arith
deserialize_options-bytes [] zero p tail left (b ∷ rest) v h room c f e =
    unfold deserialize_options in ground arith
deserialize_options-bytes [] (suc slots) p tail left [] v h room c f e =
    unfold deserialize_options in ground arith
deserialize_options-bytes [] (suc slots) p tail left (b ∷ rest) v h room c f e =
    unfold deserialize_options in ground arith
deserialize_options-bytes (o ∷ os) zero p tail left rest v h room c f e = absurd (omega arith)
deserialize_options-bytes (o ∷ os) (suc slots) p tail left rest (v, vs) h room c f e = ground (
  arith,
  append_assoc (option_head o ++ o.val) (options_bytes os) rest,
  deserialize_options_head o slots p left (options_bytes os ++ rest) v,
  Closed-room o os tail c,
  deserialize_options-bytes os slots (p + o.num) tail (left - option_size o) rest vs (omega arith)
      (omega arith) (Closed-tail o os tail c) f (omega arith),
)

-- The last option has no value.
abbrev pub Unclosed : List MsgOption → Type 0
Unclosed [] = ⊥
Unclosed (o ∷ []) = o.len ≡ 0
Unclosed (o ∷ o' ∷ os) = Unclosed (o' ∷ os)

read_delta-stops :
    (n p left : ℕ) (rest : List ℕ)
    → p + n < 0x10000
    → 0 < left
    → left ≤ length (extension n)
    → read_delta (nibble n) (extension n ++ rest) left p ≡ fail option_failure
unfolding read_delta nibble extension advance
read_delta-stops n p left rest h some_left room = ground arith

deserialize_option-stops :
    (o : MsgOption) (p : ℕ) (rest : List ℕ)
    → p + o.num < 0x10000
    → o.len ≡ 0
    → deserialize_option (option_head o ++ rest) (length (option_head o)) p ≡ fail option_failure
unfolding deserialize_option option_head advance
deserialize_option-stops o p rest h e = ground (
  arith,
  nibble-le o.num,
  nibble-le o.len,
  short,
  length-append (extension o.num) (extension o.len),
  append_assoc (extension o.num) (extension o.len) rest,
  read_delta-stops o.num p (length (extension o.num)) (extension o.len ++ rest),
)
  where
    short : length (extension o.len) ≡ 0
    short = unfold extension in ground arith

pub deserialize_options-Unclosed :
    (os : List MsgOption) (slots p : ℕ) (rest : List ℕ)
    → All IsOption os
    → p + numbers_sum os < 0x10000
    → length os ≤ slots
    → Unclosed os
    → deserialize_options slots (options_bytes os ++ rest) (options_size os) p ≡ fail option_failure
deserialize_options-Unclosed [] slots p rest v h room u = absurd u
deserialize_options-Unclosed (o ∷ os) zero p rest v h room u = absurd (omega arith)
deserialize_options-Unclosed (o ∷ []) (suc slots) p rest (v, vs) h room u =
    let (b, bs, e, ne) = first_byte o rest in
    unfold deserialize_options in
    ground (
      arith,
      no_bytes o.val (omega (arith, v.val_block)),
      append-nil (option_head o),
      option_size-pos o,
      deserialize_option-stops o p rest,
    )
  where
    no_bytes : (xs : List ℕ) → length xs ≡ 0 → xs ≡ []
    no_bytes [] e = refl
    no_bytes (x ∷ xs) e = absurd (omega arith)
deserialize_options-Unclosed (o ∷ o' ∷ os) (suc slots) p rest (v, vs) h room u = ground (
  arith,
  append_assoc (option_head o ++ o.val) (options_bytes (o' ∷ os)) rest,
  deserialize_options_head o slots p (options_size (o ∷ o' ∷ os)) (options_bytes (o' ∷ os) ++ rest)
      v,
  option_size-pos o',
  deserialize_options-Unclosed (o' ∷ os) slots (p + o.num) rest vs (omega arith) (omega arith) u,
)
