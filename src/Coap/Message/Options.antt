-- ===== src/Coap/Message/Options.antt =====
-- The options of a message: adding, numbering, and reading back.
use nu_maker_mbed_aliyun_io.Base.{
  ℕ, ◌+◌, ◌-◌, ◌*◌, ◌/◌, ◌^◌, ◌≤◌, ◌<◌, ◌≡◌, refl, ap, ◌∙◌, arith, true, List, [], ◌∷◌, ◌++◌,
  length, take, length-append, gt→leb, ==_iff, take-length,
}
use nu_maker_mbed_aliyun_io.Base.Bits.{u8, u16, zero-bit_or, bit_or_disjoint}
use nu_maker_mbed_aliyun_io.Coap.Message.{
  MsgOption, Message, optcount, success, not_found, max_option_num, push_option, str_option_add,
  uint_bytes, uint_value, uint_option_add, uint_option_get, option_present,
}
use Prim.Native.Nat.{bit_or}

or_byte : (a b : ℕ) → b < 256 → bit_or (a * 0x100) b ≡ a * 0x100 + b
or_byte a b h = bit_or_disjoint 8 a b h

or_word : (a b : ℕ) → b < 256 → bit_or (a * 0x10000) (b * 0x100) ≡ a * 0x10000 + b * 0x100
or_word a b h = bit_or_disjoint 16 a (b * 0x100) (omega arith)

or_long : (a b : ℕ) → b < 256 → bit_or (a * 0x1000000) (b * 0x10000) ≡ a * 0x1000000 + b * 0x10000
or_long a b h = bit_or_disjoint 24 a (b * 0x10000) (omega arith)

or_two : (a b : ℕ) → b < 256 → bit_or (bit_or 0 (a * 0x100)) b ≡ a * 0x100 + b
or_two a b h = rw zero-bit_or (or_byte a b h)

or_four :
    (a b c d : ℕ)
    → b < 256
    → c < 256
    → d < 256
    → bit_or (bit_or (bit_or (bit_or 0 (a * 0x1000000)) (b * 0x10000)) (c * 0x100)) d
      ≡ a * 0x1000000 + b * 0x10000 + c * 0x100 + d
or_four a b c d hb hc hd =
    rw (zero-bit_or, or_long a b hb)
      (ap (λ n. bit_or (bit_or n (c * 0x100)) d) high
        ∙ ap (λ n. bit_or n d) (or_word (a * 0x100 + b) c hc ∙ low)
        ∙ or_byte ((a * 0x100 + b) * 0x100 + c) d hd
        ∙ omega arith)
  where
    high : a * 0x1000000 + b * 0x10000 ≡ (a * 0x100 + b) * 0x10000
    high = omega arith

    low : (a * 0x100 + b) * 0x10000 + c * 0x100 ≡ ((a * 0x100 + b) * 0x100 + c) * 0x100
    low = omega arith

-- What CoAPUintOption_get reads out of the bytes that CoAPUintOption_add stores for a 32-bit number
-- is that number, if the caller's variable was 0.
pub uint_value-uint_bytes : (n : ℕ) → n < 2 ^ 32 → uint_value (uint_bytes n) 0 ≡ n
unfolding uint_value uint_bytes
uint_value-uint_bytes n h = ground (
  arith,
  zero-bit_or (u8 n),
  or_two (u8 (n / 0x100)) (u8 n),
  or_four (u8 (n / 0x1000000)) (u8 (n / 0x10000)) (u8 (n / 0x100)) (u8 n),
)

-- An option as the reader returns it: its number is the sum of the differences so far.
abbrev pub numbered : ℕ → MsgOption → MsgOption
numbered p o = record { num = p + o.num; len = o.len; val = o.val }

abbrev pub numbers_sum : List MsgOption → ℕ
numbers_sum [] = 0
numbers_sum (o ∷ os) = o.num + numbers_sum os

abbrev pub number_all : ℕ → List MsgOption → List MsgOption
number_all p [] = []
number_all p (o ∷ os) = numbered p o ∷ number_all (p + o.num) os

-- `optdelta` is the number of the last option: the sum of the stored differences.
abbrev pub IsNumbered : Message → Type 0
IsNumbered m = m.optdelta ≡ numbers_sum m.options

numbers_sum-append :
    (xs ys : List MsgOption) → numbers_sum (xs ++ ys) ≡ numbers_sum xs + numbers_sum ys
numbers_sum-append [] ys = omega arith
numbers_sum-append (x ∷ xs) ys = omega (arith, numbers_sum-append xs ys)

number_all-append :
    (p : ℕ) (xs ys : List MsgOption)
    → number_all p (xs ++ ys) ≡ number_all p xs ++ number_all (p + numbers_sum xs) ys
number_all-append p [] ys = ap (λ k. number_all k ys) (omega arith)
number_all-append p (x ∷ xs) ys = ap (◌∷◌ (numbered p x)) (
    number_all-append (p + x.num) xs ys
    ∙ ap (λ k. number_all (p + x.num) xs ++ number_all k ys) (omega arith))

-- A new option that the receiver will number `n`, and the state that stays numbered.
abbrev Appends : Message → ℕ → ℕ → List ℕ → Message → Type 0
Appends m n len val m' =
    (number_all 0 m'.options
      ≡ number_all 0 m.options ++ record { num = n; len = len; val = val } ∷ [])
    × IsNumbered m'
    × (optcount m' ≡ optcount m + 1)

push_option-Appends :
    (m : Message) (n len : ℕ) (val : List ℕ)
    → IsNumbered m
    → m.optdelta ≤ n
    → n < 256
    → Appends m n len val (push_option m n len val)
push_option-Appends m n len val e le word = (
  number_all-append 0 m.options (new ∷ [])
      ∙ ap (λ k. number_all 0 m.options ++ record { num = k; len = len; val = val } ∷ []) number,
  omega (arith, numbers_sum-append m.options (new ∷ [])),
  length-append m.options (new ∷ []),
)
  where
    new : MsgOption
    new = record { num = u16 (n + 0x10000 - m.optdelta); len = len; val = val }

    number : 0 + numbers_sum m.options + u16 (n + 0x10000 - m.optdelta) ≡ n
    number = omega arith

-- CoAPStrOption_add with a free slot, enough memory and a number from the last one up to 255 appends
-- an option that the receiver numbers `optnum`; the state stays numbered.
pub str_option_add-Appends :
    (m : Message) (optnum datalen : ℕ) (bytes : List ℕ)
    → IsNumbered m
    → optcount m < max_option_num
    → m.optdelta ≤ optnum
    → optnum < 256
    → ((str_option_add true m optnum bytes datalen).1 ≡ success)
      × Appends m optnum datalen (take datalen bytes) (str_option_add true m optnum bytes datalen).0
unfolding str_option_add
str_option_add-Appends m optnum datalen bytes e room le word =
    rw (gt→leb max_option_num (optcount m) room)
      (refl, push_option-Appends m optnum datalen (take datalen bytes) e le word)

-- After an option whose number does not fit the 8 bits of `optdelta`, the next option that
-- CoAPStrOption_add accepts reaches the receiver under a number that is too large by a multiple of 256.
pub str_option_add-misnumbers :
    (m : Message) (wide next len1 len2 : ℕ) (b1 b2 : List ℕ)
    → IsNumbered m
    → optcount m + 1 < max_option_num
    → m.optdelta ≤ wide
    → 256 ≤ wide
    → wide ≤ next
    → next + wide < 0x10000
    → let m1 = (str_option_add true m wide b1 len1).0 in
      let m2 = (str_option_add true m1 next b2 len2).0 in
      number_all 0 m2.options
      ≡ number_all 0 m1.options
        ++ record { num = next + wide / 256 * 256; len = len2; val = take len2 b2 } ∷ []
unfolding str_option_add
str_option_add-misnumbers m wide next len1 len2 b1 b2 e room le wide_le next_le word =
    rw (gt→leb max_option_num (optcount m) (omega arith)) (
      rw
        (gt→leb max_option_num (length (m.options ++ first ∷ []))
          (omega (arith, length-append m.options (first ∷ []))))
        (number_all-append 0 (m.options ++ first ∷ []) (second ∷ [])
          ∙ ap
              (λ k.
                number_all 0 (m.options ++ first ∷ [])
                ++ record { num = k; len = len2; val = take len2 b2 } ∷ [])
              (omega (arith, numbers_sum-append m.options (first ∷ [])))))
  where
    first : MsgOption
    first = record { num = u16 (wide + 0x10000 - m.optdelta); len = len1; val = take len1 b1 }

    second : MsgOption
    second = record { num = u16 (next + 0x10000 - u8 wide); len = len2; val = take len2 b2 }

uint_option_get-append :
    (xs ys : List MsgOption) (n stored : ℕ)
    → option_present xs n ≡ not_found
    → uint_option_get (xs ++ ys) n stored ≡ uint_option_get ys n stored
unfolding uint_option_get option_present
uint_option_get-append [] ys n stored h = refl
uint_option_get-append (x ∷ xs) ys n stored h =
    ground (arith, uint_option_get-append xs ys n stored)

-- The receiver of a message to which CoAPUintOption_add added the number `n` under a new option number
-- reads `n` with CoAPUintOption_get into a variable that was 0.
pub uint_option_get-add :
    (m : Message) (optnum n : ℕ)
    → IsNumbered m
    → optcount m < max_option_num
    → m.optdelta ≤ optnum
    → optnum < 256
    → n < 2 ^ 32
    → option_present (number_all 0 m.options) optnum ≡ not_found
    → uint_option_get (number_all 0 (uint_option_add true m optnum n).0.options) optnum 0
      ≡ (success, n)
unfolding uint_option_add
uint_option_get-add m optnum n e room le word h absent =
    rw
      (
        gt→leb max_option_num (optcount m) room,
        (push_option-Appends m optnum (length (uint_bytes n)) (uint_bytes n) e le word).0,
        uint_option_get-append (number_all 0 m.options) (sent ∷ []) optnum 0 absent,
      )
      (unfold uint_option_get in
        rw (
          (==_iff optnum optnum).1 refl,
          take-length (uint_bytes n) (length (uint_bytes n)) refl,
          uint_value-uint_bytes n h,
        ))
  where
    sent : MsgOption
    sent = record { num = optnum; len = length (uint_bytes n); val = uint_bytes n }
