-- ===== src/Infra/Numbers.antt =====
-- eng/infra/infra_string.c: decimal numbers to text and back. A text read up to its NUL is the list of
-- the characters in front of it.
pub mod RoundTrip
mod Runs
use nu_maker_mbed_aliyun_io.Base.{
  ℕ, zero, suc, ◌+◌, ◌-◌, ◌*◌, ◌/◌, ◌%◌, Bool, true, false, ◌||◌, ltb, leb, ◌==◌, if◌then◌else◌,
  Option, none, some, List, [], ◌∷◌, reverse, ℤ, pos, negsuc,
}
use nu_maker_mbed_aliyun_io.Base.Bits.{u32}

-- The digits that the first loop of infra_int2str puts in `tmp`, lowest first. A 32-bit number has at
-- most 10, the rounds given by infra_int2str.
unfoldable pub low_digits : ℕ → ℕ → List ℕ
low_digits zero input = []
low_digits (suc rounds) input =
    let more = low_digits rounds (input / 10) in
    (input % 10 + b'0') ∷ (if ltb 0 (input / 10) then more else [])

-- The second loop stores `tmp` from the end; no NUL is stored.
unfoldable pub int2str : ℕ → List ℕ
int2str input = reverse (low_digits 10 input)

abbrev pub is_digit : ℕ → Bool
is_digit c = if ltb c b'0' || ltb b'9' c then false else true

-- `*output`, or the error -1 as `none`.
unfoldable pub str2uint_from : List ℕ → ℕ → Option ℕ
str2uint_from [] temp = some temp
str2uint_from (c ∷ cs) temp =
    let rest = str2uint_from cs (u32 (u32 (temp * 10) + c - b'0')) in
    if is_digit c then rest else none

unfoldable pub str2uint : List ℕ → Option ℕ
str2uint input = str2uint_from input 0

-- Reading digits into an `int`: `none` where its value does not fit, which C leaves undefined.
unfoldable pub read_digits : List ℕ → ℕ → Option ℕ
read_digits [] temp = some temp
read_digits (c ∷ cs) temp =
    let next = temp * 10 + (c - b'0') in
    let rest = read_digits cs next in
    if is_digit c then if ltb 0x7fffffff next then none else rest else some temp

abbrev pub negated : Bool → ℕ → ℤ
negated sign zero = pos 0
negated true (suc n) = negsuc n
negated false (suc n) = pos (suc n)

abbrev pub signed : Bool → List ℕ → Option ℤ
signed sign cs = elim (read_digits cs 0) [ none ↦ none | some n ↦ some (negated sign n) ]

unfoldable pub read_sign : List ℕ → Option ℤ
read_sign [] = signed false []
read_sign (c ∷ cs) =
    if c == b'+'
    then signed false cs
    else if c == b'-'
    then signed true cs
    else signed false (c ∷ cs)

unfoldable pub skip_spaces : List ℕ → List ℕ
skip_spaces [] = []
skip_spaces (c ∷ cs) = let rest = skip_spaces cs in if c == 0x20 then rest else c ∷ cs

-- Inputs are the two pointers: the text, and whether `val` is given; the error -1 is `none`.
pub data Parsed : Type 0 where
  failed : Parsed
  undefined : Parsed
  value : ℤ → Parsed

abbrev pub parsed : Option ℤ → Parsed
parsed none = undefined
parsed (some z) = value z

unfoldable pub str2int : Option (List ℕ) → Bool → Parsed
str2int none val = failed
str2int (some input) false = failed
str2int (some input) true = parsed (read_sign (skip_spaces input))
