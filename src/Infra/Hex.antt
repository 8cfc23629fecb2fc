-- ===== src/Infra/Hex.antt =====
-- eng/infra/infra_string.c: bytes as hexadecimal text and back. Text is a list of character codes.
pub mod RoundTrip
mod Runs
use nu_maker_mbed_aliyun_io.Base.{
  ℕ, zero, suc, ◌+◌, ◌-◌, ◌*◌, ◌/◌, ◌%◌, Bool, true, false, ◌&&◌, ltb, leb, ◌==◌, if◌then◌else◌,
  List, [], ◌∷◌, get_or, length,
}
use nu_maker_mbed_aliyun_io.Base.Bits.{u8}

-- "0123456789ABCDEF" and "0123456789abcdef"
abbrev pub upper_digits : List ℕ
upper_digits =
    0x30 ∷ 0x31 ∷ 0x32 ∷ 0x33 ∷ 0x34 ∷ 0x35 ∷ 0x36 ∷ 0x37 ∷ 0x38 ∷ 0x39 ∷ 0x41 ∷ 0x42 ∷ 0x43 ∷ 0x44
    ∷ 0x45 ∷ 0x46 ∷ []

abbrev pub lower_digits : List ℕ
lower_digits =
    0x30 ∷ 0x31 ∷ 0x32 ∷ 0x33 ∷ 0x34 ∷ 0x35 ∷ 0x36 ∷ 0x37 ∷ 0x38 ∷ 0x39 ∷ 0x61 ∷ 0x62 ∷ 0x63 ∷ 0x64
    ∷ 0x65 ∷ 0x66 ∷ []

unfoldable pub hex2char : ℕ → ℕ
hex2char hex = let h = hex % 16 in if ltb h 10 then b'0' + h else h - 10 + b'a'

unfoldable pub hex2str : List ℕ → List ℕ
hex2str [] = []
hex2str (b ∷ bs) = get_or upper_digits (b / 16 % 16) 0 ∷ get_or upper_digits (b % 16) 0 ∷ hex2str bs

unfoldable pub hexval_of_char : ℕ → ℕ
hexval_of_char hex =
    if leb hex b'9' && leb b'0' hex
    then hex - b'0'
    else if leb b'a' hex && leb hex b'f'
    then hex - b'a' + 10
    else if leb b'A' hex && leb hex b'F'
    then hex - b'A' + 10
    else 0

-- The bytes that LITE_hexstr_convert stores: one for each pair, while there is room.
unfoldable pub convert_pairs : List ℕ → ℕ → List ℕ
convert_pairs [] room = []
convert_pairs (c ∷ []) room = []
convert_pairs (c0 ∷ c1 ∷ cs) zero = []
convert_pairs (c0 ∷ c1 ∷ cs) (suc room) =
    u8 (hexval_of_char c0 * 16 + hexval_of_char c1) ∷ convert_pairs cs room

unfoldable pub hexstr_convert : List ℕ → ℕ → List ℕ
hexstr_convert input output_len =
    if length input % 2 == 0 then convert_pairs input output_len else []

unfoldable pub hexbuf_convert : List ℕ → Bool → List ℕ
hexbuf_convert [] uppercase = []
hexbuf_convert (a ∷ rest) uppercase =
    let digits : List ℕ = if uppercase then upper_digits else lower_digits in
    get_or digits (a / 16 % 16) 0 ∷ get_or digits (a % 16) 0 ∷ hexbuf_convert rest uppercase
