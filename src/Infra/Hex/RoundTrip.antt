-- ===== src/Infra/Hex/RoundTrip.antt =====
-- Hexadecimal text read back.
use nu_maker_mbed_aliyun_io.Base.{
  ℕ, zero, suc, ◌*◌, ◌/◌, ◌%◌, ◌≤◌, ◌<◌, ◌≡◌, refl, arith, Bool, true, false, List, [], ◌∷◌, All,
  length, get_or,
}
use nu_maker_mbed_aliyun_io.Base.Bits.{IsByte, agree_below, agree_below-eq}
use nu_maker_mbed_aliyun_io.Infra.Hex.{
  upper_digits, lower_digits, hex2char, hex2str, hexval_of_char, convert_pairs, hexstr_convert,
  hexbuf_convert,
}

hexval-upper : (d : ℕ) → d < 16 → hexval_of_char (get_or upper_digits d 0) ≡ d
unfolding agree_below hexval_of_char
hexval-upper = agree_below-eq (λ d. hexval_of_char (get_or upper_digits d 0)) (λ d. d) 16 refl

hexval-lower : (d : ℕ) → d < 16 → hexval_of_char (get_or lower_digits d 0) ≡ d
unfolding agree_below hexval_of_char
hexval-lower = agree_below-eq (λ d. hexval_of_char (get_or lower_digits d 0)) (λ d. d) 16 refl

hex2char-lower : (d : ℕ) → d < 16 → hex2char d ≡ get_or lower_digits d 0
unfolding agree_below hex2char
hex2char-lower = agree_below-eq hex2char (λ d. get_or lower_digits d 0) 16 refl

length-hexbuf_convert :
    (bs : List ℕ) (uppercase : Bool) → length (hexbuf_convert bs uppercase) ≡ length bs * 2
unfolding hexbuf_convert
length-hexbuf_convert [] uppercase = refl
length-hexbuf_convert (b ∷ bs) uppercase = omega (arith, length-hexbuf_convert bs uppercase)

convert_pairs-hexbuf_convert :
    (bs : List ℕ) (uppercase : Bool) (room : ℕ)
    → All IsByte bs
    → length bs ≤ room
    → convert_pairs (hexbuf_convert bs uppercase) room ≡ bs
unfolding convert_pairs hexbuf_convert
convert_pairs-hexbuf_convert [] uppercase room v h = refl
convert_pairs-hexbuf_convert (b ∷ bs) uppercase zero v h = absurd (omega arith)
convert_pairs-hexbuf_convert (b ∷ bs) true (suc room) (v, vs) h = ground (
  arith,
  hexval-upper (b / 16 % 16),
  hexval-upper (b % 16),
  convert_pairs-hexbuf_convert bs true room vs,
)
convert_pairs-hexbuf_convert (b ∷ bs) false (suc room) (v, vs) h = ground (
  arith,
  hexval-lower (b / 16 % 16),
  hexval-lower (b % 16),
  convert_pairs-hexbuf_convert bs false room vs,
)

-- LITE_hexstr_convert reads back the bytes that LITE_hexbuf_convert wrote, in either case, if the
-- output has room for them.
pub hexstr_convert-hexbuf_convert :
    (bs : List ℕ) (uppercase : Bool) (room : ℕ)
    → All IsByte bs
    → length bs ≤ room
    → hexstr_convert (hexbuf_convert bs uppercase) room ≡ bs
unfolding hexstr_convert
hexstr_convert-hexbuf_convert bs uppercase room v h =
    ground
      (arith, length-hexbuf_convert bs uppercase, convert_pairs-hexbuf_convert bs uppercase room v)

-- infra_hex2str and LITE_hexbuf_convert in upper case write the same text.
pub hex2str-hexbuf_convert : (bs : List ℕ) → hex2str bs ≡ hexbuf_convert bs true
unfolding hex2str hexbuf_convert
hex2str-hexbuf_convert [] = refl
hex2str-hexbuf_convert (b ∷ bs) = ground (arith, hex2str-hexbuf_convert bs)
