-- ===== src/DevModel/Utils/Texts.antt =====
-- Round trip, search and array names of the text helpers.
use nu_maker_mbed_aliyun_io.Base.{
  ℕ, suc, ◌+◌, ◌-◌, ◌*◌, ◌/◌, ◌%◌, ◌≤◌, ◌<◌, ◌≡◌, refl, ap, ◌∙◌, arith, Bool, true, false, ◌&&◌,
  ltb, ◌==◌, if◌then◌else◌, Option, none, some, List, [], ◌∷◌, ◌++◌, length, take, drop, All,
  Bool-cases, Option-cases, inl, inr, ◌≢◌, ◌↔◌, length-append, take-append_length, ==-false,
}
use nu_maker_mbed_aliyun_io.Base.Bits.{IsByte}
use nu_maker_mbed_aliyun_io.DevModel.State.{success_return}
use nu_maker_mbed_aliyun_io.DevModel.Utils.{
  digit_of, hex_digits, hex_to_str, next_value, hex_values, str_to_hex, memtok_from, memtok,
  scan_brackets, strarr_index,
}

next_value-digit_of : (last d : ℕ) → d < 16 → next_value last (digit_of d) ≡ d
unfolding next_value digit_of
next_value-digit_of last d h = ground arith

hex_values-hex_digits :
    (last : ℕ) (bs : List ℕ) → All IsByte bs → hex_values last (hex_digits bs) ≡ bs
unfolding hex_values hex_digits
hex_values-hex_digits last [] a = refl
hex_values-hex_digits last (b ∷ bs) (byte, a) =
    let high = next_value-digit_of last (b / 16 % 16) (omega arith) in
    let low = next_value-digit_of (b / 16 % 16) (b % 16) (omega arith) in
    rw (high, low, hex_values-hex_digits (b % 16) bs a) (ap (λ x. x ∷ bs) (omega (arith, byte)))

length-hex_digits : (bs : List ℕ) → length (hex_digits bs) ≡ 2 * length bs
unfolding hex_digits
length-hex_digits [] = refl
length-hex_digits (b ∷ bs) = omega (arith, length-hex_digits bs)

-- The text that dm_utils_hex_to_str makes of one byte or more is read back by dm_utils_str_to_hex as the
-- same bytes, when both allocations succeed.
pub str_to_hex-hex_to_str :
    (bs : List ℕ)
    → All IsByte bs
    → 0 < length bs
    → (text : List ℕ) × (hex_to_str true true (some bs) ≡ (success_return, some text))
      × (length text ≡ 2 * length bs)
      × (str_to_hex true true (some text) ≡ (success_return, some bs))
unfolding hex_to_str str_to_hex
str_to_hex-hex_to_str bs a h =
    let size = length-hex_digits bs in
    (hex_digits bs, ground (arith, h), size, ground (arith, h, size, hex_values-hex_digits 0 bs a))

-- How often the character stands in the text.
unfoldable pub count_of : ℕ → List ℕ → ℕ
count_of d [] = 0
count_of d (c ∷ cs) = if c == d then suc (count_of d cs) else count_of d cs

memtok_from-found :
    (d index pos count off : ℕ) (cs : List ℕ)
    → memtok_from d index pos count cs ≡ some off
    → (before : List ℕ) × (after : List ℕ) × (cs ≡ before ++ d ∷ after)
      × (off ≡ pos + length before)
      × (0 < length after)
      × (count + count_of d before + 1 ≡ index)
unfolding memtok_from count_of
memtok_from-found d index pos count off [] e = absurd (ground (arith, e))
memtok_from-found d index pos count off (c ∷ cs) e =
    elim (Bool-cases (c == d && ltb 0 (length cs))) [
      | inl hit ↦ elim (Bool-cases (suc count == index)) [
        | inl last ↦ (
          [],
          cs,
          ap (λ x. x ∷ cs) (ground (arith, hit)),
          ground (arith, hit, last, e),
          ground (arith, hit),
          ground (arith, last),
        )
        | inr more ↦
            let e' : memtok_from d index (suc pos) (suc count) cs ≡ some off =
              ground (arith, hit, more, e) in
            let (before, after, shape, at_off, rest, total) =
              memtok_from-found d index (suc pos) (suc count) off cs e' in
            (
              c ∷ before,
              after,
              ap (λ x. c ∷ x) shape,
              omega (arith, at_off),
              rest,
              ground (arith, hit, total),
            )
      ]
      | inr miss ↦
          let e' : memtok_from d index (suc pos) count cs ≡ some off = ground (arith, miss, e) in
          let (before, after, shape, at_off, rest, total) =
            memtok_from-found d index (suc pos) count off cs e' in
          let longer = ap length shape in
          (
            c ∷ before,
            after,
            ap (λ x. c ∷ x) shape,
            omega (arith, at_off),
            rest,
            ground (arith, miss, total, longer, length-append before (d ∷ after)),
          )
    ]

memtok_from-finds :
    (d index pos count : ℕ) (before after : List ℕ)
    → 0 < length after
    → count + count_of d before + 1 ≡ index
    → memtok_from d index pos count (before ++ d ∷ after) ≡ some (pos + length before)
unfolding memtok_from count_of
memtok_from-finds d index pos count [] after h total = ground (arith, h, total)
memtok_from-finds d index pos count (c ∷ before) after h total =
    let size = length-append before (d ∷ after) in
    elim (Bool-cases (c == d)) [
      | inl same ↦ ground (
        arith,
        same,
        size,
        memtok_from-finds d index (suc pos) (suc count) before after h
            (ground (arith, same, total)),
      )
      | inr other ↦ ground (
        arith,
        other,
        size,
        memtok_from-finds d index (suc pos) count before after h (ground (arith, other, total)),
      )
    ]

-- In a text that is not empty, dm_utils_memtok finds an offset exactly when the delimiter stands there
-- as its `index`-th occurrence and is not the last character.
pub memtok_iff :
    (input : List ℕ) (d index off : ℕ)
    → 0 < length input
    → (memtok (some input) d index ≡ (success_return, some off)) ↔ (
        (before : List ℕ) × (after : List ℕ) × (input ≡ before ++ d ∷ after)
        × (off ≡ length before)
        × (0 < length after)
        × (count_of d before + 1 ≡ index))
unfolding memtok
memtok_iff input d index off h = (
  λ e. elim (Option-cases (memtok_from d index 0 0 input)) [
    | inl missing ↦ absurd (ground (arith, h, e, missing))
    | inr (at_pos, found) ↦
        let (before, after, shape, at_off, rest, total) =
          memtok_from-found d index 0 0 at_pos input found in
        (before, after, shape, ground (arith, h, e, found, at_off), rest, omega (arith, total))
  ],
  λ (before, after, shape, at_off, rest, total).
      let found : memtok_from d index 0 0 input ≡ some off =
        ap (λ t. memtok_from d index 0 0 t) shape
        ∙ memtok_from-finds d index 0 0 before after rest (omega (arith, total))
        ∙ ap some (omega (arith, at_off)) in
      ground (arith, h, found),
)

-- The character is no bracket.
abbrev pub IsPlain : ℕ → Type 0
IsPlain c = (c ≢ b'[') × (c ≢ b']')

scan_brackets-plain :
    (index : ℕ) (inside opened : Bool) (pre suf : Option ℕ) (cs rest : List ℕ)
    → All IsPlain cs
    → 0 < length cs
    → scan_brackets index inside opened pre suf (cs ++ rest)
      ≡ scan_brackets (index + length cs) inside false pre suf rest
unfolding scan_brackets
scan_brackets-plain index inside opened pre suf [] rest a h = absurd (omega (arith, h))
scan_brackets-plain index inside opened pre suf (c ∷ []) rest ((x, y), a) h =
    rw (==-false c b'[' x, ==-false c b']' y, scan_brackets)
      (ap (λ i. scan_brackets i inside false pre suf rest) (omega arith))
scan_brackets-plain index inside opened pre suf (c ∷ c' ∷ cs) rest ((x, y), a) h =
    rw (==-false c b'[' x, ==-false c b']' y, scan_brackets)
      (scan_brackets-plain (suc index) inside false pre suf (c' ∷ cs) rest a (omega arith)
        ∙ ap (λ i. scan_brackets i inside false pre suf rest) (omega arith))

scan_brackets-name :
    (name rest : List ℕ)
    → All IsPlain name
    → scan_brackets 0 false false none none (name ++ rest)
      ≡ scan_brackets (length name) false false none none rest
scan_brackets-name [] rest a = refl
scan_brackets-name (c ∷ cs) rest a =
    scan_brackets-plain 0 false false none none (c ∷ cs) rest a (omega arith)
    ∙ ap (λ i. scan_brackets i false false none none rest) (omega arith)

scan_brackets-index :
    (name digits : List ℕ)
    → All IsPlain name
    → All IsPlain digits
    → 0 < length digits
    → scan_brackets 0 false false none none (name ++ b'[' ∷ (digits ++ b']' ∷ []))
      ≡ some (some (length name), some (length name + length digits + 1))
unfolding scan_brackets
scan_brackets-index name digits a b h =
    scan_brackets-name name (b'[' ∷ (digits ++ b']' ∷ [])) a
    ∙ scan_brackets-plain (suc (length name)) true true (some (length name)) none digits (b']' ∷ [])
        b h
    ∙ ap (λ i. some (some (length name), some i)) (omega arith)

drop_past : (xs : List ℕ) (y : ℕ) (ys : List ℕ) → drop (length xs + 1) (xs ++ y ∷ ys) ≡ ys
drop_past [] y ys = refl
drop_past (x ∷ xs) y ys =
    let next : length (x ∷ xs) + 1 ≡ suc (length xs + 1) = omega arith in
    ap (λ n. drop n (x ∷ (xs ++ y ∷ ys))) next ∙ drop_past xs y ys

-- For a name, then one to ten characters in brackets, none of all these a bracket, dm_utils_strarr_index
-- yields the length of the name, the whole length, and what `atoi` makes of the characters in the brackets.
pub strarr_index-name :
    (atoi : List ℕ → ℕ) (name digits : List ℕ)
    → All IsPlain name
    → All IsPlain digits
    → 0 < length digits
    → length digits ≤ 10
    → strarr_index atoi (some (name ++ b'[' ∷ (digits ++ b']' ∷ [])))
      ≡ (success_return, some (length name, length name + length digits + 2, atoi digits))
unfolding strarr_index
strarr_index-name atoi name digits a b h k =
    let whole = name ++ b'[' ∷ (digits ++ b']' ∷ []) in
    let size : length whole ≡ length name + length digits + 2 = omega (
      arith,
      length-append name (b'[' ∷ (digits ++ b']' ∷ [])),
      length-append digits (b']' ∷ []),
    ) in
    let inner : take (length name + length digits + 1 - length name - 1)
          (drop (length name + 1) whole)
        ≡ digits =
      ap (λ t. take (length name + length digits + 1 - length name - 1) t)
        (drop_past name b'[' (digits ++ b']' ∷ []))
      ∙ take-append_length digits (b']' ∷ []) (length name + length digits + 1 - length name - 1)
          (omega arith) in
    rw (scan_brackets-index name digits a b h, inner) (ground (arith, size, h, k))
