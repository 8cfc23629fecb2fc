-- ===== src/Infra/Numbers/RoundTrip.antt =====
-- Numbers as text, read back.
use mathlib.Core.List.{reverse-cons}
use native.Mathlib.Nat.{pow-suc}
use nu_maker_mbed_aliyun_io.Base.{
  ℕ, zero, suc, ◌+◌, ◌*◌, ◌/◌, ◌%◌, ◌^◌, ◌≤◌, ◌<◌, ◌≡◌, refl, sym, ap, ◌∙◌, arith, Bool, true,
  false, ltb, Option, some, List, [], ◌∷◌, ◌++◌, append_assoc, append-nil, ltb→lt, ltb→ge, reverse,
  Bool-cases, inl, inr, replicate, ◌≢◌, lt→ltb, le→ltb,
}
use nu_maker_mbed_aliyun_io.Infra.Numbers.{
  low_digits, int2str, is_digit, str2uint_from, str2uint, read_digits, skip_spaces, read_sign,
  str2int, value, negated, signed, parsed,
}

-- The digits of a number in front of a text.
abbrev shown : ℕ → ℕ → List ℕ → List ℕ
shown rounds n rest = reverse (low_digits rounds n) ++ rest

-- One digit more: the text is that of n / 10, and the last digit.
shown_step :
    (rounds n : ℕ) (rest : List ℕ)
    → 9 < n
    → shown (suc rounds) n rest ≡ shown rounds (n / 10) ((n % 10 + b'0') ∷ rest)
unfolding low_digits
shown_step rounds n rest h =
    rw (lt→ltb 0 (n / 10) (omega arith))
      (rw (reverse-cons (n % 10 + b'0') (low_digits rounds (n / 10)), append_assoc))

shown_last : (rounds n : ℕ) (rest : List ℕ) → n ≤ 9 → shown (suc rounds) n rest ≡ (n + b'0') ∷ rest
unfolding low_digits
shown_last rounds n rest h = rw (le→ltb 0 (n / 10) (omega arith), small) refl
  where
    small : n % 10 ≡ n
    small = omega arith

-- A reader that takes one digit more as long as the value stays within a bound.
module _ (f : List ℕ → ℕ → Option ℕ) (bound : ℕ)
    (digit : (d temp : ℕ) (rest : List ℕ)
      → d < 10
      → temp * 10 + d ≤ bound
      → f ((d + b'0') ∷ rest) temp ≡ f rest (temp * 10 + d)) where
  reader-last :
      (rounds n : ℕ) (rest : List ℕ)
      → n ≤ 9
      → n ≤ bound
      → f (shown (suc rounds) n rest) 0 ≡ f rest n
  reader-last rounds n rest h fits =
      ap (λ cs. f cs 0) (shown_last rounds n rest h)
      ∙ digit n 0 rest (omega arith) (omega arith)
      ∙ ap (f rest) (omega arith)

  -- Reading the text of `n` gives `n`, and goes on behind it.
  reader-shown :
      (rounds n : ℕ) (rest : List ℕ)
      → n < 10 ^ suc rounds
      → n ≤ bound
      → f (shown (suc rounds) n rest) 0 ≡ f rest n
  reader-shown zero n rest h fits = reader-last zero n rest (omega arith) fits
  reader-shown (suc rounds) n rest h fits = elim (Bool-cases (ltb 9 n)) [
    | inl more ↦
        ap (λ cs. f cs 0) (shown_step (suc rounds) n rest (ltb→lt 9 n more))
        ∙ reader-shown rounds (n / 10) ((n % 10 + b'0') ∷ rest)
            (omega (arith, pow-suc 10 (suc rounds))) (omega arith)
        ∙ digit (n % 10) (n / 10) rest (omega arith) (omega arith)
        ∙ ap (f rest) (omega arith)
    | inr last ↦ reader-last (suc rounds) n rest (ltb→ge 9 n last) fits
  ]

str2uint_from-digit :
    (d temp : ℕ) (rest : List ℕ)
    → d < 10
    → temp * 10 + d ≤ 0xffffffff
    → str2uint_from ((d + b'0') ∷ rest) temp ≡ str2uint_from rest (temp * 10 + d)
unfolding str2uint_from
str2uint_from-digit d temp rest h fits = ground arith

read_digits-digit :
    (d temp : ℕ) (rest : List ℕ)
    → d < 10
    → temp * 10 + d ≤ 0x7fffffff
    → read_digits ((d + b'0') ∷ rest) temp ≡ read_digits rest (temp * 10 + d)
unfolding read_digits
read_digits-digit d temp rest h fits = ground arith

-- utils_str2uint reads back every 32-bit number that infra_int2str wrote.
pub str2uint-int2str : (n : ℕ) → n < 2 ^ 32 → str2uint (int2str n) ≡ some n
unfolding str2uint int2str
str2uint-int2str n h =
    ap (λ cs. str2uint_from cs 0) (sym (append-nil (reverse (low_digits 10 n))))
    ∙ reader-shown str2uint_from 0xffffffff str2uint_from-digit 9 n [] (omega arith) (omega arith)
    ∙ (unfold str2uint_from in refl)

-- The number's text ends here.
abbrev pub Ends : List ℕ → Type 0
Ends [] = Unit {0}
Ends (c ∷ cs) = is_digit c ≡ false

read_digits-Ends : (n : ℕ) (rest : List ℕ) → Ends rest → read_digits rest n ≡ some n
unfolding read_digits
read_digits-Ends n [] e = refl
read_digits-Ends n (c ∷ cs) e = rw e

read_digits-int2str :
    (n : ℕ) (rest : List ℕ)
    → n ≤ 0x7fffffff
    → Ends rest
    → read_digits (int2str n ++ rest) 0 ≡ some n
unfolding int2str
read_digits-int2str n rest h e =
    reader-shown read_digits 0x7fffffff read_digits-digit 9 n rest (omega arith) h
    ∙ read_digits-Ends n rest e

-- The text of a number begins with a digit.
shown_head :
    (rounds n : ℕ) (rest : List ℕ)
    → n < 10 ^ suc rounds
    → (c : ℕ) × (cs : List ℕ) × (shown (suc rounds) n rest ≡ c ∷ cs) × (b'0' ≤ c)
shown_head zero n rest h = (n + b'0', rest, shown_last zero n rest (omega arith), omega arith)
shown_head (suc rounds) n rest h = elim (Bool-cases (ltb 9 n)) [
  | inl more ↦
      let (c, cs, e, le) =
        shown_head rounds (n / 10) ((n % 10 + b'0') ∷ rest)
          (omega (arith, pow-suc 10 (suc rounds))) in
      (c, cs, shown_step (suc rounds) n rest (ltb→lt 9 n more) ∙ e, le)
  | inr last ↦ (n + b'0', rest, shown_last (suc rounds) n rest (ltb→ge 9 n last), omega arith)
]

int2str_head :
    (n : ℕ) (rest : List ℕ)
    → n < 10 ^ 10
    → (c : ℕ) × (cs : List ℕ) × (int2str n ++ rest ≡ c ∷ cs) × (b'0' ≤ c)
unfolding int2str
int2str_head n rest h = shown_head 9 n rest h

read_sign-digit : (c : ℕ) (cs : List ℕ) → b'0' ≤ c → read_sign (c ∷ cs) ≡ signed false (c ∷ cs)
unfolding read_sign
read_sign-digit c cs h = ground arith

skip_spaces-replicate :
    (k c : ℕ) (cs : List ℕ) → c ≢ 0x20 → skip_spaces (replicate k 0x20 ++ c ∷ cs) ≡ c ∷ cs
unfolding skip_spaces
skip_spaces-replicate zero c cs h = ground arith
skip_spaces-replicate (suc k) c cs h = skip_spaces-replicate k c cs h

signed-int2str :
    (sign : Bool) (n : ℕ) (rest : List ℕ)
    → n ≤ 0x7fffffff
    → Ends rest
    → signed sign (int2str n ++ rest) ≡ some (negated sign n)
signed-int2str sign n rest h e = rw (read_digits-int2str n rest h e, signed)

-- infra_str2int skips spaces, takes a sign, and reads the text that infra_int2str wrote for a number
-- below 2^31, up to the first character behind it that is no digit.
pub str2int-int2str :
    (spaces n : ℕ) (rest : List ℕ)
    → n < 2 ^ 31
    → Ends rest
    → (str2int (some (replicate spaces 0x20 ++ (int2str n ++ rest))) true ≡ value (negated false n))
      × (str2int (some (replicate spaces 0x20 ++ b'+' ∷ (int2str n ++ rest))) true
          ≡ value (negated false n))
      × (str2int (some (replicate spaces 0x20 ++ b'-' ∷ (int2str n ++ rest))) true
          ≡ value (negated true n))
unfolding str2int
str2int-int2str spaces n rest h e =
    let (c, cs, f, le) = int2str_head n rest (omega arith) in
    (
      ap (λ ds. parsed (read_sign ds))
            (ap (λ ds. skip_spaces (replicate spaces 0x20 ++ ds)) f
              ∙ skip_spaces-replicate spaces c cs (omega arith))
          ∙ ap parsed (read_sign-digit c cs le)
          ∙ ap (λ ds. parsed (signed false ds)) (sym f)
          ∙ ap parsed (signed-int2str false n rest (omega arith) e),
      ap (λ ds. parsed (read_sign ds))
            (skip_spaces-replicate spaces b'+' (int2str n ++ rest) (omega arith))
          ∙ (unfold read_sign in ap parsed (signed-int2str false n rest (omega arith) e)),
      ap (λ ds. parsed (read_sign ds))
            (skip_spaces-replicate spaces b'-' (int2str n ++ rest) (omega arith))
          ∙ (unfold read_sign in ap parsed (signed-int2str true n rest (omega arith) e)),
    )
