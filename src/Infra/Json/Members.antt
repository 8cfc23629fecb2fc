-- ===== src/Infra/Json/Members.antt =====
-- One call of json_get_next_object on the text of a member.
use nu_maker_mbed_aliyun_io.Base.{
  ℕ, suc, ◌+◌, ◌-◌, ◌≤◌, ◌<◌, ◌≡◌, ◌≢◌, refl, ap, ◌∙◌, arith, true, leb, ◌==◌, none, some, List, [],
  ◌∷◌, ◌++◌, length, take, drop, take-append_length, All, Bool-cases, Option-cases, inl, inr,
  le→ltb,
}
use nu_maker_mbed_aliyun_io.Infra.Json.{
  json_string, find, Start, value_start, string_len, value_len, Member, with_value, with_key,
  get_next_object,
}

-- A character that is not there is passed over.
pub find-first :
    (c : ℕ) (xs ys : List ℕ) (k : ℕ)
    → All (λ x. x ≢ c) xs
    → find c (xs ++ c ∷ ys) k ≡ some (k + length xs, c ∷ ys)
unfolding find
find-first c [] ys k h = ground arith
find-first c (x ∷ xs) ys k (n, h) = ground (arith, n, find-first c xs ys (suc k) h)

pub find-le : (c : ℕ) (xs : List ℕ) (k j : ℕ) (q : List ℕ) → find c xs k ≡ some (j, q) → k ≤ j
unfolding find
find-le c [] k j q e = ground arith
find-le c (x ∷ xs) k j q e = elim (Bool-cases (x == c)) [
  | inl here ↦ ground (arith, e, here)
  | inr on ↦ ground (arith, find-le c xs (suc k) j q (rw on at e))
]

string_len-closed :
    (xs ys : List ℕ) (k n l : ℕ)
    → All (λ x. x ≢ b'"') xs
    → k + length xs < n
    → string_len (xs ++ b'"' ∷ ys) k n l ≡ l + length xs
unfolding string_len
string_len-closed [] ys k n l h short = ground arith
string_len-closed (x ∷ xs) ys k n l (e, h) short =
    ground (arith, e, string_len-closed xs ys (suc k) n (suc l) h (omega arith))

value_start-late : (xs : List ℕ) (k n : ℕ) → n ≤ k → value_start xs k n ≡ none
unfolding value_start
value_start-late [] k n h = refl
value_start-late (x ∷ xs) k n h = rw (late n k h) refl
  where
    late : (n k : ℕ) → n ≤ k → leb n k ≡ true
    late n k h = ground arith

-- A member in front of a text, behind a separator.
abbrev pub after_key : List ℕ → List ℕ → List ℕ
after_key text rest = b'"' ∷ b':' ∷ b'"' ∷ text ++ b'"' ∷ rest

abbrev pub member : List ℕ → List ℕ → List ℕ → List ℕ
member key text rest = b'"' ∷ key ++ after_key text rest

-- A name or a value without a quote.
abbrev pub IsPlain : List ℕ → Type 0
IsPlain text = All (λ c. c ≢ b'"') text

abbrev pub string_start : ℕ → List ℕ → Start
string_start k text = record { type = json_string; at = k; text = text; pos = k; rest = text }

pub value_start-quote :
    (text : List ℕ) (k n : ℕ)
    → suc k < n
    → value_start (b':' ∷ b'"' ∷ text) k n ≡ some (string_start (2 + k) text)
unfolding value_start
value_start-quote text k n h = ground arith

-- The member with this name and this value in front of a text, that a call `far` ahead reads.
abbrev pub read_member : List ℕ → List ℕ → List ℕ → Member
read_member key text rest = record {
  key = key;
  from = text ++ b'"' ∷ rest;
  len = length text;
  type = json_string;
  next = 6 + (length key + length text);
}

-- The calls by what they look up.
pub with_key-by :
    (key q after : List ℕ) (e n k : ℕ) (v : Start)
    → find b':' q e ≡ some (k, after)
    → value_start after k n ≡ some v
    → e ≤ n
    → with_key key e n q ≡ with_value key n v (value_len v.type v n)
unfolding with_key
with_key-by key q after e n k v colon start h = rw (with_key, colon, start, le→ltb n e h) refl

pub get_next_object-by :
    (cs q q' : List ℕ) (n k k' : ℕ)
    → find b'"' cs 0 ≡ some (k, q)
    → find b'"' (drop 1 q) (suc k) ≡ some (k', q')
    → get_next_object cs n ≡ with_key (take (k' - suc k) (drop 1 q)) k' n q'
unfolding get_next_object
get_next_object-by cs q q' n k k' first second = rw (get_next_object, first, second) refl

with_value-string :
    (key text rest : List ℕ) (n : ℕ)
    → 6 + (length key + length text) ≤ n
    → with_value key n (string_start (5 + length key) (text ++ b'"' ∷ rest)) (length text)
      ≡ some (read_member key text rest)
unfolding with_value
with_value-string key text rest n fits =
    rw (with_value, le→ltb n (5 + length key + length text) (omega arith))
      (ap
        (λ j. some (record {
          key = key;
          from = text ++ b'"' ∷ rest;
          len = length text;
          type = json_string;
          next = j;
        }))
        (omega arith))

with_key-member :
    (key text rest : List ℕ) (n : ℕ)
    → IsPlain text
    → 6 + (length key + length text) ≤ n
    → with_key key (2 + length key) n (b'"' ∷ b':' ∷ b'"' ∷ text ++ b'"' ∷ rest)
      ≡ some (read_member key text rest)
unfolding value_len
with_key-member key text rest n plain fits =
    with_key-by key (b'"' ∷ b':' ∷ b'"' ∷ text ++ b'"' ∷ rest) (b':' ∷ b'"' ∷ text ++ b'"' ∷ rest)
      (2 + length key) n (3 + length key) (string_start (5 + length key) (text ++ b'"' ∷ rest))
      (find-first b':' (b'"' ∷ []) (b'"' ∷ text ++ b'"' ∷ rest) (2 + length key) ((omega arith), tt)
        ∙ ap (λ k. some (k, b':' ∷ b'"' ∷ text ++ b'"' ∷ rest)) (omega arith))
      (value_start-quote (text ++ b'"' ∷ rest) (3 + length key) n (omega arith)
        ∙ ap (λ k. some (string_start k (text ++ b'"' ∷ rest))) (omega arith))
      (omega arith)
    ∙ ap (with_value key n _)
        (string_len-closed text rest (5 + length key) n 0 plain (omega arith) ∙ omega arith)
    ∙ with_value-string key text rest n fits

-- A call on the text of a member gives its name and its value, and goes on behind it.
pub get_next_object-member :
    (c : ℕ) (key text rest : List ℕ) (n : ℕ)
    → c ≢ b'"'
    → IsPlain key
    → IsPlain text
    → 6 + (length key + length text) ≤ n
    → get_next_object (c ∷ member key text rest) n ≡ some (read_member key text rest)
get_next_object-member c key text rest n h plain plain' fits =
    get_next_object-by (c ∷ member key text rest) (member key text rest) (after_key text rest) n 1
      (2 + length key) (find-first b'"' (c ∷ []) (key ++ after_key text rest) 0 (h, tt))
      (find-first b'"' key (b':' ∷ b'"' ∷ text ++ b'"' ∷ rest) 2 plain)
    ∙ ap (λ t. with_key t (2 + length key) n (after_key text rest))
        (take-append_length key (after_key text rest) (2 + length key - 2) (omega arith))
    ∙ with_key-member key text rest n plain' fits

with_key-end : (key q : List ℕ) (k n : ℕ) → n ≤ k → with_key key k n q ≡ none
unfolding with_key
with_key-end key q k n h = elim (Option-cases (find b':' q k)) [
  | inl e ↦ rw (with_key, e) refl
  | inr ((k', q'), e) ↦
      let p = find-le b':' q k k' q' e in
      rw (with_key, e, value_start-late q' k' n (omega arith)) refl
]

-- Where no character is left behind the first quote, there is no member, whatever is in memory.
pub get_next_object-end :
    (cs : List ℕ) (n : ℕ)
    → ((k : ℕ) (q : List ℕ) → find b'"' cs 0 ≡ some (k, q) → n ≤ suc k)
    → get_next_object cs n ≡ none
unfolding get_next_object
get_next_object-end cs n h = elim (Option-cases (find b'"' cs 0)) [
  | inl e ↦ rw (get_next_object, e) refl
  | inr ((k, q), e) ↦ elim (Option-cases (find b'"' (drop 1 q) (suc k))) [
    | inl e' ↦ rw (get_next_object, e, e') refl
    | inr ((k', q'), e') ↦
        let p = find-le b'"' (drop 1 q) (suc k) k' q' e' in
        let p' = h k q e in
        rw (get_next_object, e, e')
          (with_key-end (take (k' - suc k) (drop 1 q)) q' k' n (omega arith))
  ]
]
