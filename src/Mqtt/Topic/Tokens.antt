-- ===== src/Mqtt/Topic/Tokens.antt =====
-- Tokens of a text: how long they are, and what they are in a text of levels.
use nu_maker_mbed_aliyun_io.Base.{
  ℕ, ◌≤◌, ◌<◌, ◌≡◌, refl, ap, arith, leb, ◌==◌, none, some, List, [], ◌∷◌, ◌++◌, length, Bool-cases,
  inl, inr, length-append, gt→leb, ==-false,
}
use nu_maker_mbed_aliyun_io.Mqtt.Topic.{token_body, token_start, strtok}
use nu_maker_mbed_aliyun_io.Mqtt.Topic.Matching.{IsLevel, IsNameLevel}

length-token_body : (d : ℕ) (cs : List ℕ) → length (token_body d cs).1 ≤ length cs
unfolding token_body
length-token_body d [] = omega arith
length-token_body d (c ∷ cs) = ground (arith, length-token_body d cs)

length-token_start :
    (d : ℕ) (cs token rest : List ℕ)
    → token_start d cs ≡ some (token, rest)
    → length rest < length cs
unfolding token_start token_body
length-token_start d [] token rest e = absurd (ground (arith, e))
length-token_start d (c ∷ cs) token rest e = elim (Bool-cases (c == d)) [
  | inl skip ↦
      let e' : token_start d cs ≡ some (token, rest) = ground (arith, skip, e) in
      omega (arith, length-token_start d cs token rest e')
  | inr start ↦ ground (arith, start, e, length-token_body d cs)
]

-- Each token shortens the text that is left.
pub length-strtok :
    (d : ℕ) (cs token rest : List ℕ) → strtok d cs ≡ some (token, rest) → length rest < length cs
unfolding strtok
length-strtok d cs token rest e = elim (Bool-cases (leb (length cs) 1)) [
  | inl short ↦ absurd (ground (arith, short, e))
  | inr long ↦ length-token_start d cs token rest (ground (arith, long, e))
]

token_body-level : (l rest : List ℕ) → IsLevel l → token_body b'/' (l ++ b'/' ∷ rest) ≡ (l, rest)
unfolding token_body
token_body-level [] rest a = refl
token_body-level (c ∷ l) rest (x, a) = ground (arith, x, token_body-level l rest a)

token_body-last : (l : List ℕ) → IsLevel l → token_body b'/' (l ++ []) ≡ (l, [])
unfolding token_body
token_body-last [] a = refl
token_body-last (c ∷ l) (x, a) = ground (arith, x, token_body-last l a)

token_start-level :
    (l rest : List ℕ) → IsNameLevel l → token_start b'/' (l ++ b'/' ∷ rest) ≡ some (l, rest)
unfolding token_start
token_start-level [] rest (h, a) = absurd (omega (arith, h))
token_start-level (c ∷ l) rest (h, (x, a)) =
    rw (==-false c b'/' x, token_start) (ap some (token_body-level (c ∷ l) rest (x, a)))

token_start-last : (l : List ℕ) → IsNameLevel l → token_start b'/' (l ++ []) ≡ some (l, [])
unfolding token_start
token_start-last [] (h, a) = absurd (omega (arith, h))
token_start-last (c ∷ l) (h, (x, a)) =
    rw (==-false c b'/' x, token_start) (ap some (token_body-last (c ∷ l) (x, a)))

pub strtok-level :
    (l rest : List ℕ) → IsNameLevel l → strtok b'/' (l ++ b'/' ∷ rest) ≡ some (l, rest)
unfolding strtok
strtok-level l rest a =
    rw (gt→leb (length (l ++ b'/' ∷ rest)) 1 (omega (arith, a.0, length-append l (b'/' ∷ rest))))
      (token_start-level l rest a)

pub strtok-last : (l : List ℕ) → IsNameLevel l → 1 < length l → strtok b'/' (l ++ []) ≡ some (l, [])
unfolding strtok
strtok-last l a h =
    rw (gt→leb (length (l ++ [])) 1 (omega (arith, h, length-append l []))) (token_start-last l a)

-- The last level is not found if it is one character.
pub strtok-short : (l : List ℕ) → length l ≡ 1 → strtok b'/' (l ++ []) ≡ none
unfolding strtok
strtok-short l h = ground (arith, h, length-append l [])

-- In the whole topic the slash in front is passed over.
pub strtok-first_level :
    (l rest : List ℕ) → IsNameLevel l → strtok b'/' (b'/' ∷ (l ++ b'/' ∷ rest)) ≡ some (l, rest)
unfolding strtok token_start
strtok-first_level l rest a =
    ground (arith, a.0, length-append l (b'/' ∷ rest), token_start-level l rest a)

pub strtok-first_last : (l : List ℕ) → IsNameLevel l → strtok b'/' (b'/' ∷ (l ++ [])) ≡ some (l, [])
unfolding strtok token_start
strtok-first_last l a = ground (arith, a.0, length-append l [], token_start-last l a)
