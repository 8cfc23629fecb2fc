-- ===== src/Infra/Json/Rounds.antt =====
-- The rounds of the loop over the members of an object.
use nu_maker_mbed_aliyun_io.Base.{
  ℕ, zero, suc, ◌+◌, ◌-◌, ◌≤◌, ◌<◌, ◌≡◌, refl, sym, ap, subst, ◌∙◌, arith, ltb, leb, ◌==◌, ◌||◌,
  if◌then◌else◌, Option, none, some, List, [], ◌∷◌, length, length-drop, drop, take, Option-cases,
  inl, inr, if_elim,
}
use nu_maker_mbed_aliyun_io.Infra.Json.{
  find, Start, value_start, value_len, Member, with_value, with_key, get_next_object, is_asked,
  over_read, found, find_name, is_digit, is_boolean_start,
}
use nu_maker_mbed_aliyun_io.Infra.Json.Members.{find-le}
use nu_maker_mbed_aliyun_io.Infra.Json.Lookup.{find_name-by}

-- A value begins where it is looked for or behind.
abbrev Behind : ℕ → Option Start → Type 0
Behind k none = Unit
Behind k (some v) = k ≤ v.at

Behind-suc : (k : ℕ) (v : Option Start) → Behind (suc k) v → Behind k v
Behind-suc k none h = tt
Behind-suc k (some v) h = omega arith

value_start-Behind : (xs : List ℕ) (k n : ℕ) → Behind k (value_start xs k n)
unfolding value_start
value_start-Behind [] k n = tt
value_start-Behind (x ∷ xs) k n =
    if_elim (Behind k) (leb n k) (λ t. tt)
      (λ f.
        if_elim (Behind k) (x == b'"') (λ t. omega arith)
          (λ f.
            if_elim (Behind k) (x == b'{') (λ t. omega arith)
              (λ f.
                if_elim (Behind k) (x == b'[') (λ t. omega arith)
                  (λ f.
                    if_elim (Behind k) (x == b'-' || is_digit x) (λ t. omega arith)
                      (λ f.
                        if_elim (Behind k) (is_boolean_start x) (λ t. omega arith)
                          (λ f.
                            Behind-suc k (value_start xs (suc k) n)
                              (value_start-Behind xs (suc k) n)))))))

-- A call goes on by one character at least.
abbrev Onward : Option Member → Type 0
Onward none = Unit
Onward (some m) = 0 < m.next

with_value-Onward :
    (key : List ℕ) (n : ℕ) (v : Start) (len : ℕ) → 0 < v.at → Onward (with_value key n v len)
unfolding with_value
with_value-Onward key n v len h = if_elim Onward (ltb n (v.at + len)) (λ t. tt) (λ f. omega arith)

with_key-Onward : (key : List ℕ) (e n : ℕ) (q : List ℕ) → 0 < e → Onward (with_key key e n q)
unfolding with_key
with_key-Onward key e n q h = elim (Option-cases (find b':' q e)) [
  | inl x ↦ rw (with_key, x) tt
  | inr ((k, after), x) ↦ elim (Option-cases (value_start after k n)) [
    | inl y ↦ rw (with_key, x, y) tt
    | inr (v, y) ↦
        let p = find-le b':' q e k after x in
        let p' = subst (Behind k) y (value_start-Behind after k n) in
        rw (with_key, x, y)
          (if_elim Onward (ltb n e) (λ t. tt)
            (λ f. with_value-Onward key n v (value_len v.type v n) (omega arith)))
  ]
]

get_next_object-Onward : (cs : List ℕ) (n : ℕ) → Onward (get_next_object cs n)
unfolding get_next_object
get_next_object-Onward cs n = elim (Option-cases (find b'"' cs 0)) [
  | inl e ↦ rw (get_next_object, e) tt
  | inr ((k, q), e) ↦ elim (Option-cases (find b'"' (drop 1 q) (suc k))) [
    | inl e' ↦ rw (get_next_object, e, e') tt
    | inr ((k', q'), e') ↦
        let p = find-le b'"' (drop 1 q) (suc k) k' q' e' in
        rw (get_next_object, e, e')
          (with_key-Onward (take (k' - suc k) (drop 1 q)) k' n q' (omega arith))
  ]
]

-- With more rounds than characters, one round more changes nothing.
find_name-enough :
    (rounds : ℕ) (cs : List ℕ) (n : ℕ) (name : List ℕ)
    → length cs < rounds
    → find_name (suc rounds) cs n name ≡ find_name rounds cs n name
unfolding find_name
find_name-enough zero cs n name h = absurd (omega arith)
find_name-enough (suc rounds) [] n name h = refl
find_name-enough (suc rounds) (c ∷ cs) n name h = elim (Option-cases (get_next_object (c ∷ cs) n)) [
  | inl e ↦ rw (find_name, e) refl
  | inr (m, e) ↦
      let p = subst Onward e (get_next_object-Onward (c ∷ cs) n) in
      let later =
        find_name-enough rounds (drop m.next (c ∷ cs)) (n - m.next) name
          (omega (arith, length-drop m.next (c ∷ cs))) in
      find_name-by c cs n (suc rounds) name m e
      ∙ ap
          (λ s.
            if is_asked name m
            then found m
            else if ltb (length (c ∷ cs)) m.next
            then over_read
            else s)
          later
      ∙ sym (find_name-by c cs n rounds name m e)
]
