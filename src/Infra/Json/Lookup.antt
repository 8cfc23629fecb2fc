-- ===== src/Infra/Json/Lookup.antt =====
-- The look-up of a name in the text of an object.
use nu_maker_mbed_aliyun_io.Base.{
  same_bytes, ℕ, zero, suc, ◌+◌, ◌-◌, ◌<◌, ◌≡◌, ◌≢◌, refl, sym, ap, subst, ◌∙◌, arith, ltb,
  if◌then◌else◌, Option, none, some, List, [], ◌∷◌, ◌++◌, length, length-append, drop,
  take-append_length, drop-append_add, All, Bool-cases, inl, inr, le→ltb,
}
use nu_maker_mbed_aliyun_io.Infra.Json.{
  find, Member, value, get_next_object, get_object, is_asked, Search, missing, over_read, found,
  find_name, get_value_by_name,
}
use nu_maker_mbed_aliyun_io.Infra.Json.Members.{
  IsPlain, member, read_member, get_next_object-member, get_next_object-end, after_key, find-le,
}

-- An object of strings in front of a tail: what is behind a member, and the number of its characters.
unfoldable pub print_rest : List (List ℕ × List ℕ) → List ℕ → List ℕ
print_rest [] tail = b'}' ∷ tail
print_rest ((key, text) ∷ ms) tail = b',' ∷ member key text (print_rest ms tail)

unfoldable pub size_rest : List (List ℕ × List ℕ) → ℕ
size_rest [] = 1
size_rest ((key, text) ∷ ms) = 6 + (length key + length text) + size_rest ms

unfoldable pub print_object : List (List ℕ × List ℕ) → List ℕ → List ℕ
print_object [] tail = b'{' ∷ b'}' ∷ tail
print_object ((key, text) ∷ ms) tail = b'{' ∷ member key text (print_rest ms tail)

-- The first value under a name.
unfoldable pub first_value : List (List ℕ × List ℕ) → List ℕ → Option (List ℕ)
first_value [] name = none
first_value ((key, text) ∷ ms) name = if same_bytes key name then some text else first_value ms name

-- Names and values that are not empty and have no quote.
abbrev pub IsPlainMember : List ℕ × List ℕ → Type 0
IsPlainMember (key, text) = IsPlain key × IsPlain text × (0 < length key) × (0 < length text)

-- A search gives this value, or finds nothing.
abbrev pub Gives : Option (List ℕ) → Search → Type 0
Gives none s = s ≡ missing
Gives (some text) s = (m : Member) × (s ≡ found m) × (value m ≡ text)

pub find_name-by :
    (c : ℕ) (cs : List ℕ) (n rounds : ℕ) (name : List ℕ) (m : Member)
    → get_next_object (c ∷ cs) n ≡ some m
    → find_name (suc rounds) (c ∷ cs) n name ≡ (
        if is_asked name m
        then found m
        else if ltb (length (c ∷ cs)) m.next
        then over_read
        else find_name rounds (drop m.next (c ∷ cs)) (n - m.next) name)
unfolding find_name
find_name-by c cs n rounds name m e = rw (find_name, e) refl

pub length-member :
    (key text rest : List ℕ)
    → length (member key text rest) ≡ 5 + (length key + length text) + length rest
length-member key text rest =
    ground (arith, length-append key (after_key text rest), length-append text (b'"' ∷ rest))

drop-member :
    (c : ℕ) (key text rest : List ℕ)
    → drop (6 + (length key + length text)) (c ∷ member key text rest) ≡ rest
drop-member c key text rest =
    ap (λ k. drop k (c ∷ member key text rest)) (omega arith)
    ∙ drop-append_add (c ∷ b'"' ∷ []) (key ++ after_key text rest) 2
        (length key + (3 + (length text + 1))) refl
    ∙ drop-append_add key (after_key text rest) (length key) (3 + (length text + 1)) refl
    ∙ drop-append_add (b'"' ∷ b':' ∷ b'"' ∷ []) (text ++ b'"' ∷ rest) 3 (length text + 1) refl
    ∙ drop-append_add text (b'"' ∷ rest) (length text) 1 refl

is_asked-full :
    (key text rest name : List ℕ)
    → 0 < length key
    → 0 < length text
    → is_asked name (read_member key text rest) ≡ same_bytes key name
is_asked-full key text rest name full full' = ground arith

-- A round on a member, behind a separator.
find_name-member :
    (c : ℕ) (key text rest name : List ℕ) (left rounds : ℕ)
    → c ≢ b'"'
    → IsPlainMember (key, text)
    → find_name (suc rounds) (c ∷ member key text rest) (6 + (length key + length text) + left) name
      ≡ (if same_bytes key name
          then found (read_member key text rest)
          else find_name rounds rest left name)
find_name-member c key text rest name left rounds h (plain, plain', full, full') =
    find_name-by c (member key text rest) (6 + (length key + length text) + left) rounds name
      (read_member key text rest)
      (get_next_object-member c key text rest (6 + (length key + length text) + left) h plain plain'
        (omega arith))
    ∙ rw
        (
          is_asked-full key text rest name full full',
          le→ltb (length (c ∷ member key text rest)) (6 + (length key + length text))
              (omega (arith, length-member key text rest)),
          drop-member c key text rest,
          left_over,
        )
        refl
  where
    left_over : 6 + (length key + length text) + left - (6 + (length key + length text)) ≡ left
    left_over = omega arith

-- A member with the name ends the search, and else the others are searched.
Gives-member :
    (key text rest name : List ℕ) (later : Option (List ℕ)) (s : Search)
    → Gives later s
    → Gives
        (if same_bytes key name then some text else later)
        (if same_bytes key name then found (read_member key text rest) else s)
Gives-member key text rest name later s g = elim (Bool-cases (same_bytes key name)) [
  | inl same ↦
      rw same
        (read_member key text rest, refl, take-append_length text (b'"' ∷ rest) (length text) refl)
  | inr other ↦ rw other g
]

find_name-rest :
    (ms : List (List ℕ × List ℕ)) (tail name : List ℕ) (rounds : ℕ)
    → All IsPlainMember ms
    → length ms < rounds
    → Gives (first_value ms name) (find_name rounds (print_rest ms tail) (size_rest ms) name)
unfolding first_value find_name print_rest size_rest
find_name-rest [] tail name zero hs h = absurd (omega arith)
find_name-rest [] tail name (suc rounds) hs h =
    rw (find_name, get_next_object-end (b'}' ∷ tail) 1 (λ k q e. omega arith)) refl
find_name-rest (m ∷ ms) tail name zero hs h = absurd (omega arith)
find_name-rest ((key, text) ∷ ms) tail name (suc rounds) (plain, hs) h =
    subst (Gives (if same_bytes key name then some text else first_value ms name))
      (sym (
        find_name-member b',' key text (print_rest ms tail) name (size_rest ms) rounds (omega arith)
          plain))
      (Gives-member key text (print_rest ms tail) name (first_value ms name)
        (find_name rounds (print_rest ms tail) (size_rest ms) name)
        (find_name-rest ms tail name rounds hs (omega arith)))

pub length-print_rest :
    (ms : List (List ℕ × List ℕ)) (tail : List ℕ)
    → length (print_rest ms tail) ≡ size_rest ms + length tail
unfolding print_rest size_rest
length-print_rest [] tail = omega arith
length-print_rest ((key, text) ∷ ms) tail =
    ground (arith, length-member key text (print_rest ms tail), length-print_rest ms tail)

size_rest-members : (ms : List (List ℕ × List ℕ)) → length ms < size_rest ms
unfolding size_rest
size_rest-members [] = omega arith
size_rest-members (m ∷ ms) = omega (arith, size_rest-members ms)

get_value_by_name-empty :
    (tail name : List ℕ) → get_value_by_name (b'{' ∷ b'}' ∷ tail) 2 name ≡ missing
unfolding get_value_by_name get_object find_name find get_next_object
get_value_by_name-empty tail name =
    rw
      (get_next_object-end (b'{' ∷ b'}' ∷ tail) 2
        (λ k q e. omega (arith, find-le b'"' tail 2 k q e)))
      refl

pub get_value_by_name-by :
    (cs name : List ℕ) (n : ℕ)
    → 0 < n
    → get_value_by_name (b'{' ∷ cs) n name ≡ find_name (suc (suc (length cs))) (b'{' ∷ cs) n name
unfolding get_value_by_name get_object
get_value_by_name-by cs name n h = ground arith

-- Looking a name up in the text of an object of strings, its names and values not empty and without a
-- quote, gives the first value under the name, and nothing where there is none, whatever follows the
-- object in memory.
pub get_value_by_name-print :
    (ms : List (List ℕ × List ℕ)) (tail name : List ℕ)
    → All IsPlainMember ms
    → Gives
        (first_value ms name)
        (get_value_by_name (print_object ms tail) (length (print_object ms [])) name)
unfolding print_object first_value
get_value_by_name-print [] tail name hs = get_value_by_name-empty tail name
get_value_by_name-print ((key, text) ∷ ms) tail name (plain, hs) =
    subst (Gives (if same_bytes key name then some text else first_value ms name))
      (sym (
        ap (λ n. get_value_by_name (b'{' ∷ member key text (print_rest ms tail)) n name) size
        ∙ get_value_by_name-by (member key text (print_rest ms tail)) name
            (6 + (length key + length text) + size_rest ms) (omega arith)
        ∙ find_name-member b'{' key text (print_rest ms tail) name (size_rest ms)
            (suc (length (member key text (print_rest ms tail)))) (omega arith) plain))
      (Gives-member key text (print_rest ms tail) name (first_value ms name) _ (
        find_name-rest ms tail name (suc (length (member key text (print_rest ms tail)))) hs (
          omega (
            arith,
            length-member key text (print_rest ms tail),
            length-print_rest ms tail,
            size_rest-members ms,
          ))))
  where
    size :
        suc (length (member key text (print_rest ms [])))
        ≡ 6 + (length key + length text) + size_rest ms
    size = omega (arith, length-member key text (print_rest ms []), length-print_rest ms [])
