-- ===== src/Infra/Json/Paths.antt =====
-- The value that LITE_json_value_of takes from a text.
use nu_maker_mbed_aliyun_io.Base.{
  ℕ, suc, ◌+◌, ◌-◌, ◌≡◌, ◌≢◌, refl, sym, ap, subst, ◌∙◌, arith, true, false, some, List, [], ◌∷◌,
  ◌++◌, length, length-append, All, take-append_length, le→ltb, lt→ltb,
}
use nu_maker_mbed_aliyun_io.Infra.Json.{
  json_string, string_len, value_len, Member, with_value, with_key, get_next_object, is_asked,
  Search, missing, over_read, found, get_value_by_name, split_path, value_in, json_value_of,
}
use nu_maker_mbed_aliyun_io.Infra.Json.Members.{
  IsPlain, find-first, with_key-by, get_next_object-by, value_start-quote, string_start,
}
use nu_maker_mbed_aliyun_io.Infra.Json.Lookup.{
  print_object, first_value, IsPlainMember, Gives, get_value_by_name-print, get_value_by_name-by,
  find_name-by,
}

-- A path of one name has no dot.
pub split_path-name : (name : List ℕ) → All (λ c. c ≢ b'.') name → split_path name ≡ (name, [])
unfolding split_path
split_path-name [] h = refl
split_path-name (c ∷ cs) (h, hs) = ground (arith, h, split_path-name cs hs)

pub value_in-name :
    (text : List ℕ) (n : ℕ) (name : List ℕ)
    → value_in true text n name [] ≡ get_value_by_name text n name
unfolding value_in
value_in-name text n name = go (get_value_by_name text n name)
  where
    go :
        (s : Search)
        → (elim s [ missing ↦ missing | over_read ↦ over_read | found m ↦ found m ]) ≡ s
    go missing = refl
    go over_read = refl
    go (found m) = refl

json_value_of-name :
    (name text : List ℕ)
    → All (λ c. c ≢ b'.') name
    → json_value_of true name text ≡ get_value_by_name text (length text) name
unfolding json_value_of
json_value_of-name name text h =
    rw (json_value_of, split_path-name name h) (value_in-name text (length text) name)

-- LITE_json_value_of on a name without a dot and the text of an object of strings, where the allocation
-- succeeds: the first value under the name, and nothing where there is none.
pub json_value_of-print :
    (ms : List (List ℕ × List ℕ)) (name : List ℕ)
    → All IsPlainMember ms
    → All (λ c. c ≢ b'.') name
    → Gives (first_value ms name) (json_value_of true name (print_object ms []))
json_value_of-print ms name hs h =
    subst (Gives (first_value ms name)) (sym (json_value_of-name name (print_object ms []) h))
      (get_value_by_name-print ms [] name hs)

-- A text that ends with the quote that opens the value of a first member.
abbrev open_value : List ℕ → List ℕ
open_value key = b'"' ∷ key ++ b'"' ∷ b':' ∷ b'"' ∷ []

open_member : List ℕ → Member
open_member key = record {
  key = key;
  from = [];
  len = 0;
  type = json_string;
  next = 6 + length key;
}

with_key-open :
    (key : List ℕ)
    → with_key key (2 + length key) (5 + length key) (b'"' ∷ b':' ∷ b'"' ∷ [])
      ≡ some (open_member key)
unfolding value_len with_value string_len open_member
with_key-open key =
    with_key-by key (b'"' ∷ b':' ∷ b'"' ∷ []) (b':' ∷ b'"' ∷ []) (2 + length key) (5 + length key)
      (3 + length key) (string_start (5 + length key) [])
      (find-first b':' (b'"' ∷ []) (b'"' ∷ []) (2 + length key) ((omega arith), tt)
        ∙ ap (λ k. some (k, b':' ∷ b'"' ∷ [])) (omega arith))
      (value_start-quote [] (3 + length key) (5 + length key) (omega arith)
        ∙ ap (λ k. some (string_start k [])) (omega arith))
      (omega arith)
    ∙ rw (with_value, le→ltb (5 + length key) (5 + length key + 0) (omega arith))
        (ap (λ j. some (record { key = key; from = []; len = 0; type = json_string; next = j }))
          (omega arith))

get_next_object-open :
    (key : List ℕ)
    → IsPlain key
    → get_next_object (b'{' ∷ open_value key) (5 + length key) ≡ some (open_member key)
get_next_object-open key plain =
    get_next_object-by (b'{' ∷ open_value key) (open_value key) (b'"' ∷ b':' ∷ b'"' ∷ [])
      (5 + length key) 1 (2 + length key)
      (find-first b'"' (b'{' ∷ []) (key ++ b'"' ∷ b':' ∷ b'"' ∷ []) 0 ((omega arith), tt))
      (find-first b'"' key (b':' ∷ b'"' ∷ []) 2 plain)
    ∙ ap (λ t. with_key t (2 + length key) (5 + length key) (b'"' ∷ b':' ∷ b'"' ∷ []))
        (take-append_length key (b'"' ∷ b':' ∷ b'"' ∷ []) (2 + length key - 2) (omega arith))
    ∙ with_key-open key

is_asked-open : (key name : List ℕ) → is_asked name (open_member key) ≡ false
unfolding open_member
is_asked-open key name = ground arith

length-open_value : (key : List ℕ) → length (open_value key) ≡ 4 + length key
length-open_value key = ground (arith, length-append key (b'"' ∷ b':' ∷ b'"' ∷ []))

-- Whatever name without a dot is looked up in a text that ends with the quote that opens the value of
-- its first member, whose name has no quote, and has no white space around its marks, the search reads behind the terminator of the text.
pub json_value_of-over_read :
    (key name : List ℕ)
    → IsPlain key
    → All (λ c. c ≢ b'.') name
    → json_value_of true name (b'{' ∷ open_value key) ≡ over_read
unfolding open_member
json_value_of-over_read key name plain h =
    json_value_of-name name (b'{' ∷ open_value key) h
    ∙ get_value_by_name-by (open_value key) name (suc (length (open_value key))) (omega arith)
    ∙ find_name-by b'{' (open_value key) (suc (length (open_value key)))
        (suc (length (open_value key))) name (open_member key)
        (ap (get_next_object (b'{' ∷ open_value key)) (omega (arith, length-open_value key))
          ∙ get_next_object-open key plain)
    ∙ rw
        (
          is_asked-open key name,
          lt→ltb (length (b'{' ∷ open_value key)) (6 + length key)
              (omega (arith, length-open_value key)),
        )
        refl
