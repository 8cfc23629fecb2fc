-- ===== src/Infra/Json/TwoNames.antt =====
-- The value of a path of two names: an object within an object.
use nu_maker_mbed_aliyun_io.Base.{
  same_bytes_refl, ℕ, suc, ◌+◌, ◌-◌, ◌≤◌, ◌<◌, ◌≡◌, ◌≢◌, refl, sym, ap, subst, ◌∙◌, arith, true,
  false, some, List, [], ◌∷◌, ◌++◌, length, length-append, take-append_length, All, le→ltb,
}
use nu_maker_mbed_aliyun_io.Infra.Json.{
  start_at, json_object, value_len, Member, with_value, with_key, get_next_object, is_asked, found,
  get_value_by_name, json_value_of,
}
use nu_maker_mbed_aliyun_io.Infra.Json.Members.{
  IsPlain, find-first, with_key-by, get_next_object-by,
}
use nu_maker_mbed_aliyun_io.Infra.Json.Lookup.{
  print_object, first_value, IsPlainMember, Gives, get_value_by_name-print, get_value_by_name-by,
  find_name-by,
}
use nu_maker_mbed_aliyun_io.Infra.Json.Nested.{
  end_len, print_body, print_object-body, length-print_body, end_len-body, value_start-brace,
  split_path-two, value_in-path,
}

-- The text of an object with one member, which is an object.
abbrev pub print_nested : List ℕ → List (List ℕ × List ℕ) → List ℕ
print_nested key ms = b'{' ∷ b'"' ∷ key ++ b'"' ∷ b':' ∷ print_object ms (b'}' ∷ [])

-- From the place behind the brace on, for what stands behind the inner brace.
abbrev nest : List ℕ → List ℕ → List ℕ
nest key body = b'"' ∷ key ++ b'"' ∷ b':' ∷ b'{' ∷ body

read_nested : List ℕ → List ℕ → ℕ → Member
read_nested key body len = record {
  key = key;
  from = b'{' ∷ body;
  len = suc len;
  type = json_object;
  next = 5 + (length key + len);
}

-- Where the inner object ends is known, the call reads it.
module _ (key body : List ℕ) (len n : ℕ) (plain : IsPlain key) (fits : 5 + (length key + len) ≤ n)
    (ends : end_len body (5 + length key) n 1 false ≡ suc len) where
  with_key-nested :
      with_key key (2 + length key) n (b'"' ∷ b':' ∷ b'{' ∷ body) ≡ some (read_nested key body len)
  unfolding value_len with_value read_nested
  with_key-nested =
      with_key-by key (b'"' ∷ b':' ∷ b'{' ∷ body) (b':' ∷ b'{' ∷ body) (2 + length key) n
        (3 + length key) (start_at json_object (4 + length key) b'{' body)
        (find-first b':' (b'"' ∷ []) (b'{' ∷ body) (2 + length key) ((omega arith), tt)
          ∙ ap (λ k. some (k, b':' ∷ b'{' ∷ body)) (omega arith))
        (value_start-brace body (3 + length key) n (omega arith)
          ∙ ap (λ k. some (start_at json_object k b'{' body)) (omega arith))
        (omega arith)
      ∙ ap (with_value key n (start_at json_object (4 + length key) b'{' body))
          (ap (λ k. end_len body k n 1 false) (omega arith) ∙ ends)
      ∙ rw (with_value, le→ltb n (4 + length key + suc len) (omega arith))
          (ap
            (λ j. some (record {
              key = key;
              from = b'{' ∷ body;
              len = suc len;
              type = json_object;
              next = j;
            }))
            (omega arith))

  get_next_object-nested :
      get_next_object (b'{' ∷ nest key body) n ≡ some (read_nested key body len)
  get_next_object-nested =
      get_next_object-by (b'{' ∷ nest key body) (nest key body) (b'"' ∷ b':' ∷ b'{' ∷ body) n 1
        (2 + length key)
        (find-first b'"' (b'{' ∷ []) (key ++ b'"' ∷ b':' ∷ b'{' ∷ body) 0 ((omega arith), tt))
        (find-first b'"' key (b':' ∷ b'{' ∷ body) 2 plain)
      ∙ ap (λ t. with_key t (2 + length key) n (b'"' ∷ b':' ∷ b'{' ∷ body))
          (take-append_length key (b'"' ∷ b':' ∷ b'{' ∷ body) (2 + length key - 2) (omega arith))
      ∙ with_key-nested

  is_asked-nested : 0 < length key → is_asked key (read_nested key body len) ≡ true
  unfolding read_nested
  is_asked-nested full = ground (arith, same_bytes_refl key)

  get_value_by_name-nested :
      0 < length key
      → get_value_by_name (b'{' ∷ nest key body) n key ≡ found (read_nested key body len)
  get_value_by_name-nested full =
      get_value_by_name-by (nest key body) key n (omega arith)
      ∙ find_name-by b'{' (nest key body) n (suc (length (nest key body))) key
          (read_nested key body len) get_next_object-nested
      ∙ rw (is_asked-nested full) refl

length-print_nested :
    (key : List ℕ) (ms : List (List ℕ × List ℕ))
    → length (print_nested key ms) ≡ 6 + (length key + length (print_body ms []))
length-print_nested key ms = ground (
  arith,
  length-append key (b'"' ∷ b':' ∷ print_object ms (b'}' ∷ [])),
  ap length (print_object-body ms (b'}' ∷ [])),
  length-print_body ms (b'}' ∷ []),
)

-- LITE_json_value_of on two names with a dot between, both without a dot of their own, where the
-- allocation succeeds and the text is an object whose one member, under the first name, is an object of
-- strings; the names and values are not empty and have no quote. It gives the first value of the inner
-- object under the second name, and nothing where there is none.
pub json_value_of-nested :
    (key : List ℕ) (ms : List (List ℕ × List ℕ)) (name : List ℕ)
    → IsPlain key
    → 0 < length key
    → All (λ c. c ≢ b'.') key
    → All IsPlainMember ms
    → All (λ c. c ≢ b'.') name
    → Gives (first_value ms name) (json_value_of true (key ++ b'.' ∷ name) (print_nested key ms))
unfolding json_value_of read_nested
json_value_of-nested key ms name plain full h hs h' =
    rw (json_value_of, split_path-two key name h h')
      (subst (Gives (first_value ms name))
        (sym (
          value_in-path (print_nested key ms) (length (print_nested key ms)) key name
            (read_nested key (print_body ms (b'}' ∷ [])) (length (print_body ms []))) looked_up
          ∙ ap (λ t. get_value_by_name t (suc (length (print_body ms []))) name)
              (sym (print_object-body ms (b'}' ∷ [])))
          ∙ ap (λ n. get_value_by_name (print_object ms (b'}' ∷ [])) n name)
              (ap length (sym (print_object-body ms [])))))
        (get_value_by_name-print ms (b'}' ∷ []) name hs))
  where
    looked_up :
        get_value_by_name (print_nested key ms) (length (print_nested key ms)) key
        ≡ found (read_nested key (print_body ms (b'}' ∷ [])) (length (print_body ms [])))
    looked_up =
        ap
          (λ t.
            get_value_by_name (b'{' ∷ b'"' ∷ key ++ b'"' ∷ b':' ∷ t) (length (print_nested key ms))
              key)
          (print_object-body ms (b'}' ∷ []))
        ∙ get_value_by_name-nested key (print_body ms (b'}' ∷ [])) (length (print_body ms []))
            (length (print_nested key ms)) plain (omega (arith, length-print_nested key ms))
            (end_len-body ms (b'}' ∷ []) (5 + length key) (length (print_nested key ms)) 1 hs
                (omega (arith, length-print_nested key ms))
              ∙ omega arith)
            full
