-- ===== src/Infra/Json/Nested.antt =====
-- Where an object that is a value ends, and the calls for a path of two names.
use nu_maker_mbed_aliyun_io.Base.{
  ℕ, suc, ◌+◌, ◌≤◌, ◌<◌, ◌≡◌, ◌≢◌, refl, ap, ◌∙◌, arith, Bool, true, false, some, List, [], ◌∷◌,
  ◌++◌, length, All,
}
use nu_maker_mbed_aliyun_io.Infra.Json.{
  start_at, json_object, value_start, nested_len, Member, found, get_value_by_name, split_path,
  value_in,
}
use nu_maker_mbed_aliyun_io.Infra.Json.Members.{IsPlain, member}
use nu_maker_mbed_aliyun_io.Infra.Json.Lookup.{
  print_rest, size_rest, print_object, IsPlainMember, length-print_rest, length-member,
}
use nu_maker_mbed_aliyun_io.Infra.Json.Paths.{value_in-name, split_path-name}

-- The end of an object, from a place in it.
abbrev pub end_len : List ℕ → ℕ → ℕ → ℕ → Bool → ℕ
end_len xs k n l quoted = nested_len b'{' b'}' xs k n l 0 quoted

end_len-quoted :
    (text ys : List ℕ) (k n l : ℕ)
    → IsPlain text
    → k + length text < n
    → end_len (text ++ b'"' ∷ ys) k n l true
      ≡ end_len ys (1 + (k + length text)) n (1 + (l + length text)) false
unfolding nested_len
end_len-quoted [] ys k n l h short = ground arith
end_len-quoted (x ∷ xs) ys k n l (e, h) short =
    ground (arith, e, end_len-quoted xs ys (suc k) n (suc l) h (omega arith))

end_len-string :
    (text ys : List ℕ) (k n l : ℕ)
    → IsPlain text
    → k + 1 + length text < n
    → end_len (b'"' ∷ text ++ b'"' ∷ ys) k n l false
      ≡ end_len ys (2 + (k + length text)) n (2 + (l + length text)) false
unfolding nested_len
end_len-string text ys k n l h short =
    ground (arith, end_len-quoted text ys (suc k) n (suc l) h (omega arith))

end_len-mark :
    (c : ℕ) (ys : List ℕ) (k n l : ℕ)
    → c ≢ b'"'
    → c ≢ b'{'
    → c ≢ b'}'
    → k < n
    → end_len (c ∷ ys) k n l false ≡ end_len ys (suc k) n (suc l) false
unfolding nested_len
end_len-mark c ys k n l h h' h'' short = ground (arith, h, h', h'')

end_len-close : (ys : List ℕ) (k n l : ℕ) → k < n → end_len (b'}' ∷ ys) k n l false ≡ suc l
unfolding nested_len
end_len-close ys k n l short = ground arith

-- The end of an object is looked for behind its members: each passes by its own length.
end_len-member :
    (key text rest : List ℕ) (k n l : ℕ)
    → IsPlain key
    → IsPlain text
    → k + (5 + (length key + length text)) ≤ n
    → end_len (member key text rest) k n l false
      ≡ end_len rest
          (k + (5 + (length key + length text)))
          n
          (l + (5 + (length key + length text)))
          false
end_len-member key text rest k n l h h' short =
    end_len-string key (b':' ∷ b'"' ∷ text ++ b'"' ∷ rest) k n l h (omega arith)
    ∙ end_len-mark b':' (b'"' ∷ text ++ b'"' ∷ rest) (2 + (k + length key)) n (2 + (l + length key))
        (omega arith) (omega arith) (omega arith) (omega arith)
    ∙ end_len-string text rest (suc (2 + (k + length key))) n (suc (2 + (l + length key))) h'
        (omega arith)
    ∙ ap (λ j. end_len rest j n (2 + (suc (2 + (l + length key)) + length text)) false)
        (omega arith)
    ∙ ap (λ j. end_len rest (k + (5 + (length key + length text))) n j false) (omega arith)

end_len-rest :
    (ms : List (List ℕ × List ℕ)) (tail : List ℕ) (k n l : ℕ)
    → All IsPlainMember ms
    → k + size_rest ms ≤ n
    → end_len (print_rest ms tail) k n l false ≡ l + size_rest ms
unfolding print_rest size_rest
end_len-rest [] tail k n l hs short = end_len-close tail k n l (omega arith) ∙ omega arith
end_len-rest ((key, text) ∷ ms) tail k n l ((h, h', full, full'), hs) short =
    end_len-mark b',' (member key text (print_rest ms tail)) k n l (omega arith) (omega arith)
      (omega arith) (omega arith)
    ∙ end_len-member key text (print_rest ms tail) (suc k) n (suc l) h h' (omega arith)
    ∙ end_len-rest ms tail (suc k + (5 + (length key + length text))) n
        (suc l + (5 + (length key + length text))) hs (omega arith)
    ∙ omega arith

-- The text of an object behind its brace.
unfoldable pub print_body : List (List ℕ × List ℕ) → List ℕ → List ℕ
print_body [] tail = b'}' ∷ tail
print_body ((key, text) ∷ ms) tail = member key text (print_rest ms tail)

pub print_object-body :
    (ms : List (List ℕ × List ℕ)) (tail : List ℕ) → print_object ms tail ≡ b'{' ∷ print_body ms tail
unfolding print_object print_body
print_object-body [] tail = refl
print_object-body (m ∷ ms) tail = refl

pub length-print_body :
    (ms : List (List ℕ × List ℕ)) (tail : List ℕ)
    → length (print_body ms tail) ≡ length (print_body ms []) + length tail
unfolding print_body
length-print_body [] tail = omega arith
length-print_body ((key, text) ∷ ms) tail = omega (
  arith,
  length-member key text (print_rest ms tail),
  length-member key text (print_rest ms []),
  length-print_rest ms tail,
  length-print_rest ms [],
)

pub end_len-body :
    (ms : List (List ℕ × List ℕ)) (tail : List ℕ) (k n l : ℕ)
    → All IsPlainMember ms
    → k + length (print_body ms []) ≤ n
    → end_len (print_body ms tail) k n l false ≡ l + length (print_body ms [])
unfolding print_body
end_len-body [] tail k n l hs short = end_len-close tail k n l (omega arith) ∙ omega arith
end_len-body ((key, text) ∷ ms) tail k n l ((h, h', full, full'), hs) short =
    end_len-member key text (print_rest ms tail) k n l h h' (omega (arith, size))
    ∙ end_len-rest ms tail (k + (5 + (length key + length text))) n
        (l + (5 + (length key + length text))) hs (omega (arith, size))
    ∙ omega (arith, size)
  where
    size :
        length (member key text (print_rest ms [])) ≡ 5 + (length key + length text) + size_rest ms
    size = omega (arith, length-member key text (print_rest ms []), length-print_rest ms [])

pub value_start-brace :
    (body : List ℕ) (k n : ℕ)
    → suc k < n
    → value_start (b':' ∷ b'{' ∷ body) k n ≡ some (start_at json_object (suc k) b'{' body)
unfolding value_start
value_start-brace body k n h = ground arith

-- A path of two names has one dot.
pub split_path-two :
    (key name : List ℕ)
    → All (λ c. c ≢ b'.') key
    → All (λ c. c ≢ b'.') name
    → split_path (key ++ b'.' ∷ name) ≡ (key, name ∷ [])
unfolding split_path
split_path-two [] name h h' = rw (split_path-name name h') refl
split_path-two (c ∷ cs) name (e, h) h' = ground (arith, e, split_path-two cs name h h')

pub value_in-path :
    (text : List ℕ) (n : ℕ) (key name : List ℕ) (m : Member)
    → get_value_by_name text n key ≡ found m
    → value_in true text n key (name ∷ []) ≡ get_value_by_name m.from m.len name
unfolding value_in
value_in-path text n key name m e = rw (value_in, e) (value_in-name m.from m.len name)
