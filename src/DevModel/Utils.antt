-- ===== src/DevModel/Utils.antt =====
-- eng/dev_model/dm_utils.c: the text helpers of the device model. Text is a list of character codes; the
-- length argument is the list's length. A pointer that is checked for NULL is an Option, `empty` says
-- that the caller's result pointer is NULL and `alloc` that the allocation succeeds.
pub mod Texts
use nu_maker_mbed_aliyun_io.Base.{
  ℕ, zero, suc, ◌+◌, ◌-◌, ◌*◌, ◌/◌, ◌%◌, Bool, true, false, ◌&&◌, ◌||◌, not, ltb, leb, ◌==◌,
  if◌then◌else◌, Option, none, some, List, [], ◌∷◌, ◌++◌, length, take, drop, replicate,
}
use nu_maker_mbed_aliyun_io.DevModel.State.{
  State, success_return, fail_return, user_input_invalid, malloc_failed, url_split_failed,
}

-- `output_len` zeroed bytes, the first of which are the input's; the callers give no smaller length than
-- the input's.
unfoldable pub copy : Bool → Bool → Option (List ℕ) → ℕ → State × Option (List ℕ)
copy alloc empty none output_len = (user_input_invalid, none)
copy alloc empty (some input) output_len =
    if not empty
    then (user_input_invalid, none)
    else if not alloc
    then (malloc_failed, none)
    else (success_return, some (input ++ drop (length input) (replicate output_len 0)))

-- One half byte as a digit.
unfoldable pub digit_of : ℕ → ℕ
digit_of iter_char = if leb iter_char 9 then iter_char + b'0' else iter_char + (b'A' - 10)

unfoldable pub hex_digits : List ℕ → List ℕ
hex_digits [] = []
hex_digits (b ∷ bs) = digit_of (b / 16 % 16) ∷ digit_of (b % 16) ∷ hex_digits bs

unfoldable pub hex_to_str : Bool → Bool → Option (List ℕ) → State × Option (List ℕ)
hex_to_str alloc empty none = (user_input_invalid, none)
hex_to_str alloc empty (some input) =
    if length input == 0 || not empty
    then (user_input_invalid, none)
    else if not alloc
    then (malloc_failed, none)
    else (success_return, some (hex_digits input))

-- The value left in `iter_char` by a character: any other than a digit or A to F leaves the last one.
unfoldable pub next_value : ℕ → ℕ → ℕ
next_value iter_char c =
    if leb b'0' c && leb c b'9'
    then c - b'0'
    else if leb b'A' c && leb c b'F'
    then c - b'A' + 10
    else iter_char

-- The two halves of a byte do not overlap.
unfoldable pub hex_values : ℕ → List ℕ → List ℕ
hex_values iter_char [] = []
hex_values iter_char (c ∷ []) = []
hex_values iter_char (c0 ∷ c1 ∷ cs) =
    let high = next_value iter_char c0 in
    let low = next_value high c1 in (high % 16 * 16 + low % 16) ∷ hex_values low cs

unfoldable pub str_to_hex : Bool → Bool → Option (List ℕ) → State × Option (List ℕ)
str_to_hex alloc empty none = (user_input_invalid, none)
str_to_hex alloc empty (some input) =
    if length input == 0 || (not (length input % 2 == 0) || not empty)
    then (user_input_invalid, none)
    else if not alloc
    then (malloc_failed, none)
    else (success_return, some (hex_values 0 input))

-- The loop of dm_utils_memtok at the position `item_index`, on the characters from there.
unfoldable pub memtok_from : ℕ → ℕ → ℕ → ℕ → List ℕ → Option ℕ
memtok_from delimiter index item_index count [] = none
memtok_from delimiter index item_index count (c ∷ cs) =
    let hit = c == delimiter && ltb 0 (length cs) in
    let rest = memtok_from delimiter index (suc item_index) (if hit then suc count else count) cs in
    if hit && suc count == index then some item_index else rest

unfoldable pub memtok : Option (List ℕ) → ℕ → ℕ → State × Option ℕ
memtok none delimiter index = (user_input_invalid, none)
memtok (some input) delimiter index =
    if length input == 0
    then (user_input_invalid, none)
    else elim (memtok_from delimiter index 0 0 input) [
      | none ↦ (url_split_failed, none)
      | some offset ↦ (success_return, some offset)
    ]

unfoldable pub replace_all : ℕ → ℕ → List ℕ → List ℕ
replace_all src dest [] = []
replace_all src dest (c ∷ cs) = (if c == src then dest else c) ∷ replace_all src dest cs

-- The text is changed in place.
unfoldable pub replace_char : List ℕ → ℕ → ℕ → State × List ℕ
replace_char [] src dest = (user_input_invalid, [])
replace_char (c ∷ cs) src dest = (success_return, replace_all src dest (c ∷ cs))

unfoldable pub uri_add_prefix :
    Bool → Bool → Option (List ℕ) → Option (List ℕ) → State × Option (List ℕ)
uri_add_prefix alloc empty (some prefix) (some uri) =
    if not empty
    then (user_input_invalid, none)
    else if not alloc
    then (malloc_failed, none)
    else (success_return, some (prefix ++ uri))
uri_add_prefix alloc empty _ _ = (user_input_invalid, none)

-- The scan of dm_utils_strarr_index over the characters from `index`: the depth, the character before,
-- and the first brackets found; none where the code returns FAIL_RETURN.
unfoldable pub scan_brackets :
    ℕ → Bool → Bool → Option ℕ → Option ℕ → List ℕ → Option (Option ℕ × Option ℕ)
scan_brackets index inside opened pre suf [] = some (pre, suf)
scan_brackets index inside opened pre suf (c ∷ cs) =
    let first : Option ℕ → Option ℕ = λ seen. elim seen [ none ↦ some index | some i ↦ some i ] in
    let is_open = c == b'[' in
    let is_close = c == b']' in
    let next =
      scan_brackets (suc index) (if is_open then true else if is_close then false else inside)
        is_open (if is_open then first pre else pre) (if is_close then first suf else suf) cs in
    if is_open
    then if inside then none else next
    else if is_close
    then if not inside || opened then none else next
    else next

-- The lengths of the name and of the whole, and the index; `atoi` is a parameter. What a failed call has
-- stored is not shown.
unfoldable pub strarr_index : (List ℕ → ℕ) → Option (List ℕ) → State × Option (ℕ × ℕ × ℕ)
strarr_index atoi none = (user_input_invalid, none)
strarr_index atoi (some input) =
    if leb (length input) 1
    then (user_input_invalid, none)
    else elim (scan_brackets 0 false false none none input) [
      | none ↦ (fail_return, none)
      | some (some pre, some suf) ↦
          if not (suf + 1 == length input) || ltb 10 (suf - pre - 1) then (fail_return, none) else (
            success_return,
            some (pre, suf + 1, atoi (take (suf - pre - 1) (drop (pre + 1) input))),
          )
      | some _ ↦ (fail_return, none)
    ]
