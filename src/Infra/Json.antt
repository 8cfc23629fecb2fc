-- ===== src/Infra/Json.antt =====
-- eng/infra/infra_json_parser.c: the value of a name in a JSON text, found in place.
-- A pointer into the text is the list of the characters from there to the terminator, with its distance
-- from where a call began; `n` is the distance of the end that the caller states. A call that returns
-- NULL is `none`.
pub mod Members
pub mod Lookup
pub mod Paths
pub mod Rounds
pub mod Nested
pub mod TwoNames
pub mod Runs
use nu_maker_mbed_aliyun_io.Base.{
  same_bytes, ℕ, zero, suc, ◌+◌, ◌-◌, Bool, true, false, ◌&&◌, ◌||◌, not, ltb, leb, ◌==◌,
  if◌then◌else◌, Option, none, some, List, [], ◌∷◌, length, take, drop,
}

-- enum JSONTYPE
pub data JsonType : Type 0 where
  json_string json_object json_array json_number json_boolean : JsonType

-- `strchr`: the place of the character, and the text from there.
unfoldable pub find : ℕ → List ℕ → ℕ → Option (ℕ × List ℕ)
find c [] k = none
find c (x ∷ xs) k = if x == c then some (k, x ∷ xs) else find c xs (suc k)

-- A value's type, where it begins, its text from there, and the text from where its end is looked for.
pub record Start : Type 0 where
  pub type : JsonType
  pub at : ℕ
  pub text : List ℕ
  pub pos : ℕ
  pub rest : List ℕ

abbrev start_at : JsonType → ℕ → ℕ → List ℕ → Start
start_at type k x xs = record { type = type; at = k; text = x ∷ xs; pos = suc k; rest = xs }

abbrev pub is_digit : ℕ → Bool
is_digit c = leb b'0' c && leb c b'9'

abbrev pub is_boolean_start : ℕ → Bool
is_boolean_start c = c == b't' || (c == b'T' || (c == b'f' || c == b'F'))

-- The first loop of json_get_next_object: a value begins at the first character that can begin one.
unfoldable pub value_start : List ℕ → ℕ → ℕ → Option Start
value_start [] k n = none
value_start (x ∷ xs) k n =
    let later = value_start xs (suc k) n in
    if leb n k
    then none
    else if x == b'"'
    then some (record { type = json_string; at = suc k; text = xs; pos = suc k; rest = xs })
    else if x == b'{'
    then some (start_at json_object k x xs)
    else if x == b'['
    then some (start_at json_array k x xs)
    else if x == b'-' || is_digit x
    then some (start_at json_number k x xs)
    else if is_boolean_start x
    then some (record { type = json_boolean; at = k; text = x ∷ xs; pos = k; rest = x ∷ xs })
    else later

-- The second loop, by the type; `l` counts the characters of the value, and 0 is left where its end is
-- not found.
unfoldable pub string_len : List ℕ → ℕ → ℕ → ℕ → ℕ
string_len [] k n l = 0
string_len (x ∷ xs) k n l =
    let later = string_len xs (suc k) n (suc l) in
    if leb n k then 0 else if x == b'"' then l else later

abbrev pub in_number : ℕ → Bool
in_number c = is_digit c || (c == b'.' || (c == b'+' || (c == b'-' || (c == b'e' || c == b'E'))))

unfoldable pub number_len : List ℕ → ℕ → ℕ → ℕ → ℕ
number_len [] k n l = 0
number_len (x ∷ xs) k n l =
    let later = number_len xs (suc k) n (suc l) in
    if leb n k then 0 else if not (in_number x) then l else later

-- A mark counts outside of strings only.
unfoldable pub nested_len : ℕ → ℕ → List ℕ → ℕ → ℕ → ℕ → ℕ → Bool → ℕ
nested_len begin_mark end_mark [] k n l depth quoted = 0
nested_len begin_mark end_mark (x ∷ xs) k n l depth quoted =
    let closes = x == end_mark && not quoted in
    let opens = not (x == end_mark) && (x == begin_mark && not quoted) in
    let quotes = not (x == end_mark) && (not (x == begin_mark) && x == b'"') in
    let later =
      nested_len begin_mark end_mark xs (suc k) n (suc l)
        (if closes then depth - 1 else if opens then depth + 1 else depth)
        (if quotes then not quoted else quoted) in
    if leb n k then 0 else if closes && depth == 0 then suc l else later

abbrev pub text_true : List ℕ
text_true = b't' ∷ b'r' ∷ b'u' ∷ b'e' ∷ []

abbrev pub text_upper_true : List ℕ
text_upper_true = b'T' ∷ b'R' ∷ b'U' ∷ b'E' ∷ []

abbrev pub text_false : List ℕ
text_false = b'f' ∷ b'a' ∷ b'l' ∷ b's' ∷ b'e' ∷ []

abbrev pub text_upper_false : List ℕ
text_upper_false = b'F' ∷ b'A' ∷ b'L' ∷ b'S' ∷ b'E' ∷ []

unfoldable pub boolean_len : List ℕ → ℕ → ℕ → ℕ
boolean_len text k n =
    if leb n k
    then 0
    else if same_bytes (take 4 text) text_true || same_bytes (take 4 text) text_upper_true
    then 4
    else if same_bytes (take 5 text) text_false || same_bytes (take 5 text) text_upper_false
    then 5
    else 0

unfoldable pub value_len : JsonType → Start → ℕ → ℕ
value_len json_string v n = string_len v.rest v.pos n 0
value_len json_object v n = nested_len b'{' b'}' v.rest v.pos n 1 0 false
value_len json_array v n = nested_len b'[' b']' v.rest v.pos n 1 0 false
value_len json_number v n = number_len v.rest v.pos n 1
value_len json_boolean v n = boolean_len v.text v.pos n

-- A name, the text from where its value begins with the value's length, and how far the call went.
pub record Member : Type 0 where
  pub key : List ℕ
  pub from : List ℕ
  pub len : ℕ
  pub type : JsonType
  pub next : ℕ

abbrev pub value : Member → List ℕ
value m = take m.len m.from

abbrev pub past_quote : JsonType → ℕ
past_quote json_string = 1
past_quote _ = 0

unfoldable pub with_value : List ℕ → ℕ → Start → ℕ → Option Member
with_value key n v len =
    if ltb n (v.at + len)
    then none
    else some (record {
      key = key;
      from = v.text;
      len = len;
      type = v.type;
      next = v.at + len + past_quote v.type;
    })

unfoldable pub with_key : List ℕ → ℕ → ℕ → List ℕ → Option Member
with_key key end_of_key n q = elim (find b':' q end_of_key) [
  | none ↦ none
  | some (k, after) ↦ elim (value_start after k n) [
    | none ↦ none
    | some v ↦ if ltb n end_of_key then none else with_value key n v (value_len v.type v n)
  ]
]

-- json_get_next_object for an object.
unfoldable pub get_next_object : List ℕ → ℕ → Option Member
get_next_object cs n = elim (find b'"' cs 0) [
  | none ↦ none
  | some (k, q) ↦ elim (find b'"' (drop 1 q) (suc k)) [
    | none ↦ none
    | some (k', q') ↦ with_key (take (k' - suc k) (drop 1 q)) k' n q'
  ]
]

-- json_get_object for an object: behind spaces, the text from the opening brace.
unfoldable pub get_object : List ℕ → ℕ → Option (List ℕ × ℕ)
get_object [] n = none
get_object (x ∷ xs) n =
    let later = get_object xs (n - 1) in
    if n == 0
    then none
    else if x == b' '
    then later
    else if x == b'{'
    then some (x ∷ xs, n)
    else none

-- The callback of json_get_value_by_name, on a name and a value that are not empty.
abbrev pub is_asked : List ℕ → Member → Bool
is_asked name m = not (length m.key == 0) && (not (m.len == 0) && same_bytes m.key name)

-- A search finds the name or not, or goes on behind the terminator: a text may end with the quote that
-- opens a value.
pub data Search : Type 0 where
  missing over_read : Search
  found : Member → Search

-- json_object_for_each_kv with that callback; a call goes on behind two quotes at least, so one round
-- for each character and one more are enough.
unfoldable pub find_name : ℕ → List ℕ → ℕ → List ℕ → Search
find_name zero cs n name = missing
find_name (suc rounds) [] n name = missing
find_name (suc rounds) (c ∷ cs) n name = elim (get_next_object (c ∷ cs) n) [
  | none ↦ missing
  | some m ↦
      let later = find_name rounds (drop m.next (c ∷ cs)) (n - m.next) name in
      if is_asked name m then found m else if ltb (length (c ∷ cs)) m.next then over_read else later
]

-- json_get_value_by_name_len, and json_get_value_by_name with the length of the name: the name in the
-- first `n` characters.
unfoldable pub get_value_by_name : List ℕ → ℕ → List ℕ → Search
get_value_by_name text n name = if n == 0 then missing else elim (get_object text n) [
  | none ↦ missing
  | some (cs, left) ↦ find_name (suc (length cs)) cs left name
]

-- The first name of a path of names with dots between, and the names behind it.
unfoldable pub split_path : List ℕ → List ℕ × List (List ℕ)
split_path [] = ([], [])
split_path (c ∷ cs) =
    let (name, names) = split_path cs in if c == b'.' then ([], name ∷ names) else (c ∷ name, names)

abbrev pub copied : Bool → Member → Search
copied alloc m = if alloc then found m else missing

-- Each name but the last is looked up for the object that holds the next one.
unfoldable pub value_in : Bool → List ℕ → ℕ → List ℕ → List (List ℕ) → Search
value_in alloc text n name [] = elim (get_value_by_name text n name) [
  | missing ↦ missing
  | over_read ↦ over_read
  | found m ↦ copied alloc m
]
value_in alloc text n name (name' ∷ names) = elim (get_value_by_name text n name) [
  | missing ↦ missing
  | over_read ↦ over_read
  | found m ↦ value_in alloc m.from m.len name' names
]

-- LITE_json_value_of, the outcome of its allocation given.
unfoldable pub json_value_of : Bool → List ℕ → List ℕ → Search
json_value_of alloc key text =
    let (name, names) = split_path key in value_in alloc text (length text) name names
