-- ===== src/Infra/Json/Runs.antt =====
-- Runs of the look-up of names in JSON texts.
use nu_maker_mbed_aliyun_io.Base.{
  ℕ, ◌≡◌, refl, arith, true, Option, none, some, List, [], ◌∷◌, length,
}
use nu_maker_mbed_aliyun_io.Infra.Json.{
  Search, find, find_name, found, get_next_object, get_object, get_value_by_name, json_value_of,
  missing, nested_len, number_len, over_read, split_path, string_len, value, value_in, value_len,
  value_start, with_key, with_value,
}
use nu_maker_mbed_aliyun_io.Infra.Json.Lookup.{
  print_object, first_value, Gives, get_value_by_name-print,
}
use nu_maker_mbed_aliyun_io.Infra.Json.Paths.{json_value_of-over_read}
use nu_maker_mbed_aliyun_io.Infra.Json.TwoNames.{print_nested, json_value_of-nested}

abbrev value_found : Search → Option (List ℕ)
value_found missing = none
value_found over_read = none
value_found (found m) = some (value m)

-- {"a":{"b":"hi"},"n":-12}
abbrev nested_text : List ℕ
nested_text =
    b'{' ∷ b'"' ∷ b'a' ∷ b'"' ∷ b':' ∷ b'{' ∷ b'"' ∷ b'b' ∷ b'"' ∷ b':' ∷ b'"' ∷ b'h' ∷ b'i' ∷ b'"'
    ∷ b'}' ∷ b',' ∷ b'"' ∷ b'n' ∷ b'"' ∷ b':' ∷ b'-' ∷ b'1' ∷ b'2' ∷ b'}' ∷ []

path_of_two :
    value_found (json_value_of true (b'a' ∷ b'.' ∷ b'b' ∷ []) nested_text) ≡ some (b'h' ∷ b'i' ∷ [])
unfolding json_value_of value_in split_path get_value_by_name get_object find_name get_next_object
    find with_key value_start with_value value_len nested_len string_len
path_of_two = refl

number_behind :
    value_found (json_value_of true (b'n' ∷ []) nested_text) ≡ some (b'-' ∷ b'1' ∷ b'2' ∷ [])
unfolding json_value_of value_in split_path get_value_by_name get_object find_name get_next_object
    find with_key value_start with_value value_len nested_len number_len
number_behind = refl

-- {"k":"v","m":"w"}
abbrev two_members : List (List ℕ × List ℕ)
two_members = (b'k' ∷ [], b'v' ∷ []) ∷ (b'm' ∷ [], b'w' ∷ []) ∷ []

get_value_by_name-print_example : Gives (first_value two_members (b'm' ∷ [])) (
    get_value_by_name
      (print_object two_members (b'"' ∷ b'm' ∷ []))
      (length (print_object two_members []))
      (b'm' ∷ []))
get_value_by_name-print_example =
    get_value_by_name-print two_members (b'"' ∷ b'm' ∷ []) (b'm' ∷ []) (
      ((omega arith, tt), (omega arith, tt), omega arith, omega arith),
      (((omega arith, tt), (omega arith, tt), omega arith, omega arith), tt),
    )

json_value_of-over_read_example :
    json_value_of true (b'm' ∷ []) (b'{' ∷ b'"' ∷ b'k' ∷ b'"' ∷ b':' ∷ b'"' ∷ []) ≡ over_read
json_value_of-over_read_example =
    json_value_of-over_read (b'k' ∷ []) (b'm' ∷ []) (omega arith, tt) (omega arith, tt)

json_value_of-nested_example :
    Gives
      (first_value two_members (b'm' ∷ []))
      (json_value_of true (b'd' ∷ b'.' ∷ b'm' ∷ []) (print_nested (b'd' ∷ []) two_members))
json_value_of-nested_example =
    json_value_of-nested (b'd' ∷ []) two_members (b'm' ∷ []) (omega arith, tt) (omega arith)
      (omega arith, tt)
      (
        ((omega arith, tt), (omega arith, tt), omega arith, omega arith),
        (((omega arith, tt), (omega arith, tt), omega arith, omega arith), tt),
      )
      (omega arith, tt)
