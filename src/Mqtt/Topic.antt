-- ===== src/Mqtt/Topic.antt =====
-- eng/mqtt/iotx_mqtt_client.c: which topics the client accepts, and which subscriptions a topic matches;
-- infra_strtok of eng/infra/infra_string.c, which cuts a topic at its slashes.
-- Text is the list of its characters before the terminator. infra_strtok is called with one character to
-- cut at, and its static pointers into the text are the text that is left.
pub mod Tokens
pub mod Matching
pub mod Accepted
mod Runs
use nu_maker_mbed_aliyun_io.Base.{
  ℕ, zero, suc, ◌+◌, ◌-◌, ◌*◌, ◌/◌, ◌%◌, ◌^◌, ◌≤◌, ◌<◌, min, ◌≡◌, refl, sym, ap, subst, ◌∙◌, arith,
  Bool, true, false, ◌&&◌, ◌||◌, not, ltb, leb, ◌==◌, if◌then◌else◌, Option, none, some, List, [],
  ◌∷◌, ◌++◌, length, take, drop, replicate, All, Bool-cases, Option-cases, inl, inr, ◌⊎◌, ◌≢◌, ◌↔◌,
  length-append, take-append_length, drop-append_length, lt→ltb, le→ltb, ltb→lt, ltb→ge, gt→leb,
  ==_iff, ==-false, append_assoc, append-nil, map, reverse, ℤ, pos, negsuc,
}
use nu_maker_mbed_aliyun_io.Mqtt.Status.{
  Status, is_success, state_success, user_input_invalid, unexp_topic_format, topic_buf_too_short,
}

abbrev pub topic_maxlen : ℕ
topic_maxlen = 128

pub data TopicType : Type 0 where
  topic_name_type topic_filter_type : TopicType

-- The loop once a token has begun: the token, and the text left behind the character it was cut at.
unfoldable pub token_body : ℕ → List ℕ → List ℕ × List ℕ
token_body delim [] = ([], [])
token_body delim (c ∷ cs) =
    let (token, rest) = token_body delim cs in if c == delim then ([], cs) else (c ∷ token, rest)

-- The loop of infra_strtok before a token has begun; a text of delimiters only has no token.
unfoldable pub token_start : ℕ → List ℕ → Option (List ℕ × List ℕ)
token_start delim [] = none
token_start delim (c ∷ cs) =
    let next = token_start delim cs in if c == delim then next else some (token_body delim (c ∷ cs))

-- infra_strtok: the token and the text left. A text that is no longer than the delimiter has no token.
unfoldable pub strtok : ℕ → List ℕ → Option (List ℕ × List ℕ)
strtok delim text = if leb (length text) 1 then none else token_start delim text

abbrev pub is_wildcard : ℕ → Bool
is_wildcard c = b'+' == c || b'#' == c

abbrev pub is_printable : ℕ → Bool
is_printable c = not (ltb c 32) && ltb c 127

-- The loop of iotx_mc_check_rule, on an item of `len` characters.
unfoldable pub check_chars : TopicType → ℕ → List ℕ → Status
check_chars type len [] = state_success
check_chars topic_filter_type len (c ∷ cs) =
    let rest = check_chars topic_filter_type len cs in
    if is_wildcard c && not (1 == len)
    then unexp_topic_format
    else if not (is_printable c)
    then unexp_topic_format
    else rest
check_chars topic_name_type len (c ∷ cs) =
    let rest = check_chars topic_name_type len cs in
    if is_wildcard c
    then unexp_topic_format
    else if not (is_printable c)
    then unexp_topic_format
    else rest

unfoldable pub check_rule : Option (List ℕ) → TopicType → Status
check_rule none type = user_input_invalid
check_rule (some iterm) type = check_chars type (length iterm) iterm

abbrev pub starts_hash : List ℕ → Bool
starts_hash [] = false
starts_hash (c ∷ cs) = c == b'#'

-- The loop of iotx_mc_check_topic over the text that is left; `none` when the rounds run out.
unfoldable pub check_rest : ℕ → TopicType → Bool → List ℕ → Option Status
check_rest zero type mask text = none
check_rest (suc fuel) type mask text = elim (strtok b'/' text) [
  | none ↦ some state_success
  | some (iterm, rest) ↦
      let result = check_rule (some iterm) type in
      let next = check_rest fuel type (starts_hash iterm) rest in
      if mask then some unexp_topic_format else if is_success result then next else some result
]

abbrev pub starts_slash : List ℕ → Bool
starts_slash [] = false
starts_slash (c ∷ cs) = b'/' == c

-- The first item is checked apart, and does not set the mark for '#'.
unfoldable pub check_first : TopicType → Option (List ℕ × List ℕ) → Option Status
check_first type none = some (check_rule none type)
check_first type (some (iterm, rest)) =
    let result = check_rule (some iterm) type in
    if is_success result then check_rest (suc (length rest)) type false rest else some result

unfoldable pub check_topic : Option (List ℕ) → TopicType → Option Status
check_topic none type = some unexp_topic_format
check_topic (some topic) type =
    if not (starts_slash topic)
    then some unexp_topic_format
    else if ltb topic_maxlen (length topic)
    then some topic_buf_too_short
    else check_first type (strtok b'/' (take (topic_maxlen - 1) topic))

-- What is left of a topic name from the next slash on.
unfoldable pub skip_level : List ℕ → List ℕ
skip_level [] = []
skip_level (c ∷ cs) = let next = skip_level cs in if c == b'/' then c ∷ cs else next

unfoldable pub is_topic_matched : List ℕ → List ℕ → Bool
is_topic_matched [] [] = true
is_topic_matched [] (n ∷ ns) = false
is_topic_matched (f ∷ fs) [] = false
is_topic_matched (f ∷ fs) (n ∷ ns) =
    let rest =
      is_topic_matched fs (if f == b'+' then skip_level ns else if f == b'#' then [] else ns) in
    if n == b'/' && not (f == b'/')
    then false
    else if not (f == b'+') && (not (f == b'#') && not (f == n))
    then false
    else rest
