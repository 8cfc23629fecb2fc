-- ===== src/Mqtt/Topic/Accepted.antt =====
-- Which topics iotx_mc_check_topic accepts.
use nu_maker_mbed_aliyun_io.Base.{
  ℕ, zero, suc, ◌-◌, ◌≤◌, ◌<◌, ◌≡◌, refl, ap, ◌∙◌, arith, Bool, true, false, ltb, ◌==◌,
  if◌then◌else◌, Option, none, some, List, [], ◌∷◌, ◌++◌, length, take, All, Bool-cases,
  Option-cases, inl, inr, ◌≢◌, length-append, le→ltb,
}
use nu_maker_mbed_aliyun_io.Mqtt.Status.{
  Status, is_success, topic_buf_too_short, user_input_invalid, state_success, unexp_topic_format,
}
use nu_maker_mbed_aliyun_io.Mqtt.Topic.{
  TopicType, topic_name_type, strtok, is_wildcard, is_printable, check_chars, check_rule,
  starts_hash, starts_slash, check_rest, check_first, check_topic, topic_maxlen,
}
use nu_maker_mbed_aliyun_io.Mqtt.Topic.Tokens.{
  length-strtok, strtok-level, strtok-last, strtok-short, strtok-first_level, strtok-first_last,
}
use nu_maker_mbed_aliyun_io.Mqtt.Topic.Matching.{join, IsNameLevel}

check_rest_total :
    (fuel : ℕ) (type : TopicType) (mask : Bool) (text : List ℕ)
    → length text < fuel
    → (s : Status) × (check_rest fuel type mask text ≡ some s)
unfolding check_rest
check_rest_total zero type mask text h = absurd (omega arith)
check_rest_total (suc fuel) type mask text h = elim (Option-cases (strtok b'/' text)) [
  | inl done ↦ (state_success, rw (done, check_rest) refl)
  | inr ((iterm, rest), e) ↦
      let shorter = length-strtok b'/' text iterm rest e in
      let (s, next) = check_rest_total fuel type (starts_hash iterm) rest (omega arith) in
      let result = check_rule (some iterm) type in
      (
        if mask then unexp_topic_format else if is_success result then s else result,
        ground (arith, e, next),
      )
]

check_first_total :
    (type : TopicType) (first : Option (List ℕ × List ℕ))
    → (s : Status) × (check_first type first ≡ some s)
unfolding check_first
check_first_total type none = (_, refl)
check_first_total type (some (iterm, rest)) =
    let (s, next) = check_rest_total (suc (length rest)) type false rest (omega arith) in
    elim (Bool-cases (is_success (check_rule (some iterm) type))) [
      | inl good ↦ (s, rw (good, check_first) next)
      | inr bad ↦ (check_rule (some iterm) type, rw (bad, check_first) refl)
    ]

-- iotx_mc_check_topic returns on every text: as many rounds as the text left after the first item has
-- characters, and one more, are enough for its loop.
pub check_topic_total :
    (topic : Option (List ℕ)) (type : TopicType) → (s : Status) × (check_topic topic type ≡ some s)
unfolding check_topic
check_topic_total none type = (_, refl)
check_topic_total (some topic) type =
    let (s, first) = check_first_total type (strtok b'/' (take (topic_maxlen - 1) topic)) in
    elim (Bool-cases (starts_slash topic)) [
      | inr no_slash ↦ (unexp_topic_format, rw (no_slash, check_topic) refl)
      | inl slash ↦ elim (Bool-cases (ltb topic_maxlen (length topic))) [
        | inl long ↦ (topic_buf_too_short, rw (slash, long, check_topic) refl)
        | inr fits ↦ (s, rw (slash, fits, check_topic) first)
      ]
    ]

-- The check level by level: '#' ends a filter unless it is the first level, and a last level of one
-- character that is not the first is passed over.
unfoldable pub check_levels : TopicType → Bool → List (List ℕ) → Status
check_levels type mask [] = state_success
check_levels type mask (l ∷ []) =
    if length l == 1
    then state_success
    else if mask
    then unexp_topic_format
    else check_chars type (length l) l
check_levels type mask (l ∷ m ∷ ls) =
    let result = check_chars type (length l) l in
    let next = check_levels type (starts_hash l) (m ∷ ls) in
    if mask then unexp_topic_format else if is_success result then next else result

abbrev pub join_tail : List (List ℕ) → List ℕ
join_tail [] = []
join_tail (l ∷ ls) = l ++ join ls

success_eq : (s : Status) → is_success s ≡ true → s ≡ state_success
success_eq state_success e = refl
success_eq user_input_invalid e = ground (arith, e)
success_eq s e = ground (arith, e)

check_rest_nil :
    (fuel : ℕ) (type : TopicType) (mask : Bool)
    → check_rest (suc fuel) type mask [] ≡ some state_success
unfolding check_rest strtok
check_rest_nil fuel type mask = refl

check_rest-levels :
    (fuel : ℕ) (type : TopicType) (mask : Bool) (ls : List (List ℕ))
    → All IsNameLevel ls
    → length (join_tail ls) < fuel
    → check_rest fuel type mask (join_tail ls) ≡ some (check_levels type mask ls)
unfolding check_rest check_levels check_rule join
check_rest-levels zero type mask ls a h = absurd (omega (arith, h))
check_rest-levels (suc fuel) type mask [] a h = check_rest_nil fuel type mask
check_rest-levels (suc fuel) type mask (l ∷ []) (x, a) h = elim (Bool-cases (length l == 1)) [
  | inl one ↦ ground (arith, one, strtok-short l (ground (arith, one)))
  | inr more ↦
      let long : 1 < length l = ground (arith, more, x.0) in
      let cut = strtok-last l x long in
      let next =
        check_rest-levels fuel type (starts_hash l) [] _
          (omega (arith, h, length-append l [], long)) in
      ground (arith, more, cut, next, success_eq (check_chars type (length l) l))
]
check_rest-levels (suc fuel) type mask (l ∷ m ∷ ls) (x, a) h =
    let cut = strtok-level l (join_tail (m ∷ ls)) x in
    let size = length-append l (b'/' ∷ join_tail (m ∷ ls)) in
    let next = check_rest-levels fuel type (starts_hash l) (m ∷ ls) a (omega (arith, h, size)) in
    ground (arith, cut, next)

take_all : (n : ℕ) (xs : List ℕ) → length xs ≤ n → take n xs ≡ xs
take_all zero [] h = refl
take_all (suc n) [] h = refl
take_all zero (x ∷ xs) h = absurd (omega (arith, h))
take_all (suc n) (x ∷ xs) h = ap (λ l. x ∷ l) (take_all n xs (omega arith))

first_level :
    (l : List ℕ) (ls : List (List ℕ))
    → All IsNameLevel (l ∷ ls)
    → strtok b'/' (join (l ∷ ls)) ≡ some (l, join_tail ls)
unfolding join
first_level l [] (x, a) = strtok-first_last l x
first_level l (m ∷ ls) (x, a) = strtok-first_level l (join_tail (m ∷ ls)) x

-- On a topic of at most 127 characters made of levels that are not empty, iotx_mc_check_topic checks the
-- first level and then the others one by one, where '#' must be last and a last level of one character
-- is passed over.
pub check_topic-join :
    (type : TopicType) (l : List ℕ) (ls : List (List ℕ))
    → All IsNameLevel (l ∷ ls)
    → length (join (l ∷ ls)) < topic_maxlen
    → check_topic (some (join (l ∷ ls))) type
      ≡ some (
          if is_success (check_chars type (length l) l)
          then check_levels type false ls
          else check_chars type (length l) l)
unfolding check_topic check_first check_rule join
check_topic-join type l ls a h =
    let whole : take (topic_maxlen - 1) (join (l ∷ ls)) ≡ join (l ∷ ls) =
      take_all 127 (join (l ∷ ls)) (omega (arith, h)) in
    let rest = check_rest-levels (suc (length (join_tail ls))) type false ls a.1 (omega arith) in
    let short : ltb topic_maxlen (length (join (l ∷ ls))) ≡ false =
      le→ltb topic_maxlen (length (join (l ∷ ls))) (omega (arith, h)) in
    rw (short, whole, first_level l ls a, check_topic, check_first, rest) (ground arith)

-- A level of a topic name: text with no wildcard.
abbrev pub IsTopicLevel : List ℕ → Type 0
IsTopicLevel l = IsNameLevel l × All (λ c. (is_wildcard c ≡ false) × (is_printable c ≡ true)) l

check_chars-name :
    (len : ℕ) (l : List ℕ)
    → All (λ c. (is_wildcard c ≡ false) × (is_printable c ≡ true)) l
    → check_chars topic_name_type len l ≡ state_success
unfolding check_chars
check_chars-name len [] a = refl
check_chars-name len (c ∷ l) ((w, p), a) = rw (w, p, check_chars) (check_chars-name len l a)

starts_hash-topic : (l : List ℕ) → IsTopicLevel l → starts_hash l ≡ false
starts_hash-topic [] a = refl
starts_hash-topic (c ∷ l) (x, ((w, p), a)) = ground (arith, w)

IsNameLevel-snoc :
    (ls : List (List ℕ)) (c : ℕ)
    → All IsTopicLevel ls
    → c ≢ b'/'
    → All IsNameLevel (ls ++ (c ∷ []) ∷ [])
IsNameLevel-snoc [] c a d = ((omega arith, (d, _)), _)
IsNameLevel-snoc (l ∷ ls) c (x, a) d = (x.0, IsNameLevel-snoc ls c a d)

check_levels-snoc :
    (ls : List (List ℕ)) (c : ℕ)
    → All IsTopicLevel ls
    → check_levels topic_name_type false (ls ++ (c ∷ []) ∷ []) ≡ state_success
unfolding check_levels
check_levels-snoc [] c a = refl
check_levels-snoc (l ∷ []) c (x, a) = rw (check_chars-name (length l) l x.1) refl
check_levels-snoc (l ∷ m ∷ ls) c (x, a) =
    rw (check_chars-name (length l) l x.1, starts_hash-topic l x, check_levels)
      (check_levels-snoc (m ∷ ls) c a)

-- Behind levels that are fit for a topic name, iotx_mc_check_topic accepts any single character but a
-- slash as the last level of a name, the wildcards and control characters included.
pub check_topic-unchecked :
    (l : List ℕ) (ls : List (List ℕ)) (c : ℕ)
    → All IsTopicLevel (l ∷ ls)
    → c ≢ b'/'
    → length (join (l ∷ (ls ++ (c ∷ []) ∷ []))) < topic_maxlen
    → check_topic (some (join (l ∷ (ls ++ (c ∷ []) ∷ [])))) topic_name_type ≡ some state_success
check_topic-unchecked l ls c (x, a) d h =
    check_topic-join topic_name_type l (ls ++ (c ∷ []) ∷ []) (x.0, IsNameLevel-snoc ls c a d) h
    ∙ rw (check_chars-name (length l) l x.1, check_levels-snoc ls c a) refl
