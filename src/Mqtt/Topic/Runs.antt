-- ===== src/Mqtt/Topic/Runs.antt =====
-- The theorems on topics at concrete inputs.
use nu_maker_mbed_aliyun_io.Base.{
  ℕ, ◌≡◌, refl, arith, false, ◌&&◌, not, if◌then◌else◌, some, List, [], ◌∷◌,
}
use nu_maker_mbed_aliyun_io.Mqtt.Status.{is_success}
use nu_maker_mbed_aliyun_io.Mqtt.Topic.{
  topic_filter_type, check_topic, check_chars, is_topic_matched,
}
use nu_maker_mbed_aliyun_io.Mqtt.Topic.Matching.{
  join, IsPlain, Level, one_level, all_levels, plain, texts, level_match, stands_for_none,
  is_topic_matched-join,
}
use nu_maker_mbed_aliyun_io.Mqtt.Topic.Accepted.{IsTopicLevel, check_levels, check_topic-join}

abbrev sys : List ℕ
sys = b's' ∷ b'y' ∷ b's' ∷ []

sys-IsTopicLevel : IsTopicLevel sys
sys-IsTopicLevel = (
  (omega arith, ((λ e. omega (arith, e)), ((λ e. omega (arith, e)), ((λ e. omega (arith, e)), _)))),
  ((refl, refl), ((refl, refl), ((refl, refl), _))),
)

sys-IsPlain : IsPlain sys
sys-IsPlain = (
  (λ e. omega (arith, e), λ e. omega (arith, e), λ e. omega (arith, e)),
  (
    (λ e. omega (arith, e), λ e. omega (arith, e), λ e. omega (arith, e)),
    ((λ e. omega (arith, e), λ e. omega (arith, e), λ e. omega (arith, e)), _),
  ),
)

-- "/sys/+/#" and "/sys/sys/sys/sys"
abbrev filter : List Level
filter = plain sys sys-IsPlain ∷ one_level ∷ all_levels ∷ []

is_topic_matched-join_example :
    is_topic_matched (join (texts filter)) (join (sys ∷ sys ∷ sys ∷ sys ∷ [])) ≡ (
      level_match filter (sys ∷ sys ∷ sys ∷ sys ∷ [])
      && not (stands_for_none filter (sys ∷ sys ∷ sys ∷ sys ∷ [])))
is_topic_matched-join_example =
    is_topic_matched-join filter (sys ∷ sys ∷ sys ∷ sys ∷ [])
      (sys-IsTopicLevel.0, (sys-IsTopicLevel.0, (sys-IsTopicLevel.0, (sys-IsTopicLevel.0, _))))

check_topic-join_example :
    check_topic (some (join (sys ∷ sys ∷ []))) topic_filter_type
    ≡ some (
        if is_success (check_chars topic_filter_type 3 sys)
        then check_levels topic_filter_type false (sys ∷ [])
        else check_chars topic_filter_type 3 sys)
unfolding join
check_topic-join_example =
    check_topic-join topic_filter_type sys (sys ∷ []) (sys-IsTopicLevel.0, (sys-IsTopicLevel.0, _))
      (omega arith)
