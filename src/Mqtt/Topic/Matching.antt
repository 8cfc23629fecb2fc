-- ===== src/Mqtt/Topic/Matching.antt =====
-- What iotx_mc_is_topic_matched accepts, by the levels of the filter and of the topic.
use nu_maker_mbed_aliyun_io.Base.{
  ℕ, ◌<◌, ◌≡◌, refl, ap, ◌∙◌, arith, Bool, true, false, ◌&&◌, not, List, [], ◌∷◌, ◌++◌, length, All,
  ◌≢◌, same_bytes, ==-false, map,
}
use nu_maker_mbed_aliyun_io.Mqtt.Topic.{is_topic_matched, skip_level}

-- Each level behind a slash.
unfoldable pub join : List (List ℕ) → List ℕ
join [] = []
join (l ∷ ls) = b'/' ∷ (l ++ join ls)

abbrev pub IsLevel : List ℕ → Type 0
IsLevel l = All (λ c. c ≢ b'/') l

-- A level of a topic name has a character and no slash.
abbrev pub IsNameLevel : List ℕ → Type 0
IsNameLevel l = (0 < length l) × IsLevel l

-- A level of a filter is a wildcard, or text with none.
abbrev pub IsPlain : List ℕ → Type 0
IsPlain l = All (λ c. (c ≢ b'/') × (c ≢ b'+') × (c ≢ b'#')) l

pub data Level : Type 0 where
  one_level all_levels : Level
  plain : (text : List ℕ) → IsPlain text → Level

unfoldable pub level_text : Level → List ℕ
level_text one_level = b'+' ∷ []
level_text all_levels = b'#' ∷ []
level_text (plain text h) = text

-- The MQTT rule: `+` stands for one level and a last `#` for any number of levels, also for none.
unfoldable pub level_match : List Level → List (List ℕ) → Bool
level_match [] [] = true
level_match [] (n ∷ ns) = false
level_match (all_levels ∷ []) ns = true
level_match (all_levels ∷ f ∷ fs) ns = false
level_match (one_level ∷ fs) [] = false
level_match (one_level ∷ fs) (n ∷ ns) = level_match fs ns
level_match (plain text h ∷ fs) [] = false
level_match (plain text h ∷ fs) (n ∷ ns) = same_bytes text n && level_match fs ns

-- The filter has one level more than the topic, a `#`, which would stand for no level.
unfoldable pub stands_for_none : List Level → List (List ℕ) → Bool
stands_for_none (all_levels ∷ []) [] = true
stands_for_none (f ∷ fs) (n ∷ ns) = stands_for_none fs ns
stands_for_none _ _ = false

skip_level-join :
    (n : List ℕ) (ns : List (List ℕ)) → IsLevel n → skip_level (n ++ join ns) ≡ join ns
unfolding skip_level join
skip_level-join [] [] a = refl
skip_level-join [] (m ∷ ns) a = refl
skip_level-join (c ∷ n) ns (x, a) = rw (==-false c b'/' x, skip_level) (skip_level-join n ns a)

matched-plain :
    (p q : List ℕ) (fs ns : List (List ℕ))
    → IsPlain p
    → IsLevel q
    → is_topic_matched (p ++ join fs) (q ++ join ns)
      ≡ (same_bytes p q && is_topic_matched (join fs) (join ns))
unfolding is_topic_matched join
matched-plain [] [] fs ns a b = refl
matched-plain [] (c ∷ q) [] ns a b = refl
matched-plain [] (c ∷ q) (f ∷ fs) ns a (x, b) = ground (arith, x)
matched-plain (c ∷ p) [] fs [] a b = refl
matched-plain (c ∷ p) [] fs (n ∷ ns) ((x, y, z), a) b = ground (arith, x)
matched-plain (c ∷ p) (d ∷ q) fs ns ((x, y, z), a) (w, b) =
    ground (arith, x, y, z, w, matched-plain p q fs ns a b)

matched-name :
    (f : List ℕ) (fs : List (List ℕ)) (n : List ℕ) (ns : List (List ℕ))
    → is_topic_matched (join (f ∷ fs)) (join (n ∷ ns))
      ≡ is_topic_matched (f ++ join fs) (n ++ join ns)
unfolding is_topic_matched join
matched-name f fs n ns = refl

matched-one_level :
    (fs : List (List ℕ)) (n : List ℕ) (ns : List (List ℕ))
    → IsNameLevel n
    → is_topic_matched (b'+' ∷ join fs) (n ++ join ns) ≡ is_topic_matched (join fs) (join ns)
unfolding is_topic_matched
matched-one_level fs [] ns (h, a) = absurd (omega (arith, h))
matched-one_level fs (c ∷ n) ns (h, (x, a)) =
    rw (==-false c b'/' x, skip_level-join n ns a, is_topic_matched) refl

matched-all_levels :
    (fs : List (List ℕ)) (n : List ℕ) (ns : List (List ℕ))
    → IsNameLevel n
    → is_topic_matched (b'#' ∷ join fs) (n ++ join ns) ≡ is_topic_matched (join fs) []
unfolding is_topic_matched
matched-all_levels fs [] ns (h, a) = absurd (omega (arith, h))
matched-all_levels fs (c ∷ n) ns (h, (x, a)) = rw (==-false c b'/' x, is_topic_matched) refl

abbrev pub texts : List Level → List (List ℕ)
texts fs = map level_text fs

and_assoc : (a b c : Bool) → (a && (b && c)) ≡ ((a && b) && c)
and_assoc true b c = refl
and_assoc false b c = refl

-- For a filter of levels that are wildcards or hold none, and a topic whose levels are not empty, the
-- character loop of iotx_mc_is_topic_matched decides the MQTT rule level by level, but for one case: a
-- last `#` does not match the parent level, for which it would stand for no level.
pub is_topic_matched-join :
    (fs : List Level) (ns : List (List ℕ))
    → All IsNameLevel ns
    → is_topic_matched (join (texts fs)) (join ns)
      ≡ (level_match fs ns && not (stands_for_none fs ns))
unfolding level_match stands_for_none level_text join is_topic_matched
is_topic_matched-join [] [] a = refl
is_topic_matched-join [] (n ∷ ns) a = refl
is_topic_matched-join (one_level ∷ fs) [] a = refl
is_topic_matched-join (plain text h ∷ fs) [] a = refl
is_topic_matched-join (all_levels ∷ []) [] a = refl
is_topic_matched-join (all_levels ∷ f ∷ fs) [] a = refl
is_topic_matched-join (one_level ∷ fs) (n ∷ ns) (x, a) =
    matched-name (b'+' ∷ []) (texts fs) n ns
    ∙ matched-one_level (texts fs) n ns x
    ∙ is_topic_matched-join fs ns a
is_topic_matched-join (all_levels ∷ []) (n ∷ ns) (x, a) =
    matched-name (b'#' ∷ []) [] n ns ∙ matched-all_levels [] n ns x
is_topic_matched-join (all_levels ∷ f ∷ fs) (n ∷ ns) (x, a) =
    matched-name (b'#' ∷ []) (texts (f ∷ fs)) n ns ∙ matched-all_levels (texts (f ∷ fs)) n ns x
is_topic_matched-join (plain text h ∷ fs) (n ∷ ns) ((y, x), a) =
    matched-name text (texts fs) n ns
    ∙ matched-plain text n (texts fs) ns h x
    ∙ ap (λ b. same_bytes text n && b) (is_topic_matched-join fs ns a)
    ∙ and_assoc (same_bytes text n) (level_match fs ns) (not (stands_for_none fs ns))
