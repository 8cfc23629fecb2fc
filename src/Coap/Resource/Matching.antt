-- ===== src/Coap/Resource/Matching.antt =====
-- What CoAPResource_topicFilterMatch accepts.
use nu_maker_mbed_aliyun_io.Base.{
  ℕ, suc, ◌<◌, ◌≡◌, refl, sym, ap, ◌∙◌, arith, true, false, ◌&&◌, not, ltb, ◌==◌, List, [], ◌∷◌,
  ◌++◌, length, drop, All, Bool-cases, inl, inr, ◌≢◌, ◌↔◌, length-append, take-append_length,
  drop-append_length, lt→ltb,
}
use nu_maker_mbed_aliyun_io.Coap.Resource.{starts, occurs, topic_filter_match}

abbrev slash : ℕ
slash = b'/'

pub starts-append : (p r : List ℕ) → starts p (p ++ r) ≡ true
unfolding starts
starts-append [] r = refl
starts-append (x ∷ p) r = ground (arith, starts-append p r)

starts-drop : (p t : List ℕ) → starts p t ≡ true → t ≡ p ++ drop (length p) t
unfolding starts
starts-drop [] t e = refl
starts-drop (x ∷ p) [] e = absurd (ground (arith, e))
starts-drop (x ∷ p) (y ∷ t) e = elim (Bool-cases (x == y)) [
  | inl same ↦ ground (arith, same, e, starts-drop p t)
  | inr other ↦ absurd (ground (arith, other, e))
]

occurs-slash_iff : (t : List ℕ) → (occurs (slash ∷ []) t ≡ false) ↔ All (λ c. c ≢ slash) t
unfolding occurs starts
occurs-slash_iff [] = ground arith
occurs-slash_iff (c ∷ cs) = ground (arith, occurs-slash_iff cs)

length-snoc : (p : List ℕ) (c : ℕ) → length (p ++ c ∷ []) ≡ suc (length p)
length-snoc p c = omega (arith, length-append p (c ∷ []))

-- The last character of a filter does not matter.
topic_filter_match-snoc :
    (p : List ℕ) (c : ℕ) (t : List ℕ)
    → topic_filter_match (p ++ c ∷ []) t
      ≡ (starts p t && (ltb (length p) (length t) && not (occurs (slash ∷ []) (drop (length p) t))))
unfolding topic_filter_match
topic_filter_match-snoc [] c t = refl
topic_filter_match-snoc (x ∷ p) c t =
    rw (length-snoc p c) (rw (take-append_length p (c ∷ []) (length p) refl) refl)

-- A filter, less its last character, matches a topic exactly when the topic continues it by one level: by at
-- least one character, and none a slash.
pub topic_filter_match_iff :
    (p : List ℕ) (c : ℕ) (t : List ℕ)
    → (topic_filter_match (p ++ c ∷ []) t ≡ true)
      ↔ ((level : List ℕ) × (t ≡ p ++ level) × (0 < length level) × All (λ x. x ≢ slash) level)
topic_filter_match_iff p c t = (
  λ e.
      let parts = sym (topic_filter_match-snoc p c t) ∙ e in
      let first : starts p t ≡ true = ground (arith, parts) in
      let split = starts-drop p t first in
      let level = drop (length p) t in
      (
        level,
        split,
        ground (arith, parts, ap length split, length-append p level),
        (occurs-slash_iff level).0 (ground (arith, parts)),
      ),
  λ (level, e, some_more, plain).
      topic_filter_match-snoc p c t
      ∙ rw e (
          rw
            (
              starts-append p level,
              drop-append_length p level (length p) refl,
              (occurs-slash_iff level).1 plain,
              lt→ltb (length p) (length (p ++ level)) (omega (arith, length-append p level)),
            )
            refl),
)
