-- ===== src/Mqtt/Subscribe/Handlers.antt =====
-- Which handlers stand on the list, and which are called.
use nu_maker_mbed_aliyun_io.Base.{
  ℕ, ◌≡◌, ◌≢◌, refl, ap, subst, ◌∙◌, Bool, true, false, ◌&&◌, ◌||◌, not, ◌==◌, ==_iff, ==-false,
  if_elim, Bool-cases, inl, inr, Option, List, [], ◌∷◌, ◌++◌, All, same_bytes, same_bytes_refl,
  eq_of_same_bytes,
}
use nu_maker_mbed_aliyun_io.Mqtt.Status.{
  Status, is_success, state_success, serialize_sub_error, serialize_unsub_error,
}
use nu_maker_mbed_aliyun_io.Mqtt.Topic.{is_topic_matched}
use nu_maker_mbed_aliyun_io.Mqtt.Subscribe.{
  TopicHandle, SubClient, is_identical, is_subscribed, add_handle, SubEnv, send_request,
  mqtt_subscribe, is_addressed, deliver_to, to_handlers, to_default, deliver_message,
  remove_addressed, mqtt_unsubscribe,
}

-- A handler is among those that are called.
pub data Called (h : ℕ × ℕ) : List (ℕ × ℕ) → Type 0 where
  first : (hs : List (ℕ × ℕ)) → Called h (h ∷ hs)
  later : (k : ℕ × ℕ) (hs : List (ℕ × ℕ)) → Called h hs → Called h (k ∷ hs)

is_identical-parts :
    (a b : TopicHandle)
    → is_identical a b ≡ true
    → (a.topic_filter ≡ b.topic_filter) × (a.h_fp ≡ b.h_fp) × (a.pcontext ≡ b.pcontext)
unfolding is_identical
is_identical-parts a b e = elim (Bool-cases (same_bytes a.topic_filter b.topic_filter)) [
  | inr f ↦ cc (rw f at e)
  | inl t ↦ elim (Bool-cases (a.h_fp == b.h_fp)) [
    | inr f ↦ cc (rw (t, f) at e)
    | inl u ↦ (
      eq_of_same_bytes _ _ t,
      (==_iff a.h_fp b.h_fp).0 u,
      (==_iff a.pcontext b.pcontext).0 (rw (t, u) at e),
    )
  ]
]

is_identical_refl : (h : TopicHandle) → is_identical h h ≡ true
unfolding is_identical
is_identical_refl h =
    rw
      (
        same_bytes_refl h.topic_filter,
        (==_iff h.h_fp h.h_fp).1 refl,
        (==_iff h.pcontext h.pcontext).1 refl,
      )
      refl

-- A handle that stands on the list is called for a topic that it matches.
deliver_to-Called :
    (topic : List ℕ) (h : TopicHandle) (hs : List TopicHandle)
    → is_subscribed h hs ≡ true
    → is_addressed topic h ≡ true
    → Called (h.h_fp, h.pcontext) (deliver_to topic hs)
unfolding is_subscribed deliver_to is_addressed
deliver_to-Called topic h [] s a = cc
deliver_to-Called topic h (n ∷ ns) s a = elim (Bool-cases (is_identical n h)) [
  | inl t ↦
      let (f, p, q) = is_identical-parts n h t in
      let same : is_addressed topic n ≡ true =
        ap (λ l. same_bytes topic l || is_topic_matched l topic) f ∙ a in
      rw (deliver_to, same)
        (subst (λ k. Called k ((n.h_fp, n.pcontext) ∷ deliver_to topic ns))
          (ap (λ x. (x, n.pcontext)) p ∙ ap (λ x. (h.h_fp, x)) q) (first _))
  | inr f ↦
      let rest = deliver_to-Called topic h ns (rw (is_subscribed, f) at s) a in
      if_elim (Called (h.h_fp, h.pcontext)) (is_addressed topic n) (λ e. later _ _ rest) (λ e. rest)
]

is_subscribed-last :
    (h : TopicHandle) (hs : List TopicHandle) → is_subscribed h (hs ++ (h ∷ [])) ≡ true
unfolding is_subscribed
is_subscribed-last h [] = rw (is_identical_refl h) refl
is_subscribed-last h (n ∷ ns) = elim (Bool-cases (is_identical n h)) [
  | inl t ↦ rw (is_subscribed, t) refl
  | inr f ↦ rw (is_subscribed, f) (is_subscribed-last h ns)
]

add_handle-subscribed :
    (h : TopicHandle) (c : SubClient) → is_subscribed h (add_handle h c).list_sub_handle ≡ true
unfolding add_handle
add_handle-subscribed h c =
    if_elim (λ (d : SubClient). is_subscribed h d.list_sub_handle ≡ true)
      (is_subscribed h c.list_sub_handle) (λ t. t) (λ f. is_subscribed-last h c.list_sub_handle)

Called-handlers :
    (h : ℕ × ℕ) (o : Option ℕ) (l : List (ℕ × ℕ))
    → Called h l
    → (hs : List (ℕ × ℕ)) × ((elim l [ [] ↦ to_default o | k ∷ ks ↦ to_handlers (k ∷ ks) ])
        ≡ to_handlers hs)
      × Called h hs
Called-handlers h o _ (first hs) = (h ∷ hs, refl, first hs)
Called-handlers h o _ (later k hs c) = (k ∷ hs, refl, later k hs c)

deliver_message-Called :
    (topic : List ℕ) (h : TopicHandle) (c : SubClient)
    → is_addressed topic h ≡ true
    → (hs : List (ℕ × ℕ)) × (deliver_message topic (add_handle h c) ≡ to_handlers hs)
      × Called (h.h_fp, h.pcontext) hs
unfolding deliver_message
deliver_message-Called topic h c a =
    Called-handlers _ _ _
      (deliver_to-Called topic h (add_handle h c).list_sub_handle (add_handle-subscribed h c) a)

-- After a subscription that succeeds, local or not, a message whose topic the filter matches is
-- delivered to the handlers of subscriptions, the new one among them.
pub mqtt_subscribe-Called :
    (env : SubEnv) (local : Bool) (h : TopicHandle) (c : SubClient) (topic : List ℕ)
    → (mqtt_subscribe env local h c).0 ≡ state_success
    → is_addressed topic h ≡ true
    → (hs : List (ℕ × ℕ)) × (deliver_message topic (mqtt_subscribe env local h c).1
        ≡ to_handlers hs)
      × Called (h.h_fp, h.pcontext) hs
unfolding mqtt_subscribe deliver_message
mqtt_subscribe-Called env local h c topic =
    let P = λ (r : Status × SubClient).
      r.0 ≡ state_success
      → is_addressed topic h ≡ true
      → (hs : List (ℕ × ℕ)) × (deliver_message topic r.1 ≡ to_handlers hs)
        × Called (h.h_fp, h.pcontext) hs in
    if_elim P (not (env.alloc && env.alloc_filter)) (λ b e. cc)
      (λ b.
        if_elim P local (λ d e. deliver_message-Called topic h c)
          (λ d.
            if_elim P (is_success (send_request env serialize_sub_error))
              (λ f e. deliver_message-Called topic h c) (λ f e. cc (f, e))))

-- A text with no wildcard does not match itself with the terminator behind it.
unmatched-terminator :
    (t : List ℕ) → All (λ c. (c ≢ b'+') × (c ≢ b'#')) t → is_topic_matched t (t ++ (0 ∷ [])) ≡ false
unfolding is_topic_matched
unmatched-terminator [] p = refl
unmatched-terminator (c ∷ cs) ((a, b), p) =
    let rest = unmatched-terminator cs p in
    let plus = ==-false c b'+' a in
    let hash = ==-false c b'#' b in
    let same = (==_iff c c).1 refl in
    elim (Bool-cases (c == b'/')) [
      | inl t ↦ rw (is_topic_matched, t, plus, hash, same) rest
      | inr t ↦ rw (is_topic_matched, t, plus, hash, same) rest
    ]

longer-differs : (t : List ℕ) → same_bytes (t ++ (0 ∷ [])) t ≡ false
longer-differs [] = refl
longer-differs (c ∷ cs) = rw ((==_iff c c).1 refl) (longer-differs cs)

remove_addressed-keeps :
    (topic : List ℕ) (h : TopicHandle) (hs : List TopicHandle)
    → is_addressed topic h ≡ false
    → is_subscribed h hs ≡ true
    → is_subscribed h (remove_addressed topic hs) ≡ true
unfolding remove_addressed is_subscribed is_addressed
remove_addressed-keeps topic h [] a s = cc
remove_addressed-keeps topic h (n ∷ ns) a s = elim (Bool-cases (is_identical n h)) [
  | inl t ↦
      let (f, p, q) = is_identical-parts n h t in
      let same : is_addressed topic n ≡ false =
        ap (λ l. same_bytes topic l || is_topic_matched l topic) f ∙ a in
      rw (remove_addressed, same, is_subscribed, t) refl
  | inr f ↦
      let rest = remove_addressed-keeps topic h ns a (rw (is_subscribed, f) at s) in
      if_elim (λ l. is_subscribed h l ≡ true) (is_addressed topic n) (λ e. rest)
        (λ e. rw (is_subscribed, f) rest)
]

-- Unsubscribing a filter without wildcards leaves its handler on the list, whether or not the request
-- goes out: a handle that stood there before still stands there.
pub mqtt_unsubscribe-keeps :
    (env : SubEnv) (h : TopicHandle) (c : SubClient)
    → All (λ x. (x ≢ b'+') × (x ≢ b'#')) h.topic_filter
    → is_subscribed h c.list_sub_handle ≡ true
    → is_subscribed h (mqtt_unsubscribe env h.topic_filter c).1.list_sub_handle ≡ true
unfolding mqtt_unsubscribe is_addressed
mqtt_unsubscribe-keeps env h c p s =
    let P = λ (r : Status × SubClient). is_subscribed h r.1.list_sub_handle ≡ true in
    let other : is_addressed (h.topic_filter ++ (0 ∷ [])) h ≡ false =
      rw (longer-differs h.topic_filter, unmatched-terminator h.topic_filter p) refl in
    if_elim P (not (env.alloc && env.alloc_filter)) (λ a. s)
      (λ a.
        if_elim P (is_success (send_request env serialize_unsub_error))
          (λ b. remove_addressed-keeps _ h c.list_sub_handle other s) (λ b. s))
