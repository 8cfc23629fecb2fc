-- ===== src/Mqtt/Subscribe.antt =====
-- eng/mqtt/iotx_mqtt_client.c: subscribing and unsubscribing, and which handlers a message is delivered
-- to. Allocations, the packets that MQTTSerialize_subscribe and MQTTSerialize_unsubscribe write, and the
-- network are arguments; a handler is a number. Text is the list of its characters.
pub mod Handlers
mod Runs
use nu_maker_mbed_aliyun_io.Base.{
  ℕ, zero, suc, ◌+◌, Bool, true, false, ◌&&◌, ◌||◌, not, leb, ◌==◌, if◌then◌else◌, Option, none,
  some, List, [], ◌∷◌, ◌++◌, length, same_bytes,
}
use nu_maker_mbed_aliyun_io.Mqtt.Status.{
  Status, is_success, state_success, nwk_close, in_offline_status, user_input_invalid,
  malloc_failed, unexp_topic_format, serialize_sub_error, serialize_unsub_error,
}
use nu_maker_mbed_aliyun_io.Mqtt.Topic.{topic_filter_type, check_topic, is_topic_matched}
use nu_maker_mbed_aliyun_io.Mqtt.Link.{disconnected, Client, set_client_state, get_next_packetid}
use nu_maker_mbed_aliyun_io.Mqtt.Link.Yield.{check_state, is_nwk_close}

-- iotx_mc_topic_handle_t: the filter, h_fp and pcontext.
pub record TopicHandle : Type 0 where
  pub topic_filter : List ℕ
  pub h_fp : ℕ
  pub pcontext : ℕ

-- iotx_mc_client_t, as far as subscriptions go; handle_event is the handler of all other messages.
pub record SubClient : Type 0 where
  pub link : Client
  pub list_sub_handle : List TopicHandle
  pub handle_event : Option ℕ

-- iotx_mc_check_handle_is_identical, which returns 0 for identical handles.
unfoldable pub is_identical : TopicHandle → TopicHandle → Bool
is_identical a b =
    same_bytes a.topic_filter b.topic_filter && (a.h_fp == b.h_fp && a.pcontext == b.pcontext)

unfoldable pub is_subscribed : TopicHandle → List TopicHandle → Bool
is_subscribed h [] = false
is_subscribed h (n ∷ ns) = is_identical n h || is_subscribed h ns

-- The end of MQTTSubscribe: the handle goes behind the list unless an identical one is there.
unfoldable pub add_handle : TopicHandle → SubClient → SubClient
add_handle h c =
    if is_subscribed h c.list_sub_handle
    then c
    else record c { list_sub_handle = c.list_sub_handle ++ (h ∷ []) }

-- What MQTTSubscribe and MQTTUnsubscribe meet: the two allocations, the result of _alloc_send_buffer,
-- whether the packet is written, and whether it goes out.
pub record SubEnv : Type 0 where
  pub alloc : Bool
  pub alloc_filter : Bool
  pub buffer : Status
  pub serialized : Bool
  pub sent : Bool

-- The part of both functions before the list is touched, with the error of the packet's writer.
unfoldable pub send_request : SubEnv → Status → Status
send_request env unwritten =
    if not (is_success env.buffer)
    then env.buffer
    else if not env.serialized
    then unwritten
    else if not env.sent
    then nwk_close
    else state_success

-- MQTTSubscribe; `local` is whether the QoS is IOTX_MQTT_QOS3_SUB_LOCAL.
unfoldable pub mqtt_subscribe : SubEnv → Bool → TopicHandle → SubClient → Status × SubClient
mqtt_subscribe env local h c =
    if not (env.alloc && env.alloc_filter)
    then (malloc_failed, c)
    else if local
    then (state_success, add_handle h c)
    else if is_success (send_request env serialize_sub_error)
    then (state_success, add_handle h c)
    else (send_request env serialize_sub_error, c)

-- The test of iotx_mc_deliver_message and MQTTUnsubscribe: MQTTPacket_equals or a match.
unfoldable pub is_addressed : List ℕ → TopicHandle → Bool
is_addressed topic h = same_bytes topic h.topic_filter || is_topic_matched h.topic_filter topic

-- The loop of iotx_mc_deliver_message: the handlers called, each with its context.
unfoldable pub deliver_to : List ℕ → List TopicHandle → List (ℕ × ℕ)
deliver_to topic [] = []
deliver_to topic (h ∷ hs) =
    let rest = deliver_to topic hs in
    if is_addressed topic h then (h.h_fp, h.pcontext) ∷ rest else rest

-- Who gets a message: handlers of subscriptions, or the handler of all other messages.
pub data Delivery : Type 0 where
  to_handlers : List (ℕ × ℕ) → Delivery
  to_default : Option ℕ → Delivery

-- iotx_mc_deliver_message
unfoldable pub deliver_message : List ℕ → SubClient → Delivery
deliver_message topic c = elim (deliver_to topic c.list_sub_handle) [
  | [] ↦ to_default c.handle_event
  | h ∷ hs ↦ to_handlers (h ∷ hs)
]

-- The loop of MQTTUnsubscribe.
unfoldable pub remove_addressed : List ℕ → List TopicHandle → List TopicHandle
remove_addressed topic [] = []
remove_addressed topic (h ∷ hs) =
    let rest = remove_addressed topic hs in if is_addressed topic h then rest else h ∷ rest

-- MQTTUnsubscribe; the topic it looks for has the length strlen + 1, so it ends with the terminator.
unfoldable pub mqtt_unsubscribe : SubEnv → List ℕ → SubClient → Status × SubClient
mqtt_unsubscribe env filter c =
    if not (env.alloc && env.alloc_filter)
    then (malloc_failed, c)
    else if is_success (send_request env serialize_unsub_error)
    then (
      state_success,
      record c { list_sub_handle = remove_addressed (filter ++ (0 ∷ [])) c.list_sub_handle },
    )
    else (send_request env serialize_unsub_error, c)

-- What the wrappers return: a code, or the packet id.
pub data Requested : Type 0 where
  failed : Status → Requested
  requested : ℕ → Requested

unfoldable pub request_finish : ℕ → Status × SubClient → Requested × SubClient
request_finish id (rc, c) =
    if is_success rc
    then (requested id, c)
    else if is_nwk_close rc
    then (failed rc, record c { link = set_client_state disconnected c.link })
    else (failed rc, c)

-- The tests of wrapper_mqtt_subscribe in their order, and of wrapper_mqtt_unsubscribe in theirs.
unfoldable pub subscribe_test : Option Status → SubClient → Status
subscribe_test checked c =
    if not (check_state c.link)
    then in_offline_status
    else elim checked [ none ↦ unexp_topic_format | some rc ↦ rc ]

unfoldable pub unsubscribe_test : Option Status → SubClient → Status
unsubscribe_test none c = unexp_topic_format
unsubscribe_test (some rc) c =
    if not (is_success rc)
    then rc
    else if not (check_state c.link)
    then in_offline_status
    else state_success

-- wrapper_mqtt_subscribe; a packet id is taken before the tests.
unfoldable pub wrapper_subscribe :
    SubEnv → Bool → Option TopicHandle → SubClient → Requested × SubClient
wrapper_subscribe env local none c = (failed user_input_invalid, c)
wrapper_subscribe env local (some h) c =
    let (id, link) = get_next_packetid c.link in
    let d = record c { link = link } in
    let test = subscribe_test (check_topic (some h.topic_filter) topic_filter_type) d in
    if length h.topic_filter == 0
    then (failed user_input_invalid, c)
    else if is_success test
    then request_finish id (mqtt_subscribe env local h d)
    else (failed test, d)

-- wrapper_mqtt_unsubscribe
unfoldable pub wrapper_unsubscribe : SubEnv → Option (List ℕ) → SubClient → Requested × SubClient
wrapper_unsubscribe env none c = (failed user_input_invalid, c)
wrapper_unsubscribe env (some filter) c =
    let (id, link) = get_next_packetid c.link in
    let d = record c { link = link } in
    let test = unsubscribe_test (check_topic (some filter) topic_filter_type) d in
    if is_success test then request_finish id (mqtt_unsubscribe env filter d) else (failed test, d)
