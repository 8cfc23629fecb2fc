-- ===== src/Mqtt/Subscribe/Runs.antt =====
-- The theorems on subscriptions at a concrete client.
use nu_maker_mbed_aliyun_io.Base.{ℕ, ◌≡◌, refl, arith, true, false, none, List, [], ◌∷◌}
use nu_maker_mbed_aliyun_io.Mqtt.Status.{state_success}
use nu_maker_mbed_aliyun_io.Mqtt.Topic.{is_topic_matched, skip_level}
use nu_maker_mbed_aliyun_io.Mqtt.Link.{Client, connected}
use nu_maker_mbed_aliyun_io.Mqtt.Subscribe.{
  TopicHandle, SubClient, SubEnv, is_identical, is_subscribed, is_addressed, mqtt_subscribe,
  deliver_message, to_handlers, mqtt_unsubscribe, send_request,
}
use nu_maker_mbed_aliyun_io.Mqtt.Subscribe.Handlers.{
  Called, mqtt_subscribe-Called, mqtt_unsubscribe-keeps,
}

abbrev online : Client
online = record {
  packet_id = 6;
  keepalive_probes = 0;
  next_ping_time = 60000;
  client_state = connected;
  reconnect_next_time = 0;
  reconnect_time_interval_ms = 1000;
  keep_alive_interval = 60;
}

-- "/a/+" and "/a/b"
abbrev any_level : TopicHandle
any_level = record { topic_filter = b'/' ∷ b'a' ∷ b'/' ∷ b'+' ∷ []; h_fp = 1; pcontext = 0 }

abbrev exact : TopicHandle
exact = record { topic_filter = b'/' ∷ b'a' ∷ b'/' ∷ b'b' ∷ []; h_fp = 2; pcontext = 0 }

abbrev client : SubClient
client = record { link = online; list_sub_handle = exact ∷ []; handle_event = none }

abbrev good : SubEnv
good = record {
  alloc = true;
  alloc_filter = true;
  buffer = state_success;
  serialized = true;
  sent = true;
}

mqtt_subscribe-Called_example :
    (hs : List (ℕ × ℕ)) × (deliver_message
        (b'/' ∷ b'a' ∷ b'/' ∷ b'b' ∷ [])
        (mqtt_subscribe good false any_level client).1
      ≡ to_handlers hs)
    × Called (1, 0) hs
unfolding mqtt_subscribe send_request is_addressed is_topic_matched skip_level
mqtt_subscribe-Called_example =
    mqtt_subscribe-Called good false any_level client (b'/' ∷ b'a' ∷ b'/' ∷ b'b' ∷ []) refl refl

mqtt_unsubscribe-keeps_example :
    is_subscribed exact
      (mqtt_unsubscribe good (b'/' ∷ b'a' ∷ b'/' ∷ b'b' ∷ []) client).1.list_sub_handle
    ≡ true
unfolding is_subscribed is_identical
mqtt_unsubscribe-keeps_example =
    mqtt_unsubscribe-keeps good exact client
      (
        (λ e. omega (arith, e), λ e. omega (arith, e)),
        (
          (λ e. omega (arith, e), λ e. omega (arith, e)),
          (
            (λ e. omega (arith, e), λ e. omega (arith, e)),
            ((λ e. omega (arith, e), λ e. omega (arith, e)), tt),
          ),
        ),
      )
      refl
