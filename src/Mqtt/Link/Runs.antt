-- ===== src/Mqtt/Link/Runs.antt =====
-- Tests, and the theorems on the life of a connection applied to concrete clients.
use nu_maker_mbed_aliyun_io.Base.{
  ℕ, ◌*◌, ◌^◌, ◌≤◌, min, ◌≡◌, refl, arith, true, ltb, lt→ltb, if◌then◌else◌, none, some, List, [],
  ◌∷◌, ◌≢◌, ◌↔◌,
}
use nu_maker_mbed_aliyun_io.Infra.Timer.{time_is_expired, time_countdown_ms}
use nu_maker_mbed_aliyun_io.Mqtt.Status.{state_success, nwk_close}
use nu_maker_mbed_aliyun_io.Mqtt.Link.{
  connected, disconnected_reconnecting, Client, Read, Attempt, connect_loop, connect_end,
  mqtt_connect, wait_connack, wait_connack_loop, is_reject, handle_recv_connack, mc_init,
}
use nu_maker_mbed_aliyun_io.Mqtt.Link.Connect.{mqtt_connect-accepted}
use nu_maker_mbed_aliyun_io.Mqtt.Link.Reconnect.{HasFailed, none_left, retries, backoff}
use nu_maker_mbed_aliyun_io.Mqtt.Link.Session.{
  Turn, yields, Alternates, next_event, yields-Alternates,
}
use nu_maker_mbed_aliyun_io.Mqtt.Link.Probes.{yields-IsCounted}
use nu_maker_mbed_aliyun_io.Mqtt.Link.Silence.{IsSilent, ping, yields-silent}
use nu_maker_mbed_aliyun_io.Mqtt.Link.Yield.{Env, handle_reconnect, event_disconnect}
use nu_maker_mbed_aliyun_io.Mqtt.Publish.{node_normal, PubClient}
use nu_maker_mbed_aliyun_io.Mqtt.Cycle.{Pass}

abbrev empty_read : Read
empty_read = record {
  rc = state_success;
  packet_type = 0;
  connack_rc = none;
  handled = state_success;
}

abbrev closed_read : Read
closed_read = record { rc = nwk_close; packet_type = 0; connack_rc = none; handled = state_success }

abbrev accepted_read : Read
accepted_read = record {
  rc = state_success;
  packet_type = 2;
  connack_rc = some 0;
  handled = state_success;
}

abbrev good_attempt : Attempt
good_attempt = record { sent = state_success; reads = λ i. accepted_read }

abbrev bad_attempt : Attempt
bad_attempt = record { sent = state_success; reads = λ i. closed_read }

-- The server answers from the pass `n` on.
abbrev answers_from : ℕ → ℕ → Attempt
answers_from n i = if ltb i n then bad_attempt else good_attempt

abbrev online : Client
online = record {
  packet_id = 65535;
  keepalive_probes = 0;
  next_ping_time = 1000;
  client_state = connected;
  reconnect_next_time = 1000;
  reconnect_time_interval_ms = 1000;
  keep_alive_interval = 60;
}

-- A call at the time `now`, with a server that accepts from the pass `n` on.
abbrev env_at : ℕ → ℕ → Env
env_at now n = record {
  ping_now = now;
  ping_set = now;
  ping_rc = state_success;
  retry_now = now;
  retry_set = now;
  lost_set = now;
  connected_now = now;
  attempts = answers_from n;
}

-- Packets that are due to be sent again go out.
abbrev empty_pass : ℕ → Pass
empty_pass now = record {
  read = empty_read;
  acked = none;
  resends = λ i. record { asked = now; sent = true; started = now };
}

abbrev turn_at : ℕ → ℕ → Turn
turn_at now n = record { env = env_at now n; first = empty_pass now; passes = empty_pass now ∷ [] }

-- A client with one packet that waits for its acknowledgement.
abbrev waiting : Client → PubClient
waiting link = record {
  link = link;
  buf_size_send = 1024;
  request_timeout_ms = 2000;
  list_pub_wait_ack =
      record { pub_start_time = 0; node_state = node_normal; msg_id = 1; buf = 0x32 ∷ [] } ∷ [];
}

mqtt_connect-accepted_example :
    mqtt_connect 5 (answers_from 1) online
    ≡ ((state_success, record online { next_ping_time = 60005 }), 120 ∷ 60 ∷ [])
unfolding is_reject wait_connack wait_connack_loop handle_recv_connack
mqtt_connect-accepted_example =
    mqtt_connect-accepted 1 5 (answers_from 1) online (omega arith) (omega arith)
      (λ j l. rw (lt→ltb j 1 l) (refl, refl, refl)) (refl, refl)

online-HasFailed : (now : ℕ) → now ≡ 5000 → HasFailed (env_at now 9) online
unfolding HasFailed time_is_expired mqtt_connect connect_end connect_loop is_reject wait_connack
    wait_connack_loop handle_recv_connack
online-HasFailed now e = rw e (refl, refl)

backoff_example :
    ((handle_reconnect (env_at 7500 0) (handle_reconnect (env_at 5000 9) (retries [] online)).0.1).1
      ≢ [])
    ↔ (min 30000 (1000 * 2 ^ 1) ≤ 2500)
unfolding retries
backoff_example =
    backoff [] (env_at 5000 9) (env_at 7500 0) online 2500 refl (none_left online)
      (online-HasFailed 5000 refl) refl (omega arith)

yields-Alternates_example :
    Alternates event_disconnect (yields (turn_at 1000 0 ∷ turn_at 2000 9 ∷ []) (waiting online)).0 (
      next_event
        (yields (turn_at 1000 0 ∷ turn_at 2000 9 ∷ []) (waiting online)).1.link.client_state)
yields-Alternates_example =
    yields-Alternates (turn_at 1000 0 ∷ turn_at 2000 9 ∷ []) (waiting online) refl

abbrev newly_connected : PubClient
newly_connected = waiting (mqtt_connect 0 (answers_from 2) (mc_init 60)).0.1

yields-IsCounted_example :
    (yields (turn_at 1000 0 ∷ turn_at 2000 9 ∷ []) newly_connected).1.link.keepalive_probes ≤ 2
yields-IsCounted_example =
    yields-IsCounted 60 0 (answers_from 2) newly_connected (turn_at 1000 0 ∷ turn_at 2000 9 ∷ [])
      refl

turn_at-IsSilent :
    (now : ℕ) (c : Client)
    → time_is_expired now (some c.next_ping_time) ≡ 1
    → IsSilent (turn_at now 0) c
turn_at-IsSilent now c e = record {
  due = e;
  pinged = refl;
  first_idle = ((refl, refl), λ i. refl);
  all_idle = (((refl, refl), λ i. refl), tt);
}

abbrev four_turns : List Turn
four_turns = turn_at 2000 0 ∷ turn_at 62000 0 ∷ turn_at 122000 0 ∷ turn_at 182000 0 ∷ []

yields-silent_example :
    ((yields (turn_at 2000 0 ∷ turn_at 62000 0 ∷ []) (waiting online)).1.link.client_state
      ≡ connected)
    × ((yields four_turns (waiting online)).0 ≡ event_disconnect ∷ [])
    × ((yields four_turns (waiting online)).1.link.client_state ≡ disconnected_reconnecting)
unfolding time_is_expired time_countdown_ms
yields-silent_example =
    yields-silent (turn_at 2000 0) (turn_at 62000 0) (turn_at 122000 0) (turn_at 182000 0)
      (waiting online) refl refl (turn_at-IsSilent 2000 online refl)
      (turn_at-IsSilent 62000 (ping (turn_at 2000 0) online) refl)
      (turn_at-IsSilent 122000 (ping (turn_at 62000 0) (ping (turn_at 2000 0) online)) refl)
