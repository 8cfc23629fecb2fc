-- ===== src/Mqtt/Publish/Runs.antt =====
-- Tests, and the theorems on publishing applied to concrete clients.
use nu_maker_mbed_aliyun_io.Base.{ℕ, ◌*◌, ◌≡◌, refl, arith, true, some, List, [], ◌∷◌}
use nu_maker_mbed_aliyun_io.Base.Bits.{u32}
use nu_maker_mbed_aliyun_io.Mqtt.Status.{state_success}
use nu_maker_mbed_aliyun_io.Mqtt.Link.{Client, connected, disconnected, get_next_packetid}
use nu_maker_mbed_aliyun_io.Mqtt.Link.Yield.{check_state}
use nu_maker_mbed_aliyun_io.Mqtt.Topic.{
  check_topic, check_first, strtok, token_start, check_rule, check_chars, token_body, check_rest,
}
use nu_maker_mbed_aliyun_io.Mqtt.Publish.{
  node_normal, PubInfo, PubClient, Resend, pub_info_proc, qos1, PubEnv, wrapper_publish,
  push_pub_info, publish_packet, wait_for_ack, publish_serialized, mqtt_publish, publish_finish,
  publish_with, publish_checked,
}
use nu_maker_mbed_aliyun_io.Mqtt.Publish.Waiting.{Step, publishes, acks, procs, links, run}
use nu_maker_mbed_aliyun_io.Mqtt.Publish.Delivery.{Pending, wrapper_publish-waits}
use nu_maker_mbed_aliyun_io.Mqtt.Publish.Rounds.{overdue, pub_info_proc-resends}

abbrev online : Client
online = record {
  packet_id = 6;
  keepalive_probes = 0;
  next_ping_time = 60000;
  client_state = connected;
  reconnect_next_time = 0;
  reconnect_time_interval_ms = 1000;
  keep_alive_interval = 60;
}

abbrev offline : Client
offline = record online { client_state = disconnected }

abbrev waiting : ℕ → ℕ → PubInfo
waiting id start = record {
  pub_start_time = start;
  node_state = node_normal;
  msg_id = id;
  buf = 0x32 ∷ id ∷ [];
}

-- Packets 5 and 6 wait, sent at 1000 and at 9000.
abbrev client : PubClient
client = record {
  link = online;
  buf_size_send = 64;
  request_timeout_ms = 2000;
  list_pub_wait_ack = waiting 5 1000 ∷ waiting 6 9000 ∷ [];
}

abbrev topic : List ℕ
topic = b'/' ∷ b'a' ∷ b'b' ∷ []

abbrev env : PubEnv
env = record {
  buffer = state_success;
  packet = λ id. some (0x32 ∷ id ∷ []);
  alloc = true;
  now = 10000;
  sent = true;
}

abbrev resend_at : ℕ → ℕ → Resend
resend_at now i = record { asked = now; sent = true; started = now }

abbrev steps : List Step
steps =
    procs (resend_at 11000)
    ∷ acks (some 5)
    ∷ links offline
    ∷ procs (resend_at 12000)
    ∷ publishes env (some topic) qos1
    ∷ []

wrapper_publish-waits_example :
    (packet : List ℕ) × (env.packet 7 ≡ some packet)
    × Pending 7 packet
        (run (wrapper_publish env (some topic) qos1 client).1 steps).list_pub_wait_ack
unfolding wrapper_publish publish_checked check_topic check_first strtok token_start check_rule
    check_chars token_body check_rest check_state publish_with publish_finish mqtt_publish
    publish_serialized publish_packet wait_for_ack push_pub_info get_next_packetid
wrapper_publish-waits_example =
    wrapper_publish-waits env (some topic) 7 client steps refl
      (tt, ((λ e. omega (arith, e)), (tt, (tt, (tt, tt)))))

pub_info_proc-resends_example :
    (pub_info_proc (resend_at 10000) client).0
    ≡ overdue 10000 (u32 (client.request_timeout_ms * 2)) client.list_pub_wait_ack
pub_info_proc-resends_example =
    pub_info_proc-resends 10000 (resend_at 10000) client (λ i. (refl, refl)) refl
