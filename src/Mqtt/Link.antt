-- ===== src/Mqtt/Link.antt =====
-- eng/mqtt/iotx_mqtt_client.c: the life of a connection. What the clock, the network and the packet
-- reader return is an argument; the callbacks to the user and the packets sent are results.
pub mod Yield
pub mod Connect
pub mod PacketIds
pub mod Reconnect
pub mod Session
pub mod Probes
pub mod Silence
mod Runs
use nu_maker_mbed_aliyun_io.Base.{
  ℕ, zero, suc, ◌+◌, ◌-◌, ◌*◌, Bool, true, false, ltb, ◌==◌, if◌then◌else◌, ◌||◌, not, Option, none,
  some, List, [], ◌∷◌,
}
use nu_maker_mbed_aliyun_io.Base.Bits.{u8, u16, u32}
use nu_maker_mbed_aliyun_io.Infra.Timer.{time_is_expired, time_countdown_ms}
use nu_maker_mbed_aliyun_io.Mqtt.Status.{
  Status, is_success, state_success, nwk_close, in_offline_status, wait_reconn_timer,
  recv_unknown_packet, conn_retry_exceed_max, connack_version_unaccept, connack_ident_reject,
  connack_service_na, connack_bad_userdata, connack_not_authorized, connack_unknown_error,
  deserialize_connack_error,
}

-- iotx_mc_state_t
pub data McState : Type 0 where
  invalid initialized connected disconnected disconnected_reconnecting connect_block : McState

abbrev pub is_connected : McState → Bool
is_connected connected = true
is_connected _ = false

-- iotx_mc_client_t, as far as the connection goes.
pub record Client : Type 0 where
  pub packet_id : ℕ
  pub keepalive_probes : ℕ
  pub next_ping_time : ℕ
  pub client_state : McState
  pub reconnect_next_time : ℕ
  pub reconnect_time_interval_ms : ℕ
  pub keep_alive_interval : ℕ

-- enum msgTypes, as far as the client takes packets from the server.
abbrev pub mqtt_cpt_reserved : ℕ
mqtt_cpt_reserved = 0

abbrev pub connack : ℕ
connack = 2

abbrev pub publish : ℕ
publish = 3

abbrev pub puback : ℕ
puback = 4

abbrev pub suback : ℕ
suback = 9

abbrev pub unsuback : ℕ
unsuback = 11

abbrev pub pingresp : ℕ
pingresp = 13

-- What iotx_mc_read_packet returns, the packet's type, the code of a connection packet (`none` if
-- MQTTDeserialize_connack fails), and what the packet's own handler returns.
pub record Read : Type 0 where
  pub rc : Status
  pub packet_type : ℕ
  pub connack_rc : Option ℕ
  pub handled : Status

abbrev pub keepalive_min : ℕ
keepalive_min = 30

abbrev pub keepalive_max : ℕ
keepalive_max = 1200

abbrev pub keepalive_default : ℕ
keepalive_default = 60

abbrev pub reconnect_min_ms : ℕ
reconnect_min_ms = 1000

abbrev pub reconnect_max_ms : ℕ
reconnect_max_ms = 30000

abbrev pub packet_id_max : ℕ
packet_id_max = 65535

abbrev pub probe_max : ℕ
probe_max = 2

abbrev pub wait_connack_max : ℕ
wait_connack_max = 10

abbrev pub retry_time_limit : ℕ
retry_time_limit = 9

-- utils_time_countdown_ms on a timer of the client.
abbrev pub countdown : ℕ → ℕ → ℕ → ℕ
countdown now timer ms = elim (time_countdown_ms now (some timer) ms) [ none ↦ timer | some t ↦ t ]

-- iotx_mc_set_connect_params
unfoldable pub set_connect_params : ℕ → Client → Client
set_connect_params interval c = record c {
  keep_alive_interval =
      if ltb interval keepalive_min
      then keepalive_default
      else if ltb keepalive_max interval
      then keepalive_default
      else interval;
}

-- iotx_mc_init, as far as the connection goes: the fields that memset and the timers clear are zero.
unfoldable pub mc_init : ℕ → Client
mc_init interval = set_connect_params interval (record {
  packet_id = 0;
  keepalive_probes = 0;
  next_ping_time = 0;
  client_state = initialized;
  reconnect_next_time = 0;
  reconnect_time_interval_ms = reconnect_min_ms;
  keep_alive_interval = 0;
})

abbrev pub set_client_state : McState → Client → Client
set_client_state s c = record c { client_state = s }

unfoldable pub get_next_packetid : Client → ℕ × Client
get_next_packetid c =
    let id = if c.packet_id == packet_id_max then 1 else c.packet_id + 1 in
    (id, record c { packet_id = id })

-- iotx_mc_handle_recv_CONNACK
unfoldable pub handle_recv_connack : Option ℕ → Status
handle_recv_connack none = deserialize_connack_error
handle_recv_connack (some code) =
    if code == 0
    then state_success
    else if code == 1
    then connack_version_unaccept
    else if code == 2
    then connack_ident_reject
    else if code == 3
    then connack_service_na
    else if code == 5
    then connack_not_authorized
    else if code == 4
    then connack_bad_userdata
    else connack_unknown_error

-- iotx_mc_wait_CONNACK with `left` more packets to skip; a last read ends it whatever it brings.
unfoldable pub wait_connack_loop : ℕ → ℕ → (ℕ → Read) → Status
wait_connack_loop zero i reads = if is_success (reads i).rc then nwk_close else (reads i).rc
wait_connack_loop (suc left) i reads =
    let next = wait_connack_loop left (i + 1) reads in
    if not (is_success (reads i).rc)
    then (reads i).rc
    else if (reads i).packet_type == connack
    then handle_recv_connack (reads i).connack_rc
    else next

unfoldable pub wait_connack : (ℕ → Read) → Status
wait_connack reads = wait_connack_loop wait_connack_max 0 reads

-- What one pass of the loop of _mqtt_connect meets: the result of MQTTConnect, and the reads after it.
pub record Attempt : Type 0 where
  pub sent : Status
  pub reads : ℕ → Read

-- `rc <= VERSION_UNACCEPT && rc >= NOT_AUTHORIZED`
unfoldable pub is_reject : Status → Bool
is_reject connack_version_unaccept = true
is_reject connack_ident_reject = true
is_reject connack_service_na = true
is_reject connack_not_authorized = true
is_reject _ = false

-- How the loop of _mqtt_connect ends: a return, a break, or its condition.
pub data LoopEnd : Type 0 where
  returned : Status → LoopEnd
  accepted exhausted : LoopEnd

-- The loop with `left` passes, at pass `i`; `current` is the interval in the connect data, `user` the one
-- the first pass puts back. The intervals of the CONNECT packets come with the end.
unfoldable pub connect_loop : ℕ → ℕ → ℕ → ℕ → (ℕ → Attempt) → LoopEnd × List ℕ
connect_loop zero i current user attempts = (exhausted, [])
connect_loop (suc left) i current user attempts =
    let (end, sent) = connect_loop left (i + 1) user user attempts in
    let rc = wait_connack (attempts i).reads in
    if not (is_success (attempts i).sent)
    then (returned (attempts i).sent, current ∷ [])
    else if is_reject rc
    then (returned rc, current ∷ [])
    else if is_success rc
    then (accepted, current ∷ [])
    else (end, current ∷ sent)

-- The interval of the first CONNECT packet.
unfoldable pub first_interval : ℕ → ℕ
first_interval user = if ltb keepalive_max (u16 (user * 2)) then keepalive_max else u16 (user * 2)

-- What _mqtt_connect does when the loop has ended.
unfoldable pub connect_end : ℕ → LoopEnd → Client → Status × Client
connect_end now (returned rc) c = (rc, c)
connect_end now exhausted c = (conn_retry_exceed_max, c)
connect_end now accepted c = (
  state_success,
  record c {
    keepalive_probes = 0;
    client_state = connected;
    next_ping_time = countdown now c.next_ping_time (c.keep_alive_interval * 1000);
  },
)

-- _mqtt_connect: the status, the client, and the intervals of the CONNECT packets.
unfoldable pub mqtt_connect : ℕ → (ℕ → Attempt) → Client → (Status × Client) × List ℕ
mqtt_connect now attempts c =
    let user = c.keep_alive_interval in
    let (end, sent) = connect_loop (retry_time_limit - 1) 0 (first_interval user) user attempts in
    (connect_end now end c, sent)
