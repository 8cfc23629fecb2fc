-- ===== src/Mqtt/Link/Yield.antt =====
-- eng/mqtt/iotx_mqtt_client.c: keeping the connection alive, reconnection, and one read of a packet.
use nu_maker_mbed_aliyun_io.Base.{
  ℕ, ◌+◌, ◌*◌, Bool, true, false, ltb, ◌==◌, if◌then◌else◌, ◌||◌, not, some, List, [], ◌∷◌,
}
use nu_maker_mbed_aliyun_io.Base.Bits.{u8, u32}
use nu_maker_mbed_aliyun_io.Infra.Timer.{time_is_expired}
use nu_maker_mbed_aliyun_io.Mqtt.Status.{
  Status, is_success, state_success, nwk_close, in_offline_status, wait_reconn_timer,
  recv_unknown_packet,
}
use nu_maker_mbed_aliyun_io.Mqtt.Link.{
  McState, connected, disconnected, disconnected_reconnecting, connect_block, is_connected, Client,
  Read, Attempt, set_client_state, countdown, mqtt_connect, probe_max, mqtt_cpt_reserved, connack,
  publish, puback, suback, unsuback, pingresp, reconnect_min_ms, reconnect_max_ms,
}

-- What a call of iotx_mc_keepalive meets: the clock at each reading, the result of MQTTKeepalive, and
-- the passes of _mqtt_connect.
pub record Env : Type 0 where
  pub ping_now : ℕ
  pub ping_set : ℕ
  pub ping_rc : Status
  pub retry_now : ℕ
  pub retry_set : ℕ
  pub lost_set : ℕ
  pub connected_now : ℕ
  pub attempts : ℕ → Attempt

-- `rc == STATE_SYS_DEPEND_NWK_CLOSE`
abbrev pub is_nwk_close : Status → Bool
is_nwk_close nwk_close = true
is_nwk_close _ = false

unfoldable pub check_state : Client → Bool
check_state c = is_connected c.client_state

-- iotx_mc_keepalive_sub
unfoldable pub keepalive_sub : Env → Client → Status × Client
keepalive_sub env c =
    if not (check_state c)
    then (state_success, c)
    else if time_is_expired env.ping_now (some c.next_ping_time) == 0
    then (state_success, c)
    else let pinged = record c {
      next_ping_time = countdown env.ping_set c.next_ping_time (c.keep_alive_interval * 1000);
    } in
      if is_success env.ping_rc
      then (state_success, record pinged { keepalive_probes = u8 (pinged.keepalive_probes + 1) })
      else if is_nwk_close env.ping_rc
      then (env.ping_rc, set_client_state disconnected pinged)
      else (env.ping_rc, pinged)

-- iotx_mc_attempt_reconnect; the result of _mqtt_nwk_connect is not used.
unfoldable pub attempt_reconnect : Env → Client → (Status × Client) × List ℕ
attempt_reconnect env c = mqtt_connect env.connected_now env.attempts c

-- The interval of iotx_mc_handle_reconnect after a failure.
unfoldable pub next_interval : ℕ → ℕ
next_interval ms = if ltb ms reconnect_max_ms then u32 (ms * 2) else reconnect_max_ms

unfoldable pub wait_interval : ℕ → ℕ
wait_interval ms = if ltb reconnect_max_ms ms then reconnect_max_ms else ms

-- iotx_mc_handle_reconnect: the status, the client, and the intervals of the CONNECT packets.
unfoldable pub handle_reconnect : Env → Client → (Status × Client) × List ℕ
handle_reconnect env c =
    if time_is_expired env.retry_now (some c.reconnect_next_time) == 0
    then ((wait_reconn_timer, c), [])
    else let ((rc, d), sent) = attempt_reconnect env c in
      if is_success rc
      then ((rc, set_client_state connected d), sent)
      else let ms = next_interval d.reconnect_time_interval_ms in
        (
          (
            rc,
            record d {
              reconnect_time_interval_ms = ms;
              reconnect_next_time =
                  countdown env.retry_set d.reconnect_next_time (wait_interval ms);
            },
          ),
          sent,
        )

-- The events of iotx_mc_reconnect_callback and iotx_mc_disconnect_callback.
pub data Event : Type 0 where
  event_reconnect event_disconnect : Event

-- The branch of iotx_mc_keepalive that reconnects.
unfoldable pub try_reconnect : Env → Client → List Event × Client
try_reconnect env c =
    let ((rc, d), sent) = handle_reconnect env c in
    if is_success rc
    then (event_reconnect ∷ [], record d { reconnect_time_interval_ms = reconnect_min_ms })
    else ([], d)

-- The branch that meets a lost connection.
unfoldable pub start_reconnect : Env → Client → List Event × Client
start_reconnect env c = (
  event_disconnect ∷ [],
  set_client_state disconnected_reconnecting (record c {
    reconnect_time_interval_ms = reconnect_min_ms;
    reconnect_next_time = countdown env.lost_set c.reconnect_next_time reconnect_min_ms;
  }),
)

-- iotx_mc_keepalive after the ping, by the state it reads.
unfoldable pub keepalive_in : McState → Env → Client → List Event × Client
keepalive_in disconnected_reconnecting env c = try_reconnect env c
keepalive_in connect_block env c = try_reconnect env c
keepalive_in disconnected env c = start_reconnect env c
keepalive_in _ env c = ([], c)

unfoldable pub keepalive : Env → Client → List Event × Client
keepalive env c = let (rc, d) = keepalive_sub env c in keepalive_in d.client_state env d

abbrev pub is_handled : ℕ → Bool
is_handled type = type == puback || type == suback || type == publish || type == unsuback

-- iotx_mc_cycle on the connection; what the handlers of packets do besides is left to its callers.
unfoldable pub cycle : Read → Client → Status × Client
cycle r c =
    if not (is_connected c.client_state)
    then (in_offline_status, c)
    else if ltb probe_max c.keepalive_probes
    then (in_offline_status, record (set_client_state disconnected c) { keepalive_probes = 0 })
    else if not (is_success r.rc)
    then (nwk_close, if is_nwk_close r.rc then set_client_state disconnected c else c)
    else if r.packet_type == mqtt_cpt_reserved
    then (state_success, c)
    else let d = record c { keepalive_probes = 0 } in
      if is_handled r.packet_type
      then (r.handled, d)
      else if r.packet_type == connack || r.packet_type == pingresp
      then (state_success, d)
      else (recv_unknown_packet, d)
