-- ===== src/Mqtt/Cycle.antt =====
-- eng/mqtt/iotx_mqtt_client.c: one call of wrapper_mqtt_yield, with the packets that wait for their
-- acknowledgement.
use nu_maker_mbed_aliyun_io.Base.{
  ℕ, Bool, ltb, ◌==◌, ◌&&◌, not, if◌then◌else◌, Option, List, [], ◌∷◌,
}
use nu_maker_mbed_aliyun_io.Mqtt.Status.{is_success}
use nu_maker_mbed_aliyun_io.Mqtt.Link.{is_connected, Client, Read, probe_max, puback}
use nu_maker_mbed_aliyun_io.Mqtt.Link.Yield.{Env, Event, keepalive, cycle}
use nu_maker_mbed_aliyun_io.Mqtt.Publish.{PubClient, handle_recv_puback, Resend, pub_info_proc}

-- What a pass of the loop of _mqtt_cycle meets: the read, the packet id of an acknowledgement (`none` if
-- MQTTDeserialize_ack fails), and the packets that are due to be sent again.
pub record Pass : Type 0 where
  pub read : Read
  pub acked : Option ℕ
  pub resends : ℕ → Resend

-- The packet that iotx_mc_cycle reads reaches its handler.
unfoldable pub is_dispatched : Read → Client → Bool
is_dispatched r c =
    is_connected c.client_state && (not (ltb probe_max c.keepalive_probes) && is_success r.rc)

-- What iotx_mc_cycle does to the list of waiting packets.
unfoldable pub acknowledge : Pass → PubClient → PubClient
acknowledge p c =
    if is_dispatched p.read c.link && p.read.packet_type == puback
    then (handle_recv_puback p.acked c).1
    else c

-- A pass of the loop: MQTTPubInfoProc runs behind an iotx_mc_cycle that succeeds.
unfoldable pub cycle_pass : Pass → PubClient → PubClient
cycle_pass p c =
    let (rc, link) = cycle p.read c.link in
    let d = record (acknowledge p c) { link = link } in
    if is_success rc then (pub_info_proc p.resends d).1 else d

-- _mqtt_cycle: a first pass, and one for each of the others before its time is over.
unfoldable pub mqtt_cycle : Pass → List Pass → PubClient → PubClient
mqtt_cycle p [] c = cycle_pass p c
mqtt_cycle p (q ∷ ps) c = mqtt_cycle q ps (cycle_pass p c)

-- wrapper_mqtt_yield with a time-out that is not negative: the events, and the client.
unfoldable pub yield : Env → Pass → List Pass → PubClient → List Event × PubClient
yield env p ps c =
    let (events, link) = keepalive env c.link in
    (events, mqtt_cycle p ps (record c { link = link }))
