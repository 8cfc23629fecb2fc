-- ===== src/Mqtt/Publish.antt =====
-- eng/mqtt/iotx_mqtt_client.c: publishing, and the list of published packets that wait for their
-- acknowledgement. The packet that MQTTSerialize_publish writes, allocations, the clock and the network
-- are arguments.
pub mod Waiting
pub mod Delivery
pub mod Rounds
mod Runs
use nu_maker_mbed_aliyun_io.Base.{
  ℕ, zero, suc, ◌+◌, ◌-◌, ◌*◌, Bool, true, false, ltb, leb, ◌==◌, if◌then◌else◌, ◌||◌, not, Option,
  none, some, List, [], ◌∷◌, ◌++◌, length,
}
use nu_maker_mbed_aliyun_io.Base.Bits.{u16, u32}
use nu_maker_mbed_aliyun_io.Infra.Timer.{time_spend}
use nu_maker_mbed_aliyun_io.Mqtt.Status.{
  Status, is_success, state_success, nwk_close, in_offline_status, user_input_invalid,
  malloc_failed, tx_buffer_too_short, qos1_repub_exceed_max, pub_qos_invalid, unexp_topic_format,
  serialize_pub_error,
}
use nu_maker_mbed_aliyun_io.Mqtt.Topic.{topic_name_type, check_topic}
use nu_maker_mbed_aliyun_io.Mqtt.Link.{
  McState, connected, disconnected, is_connected, Client, set_client_state, get_next_packetid,
}
use nu_maker_mbed_aliyun_io.Mqtt.Link.Yield.{check_state, is_nwk_close}

abbrev pub repub_num_max : ℕ
repub_num_max = 10

-- iotx_mc_node_t
pub data NodeState : Type 0 where
  node_normal node_invalid : NodeState

abbrev pub is_invalid : NodeState → Bool
is_invalid node_normal = false
is_invalid node_invalid = true

-- iotx_mc_pub_info_t; the length is that of the packet.
pub record PubInfo : Type 0 where
  pub pub_start_time : ℕ
  pub node_state : NodeState
  pub msg_id : ℕ
  pub buf : List ℕ

-- iotx_mc_client_t, as far as publishing goes.
pub record PubClient : Type 0 where
  pub link : Client
  pub buf_size_send : ℕ
  pub request_timeout_ms : ℕ
  pub list_pub_wait_ack : List PubInfo

-- iotx_mc_push_pubInfo_to: `packet` is the text of the send buffer.
unfoldable pub push_pub_info : Bool → ℕ → List ℕ → ℕ → PubClient → Status × PubClient
push_pub_info alloc now packet msg_id c =
    if ltb c.buf_size_send (length packet)
    then (tx_buffer_too_short, c)
    else if leb repub_num_max (length c.list_pub_wait_ack)
    then (qos1_repub_exceed_max, c)
    else if not alloc
    then (malloc_failed, c)
    else let node : PubInfo = record {
      pub_start_time = u32 now;
      node_state = node_normal;
      msg_id = msg_id;
      buf = packet;
    } in
      (state_success, record c { list_pub_wait_ack = c.list_pub_wait_ack ++ (node ∷ []) })

unfoldable pub mask_nodes : ℕ → List PubInfo → List PubInfo
mask_nodes msg_id [] = []
mask_nodes msg_id (n ∷ ns) =
    let rest = mask_nodes msg_id ns in
    if n.msg_id == msg_id then record n { node_state = node_invalid } ∷ rest else n ∷ rest

unfoldable pub mask_pub_info : ℕ → PubClient → PubClient
mask_pub_info msg_id c = record c { list_pub_wait_ack = mask_nodes msg_id c.list_pub_wait_ack }

-- iotx_mc_handle_recv_PUBACK: the packet id is `none` if MQTTDeserialize_ack fails; the user hears of
-- the id that was published.
unfoldable pub handle_recv_puback : Option ℕ → PubClient → Option ℕ × PubClient
handle_recv_puback none c = (none, c)
handle_recv_puback (some id) c = (some id, mask_pub_info id c)

-- What MQTTPubInfoProc meets at a node: the clock, whether the packet goes out, and the clock again.
pub record Resend : Type 0 where
  pub asked : ℕ
  pub sent : Bool
  pub started : ℕ

-- The loop of MQTTPubInfoProc at the node number `i`: the nodes, the packets it tries to send, and
-- whether it met a closed network. `online` is whether the client is connected.
unfoldable pub proc_nodes :
    ℕ → (ℕ → Resend) → Bool → ℕ → List PubInfo → List PubInfo × List (List ℕ) × Bool
proc_nodes i resends online timeout [] = ([], [], false)
proc_nodes i resends online timeout (n ∷ ns) =
    let (rest, packets, closed) = proc_nodes (i + 1) resends online timeout ns in
    let again = record n { pub_start_time = u32 (resends i).started } in
    if is_invalid n.node_state
    then (rest, packets, closed)
    else if not online
    then (n ∷ rest, packets, closed)
    else if leb (time_spend (resends i).asked (some n.pub_start_time)) (u32 (timeout * 2))
    then (n ∷ rest, packets, closed)
    else if not (resends i).sent
    then (again ∷ ns, n.buf ∷ [], true)
    else (again ∷ rest, n.buf ∷ packets, closed)

-- MQTTPubInfoProc: the packets it tries to send, and the client.
unfoldable pub pub_info_proc : (ℕ → Resend) → PubClient → List (List ℕ) × PubClient
pub_info_proc resends c =
    let (nodes, packets, closed) =
      proc_nodes 0 resends (is_connected c.link.client_state) c.request_timeout_ms
        c.list_pub_wait_ack in
    (
      packets,
      record c {
        link = if closed then set_client_state disconnected c.link else c.link;
        list_pub_wait_ack = nodes;
      },
    )

pub data Qos : Type 0 where
  qos0 qos1 qos2 : Qos

abbrev pub is_qos0 : Qos → Bool
is_qos0 qos0 = true
is_qos0 _ = false

-- What MQTTPublish meets: the result of _alloc_send_buffer, the packet that MQTTSerialize_publish
-- writes for a packet id, the allocation of a node, the clock, and whether the packet goes out.
pub record PubEnv : Type 0 where
  pub buffer : Status
  pub packet : ℕ → Option (List ℕ)
  pub alloc : Bool
  pub now : ℕ
  pub sent : Bool

-- The packet is put on the list unless its QoS is 0.
unfoldable pub wait_for_ack : PubEnv → Qos → ℕ → List ℕ → PubClient → Status × PubClient
wait_for_ack env qos id packet c =
    if is_qos0 qos then (state_success, c) else push_pub_info env.alloc env.now packet (u16 id) c

-- MQTTPublish from the serialized packet on. A packet that does not go out is taken off the list.
unfoldable pub publish_packet : PubEnv → Qos → ℕ → List ℕ → PubClient → Status × PubClient
publish_packet env qos id packet c =
    let (rc, d) = wait_for_ack env qos id packet c in
    if not (is_success rc) then (rc, c) else if env.sent then (state_success, d) else (nwk_close, c)

-- MQTTPublish from the result of MQTTSerialize_publish on.
unfoldable pub publish_serialized :
    PubEnv → Qos → ℕ → Option (List ℕ) → PubClient → Status × PubClient
publish_serialized env qos id none c = (serialize_pub_error, c)
publish_serialized env qos id (some packet) c = publish_packet env qos id packet c

unfoldable pub mqtt_publish : PubEnv → Qos → ℕ → PubClient → Status × PubClient
mqtt_publish env qos id c =
    if not (is_success env.buffer)
    then (env.buffer, c)
    else publish_serialized env qos id (env.packet id) c

-- What wrapper_mqtt_publish returns: a code, or the packet id, which is 0 for QoS 0.
pub data Published : Type 0 where
  refused : Status → Published
  published : ℕ → Published

unfoldable pub publish_finish : ℕ → Status × PubClient → Published × PubClient
publish_finish id (rc, c) =
    if is_success rc
    then (published id, c)
    else if is_nwk_close rc
    then (refused rc, record c { link = set_client_state disconnected c.link })
    else (refused rc, c)

-- wrapper_mqtt_publish once the topic is accepted and the client is connected.
unfoldable pub publish_with : PubEnv → Qos → PubClient → Published × PubClient
publish_with env qos0 c = publish_finish 0 (mqtt_publish env qos0 0 c)
publish_with env qos1 c =
    let (id, link) = get_next_packetid c.link in
    publish_finish (u16 id) (mqtt_publish env qos1 (u16 id) (record c { link = link }))
publish_with env qos2 c =
    (refused pub_qos_invalid, record c { link = (get_next_packetid c.link).1 })

-- wrapper_mqtt_publish from the check of the topic on, which always comes to an end (Topic.Accepted).
unfoldable pub publish_checked : PubEnv → Qos → Option Status → PubClient → Published × PubClient
publish_checked env qos none c = (refused unexp_topic_format, c)
publish_checked env qos (some rc) c =
    if not (is_success rc)
    then (refused rc, c)
    else if not (check_state c.link)
    then (refused in_offline_status, c)
    else publish_with env qos c

unfoldable pub wrapper_publish : PubEnv → Option (List ℕ) → Qos → PubClient → Published × PubClient
wrapper_publish env none qos c = (refused user_input_invalid, c)
wrapper_publish env (some topic) qos c =
    publish_checked env qos (check_topic (some topic) topic_name_type) c
