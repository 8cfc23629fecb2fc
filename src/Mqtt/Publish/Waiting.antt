-- ===== src/Mqtt/Publish/Waiting.antt =====
-- The list of packets that wait for an acknowledgement.
use nu_maker_mbed_aliyun_io.Base.{
  ℕ, suc, if_elim, ◌+◌, ◌*◌, ◌≤◌, ◌<◌, ◌≡◌, refl, arith, Bool, not, ltb, leb, Option, none, some,
  List, [], ◌∷◌, ◌++◌, length, length-append, Option-cases, inl, inr,
}
use nu_maker_mbed_aliyun_io.Base.Bits.{u16, u32}
use nu_maker_mbed_aliyun_io.Infra.Timer.{time_spend}
use nu_maker_mbed_aliyun_io.Mqtt.Status.{Status, is_success}
use nu_maker_mbed_aliyun_io.Mqtt.Topic.{topic_name_type, check_topic}
use nu_maker_mbed_aliyun_io.Mqtt.Link.{Client, is_connected}
use nu_maker_mbed_aliyun_io.Mqtt.Link.Yield.{check_state, is_nwk_close}
use nu_maker_mbed_aliyun_io.Mqtt.Publish.{
  repub_num_max, node_normal, is_invalid, PubInfo, PubClient, push_pub_info, mask_nodes,
  mask_pub_info, handle_recv_puback, Resend, proc_nodes, pub_info_proc, Qos, qos0, qos1, qos2,
  is_qos0, PubEnv, wait_for_ack, publish_packet, publish_serialized, publish_checked, mqtt_publish,
  Published, publish_finish, publish_with, wrapper_publish,
}

-- What happens to the list: a publish, an acknowledgement, a round of MQTTPubInfoProc, and any change
-- of the connection.
pub data Step : Type 0 where
  publishes : PubEnv → Option (List ℕ) → Qos → Step
  acks : Option ℕ → Step
  procs : (ℕ → Resend) → Step
  links : Client → Step

unfoldable pub step : PubClient → Step → PubClient
step c (publishes env topic qos) = (wrapper_publish env topic qos c).1
step c (acks id) = (handle_recv_puback id c).1
step c (procs resends) = (pub_info_proc resends c).1
step c (links l) = record c { link = l }

unfoldable pub run : PubClient → List Step → PubClient
run c [] = c
run c (s ∷ ss) = run (step c s) ss

-- A call of wrapper_mqtt_publish leaves the list as it was, or adds one node behind it.
pub data Grows (ns : List PubInfo) : List PubInfo → Type 0 where
  kept : Grows ns ns
  added :
      (node : PubInfo)
      → length ns < repub_num_max
      → node.node_state ≡ node_normal
      → Grows ns (ns ++ (node ∷ []))

push_pub_info-Grows :
    (alloc : Bool) (now : ℕ) (packet : List ℕ) (id : ℕ) (c : PubClient)
    → Grows c.list_pub_wait_ack (push_pub_info alloc now packet id c).1.list_pub_wait_ack
unfolding push_pub_info
push_pub_info-Grows alloc now packet id c =
    let P = λ (p : Status × PubClient). Grows c.list_pub_wait_ack p.1.list_pub_wait_ack in
    if_elim P (ltb c.buf_size_send (length packet)) (λ a. kept)
      (λ a.
        if_elim P (leb repub_num_max (length c.list_pub_wait_ack)) (λ b. kept)
          (λ b. if_elim P (not alloc) (λ d. kept) (λ d. added _ (ground (arith, b)) refl)))

publish_packet-Grows :
    (env : PubEnv) (qos : Qos) (id : ℕ) (packet : List ℕ) (c : PubClient)
    → Grows c.list_pub_wait_ack (publish_packet env qos id packet c).1.list_pub_wait_ack
unfolding publish_packet wait_for_ack
publish_packet-Grows env qos id packet c =
    let P = λ (p : Status × PubClient). Grows c.list_pub_wait_ack p.1.list_pub_wait_ack in
    let tried : P (wait_for_ack env qos id packet c) =
      if_elim P (is_qos0 qos) (λ a. kept)
        (λ a. push_pub_info-Grows env.alloc env.now packet (u16 id) c) in
    if_elim P (not (is_success (wait_for_ack env qos id packet c).0)) (λ a. kept)
      (λ a. if_elim P env.sent (λ b. tried) (λ b. kept))

mqtt_publish-Grows :
    (env : PubEnv) (qos : Qos) (id : ℕ) (c : PubClient)
    → Grows c.list_pub_wait_ack (mqtt_publish env qos id c).1.list_pub_wait_ack
unfolding mqtt_publish publish_serialized
mqtt_publish-Grows env qos id c =
    if_elim (λ (p : Status × PubClient). Grows c.list_pub_wait_ack p.1.list_pub_wait_ack)
      (not (is_success env.buffer)) (λ a. kept)
      (λ a. elim (Option-cases (env.packet id)) [
        | inl e ↦ rw e kept
        | inr (packet, e) ↦ rw e (publish_packet-Grows env qos id packet c)
      ])

publish_finish-Grows :
    (ns : List PubInfo) (id : ℕ) (p : Status × PubClient)
    → Grows ns p.1.list_pub_wait_ack
    → Grows ns (publish_finish id p).1.list_pub_wait_ack
unfolding publish_finish
publish_finish-Grows ns id (rc, c) g =
    let P = λ (p : Published × PubClient). Grows ns p.1.list_pub_wait_ack in
    if_elim P (is_success rc) (λ a. g) (λ a. if_elim P (is_nwk_close rc) (λ b. g) (λ b. g))

publish_with-Grows :
    (env : PubEnv) (qos : Qos) (c : PubClient)
    → Grows c.list_pub_wait_ack (publish_with env qos c).1.list_pub_wait_ack
unfolding publish_with
publish_with-Grows env qos0 c = publish_finish-Grows _ _ _ (mqtt_publish-Grows env qos0 0 c)
publish_with-Grows env qos1 c = publish_finish-Grows _ _ _ (mqtt_publish-Grows env qos1 _ _)
publish_with-Grows env qos2 c = kept

pub wrapper_publish-Grows :
    (env : PubEnv) (topic : Option (List ℕ)) (qos : Qos) (c : PubClient)
    → Grows c.list_pub_wait_ack (wrapper_publish env topic qos c).1.list_pub_wait_ack
unfolding wrapper_publish publish_checked
wrapper_publish-Grows env none qos c = kept
wrapper_publish-Grows env (some topic) qos c =
    let P = λ (p : Published × PubClient). Grows c.list_pub_wait_ack p.1.list_pub_wait_ack in
    elim (Option-cases (check_topic (some topic) topic_name_type)) [
      | inl e ↦ rw e kept
      | inr (rc, e) ↦ rw e (
          if_elim P (not (is_success rc)) (λ a. kept)
            (λ a.
              if_elim P (not (check_state c.link)) (λ b. kept) (λ b. publish_with-Grows env qos c)))
    ]

length-mask_nodes : (id : ℕ) (ns : List PubInfo) → length (mask_nodes id ns) ≡ length ns
unfolding mask_nodes
length-mask_nodes id [] = refl
length-mask_nodes id (n ∷ ns) = ground (arith, length-mask_nodes id ns)

length-proc_nodes :
    (i : ℕ) (resends : ℕ → Resend) (online : Bool) (timeout : ℕ) (ns : List PubInfo)
    → length (proc_nodes i resends online timeout ns).0 ≤ length ns
unfolding proc_nodes
length-proc_nodes i resends online timeout [] = omega arith
length-proc_nodes i resends online timeout (n ∷ ns) =
    let h = length-proc_nodes (i + 1) resends online timeout ns in
    let P = λ (p : List PubInfo × List (List ℕ) × Bool). length p.0 ≤ suc (length ns) in
    if_elim P (is_invalid n.node_state) (λ a. omega (arith, h))
      (λ a.
        if_elim P (not online) (λ b. omega (arith, h))
          (λ b.
            if_elim P
              (leb (time_spend (resends i).asked (some n.pub_start_time)) (u32 (timeout * 2)))
              (λ d. omega (arith, h))
              (λ d. if_elim P (not (resends i).sent) (λ e. omega arith) (λ e. omega (arith, h)))))

-- Room on the list: at most ten packets wait.
abbrev pub IsBounded : PubClient → Type 0
IsBounded c = length c.list_pub_wait_ack ≤ 10

Grows-length : (ns ms : List PubInfo) → Grows ns ms → length ns ≤ 10 → length ms ≤ 10
Grows-length ns _ kept h = h
Grows-length ns _ (added n room _) h = omega (arith, length-append ns (n ∷ []))

step-IsBounded : (c : PubClient) (s : Step) → IsBounded c → IsBounded (step c s)
unfolding step handle_recv_puback mask_pub_info pub_info_proc
step-IsBounded c (publishes env topic qos) h =
    Grows-length _ _ (wrapper_publish-Grows env topic qos c) h
step-IsBounded c (acks none) h = h
step-IsBounded c (acks (some id)) h = omega (arith, length-mask_nodes id c.list_pub_wait_ack)
step-IsBounded c (procs resends) h = omega (
  arith,
  length-proc_nodes 0 resends (is_connected c.link.client_state) c.request_timeout_ms
      c.list_pub_wait_ack,
)
step-IsBounded c (links l) h = h

-- Over any sequence of publishes, acknowledgements, rounds and changes of the connection, at most ten
-- packets wait for an acknowledgement.
pub run-IsBounded : (c : PubClient) (ss : List Step) → IsBounded c → IsBounded (run c ss)
unfolding run
run-IsBounded c [] h = h
run-IsBounded c (s ∷ ss) h = run-IsBounded (step c s) ss (step-IsBounded c s h)
