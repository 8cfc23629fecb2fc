-- ===== src/Mqtt/Publish/Delivery.antt =====
-- What becomes of a packet that waits for its acknowledgement.
use nu_maker_mbed_aliyun_io.Base.{
  ℕ, if_elim, ◌+◌, ◌*◌, ◌≡◌, refl, sym, ap, subst, ◌∙◌, arith, Bool, true, not, ltb, leb, ◌==◌,
  ==-false, Option, none, some, List, [], ◌∷◌, ◌++◌, length, Bool-cases, inl, inr, ◌≢◌, All,
}
use nu_maker_mbed_aliyun_io.Base.Bits.{u16, u32}
use nu_maker_mbed_aliyun_io.Infra.Timer.{time_spend}
use nu_maker_mbed_aliyun_io.Mqtt.Status.{Status, is_success}
use nu_maker_mbed_aliyun_io.Mqtt.Topic.{topic_name_type, check_topic}
use nu_maker_mbed_aliyun_io.Mqtt.Link.{get_next_packetid}
use nu_maker_mbed_aliyun_io.Mqtt.Link.Yield.{check_state, is_nwk_close}
use nu_maker_mbed_aliyun_io.Mqtt.Publish.{
  repub_num_max, node_normal, is_invalid, PubInfo, PubClient, push_pub_info, mask_nodes,
  mask_pub_info, handle_recv_puback, Resend, proc_nodes, pub_info_proc, qos1, PubEnv, wait_for_ack,
  publish_packet, publish_serialized, mqtt_publish, Published, refused, published, publish_finish,
  publish_with, publish_checked, wrapper_publish,
}
use nu_maker_mbed_aliyun_io.Mqtt.Publish.Waiting.{
  Step, publishes, acks, procs, links, step, run, Grows, kept, added, wrapper_publish-Grows,
}

-- A packet with this id waits on the list.
pub data Pending (id : ℕ) (packet : List ℕ) : List PubInfo → Type 0 where
  here :
      (n : PubInfo) (ns : List PubInfo)
      → n.node_state ≡ node_normal
      → n.msg_id ≡ id
      → n.buf ≡ packet
      → Pending id packet (n ∷ ns)
  there : (n : PubInfo) (ns : List PubInfo) → Pending id packet ns → Pending id packet (n ∷ ns)

-- No acknowledgement of this id.
abbrev pub IsOther : ℕ → Step → Type 0
IsOther id (acks (some other)) = other ≢ id
IsOther id _ = Unit

module _ (id : ℕ) (packet : List ℕ) where
  Pending-last :
      (ns : List PubInfo) (n : PubInfo)
      → n.node_state ≡ node_normal
      → n.msg_id ≡ id
      → n.buf ≡ packet
      → Pending id packet (ns ++ (n ∷ []))
  Pending-last [] n a b c = here n [] a b c
  Pending-last (m ∷ ns) n a b c = there m _ (Pending-last ns n a b c)

  Pending-append : (ns ms : List PubInfo) → Pending id packet ns → Pending id packet (ns ++ ms)
  Pending-append _ ms (here n ns a b c) = here n (ns ++ ms) a b c
  Pending-append _ ms (there n ns p) = there n (ns ++ ms) (Pending-append ns ms p)

  Pending-Grows : (ns ms : List PubInfo) → Grows ns ms → Pending id packet ns → Pending id packet ms
  Pending-Grows ns _ kept p = p
  Pending-Grows ns _ (added n room fresh) p = Pending-append ns (n ∷ []) p

  Pending-mask :
      (other : ℕ) (ns : List PubInfo)
      → other ≢ id
      → Pending id packet ns
      → Pending id packet (mask_nodes other ns)
  unfolding mask_nodes
  Pending-mask other _ differs (here n ns a b c) =
      rw (mask_nodes, ==-false n.msg_id other (λ e. differs (sym e ∙ b))) (here n _ a b c)
  Pending-mask other _ differs (there n ns p) =
      let q = Pending-mask other ns differs p in
      if_elim (Pending id packet) (n.msg_id == other) (λ e. there _ _ q) (λ e. there n _ q)

  Pending-proc_nodes :
      (i : ℕ) (resends : ℕ → Resend) (online : Bool) (timeout : ℕ) (ns : List PubInfo)
      → Pending id packet ns
      → Pending id packet (proc_nodes i resends online timeout ns).0
  unfolding proc_nodes
  Pending-proc_nodes i resends online timeout _ (here n ns a b c) =
      let P = λ (p : List PubInfo × List (List ℕ) × Bool). Pending id packet p.0 in
      if_elim P (is_invalid n.node_state) (λ e. cc (e, ap is_invalid a))
        (λ e.
          if_elim P (not online) (λ f. here n _ a b c)
            (λ f.
              if_elim P
                (leb (time_spend (resends i).asked (some n.pub_start_time)) (u32 (timeout * 2)))
                (λ g. here n _ a b c)
                (λ g.
                  if_elim P (not (resends i).sent) (λ h. here _ _ a b c) (λ h. here _ _ a b c))))
  Pending-proc_nodes i resends online timeout _ (there n ns p) =
      let P = λ (p : List PubInfo × List (List ℕ) × Bool). Pending id packet p.0 in
      let q = Pending-proc_nodes (i + 1) resends online timeout ns p in
      if_elim P (is_invalid n.node_state) (λ e. q)
        (λ e.
          if_elim P (not online) (λ f. there n _ q)
            (λ f.
              if_elim P
                (leb (time_spend (resends i).asked (some n.pub_start_time)) (u32 (timeout * 2)))
                (λ g. there n _ q)
                (λ g. if_elim P (not (resends i).sent) (λ h. there _ _ p) (λ h. there _ _ q))))

  step-Pending :
      (c : PubClient) (s : Step)
      → IsOther id s
      → Pending id packet c.list_pub_wait_ack
      → Pending id packet (step c s).list_pub_wait_ack
  unfolding step handle_recv_puback mask_pub_info pub_info_proc
  step-Pending c (publishes env topic qos) o p =
      Pending-Grows _ _ (wrapper_publish-Grows env topic qos c) p
  step-Pending c (acks none) o p = p
  step-Pending c (acks (some other)) o p = Pending-mask other c.list_pub_wait_ack o p
  step-Pending c (procs resends) o p = Pending-proc_nodes 0 resends _ _ c.list_pub_wait_ack p
  step-Pending c (links l) o p = p

  run-Pending :
      (c : PubClient) (ss : List Step)
      → All (IsOther id) ss
      → Pending id packet c.list_pub_wait_ack
      → Pending id packet (run c ss).list_pub_wait_ack
  unfolding run
  run-Pending c [] os p = p
  run-Pending c (s ∷ ss) (o, os) p = run-Pending (step c s) ss os (step-Pending c s o p)

push_pub_info-Pending :
    (alloc : Bool) (now : ℕ) (packet : List ℕ) (id : ℕ) (c : PubClient)
    → is_success (push_pub_info alloc now packet id c).0 ≡ true
    → Pending id packet (push_pub_info alloc now packet id c).1.list_pub_wait_ack
unfolding push_pub_info
push_pub_info-Pending alloc now packet id c =
    let P =
      λ (p : Status × PubClient). is_success p.0 ≡ true → Pending id packet p.1.list_pub_wait_ack in
    if_elim P (ltb c.buf_size_send (length packet)) (λ a h. cc)
      (λ a.
        if_elim P (leb repub_num_max (length c.list_pub_wait_ack)) (λ b h. cc)
          (λ b.
            if_elim P (not alloc) (λ d h. cc)
              (λ d h. Pending-last id packet c.list_pub_wait_ack _ refl refl refl)))

publish_packet-Pending :
    (env : PubEnv) (id : ℕ) (packet : List ℕ) (c : PubClient)
    → is_success (publish_packet env qos1 id packet c).0 ≡ true
    → Pending (u16 id) packet (publish_packet env qos1 id packet c).1.list_pub_wait_ack
unfolding publish_packet wait_for_ack
publish_packet-Pending env id packet c =
    let P = λ (p : Status × PubClient).
      is_success p.0 ≡ true → Pending (u16 id) packet p.1.list_pub_wait_ack in
    let pushed = push_pub_info env.alloc env.now packet (u16 id) c in
    elim (Bool-cases (is_success pushed.0)) [
      | inl good ↦ rw good (
          if_elim P env.sent (λ d h. push_pub_info-Pending env.alloc env.now packet (u16 id) c good)
            (λ d h. cc))
      | inr bad ↦ if_elim P (not (is_success pushed.0)) (λ b h. cc) (λ b h. cc)
    ]

-- If the publish succeeds, a packet was written, and waits under the id.
abbrev IsQueued : Option (List ℕ) → ℕ → Status × PubClient → Type 0
IsQueued o id p =
    is_success p.0 ≡ true
    → (packet : List ℕ) × (o ≡ some packet) × Pending (u16 id) packet p.1.list_pub_wait_ack

publish_serialized-IsQueued :
    (env : PubEnv) (id : ℕ) (o : Option (List ℕ)) (c : PubClient)
    → IsQueued o id (publish_serialized env qos1 id o c)
unfolding publish_serialized
publish_serialized-IsQueued env id none c h = cc
publish_serialized-IsQueued env id (some packet) c h =
    (packet, refl, publish_packet-Pending env id packet c h)

mqtt_publish-IsQueued :
    (env : PubEnv) (id : ℕ) (c : PubClient)
    → IsQueued (env.packet id) id (mqtt_publish env qos1 id c)
unfolding mqtt_publish
mqtt_publish-IsQueued env id c = elim (Bool-cases (is_success env.buffer)) [
  | inl good ↦ rw good (publish_serialized-IsQueued env id (env.packet id) c)
  | inr bad ↦ rw bad (λ h. cc)
]

published_inj : (a b : ℕ) → published a ≡ published b → a ≡ b
published_inj a b e = ap (λ p. elim p [ refused rc ↦ 0 | published id ↦ id ]) e

publish_finish-Pending :
    (id k : ℕ) (o : Option (List ℕ)) (p : Status × PubClient)
    → IsQueued o id p
    → (publish_finish id p).0 ≡ published k
    → (packet : List ℕ) × (o ≡ some packet)
      × (id ≡ k)
      × Pending (u16 id) packet (publish_finish id p).1.list_pub_wait_ack
unfolding publish_finish
publish_finish-Pending id k o (rc, c) q =
    let P = λ (r : Published × PubClient).
      r.0 ≡ published k
      → (packet : List ℕ) × (o ≡ some packet)
        × (id ≡ k)
        × Pending (u16 id) packet r.1.list_pub_wait_ack in
    if_elim P (is_success rc)
      (λ a e. let (packet, same, w) = q a in (packet, same, published_inj id k e, w))
      (λ a. if_elim P (is_nwk_close rc) (λ b e. cc) (λ b e. cc))

publish_with-Pending :
    (env : PubEnv) (k : ℕ) (c : PubClient)
    → (publish_with env qos1 c).0 ≡ published k
    → (packet : List ℕ) × (env.packet k ≡ some packet)
      × Pending k packet (publish_with env qos1 c).1.list_pub_wait_ack
unfolding publish_with
publish_with-Pending env k c e =
    let (id, link) = get_next_packetid c.link in
    let (packet, same, is, w) =
      publish_finish-Pending (u16 id) k (env.packet (u16 id))
        (mqtt_publish env qos1 (u16 id) (record c { link = link }))
        (mqtt_publish-IsQueued env (u16 id) _) e in
    let whole : u16 (u16 id) ≡ k = omega (arith, is) in
    (
      packet,
      subst (λ j. env.packet j ≡ some packet) is same,
      subst (λ j. Pending j packet (publish_with env qos1 c).1.list_pub_wait_ack) whole w,
    )

publish_checked-Pending :
    (env : PubEnv) (o : Option Status) (k : ℕ) (c : PubClient)
    → (publish_checked env qos1 o c).0 ≡ published k
    → (packet : List ℕ) × (env.packet k ≡ some packet)
      × Pending k packet (publish_checked env qos1 o c).1.list_pub_wait_ack
unfolding publish_checked
publish_checked-Pending env none k c = λ e. cc
publish_checked-Pending env (some rc) k c =
    let P = λ (r : Published × PubClient).
      r.0 ≡ published k
      → (packet : List ℕ) × (env.packet k ≡ some packet) × Pending k packet r.1.list_pub_wait_ack in
    if_elim P (not (is_success rc)) (λ a e. cc)
      (λ a. if_elim P (not (check_state c.link)) (λ b e. cc) (λ b. publish_with-Pending env k c))

wrapper_publish-Pending :
    (env : PubEnv) (topic : Option (List ℕ)) (k : ℕ) (c : PubClient)
    → (wrapper_publish env topic qos1 c).0 ≡ published k
    → (packet : List ℕ) × (env.packet k ≡ some packet)
      × Pending k packet (wrapper_publish env topic qos1 c).1.list_pub_wait_ack
unfolding wrapper_publish
wrapper_publish-Pending env none k c = λ e. cc
wrapper_publish-Pending env (some topic) k c =
    publish_checked-Pending env (check_topic (some topic) topic_name_type) k c

-- If a publish of QoS 1 returns a packet id, the packet written for that id waits on the list, and it
-- still waits after any sequence of publishes, rounds of MQTTPubInfoProc, changes of the connection and
-- acknowledgements of other ids.
pub wrapper_publish-waits :
    (env : PubEnv) (topic : Option (List ℕ)) (k : ℕ) (c : PubClient) (ss : List Step)
    → (wrapper_publish env topic qos1 c).0 ≡ published k
    → All (IsOther k) ss
    → (packet : List ℕ) × (env.packet k ≡ some packet)
      × Pending k packet (run (wrapper_publish env topic qos1 c).1 ss).list_pub_wait_ack
wrapper_publish-waits env topic k c ss e others =
    let (packet, same, w) = wrapper_publish-Pending env topic k c e in
    (packet, same, run-Pending k packet _ ss others w)
