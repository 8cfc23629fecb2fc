-- ===== src/Mqtt/Publish/Rounds.antt =====
-- What a round of MQTTPubInfoProc sends again, and what it takes off the list.
use nu_maker_mbed_aliyun_io.Base.{
  ℕ, if_elim, ◌||◌, ◌+◌, ◌*◌, ◌≡◌, refl, ap, Bool, true, not, leb, ◌==◌, ==_iff, if◌then◌else◌,
  some, List, [], ◌∷◌, Bool-cases, inl, inr, ◌≢◌, All,
}
use nu_maker_mbed_aliyun_io.Base.Bits.{u32}
use nu_maker_mbed_aliyun_io.Infra.Timer.{time_spend}
use nu_maker_mbed_aliyun_io.Mqtt.Link.{is_connected}
use nu_maker_mbed_aliyun_io.Mqtt.Publish.{
  is_invalid, PubInfo, PubClient, mask_nodes, mask_pub_info, handle_recv_puback, Resend, proc_nodes,
  pub_info_proc,
}

-- The packets without acknowledgement that were sent more than `limit` ms before `now`.
unfoldable pub overdue : ℕ → ℕ → List PubInfo → List (List ℕ)
overdue now limit [] = []
overdue now limit (n ∷ ns) =
    let rest = overdue now limit ns in
    if is_invalid n.node_state || leb (time_spend now (some n.pub_start_time)) limit
    then rest
    else n.buf ∷ rest

-- At each node the clock says `now`, and the packet goes out.
abbrev pub AllSent : ℕ → (ℕ → Resend) → Type 0
AllSent now resends = (i : ℕ) → ((resends i).asked ≡ now) × ((resends i).sent ≡ true)

proc_nodes-resends :
    (now : ℕ) (resends : ℕ → Resend)
    → AllSent now resends
    → (i timeout : ℕ) (ns : List PubInfo)
    → (proc_nodes i resends true timeout ns).1 ≡ overdue now (u32 (timeout * 2)) ns
unfolding proc_nodes overdue
proc_nodes-resends now resends good i timeout [] = refl
proc_nodes-resends now resends good i timeout (n ∷ ns) =
    let rest = proc_nodes-resends now resends good (i + 1) timeout ns in
    let (asked, sent) = good i in
    elim (Bool-cases (is_invalid n.node_state)) [
      | inl a ↦ rw (proc_nodes, overdue, a) rest
      | inr a ↦
          elim (Bool-cases (leb (time_spend now (some n.pub_start_time)) (u32 (timeout * 2)))) [
            | inl b ↦ rw (proc_nodes, overdue, a, asked, b) rest
            | inr b ↦ rw (proc_nodes, overdue, a, asked, b, sent) (ap (λ l. n.buf ∷ l) rest)
          ]
    ]

-- If the client is connected, every packet goes out and the clock says the same at each packet, a round of MQTTPubInfoProc sends again exactly
-- the packets without acknowledgement that were last sent more than twice the request time-out ago,
-- in the order in which they were published.
pub pub_info_proc-resends :
    (now : ℕ) (resends : ℕ → Resend) (c : PubClient)
    → AllSent now resends
    → is_connected c.link.client_state ≡ true
    → (pub_info_proc resends c).0 ≡ overdue now (u32 (c.request_timeout_ms * 2)) c.list_pub_wait_ack
unfolding pub_info_proc
pub_info_proc-resends now resends c good online =
    rw online (proc_nodes-resends now resends good 0 c.request_timeout_ms c.list_pub_wait_ack)

-- A node with this id is marked.
abbrev IsMarked : ℕ → PubInfo → Type 0
IsMarked id n = n.msg_id ≡ id → is_invalid n.node_state ≡ true

mask_nodes-IsMarked : (id : ℕ) (ns : List PubInfo) → All (IsMarked id) (mask_nodes id ns)
unfolding mask_nodes
mask_nodes-IsMarked id [] = tt
mask_nodes-IsMarked id (n ∷ ns) =
    let rest = mask_nodes-IsMarked id ns in
    if_elim (All (IsMarked id)) (n.msg_id == id) (λ e. ((λ h. refl), rest))
      (λ e. ((λ h. cc (e, (==_iff n.msg_id id).1 h)), rest))

proc_nodes-removes :
    (id : ℕ) (resends : ℕ → Resend)
    → ((i : ℕ) → (resends i).sent ≡ true)
    → (i : ℕ) (online : Bool) (timeout : ℕ) (ns : List PubInfo) → All (IsMarked id) ns
    → All (λ n. n.msg_id ≢ id) (proc_nodes i resends online timeout ns).0
unfolding proc_nodes
proc_nodes-removes id resends good i online timeout [] m = tt
proc_nodes-removes id resends good i online timeout (n ∷ ns) (m, ms) =
    let rest = proc_nodes-removes id resends good (i + 1) online timeout ns ms in
    let P = λ (p : List PubInfo × List (List ℕ) × Bool). All (λ n. n.msg_id ≢ id) p.0 in
    if_elim P (is_invalid n.node_state) (λ a. rest)
      (λ a.
        let differs : n.msg_id ≢ id = λ h. cc (a, m h) in
        if_elim P (not online) (λ b. (differs, rest))
          (λ b.
            if_elim P
              (leb (time_spend (resends i).asked (some n.pub_start_time)) (u32 (timeout * 2)))
              (λ d. (differs, rest))
              (λ d. if_elim P (not (resends i).sent) (λ e. cc (e, good i)) (λ e. (differs, rest)))))

-- After the acknowledgement of an id, a round of MQTTPubInfoProc in which every packet it tries goes
-- out leaves no packet with that id on the list, connected or not.
pub pub_info_proc-removes :
    (id : ℕ) (resends : ℕ → Resend) (c : PubClient)
    → ((i : ℕ) → (resends i).sent ≡ true)
    → All
        (λ n. n.msg_id ≢ id)
        (pub_info_proc resends (handle_recv_puback (some id) c).1).1.list_pub_wait_ack
unfolding pub_info_proc handle_recv_puback mask_pub_info
pub_info_proc-removes id resends c good =
    proc_nodes-removes id resends good 0 _ _ (mask_nodes id c.list_pub_wait_ack)
      (mask_nodes-IsMarked id c.list_pub_wait_ack)
