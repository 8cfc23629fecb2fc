-- ===== src/Coap/SendList/Counts.antt =====
-- The send list and its counter, a byte.
use nu_maker_mbed_aliyun_io.Base.{
  ℕ, zero, suc, ◌+◌, ◌≤◌, ◌<◌, ◌≡◌, refl, ap, arith, Bool, ◌==◌, if◌then◌else◌, some, List, [], ◌∷◌,
  length, length-append, Bool-cases, Option-cases, inl, inr,
}
use nu_maker_mbed_aliyun_io.Coap.Message.{MsgHeader, Message}
use nu_maker_mbed_aliyun_io.Coap.SendList.{
  SendNode, SendList, send_node, list_add, dec8, cancel_nodes, message_id_cancel, ack_node,
  ack_message_handle, resp_node, resp_message_list, retransmit, timed_out_node, check_timeout_loop,
}

-- The counter is the number of nodes, and within the limit, a byte.
pub record IsCounted (l : SendList) : Type 0 where
  pub exact : l.count ≡ length l.nodes
  pub bounded : l.count ≤ l.maxcount
  pub byte : l.maxcount < 0x100

pub list_add-IsCounted :
    (alloc multicast : Bool) (tick : ℕ) (l : SendList) (remote : ℕ) (m : Message) (buffer : List ℕ)
    (len : ℕ)
    → IsCounted l
    → IsCounted (list_add alloc multicast tick l remote m buffer len).0
unfolding list_add
list_add-IsCounted alloc multicast tick l remote m buffer len v =
    ground (arith, length-append l.nodes (send_node multicast tick remote m buffer len ∷ []))

cancel_nodes-count :
    (msgid : ℕ) (ns : List SendNode) (count : ℕ)
    → length ns ≤ count
    → count < 0x100
    → (cancel_nodes msgid ns count).1 + length ns ≡ count + length (cancel_nodes msgid ns count).0
unfolding cancel_nodes
cancel_nodes-count msgid [] count h byte = omega arith
cancel_nodes-count msgid (n ∷ ns) count h byte = elim (Bool-cases (n.header.msgid == msgid)) [
  | inl hit ↦
      rw hit (omega (arith, cancel_nodes-count msgid ns (dec8 count) (omega arith) (omega arith)))
  | inr miss ↦ rw miss (omega (arith, cancel_nodes-count msgid ns count (omega arith) byte))
]

length-cancel_nodes :
    (msgid : ℕ) (ns : List SendNode) (count : ℕ)
    → length (cancel_nodes msgid ns count).0 ≤ length ns
unfolding cancel_nodes
length-cancel_nodes msgid [] count = omega arith
length-cancel_nodes msgid (n ∷ ns) count = elim (Bool-cases (n.header.msgid == msgid)) [
  | inl hit ↦ rw hit (omega (arith, length-cancel_nodes msgid ns (dec8 count)))
  | inr miss ↦ rw miss (omega (arith, length-cancel_nodes msgid ns count))
]

pub message_id_cancel-IsCounted :
    (l : SendList) (msgid : ℕ) → IsCounted l → IsCounted (message_id_cancel l msgid).0
unfolding message_id_cancel
message_id_cancel-IsCounted l msgid v =
    ground
      (arith, cancel_nodes-count msgid l.nodes l.count, length-cancel_nodes msgid l.nodes l.count)

length-ack_node :
    (msgid : ℕ) (ns ms : List SendNode) (n : SendNode) (gone : Bool)
    → ack_node msgid ns ≡ some (n, gone, ms)
    → length ns ≡ length ms + (if gone then 1 else 0)
unfolding ack_node
length-ack_node msgid [] ms n gone e = cc
length-ack_node msgid (x ∷ ns) ms n gone e = elim (Option-cases (ack_node msgid ns)) [
  | inl f ↦ ground (arith, f)
  | inr ((n', gone', ms'), f) ↦ ground (arith, f, length-ack_node msgid ns ms' n' gone' f)
]

pub ack_message_handle-IsCounted :
    (l : SendList) (msgid : ℕ) → IsCounted l → IsCounted (ack_message_handle l msgid).0
unfolding ack_message_handle
ack_message_handle-IsCounted l msgid v = elim (Option-cases (ack_node msgid l.nodes)) [
  | inl e ↦ rw (e, ack_message_handle) v
  | inr ((n, gone, ms), e) ↦
      rw (e, ack_message_handle) (ground (arith, length-ack_node msgid l.nodes ms n gone e))
]

length-resp_node :
    (h : MsgHeader) (token : List ℕ) (ns ms : List SendNode) (n : SendNode)
    → resp_node h token ns ≡ some (n, ms)
    → length ns ≡ length ms + (if n.keep == 0 then 1 else 0)
unfolding resp_node
length-resp_node h token [] ms n e = cc
length-resp_node h token (x ∷ ns) ms n e = elim (Option-cases (resp_node h token ns)) [
  | inl f ↦ ground (arith, f)
  | inr ((n', ms'), f) ↦ ground (arith, f, length-resp_node h token ns ms' n' f)
]

pub resp_message_list-IsCounted :
    (l : SendList) (h : MsgHeader) (token : List ℕ)
    → IsCounted l
    → IsCounted (resp_message_list l h token).0
unfolding resp_message_list
resp_message_list-IsCounted l h token v = elim (Option-cases (resp_node h token l.nodes)) [
  | inl e ↦ rw (e, resp_message_list) v
  | inr ((n, ms), e) ↦
      rw (e, resp_message_list) (ground (arith, length-resp_node h token l.nodes ms n e))
]

pub length-retransmit : (tick : ℕ) (ns : List SendNode) → length (retransmit tick ns).0 ≡ length ns
unfolding retransmit
length-retransmit tick [] = refl
length-retransmit tick (n ∷ ns) = ap suc (length-retransmit tick ns)

pub length-timed_out_node :
    (tick : ℕ) (ns ms : List SendNode) (n : SendNode)
    → timed_out_node tick ns ≡ some (n, ms)
    → length ns ≡ length ms + 1
unfolding timed_out_node
length-timed_out_node tick [] ms n e = cc
length-timed_out_node tick (x ∷ ns) ms n e = elim (Option-cases (timed_out_node tick ns)) [
  | inl f ↦ ground (arith, f)
  | inr ((n', ms'), f) ↦ ground (arith, f, length-timed_out_node tick ns ms' n' f)
]

-- With more passes than nodes the loop of Check_timeout ends, and the list stays counted.
pub check_timeout_loop-IsCounted :
    (fuel tick : ℕ) (l : SendList)
    → length l.nodes < fuel
    → IsCounted l
    → (l' : SendList) × (out : List SendNode) × (check_timeout_loop fuel tick l ≡ some (l', out))
      × IsCounted l'
unfolding check_timeout_loop
check_timeout_loop-IsCounted zero tick l h v = absurd (omega arith)
check_timeout_loop-IsCounted (suc fuel) tick l h v =
    elim (Option-cases (timed_out_node tick l.nodes)) [
      | inl e ↦ (l, [], rw (e, check_timeout_loop), v)
      | inr ((n, ms), e) ↦
          let shorter = length-timed_out_node tick l.nodes ms n e in
          let (l', out, f, v') =
            check_timeout_loop-IsCounted fuel tick (record l { nodes = ms; count = dec8 l.count })
              (omega arith) (ground arith) in
          (l', n ∷ out, rw (e, check_timeout_loop) (rw f), v')
    ]
