-- ===== src/Coap/SendList/Session.antt =====
-- Sequences of calls on the send list, and the ids that CoAPMessageId_gen gives out.
use nu_maker_mbed_aliyun_io.Base.{
  ℕ, suc, ◌<◌, ◌≡◌, refl, sym, ap, ◌∙◌, arith, Bool, Option, none, some, List, [], ◌∷◌, length, ◌↔◌,
}
use nu_maker_mbed_aliyun_io.Coap.Message.{MsgHeader, Message}
use nu_maker_mbed_aliyun_io.Coap.SendList.{
  SendNode, SendList, message_id_gen, list_add, message_id_cancel, ack_message_handle,
  resp_message_list, retransmit, check_timeout,
}
use nu_maker_mbed_aliyun_io.Coap.SendList.Counts.{
  IsCounted, list_add-IsCounted, message_id_cancel-IsCounted, ack_message_handle-IsCounted,
  resp_message_list-IsCounted, length-retransmit, check_timeout_loop-IsCounted,
}

-- A call on the list: a message that is added, an id that is cancelled, an acknowledgement and a
-- response that arrive, and the round of CoAPMessage_cycle at a time.
pub data Call : Type 0 where
  add : (alloc multicast : Bool) (tick remote : ℕ) (m : Message) (buffer : List ℕ) (len : ℕ) → Call
  cancel : (msgid : ℕ) → Call
  acknowledge : (msgid : ℕ) → Call
  respond : (h : MsgHeader) (token : List ℕ) → Call
  cycle : (tick : ℕ) → Call

-- The list that the call leaves.
unfoldable pub step : Call → SendList → Option SendList
step (add alloc multicast tick remote m buffer len) l =
    some (list_add alloc multicast tick l remote m buffer len).0
step (cancel msgid) l = some (message_id_cancel l msgid).0
step (acknowledge msgid) l = some (ack_message_handle l msgid).0
step (respond h token) l = some (resp_message_list l h token).0
step (cycle tick) l = elim (check_timeout tick (record l { nodes = (retransmit tick l.nodes).0 })) [
  | none ↦ none
  | some (l', out) ↦ some l'
]

unfoldable pub run : List Call → SendList → Option SendList
run [] l = some l
run (c ∷ cs) l = elim (step c l) [ none ↦ none | some l' ↦ run cs l' ]

check_timeout-IsCounted :
    (tick : ℕ) (l : SendList)
    → IsCounted l
    → (l' : SendList) × (out : List SendNode) × (check_timeout tick l ≡ some (l', out))
      × IsCounted l'
unfolding check_timeout
check_timeout-IsCounted tick l v =
    check_timeout_loop-IsCounted (suc (length l.nodes)) tick l (omega arith) v

retransmit-IsCounted :
    (tick : ℕ) (l : SendList)
    → IsCounted l
    → IsCounted (record l { nodes = (retransmit tick l.nodes).0 })
retransmit-IsCounted tick l v = record {
  exact = v.exact ∙ sym (length-retransmit tick l.nodes);
  bounded = v.bounded;
  byte = v.byte;
}

cycle-IsCounted :
    (tick : ℕ) (l : SendList)
    → IsCounted l
    → (l' : SendList) × (step (cycle tick) l ≡ some l') × IsCounted l'
unfolding step
cycle-IsCounted tick l v =
    let (l', out, e, v') =
      check_timeout-IsCounted tick (record l { nodes = (retransmit tick l.nodes).0 })
        (retransmit-IsCounted tick l v) in
    (l', rw (e, step), v')

step-IsCounted :
    (c : Call) (l : SendList) → IsCounted l → (l' : SendList) × (step c l ≡ some l') × IsCounted l'
unfolding step
step-IsCounted (add alloc multicast tick remote m buffer len) l v =
    (_, refl, list_add-IsCounted alloc multicast tick l remote m buffer len v)
step-IsCounted (cancel msgid) l v = (_, refl, message_id_cancel-IsCounted l msgid v)
step-IsCounted (acknowledge msgid) l v = (_, refl, ack_message_handle-IsCounted l msgid v)
step-IsCounted (respond h token) l v = (_, refl, resp_message_list-IsCounted l h token v)
step-IsCounted (cycle tick) l v = cycle-IsCounted tick l v

run-IsCounted :
    (cs : List Call) (l : SendList)
    → IsCounted l
    → (l' : SendList) × (run cs l ≡ some l') × IsCounted l'
unfolding run
run-IsCounted [] l v = (l, refl, v)
run-IsCounted (c ∷ cs) l v =
    let (l1, e1, v1) = step-IsCounted c l v in
    let (l2, e2, v2) = run-IsCounted cs l1 v1 in (l2, rw (e1, run) e2, v2)

-- From an empty list with a limit below 256, every sequence of additions, cancellations,
-- acknowledgements, responses and cycles ends with a list whose counter is the number of its nodes and
-- at most the limit.
pub run-empty-IsCounted :
    (cs : List Call) (l : SendList)
    → l.nodes ≡ []
    → l.count ≡ 0
    → l.maxcount < 0x100
    → (l' : SendList) × (run cs l ≡ some l') × IsCounted l'
run-empty-IsCounted cs l e z b =
    run-IsCounted cs l
      (record { exact = z ∙ sym (ap length e); bounded = omega (arith, z); byte = b })

-- For a 16-bit counter, the second of two ids in a row is the first again exactly when the counter
-- stands at 65535.
pub message_id_gen-repeats :
    (id : ℕ)
    → id < 0x10000
    → ((message_id_gen (message_id_gen (some id)).1).0 ≡ (message_id_gen (some id)).0)
      ↔ (id ≡ 0xffff)
unfolding message_id_gen
message_id_gen-repeats id b = ground arith
