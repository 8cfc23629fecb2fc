-- ===== src/Coap/SendList/Cycle.antt =====
-- What Check_timeout takes off the send list, and how often Retansmit writes a message.
use nu_maker_mbed_aliyun_io.Base.{
  ℕ, zero, suc, ◌+◌, ◌≤◌, ◌<◌, ◌≡◌, refl, sym, ap, ◌∙◌, arith, Bool, false, not, ◌==◌,
  if◌then◌else◌, none, some, List, [], ◌∷◌, length, Bool-cases, Option-cases, inl, inr, ◌≢◌,
}
use nu_maker_mbed_aliyun_io.Coap.Message.{Message}
use nu_maker_mbed_aliyun_io.Coap.SendList.{
  SendNode, SendList, dec8, send_node, retransmit_node, is_timed_out, timed_out_node,
  max_retry_count, check_timeout_loop, check_timeout,
}
use nu_maker_mbed_aliyun_io.Coap.SendList.Counts.{length-timed_out_node}

-- The nodes that satisfy a test, in order.
unfoldable pub select : (SendNode → Bool) → List SendNode → List SendNode
select p [] = []
select p (n ∷ ns) = if p n then n ∷ select p ns else select p ns

select-none :
    (tick : ℕ) (ns : List SendNode)
    → timed_out_node tick ns ≡ none
    → (select (is_timed_out tick) ns ≡ []) × (select (λ n. not (is_timed_out tick n)) ns ≡ ns)
unfolding select timed_out_node
select-none tick [] e = (refl, refl)
select-none tick (n ∷ ns) e = elim (Bool-cases (is_timed_out tick n)) [
  | inl t ↦ absurd (ground (arith, t, e))
  | inr f ↦ elim (Option-cases (timed_out_node tick ns)) [
    | inl e' ↦
        let (a, b) = select-none tick ns e' in
        (rw (f, select) a, rw (f, select) (ap (λ r. n ∷ r) b))
    | inr ((n', ms), e') ↦ absurd (ground (arith, f, e, e'))
  ]
]

select-some :
    (tick : ℕ) (ns ms : List SendNode) (n : SendNode)
    → timed_out_node tick ns ≡ some (n, ms)
    → (select (is_timed_out tick) ns ≡ n ∷ select (is_timed_out tick) ms)
      × (select (λ x. not (is_timed_out tick x)) ns ≡ select (λ x. not (is_timed_out tick x)) ms)
unfolding select timed_out_node
select-some tick [] ms n e = absurd (ground (arith, e))
select-some tick (x ∷ ns) ms n e = elim (Bool-cases (is_timed_out tick x)) [
  | inl t ↦ ground (arith, t, e)
  | inr f ↦ elim (Option-cases (timed_out_node tick ns)) [
    | inl e' ↦ absurd (ground (arith, f, e, e'))
    | inr ((n', ms'), e') ↦ ground (arith, f, e, e', select-some tick ns ms' n' e')
  ]
]

check_timeout_loop-selects :
    (fuel tick : ℕ) (l : SendList)
    → length l.nodes < fuel
    → (l' : SendList) × (check_timeout_loop fuel tick l
        ≡ some (l', select (is_timed_out tick) l.nodes))
      × (l'.nodes ≡ select (λ n. not (is_timed_out tick n)) l.nodes)
unfolding check_timeout_loop
check_timeout_loop-selects zero tick l h = absurd (omega arith)
check_timeout_loop-selects (suc fuel) tick l h = elim (Option-cases (timed_out_node tick l.nodes)) [
  | inl e ↦ let (a, b) = select-none tick l.nodes e in (l, rw (e, check_timeout_loop, a), sym b)
  | inr ((n, ms), e) ↦
      let (a, b) = select-some tick l.nodes ms n e in
      let (l', f, g) =
        check_timeout_loop-selects fuel tick (record l { nodes = ms; count = dec8 l.count })
          (omega (arith, length-timed_out_node tick l.nodes ms n e)) in
      (l', rw (e, check_timeout_loop) (rw (f, a)), g ∙ sym b)
]

-- Check_timeout ends on every list: it hands the timed out nodes to their handlers, each once and in
-- the list's order, and the others stay in their order.
pub check_timeout-selects :
    (tick : ℕ) (l : SendList)
    → (l' : SendList) × (check_timeout tick l ≡ some (l', select (is_timed_out tick) l.nodes))
      × (l'.nodes ≡ select (λ n. not (is_timed_out tick n)) l.nodes)
unfolding check_timeout
check_timeout-selects tick l =
    check_timeout_loop-selects (suc (length l.nodes)) tick l (omega arith)

-- The rounds of Retansmit on one node at the given times: the node, and how often it is written.
unfoldable pub rounds : List ℕ → SendNode → SendNode × ℕ
rounds [] n = (n, 0)
rounds (tick ∷ ticks) n =
    let (n1, sent) = retransmit_node tick n in
    let (n2, k) = rounds ticks n1 in (n2, if sent then suc k else k)

retransmit_node-balance :
    (tick : ℕ) (n : SendNode)
    → ((retransmit_node tick n).0.acked ≡ n.acked)
      × ((retransmit_node tick n).0.retrans_count + (if (retransmit_node tick n).1 then 1 else 0)
          ≤ n.retrans_count)
      × (n.acked ≡ 0
          → (retransmit_node tick n).0.retrans_count + (if (retransmit_node tick n).1 then 1 else 0)
            ≡ n.retrans_count)
      × (n.acked ≢ 0 → (retransmit_node tick n).1 ≡ false)
unfolding retransmit_node
retransmit_node-balance tick n = ground arith

rounds-balance :
    (ticks : List ℕ) (n : SendNode)
    → n.acked ≡ 0
    → (rounds ticks n).0.retrans_count + (rounds ticks n).1 ≡ n.retrans_count
unfolding rounds
rounds-balance [] n z = omega arith
rounds-balance (tick ∷ ticks) n z =
    let (a, _, b, _) = retransmit_node-balance tick n in
    let r = rounds-balance ticks (retransmit_node tick n).0 (a ∙ z) in ground (arith, b z, r)

-- However many rounds follow, a message is written again at most eight times if it is confirmable, as
-- often as its counter has fallen from eight, and never if it is not.
pub rounds-send_node :
    (ticks : List ℕ) (multicast : Bool) (tick remote : ℕ) (m : Message) (buffer : List ℕ) (len : ℕ)
    → (rounds ticks (send_node multicast tick remote m buffer len)).0.retrans_count
        + (rounds ticks (send_node multicast tick remote m buffer len)).1
      ≡ (if m.header.type == 0 then max_retry_count else 0)
unfolding send_node
rounds-send_node ticks multicast tick remote m buffer len =
    rounds-balance ticks (send_node multicast tick remote m buffer len) refl

-- Once a message is acknowledged, no round writes it again.
pub rounds-acked : (ticks : List ℕ) (n : SendNode) → n.acked ≢ 0 → (rounds ticks n).1 ≡ 0
unfolding rounds
rounds-acked [] n a = refl
rounds-acked (tick ∷ ticks) n a =
    let (e, _, _, s) = retransmit_node-balance tick n in
    ground (arith, e, s a, rounds-acked ticks (retransmit_node tick n).0 (λ z. a (sym e ∙ z)))
