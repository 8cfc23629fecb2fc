-- ===== src/Coap/Cloud/Counted.antt =====
-- The counter of the list.
use nu_maker_mbed_aliyun_io.Base.{
  ℕ, suc, ◌+◌, ◌≡◌, refl, sym, ap, ◌∙◌, arith, Bool, ◌&&◌, not, ltb, if_elim, Bool-cases,
  Option-cases, inl, inr, leb, ◌==◌, Option, none, some, List, [], ◌∷◌, length, length-append,
}
use nu_maker_mbed_aliyun_io.Base.Bits.{u8}
use nu_maker_mbed_aliyun_io.Coap.Message.{MsgHeader, Message}
use nu_maker_mbed_aliyun_io.Coap.Cloud.{
  CloudNode, CloudContext, cloud_node, cloud_list_add, is_tracked, cloud_send, mark_acked,
  cloud_ack_handle, is_answer, take_answered, down8, cloud_resp_handle, cloud_message_handle,
  cycle_node, cycle_nodes, cloud_cycle,
}

-- The counter is the length of the list, as far as eight bits hold it.
abbrev pub IsCounted : CloudContext → Type 0
IsCounted c = c.count ≡ u8 (length c.sendlist)

-- What changes the list: a send, a message that comes in, and a cycle.
pub data Act : Type 0 where
  sends : Bool → Bool → Message → List ℕ → Act
  receives : MsgHeader → List ℕ → Act
  cycles : Act

unfoldable pub step : CloudContext → Act → CloudContext
step c (sends written alloc m buffer) = cloud_send written alloc m buffer c
step c (receives h token) = (cloud_message_handle h token c).1
step c cycles = (cloud_cycle c).0

unfoldable pub run : CloudContext → List Act → CloudContext
run c [] = c
run c (a ∷ ks) = run (step c a) ks

length-mark_acked : (msgid : ℕ) (ns : List CloudNode) → length (mark_acked msgid ns) ≡ length ns
unfolding mark_acked
length-mark_acked msgid [] = refl
length-mark_acked msgid (n ∷ ns) =
    if_elim (λ (l : List CloudNode). length l ≡ suc (length ns)) (n.msgid == msgid) (λ e. refl)
      (λ e. ap suc (length-mark_acked msgid ns))

rest_inj :
    (n d : CloudNode) (ms ds : List CloudNode)
    → ◌≡◌ {A = Option (CloudNode × List CloudNode)} (some (n, ms)) (some (d, ds))
    → ms ≡ ds
rest_inj n d ms ds e = ap (λ o. elim o [ none ↦ ms | some p ↦ p.1 ]) e

length-take_answered :
    (h : MsgHeader) (token : List ℕ) (ns ms : List CloudNode) (n : CloudNode)
    → take_answered h token ns ≡ some (n, ms)
    → length ns ≡ suc (length ms)
unfolding take_answered
length-take_answered h token [] ms n e = cc
length-take_answered h token (d ∷ ds) ms n e = elim (Bool-cases (is_answer h token d)) [
  | inl t ↦ ap (λ l. suc (length l)) (rest_inj d n ds ms (rw (take_answered, t) at e))
  | inr f ↦ elim (Option-cases (take_answered h token ds)) [
    | inl g ↦ cc (rw (take_answered, f, g) at e)
    | inr ((m, rest), g) ↦
        ap suc (length-take_answered h token ds rest m g)
        ∙ ap (λ l. suc (length l)) (rest_inj m n (d ∷ rest) ms (rw (take_answered, f, g) at e))
  ]
]

length-cycle_nodes :
    (ns : List CloudNode) (count x : ℕ)
    → count ≡ u8 (length ns + x)
    → (cycle_nodes ns count).1 ≡ u8 (length (cycle_nodes ns count).0 + x)
unfolding cycle_nodes
length-cycle_nodes [] count x e = e
length-cycle_nodes (n ∷ ns) count x e = elim (Option-cases (cycle_node n).0) [
  | inl g ↦ rw (cycle_nodes, g) (length-cycle_nodes ns (down8 count) x (omega (arith, e)))
  | inr (m, g) ↦
      rw (cycle_nodes, g)
        (length-cycle_nodes ns count (x + 1) (omega (arith, e)) ∙ ap u8 (omega arith))
]

cloud_resp_handle-IsCounted :
    (h : MsgHeader) (token : List ℕ) (c : CloudContext)
    → IsCounted c
    → IsCounted (cloud_resp_handle h token c).1
unfolding cloud_resp_handle
cloud_resp_handle-IsCounted h token c v = elim (Option-cases (take_answered h token c.sendlist)) [
  | inl e ↦ rw (cloud_resp_handle, e) v
  | inr ((n, ns), e) ↦
      rw (cloud_resp_handle, e) (omega (arith, v, length-take_answered h token c.sendlist ns n e))
]

step-IsCounted : (c : CloudContext) (a : Act) → IsCounted c → IsCounted (step c a)
unfolding step cloud_send cloud_list_add cloud_message_handle cloud_ack_handle cloud_resp_handle
    cloud_cycle
step-IsCounted c (sends written alloc m buffer) v =
    if_elim IsCounted (written && is_tracked m.header)
      (λ a.
        if_elim (λ (r : Bool × CloudContext). IsCounted r.1) (not alloc) (λ b. v)
          (λ b. omega (arith, v, length-append c.sendlist (cloud_node m buffer ∷ []))))
      (λ a. v)
step-IsCounted c (receives h token) v =
    let P = λ (r : Option CloudNode × CloudContext). IsCounted r.1 in
    if_elim P (h.code == 0 && h.type == 2)
      (λ a. v ∙ ap u8 (sym (length-mark_acked h.msgid c.sendlist)))
      (λ a.
        if_elim P (leb 0x40 h.code && ltb h.code 0xc0)
          (λ b. cloud_resp_handle-IsCounted h token c v) (λ b. v))
step-IsCounted c cycles v =
    length-cycle_nodes c.sendlist c.count 0 (omega (arith, v)) ∙ ap u8 (omega arith)

-- If the counter is the number of requests on the list modulo 256, as it is on an empty list, it stays
-- so over any sends, incoming messages and cycles.
pub run-IsCounted :
    (c : CloudContext) (ks : List Act)
    → c.count ≡ u8 (length c.sendlist)
    → (run c ks).count ≡ u8 (length (run c ks).sendlist)
unfolding run
run-IsCounted c [] v = v
run-IsCounted c (a ∷ ks) v = run-IsCounted (step c a) ks (step-IsCounted c a v)
