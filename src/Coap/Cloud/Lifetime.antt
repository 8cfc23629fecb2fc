-- ===== src/Coap/Cloud/Lifetime.antt =====
-- How long a request stays on the list, and how often it is sent.
use nu_maker_mbed_aliyun_io.Base.{
  ℕ, zero, suc, ◌≡◌, ◌≢◌, refl, arith, true, false, ltb, ◌==◌, ◌-◌, Option, none, ◌⊎◌, inl, inr,
  Bool-cases, if_elim, ==_iff, ==-false, some, List, [], ◌∷◌, ◌++◌, length,
}
use nu_maker_mbed_aliyun_io.Coap.Message.{Message}
use nu_maker_mbed_aliyun_io.Coap.Cloud.{
  CloudNode, cloud_node, mark_acked, is_resent, resent, is_given_up, cycle_due, cycle_node,
  cycle_nodes,
}

-- The list after `k` cycles, and what they write.
unfoldable pub cycles : ℕ → List CloudNode → List CloudNode × List (List ℕ)
cycles zero ns = (ns, [])
cycles (suc k) ns =
    let (rest, count, sent) = cycle_nodes ns 0 in
    let (left, later) = cycles k rest in (left, sent ++ later)

-- A confirmable request that is never acknowledged is written again three times, and is gone after 17
-- cycles and not before; a request that is not confirmable is written no more, and is gone after 11
-- cycles and not before.
pub cycles-cloud_node :
    (m : Message) (buffer : List ℕ)
    → (m.header.type ≡ 0
        → (cycles 17 (cloud_node m buffer ∷ []) ≡ ([], buffer ∷ buffer ∷ buffer ∷ []))
          × (length (cycles 16 (cloud_node m buffer ∷ [])).0 ≡ 1))
      × (m.header.type ≢ 0
          → (cycles 11 (cloud_node m buffer ∷ []) ≡ ([], []))
            × (length (cycles 10 (cloud_node m buffer ∷ [])).0 ≡ 1))
unfolding cycles cloud_node cycle_nodes cycle_node cycle_due is_resent resent is_given_up
cycles-cloud_node m buffer =
    ((λ e. rw e (refl, refl)), λ n. rw (==-false m.header.type 0 n) (refl, refl))

-- An acknowledged node whose time is over is neither written nor removed.
not_resent : (n : CloudNode) → n.acked ≡ true → ltb n.retrans_count 4 ≡ true → is_resent n ≡ false
unfolding is_resent
not_resent n a r = rw (r, a) refl

not_given_up :
    (n : CloudNode) → n.timeout ≡ 0 → ltb n.retrans_count 4 ≡ true → is_given_up n ≡ false
unfolding is_given_up
not_given_up n t r = ground (arith, t, r)

cycle_node-acked :
    (n : CloudNode)
    → n.timeout ≡ 0
    → n.acked ≡ true
    → ltb n.retrans_count 4 ≡ true
    → cycle_node n ≡ (some n, [])
unfolding cycle_node cycle_due
cycle_node-acked n t a r = rw ((==_iff n.timeout 0).1 t, not_resent n a r, not_given_up n t r) refl

-- A node that is acknowledged and was not written too often stays so in every cycle.
abbrev IsKept : CloudNode → Type 0
IsKept n = (n.acked ≡ true) × (ltb n.retrans_count 4 ≡ true)

cycle_node-IsKept :
    (n : CloudNode) → IsKept n → (n' : CloudNode) × (cycle_node n ≡ (some n', [])) × IsKept n'
cycle_node-IsKept n (a, r) = elim (Bool-cases (n.timeout == 0)) [
  | inl over ↦ (n, cycle_node-acked n ((==_iff n.timeout 0).0 over) a r, (a, r))
  | inr more ↦ (record n { timeout = n.timeout - 1 }, unfold cycle_node in rw more refl, (a, r))
]

cycles-IsKept :
    (k : ℕ) (n : CloudNode)
    → IsKept n
    → ((cycles k (n ∷ [])).1 ≡ []) × (length (cycles k (n ∷ [])).0 ≡ 1)
unfolding cycles cycle_nodes
cycles-IsKept zero n v = (refl, refl)
cycles-IsKept (suc k) n v = let (n', e, v') = cycle_node-IsKept n v in rw e (cycles-IsKept k n' v')

-- A node of this id that was not written too often.
abbrev IsWaiting : ℕ → CloudNode → Type 0
IsWaiting id n = (n.msgid ≡ id) × (ltb n.retrans_count 4 ≡ true)

-- A cycle removes the node, or it goes on waiting.
abbrev GoesOn : ℕ → Option CloudNode × List (List ℕ) → Type 0
GoesOn id r = (r.0 ≡ none) ⊎ ((n : CloudNode) × (r.0 ≡ some n) × IsWaiting id n)

not_often : (n : CloudNode) → is_given_up n ≡ false → ltb n.retrans_count 4 ≡ true
unfolding is_given_up
not_often n e = ground (arith, e)

cycle_due-GoesOn : (id : ℕ) (n : CloudNode) → n.msgid ≡ id → GoesOn id (cycle_due n)
unfolding cycle_due resent
cycle_due-GoesOn id n e = elim (Bool-cases (is_resent n)) [
  | inl again ↦ rw again (
      if_elim (GoesOn id) (is_given_up (resent n)) (λ _. inl refl)
        (λ f. inr (resent n, refl, (e, not_often (resent n) f))))
  | inr never ↦
      rw never (
        if_elim (GoesOn id) (is_given_up n) (λ _. inl refl)
          (λ f. inr (n, refl, (e, not_often n f))))
]

cycle_node-GoesOn : (id : ℕ) (n : CloudNode) → IsWaiting id n → GoesOn id (cycle_node n)
unfolding cycle_node
cycle_node-GoesOn id n (e, r) =
    if_elim (GoesOn id) (n.timeout == 0) (λ _. cycle_due-GoesOn id n e)
      (λ _. inr (record n { timeout = n.timeout - 1 }, refl, (e, r)))

-- Nothing is on the list, or only a node that waits.
abbrev IsAlone : ℕ → List CloudNode → Type 0
IsAlone id ns = (ns ≡ []) ⊎ ((n : CloudNode) × (ns ≡ n ∷ []) × IsWaiting id n)

cycle_nodes-IsAlone :
    (id : ℕ) (ns : List CloudNode) → IsAlone id ns → IsAlone id (cycle_nodes ns 0).0
unfolding cycle_nodes
cycle_nodes-IsAlone id ns (inl e) = rw e (inl refl)
cycle_nodes-IsAlone id ns (inr (n, e, w)) = rw e (elim (cycle_node-GoesOn id n w) [
  | inl gone ↦ rw gone (inl refl)
  | inr (n', same, w') ↦ rw same (inr (n', refl, w'))
])

cycles-IsAlone : (id j : ℕ) (ns : List CloudNode) → IsAlone id ns → IsAlone id (cycles j ns).0
unfolding cycles
cycles-IsAlone id zero ns v = v
cycles-IsAlone id (suc j) ns v =
    cycles-IsAlone id j (cycle_nodes ns 0).0 (cycle_nodes-IsAlone id ns v)

mark_acked-IsKept :
    (id k : ℕ) (ns : List CloudNode)
    → IsAlone id ns
    → ns ≢ []
    → ((cycles k (mark_acked id ns)).1 ≡ []) × (length (cycles k (mark_acked id ns)).0 ≡ 1)
unfolding mark_acked
mark_acked-IsKept id k ns (inl e) there = absurd (there e)
mark_acked-IsKept id k ns (inr (n, e, (same, r))) there =
    rw (e, (==_iff n.msgid id).1 same) (cycles-IsKept k (record n { acked = true }) (refl, r))

-- A confirmable request, alone on the list, that is acknowledged after any number of cycles, while it is
-- still on the list, and never answered, stays on the list for ever: in any number of further cycles it
-- is neither written again nor removed.
pub cycles-acked_request :
    (j k : ℕ) (m : Message) (buffer : List ℕ)
    → m.header.type ≡ 0
    → (cycles j (cloud_node m buffer ∷ [])).0 ≢ []
    → ((cycles k (mark_acked m.header.msgid (cycles j (cloud_node m buffer ∷ [])).0)).1 ≡ [])
      × (length (cycles k (mark_acked m.header.msgid (cycles j (cloud_node m buffer ∷ [])).0)).0
          ≡ 1)
cycles-acked_request j k m buffer e there =
    mark_acked-IsKept m.header.msgid k (cycles j (cloud_node m buffer ∷ [])).0
      (cycles-IsAlone m.header.msgid j (cloud_node m buffer ∷ []) (
        inr
          (cloud_node m buffer, refl, (unfold cloud_node in refl, unfold cloud_node in rw e refl))))
      there
