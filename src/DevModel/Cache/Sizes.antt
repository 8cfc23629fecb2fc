-- ===== src/DevModel/Cache/Sizes.antt =====
-- The list of pending requests against its counter.
use nu_maker_mbed_aliyun_io.Base.{
  ℕ, ◌+◌, ◌≤◌, ◌≡◌, refl, ap, subst, arith, Bool, true, false, none, Option, some, List, [], ◌∷◌,
  length, length-append, All, ℤ, Option-cases, inl, inr,
}
use nu_maker_mbed_aliyun_io.DevModel.Cache.{
  Node, Ctx, queue_maxlen, timeout_ms, init, insert, remove_node, remove, tick_nodes, tick, Send,
}
use nu_maker_mbed_aliyun_io.DevModel.Ipc.{Ipc}

-- The counter is at least the length of the list, and within its limit.
pub record IsSized (c : Ctx) : Type 0 where
  pub covers : length c.dmc_list ≤ c.dmc_list_size
  pub bounded : c.dmc_list_size ≤ queue_maxlen

-- The calls that the rest of the program makes between init and deinit.
pub data Call : Type 0 where
  inserts : Bool → ℕ → ℤ → ℤ → ℕ → Option ℕ → Call
  removes : ℤ → Call
  ticks : (ℕ → Send) → ℕ → Ipc → Call

pub step : Ctx → Call → Ctx
step c (inserts alloc now msgid devid type payload) =
    (insert alloc now c msgid devid type payload).0
step c (removes msgid) = (remove c msgid).0
step c (ticks sends now q) = (tick sends now c q).0

pub run : Ctx → List Call → Ctx
run c [] = c
run c (k ∷ ks) = run (step c k) ks

length-remove_node :
    (ns ms : List Node) (msgid : ℤ) → remove_node ns msgid ≡ some ms → length ns ≡ length ms + 1
unfolding remove_node
length-remove_node [] ms msgid e = cc
length-remove_node (n ∷ ns) ms msgid e = elim (Option-cases (remove_node ns msgid)) [
  | inl f ↦ ground (arith, f)
  | inr (r, f) ↦ ground (arith, f, length-remove_node ns r msgid f)
]

length-tick_nodes :
    (now : ℕ) (ns : List Node)
    → length (tick_nodes now ns).0 + length (tick_nodes now ns).1 ≡ length ns
unfolding tick_nodes
length-tick_nodes now [] = refl
length-tick_nodes now (n ∷ ns) = ground (arith, length-tick_nodes now ns)

insert-IsSized :
    (alloc : Bool) (now : ℕ) (c : Ctx) (msgid devid : ℤ) (type : ℕ) (payload : Option ℕ)
    → IsSized c
    → IsSized (insert alloc now c msgid devid type payload).0
unfolding insert
insert-IsSized alloc now c msgid devid type payload v = grind (arith, length-append)

remove-IsSized : (c : Ctx) (msgid : ℤ) → IsSized c → IsSized (remove c msgid).0
unfolding remove
remove-IsSized c msgid v = elim (Option-cases (remove_node c.dmc_list msgid)) [
  | inl e ↦ rw (e, remove) v
  | inr (ns, e) ↦
      rw (e, remove)
        (record {
          covers = omega (arith, length-remove_node c.dmc_list ns msgid e, v.covers);
          bounded = omega (arith, v.bounded);
        })
]

tick-IsSized :
    (sends : ℕ → Send) (now : ℕ) (c : Ctx) (q : Ipc) → IsSized c → IsSized (tick sends now c q).0
unfolding tick
tick-IsSized sends now c q v = record {
  covers = omega (arith, length-tick_nodes now c.dmc_list, v.covers);
  bounded = v.bounded;
}

step-IsSized : (c : Ctx) (k : Call) → IsSized c → IsSized (step c k)
unfolding step
step-IsSized c (inserts alloc now msgid devid type payload) v =
    insert-IsSized alloc now c msgid devid type payload v
step-IsSized c (removes msgid) v = remove-IsSized c msgid v
step-IsSized c (ticks sends now q) v = tick-IsSized sends now c q v

run-IsSized : (c : Ctx) (ks : List Call) → IsSized c → IsSized (run c ks)
unfolding run
run-IsSized c [] v = v
run-IsSized c (k ∷ ks) v = run-IsSized (step c k) ks (step-IsSized c k v)

-- After an init that succeeds and any calls the list has no more nodes than the counter says, and that
-- is at most 50: the list is bounded and the counter is positive whenever a node is removed.
pub run-init-IsSized :
    (made : Bool) (c : Ctx) (ks : List Call) → (init made).0 ≡ some c → IsSized (run c ks)
unfolding init
run-init-IsSized false c ks e = cc
run-init-IsSized true c ks e =
    let same = ap (λ o. elim o as (λ _. Ctx) [ none ↦ c | some d ↦ d ]) e in
    run-IsSized c ks (subst IsSized same (record { covers = omega arith; bounded = omega arith }))

-- A tick takes the timed out nodes off the list and leaves the counter as it was, so that the
-- counter stays too large by their number.
pub tick-drift :
    (sends : ℕ → Send) (now : ℕ) (c : Ctx) (q : Ipc)
    → ((tick sends now c q).0.dmc_list_size ≡ c.dmc_list_size)
      × (length (tick sends now c q).0.dmc_list + length (tick sends now c q).1 ≡ length c.dmc_list)
unfolding tick
tick-drift sends now c q = (refl, length-tick_nodes now c.dmc_list)

abbrev pub AllExpired : ℕ → List Node → Type 0
AllExpired now ns = All (λ n. n.ctime + timeout_ms ≤ now) ns

tick_nodes-AllExpired : (now : ℕ) (ns : List Node) → AllExpired now ns → (tick_nodes now ns).0 ≡ []
unfolding tick_nodes
tick_nodes-AllExpired now [] h = refl
tick_nodes-AllExpired now (n ∷ ns) (h, hs) = ground (arith, tick_nodes-AllExpired now ns hs)

-- With an empty list and the counter at its limit no call changes either.
IsStarved : Ctx → Type 0
IsStarved c = (queue_maxlen ≤ c.dmc_list_size) × (c.dmc_list ≡ [])

step-IsStarved : (c : Ctx) (k : Call) → IsStarved c → IsStarved (step c k)
unfolding IsStarved step insert remove tick
step-IsStarved c (inserts alloc now msgid devid type payload) (h, e) = ground arith
step-IsStarved c (removes msgid) (h, e) = unfold remove_node in ground arith
step-IsStarved c (ticks sends now q) (h, e) = unfold tick_nodes in ground arith

run-IsStarved : (c : Ctx) (ks : List Call) → IsStarved c → (run c ks).dmc_list ≡ []
unfolding run
run-IsStarved c [] s = unfold IsStarved in s.1
run-IsStarved c (k ∷ ks) s = run-IsStarved (step c k) ks (step-IsStarved c k s)

-- Once the counter is at its limit and every node has timed out, a tick empties the list, and after
-- it no inserts, removals and ticks bring a node in again: the cache stays full though it is empty.
pub run-starved :
    (sends : ℕ → Send) (now : ℕ) (c : Ctx) (q : Ipc) (ks : List Call)
    → queue_maxlen ≤ c.dmc_list_size
    → AllExpired now c.dmc_list
    → (run (tick sends now c q).0 ks).dmc_list ≡ []
unfolding tick IsStarved
run-starved sends now c q ks full expired =
    run-IsStarved _ ks (full, tick_nodes-AllExpired now c.dmc_list expired)
