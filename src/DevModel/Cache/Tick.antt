-- ===== src/DevModel/Cache/Tick.antt =====
-- Which requests dm_msg_cache_tick times out.
use nu_maker_mbed_aliyun_io.Base.{
  ℕ, ◌+◌, ◌-◌, ◌≤◌, ◌<◌, ◌≡◌, refl, sym, ap, ◌∙◌, arith, Bool, true, false, ◌&&◌, take, ◌++◌,
  append_assoc, append-nil, Option, none, some, zero, suc, if◌then◌else◌, ltb, leb, List, [], ◌∷◌,
  Bool-cases, inl, inr,
}
use nu_maker_mbed_aliyun_io.DevModel.Cache.{
  Node, Ctx, timeout_ms, tick_nodes, tick, Send, send_timeout, send_timeouts,
}
use nu_maker_mbed_aliyun_io.DevModel.Ipc.{Ipc, msg_insert}
use nu_maker_mbed_aliyun_io.DevModel.State.{State, success_return, malloc_failed}

-- The list `ns` is an interleaving, in order, of the nodes that are kept with their times set to at
-- most `now`, and of the nodes that are reported; the kept ones are younger than the limit and the
-- reported ones are not.
pub data Splits (now : ℕ) : List Node → List Node → List Node → Type 0 where
  done : Splits now [] [] []
  keeps :
      {ns kept gone : List Node} (n : Node)
      → n.ctime ≤ now
      → now < n.ctime + timeout_ms
      → Splits now ns kept gone
      → Splits now (n ∷ ns) (n ∷ kept) gone
  resets :
      {ns kept gone : List Node} (n : Node)
      → now < n.ctime
      → Splits now ns kept gone
      → Splits now (n ∷ ns) (record n { ctime = now } ∷ kept) gone
  reports :
      {ns kept gone : List Node} (n : Node)
      → n.ctime + timeout_ms ≤ now
      → Splits now ns kept gone
      → Splits now (n ∷ ns) kept (n ∷ gone)

tick_nodes-Splits :
    (now : ℕ) (ns : List Node) → Splits now ns (tick_nodes now ns).0 (tick_nodes now ns).1
unfolding tick_nodes
tick_nodes-Splits now [] = done
tick_nodes-Splits now (n ∷ ns) = elim (Bool-cases (ltb now n.ctime)) [
  | inl early ↦ rw (early, leb-self now) (resets n (ground arith) (tick_nodes-Splits now ns))
  | inr late ↦ elim (Bool-cases (leb timeout_ms (now - n.ctime))) [
    | inl old ↦ rw (late, old) (reports n (ground arith) (tick_nodes-Splits now ns))
    | inr young ↦
        rw (late, young) (keeps n (ground arith) (ground arith) (tick_nodes-Splits now ns))
  ]
]
  where
    leb-self : (n : ℕ) → leb timeout_ms (n - n) ≡ false
    leb-self n = ground arith

-- The message of a send whose allocations all succeed.
abbrev made_message : Send → Option ℕ
made_message e = if e.text && e.node then e.message else none

abbrev add_message : Option ℕ → List ℕ → List ℕ
add_message none ms = ms
add_message (some m) ms = m ∷ ms

-- The messages for these nodes whose allocations succeed, in order.
unfoldable pub made_messages : (ℕ → Send) → List Node → List ℕ
made_messages sends [] = []
made_messages sends (n ∷ ns) =
    add_message (made_message (sends 0)) (made_messages (λ i. sends (suc i)) ns)

abbrev place_left : Ipc → ℕ
place_left q = q.msg_list.max_size - q.msg_list.size

take-nil : (n : ℕ) → take {A = ℕ} n [] ≡ []
take-nil zero = refl
take-nil (suc n) = refl

-- One send takes a place, if there is one and its allocations succeed.
send_timeout-places :
    (e : Send) (q : Ipc) (ms : List ℕ)
    → (send_timeout e q).0.msg_list.message_list ++ take (place_left (send_timeout e q).0) ms
      ≡ q.msg_list.message_list ++ take (place_left q) (add_message (made_message e) ms)
unfolding send_timeout msg_insert
send_timeout-places e q ms = go e.text e.message e.node
  where
    taken :
        (node : Bool) (m : ℕ)
        → q.msg_list.size < q.msg_list.max_size
        → let r : Ipc × State =
            if node
            then (
              record q {
                msg_list = record (q.msg_list) {
                  size = q.msg_list.size + 1;
                  message_list = q.msg_list.message_list ++ m ∷ [];
                };
              },
              success_return,
            )
            else (q, malloc_failed) in
          r.0.msg_list.message_list ++ take (place_left r.0) ms
          ≡ q.msg_list.message_list
            ++ take (place_left q) (add_message (if node then some m else none) ms)
    taken false m room = refl
    taken true m room =
        let one_less : q.msg_list.max_size - q.msg_list.size
            ≡ suc (q.msg_list.max_size - (q.msg_list.size + 1)) =
          omega arith in
        rw one_less (
          append_assoc q.msg_list.message_list (m ∷ [])
            (take (q.msg_list.max_size - (q.msg_list.size + 1)) ms))

    go :
        (text : Bool) (message : Option ℕ) (node : Bool)
        → let f : Send = record { text = text; message = message; node = node } in
          (send_timeout f q).0.msg_list.message_list ++ take (place_left (send_timeout f q).0) ms
          ≡ q.msg_list.message_list ++ take (place_left q) (add_message (made_message f) ms)
    go false message node = refl
    go true none false = refl
    go true none true = refl
    go true (some m) node = elim (Bool-cases (leb q.msg_list.max_size q.msg_list.size)) [
      | inl full ↦
          let none_left : q.msg_list.max_size - q.msg_list.size ≡ 0 = ground (arith, full) in
          rw (full, none_left) refl
      | inr room ↦ rw room (taken node m (ground (arith, room)))
    ]

send_timeouts-places :
    (sends : ℕ → Send) (ns : List Node) (q : Ipc)
    → (send_timeouts sends ns q).msg_list.message_list
      ≡ q.msg_list.message_list ++ take (place_left q) (made_messages sends ns)
unfolding send_timeouts made_messages
send_timeouts-places sends [] q =
    sym (ap (λ l. q.msg_list.message_list ++ l) (take-nil (place_left q)) ∙ append-nil _)
send_timeouts-places sends (n ∷ ns) q =
    send_timeouts-places (λ i. sends (suc i)) ns (send_timeout (sends 0) q).0
    ∙ send_timeout-places (sends 0) q (made_messages (λ i. sends (suc i)) ns)

-- A tick takes each request that is at least ten seconds old off the list, in the list's order; the
-- others stay in order, those from the future restarted. For each request that is taken off a time-out
-- is sent: of the messages whose allocations succeed as many as the queue to the user has places left
-- are queued, in the same order, and the others are lost.
pub tick-Splits :
    (sends : ℕ → Send) (now : ℕ) (c : Ctx) (q : Ipc)
    → Splits now c.dmc_list (tick sends now c q).0.dmc_list (tick sends now c q).1
      × ((tick sends now c q).2.msg_list.message_list
          ≡ q.msg_list.message_list
            ++ take
                (q.msg_list.max_size - q.msg_list.size)
                (made_messages sends (tick sends now c q).1))
unfolding tick
tick-Splits sends now c q =
    (tick_nodes-Splits now c.dmc_list, send_timeouts-places sends (tick_nodes now c.dmc_list).1 q)

tick_nodes_again :
    (now : ℕ) (ns : List Node) → tick_nodes now (tick_nodes now ns).0 ≡ ((tick_nodes now ns).0, [])
unfolding tick_nodes
tick_nodes_again now [] = refl
tick_nodes_again now (n ∷ ns) = ground (arith, tick_nodes_again now ns)

-- A second tick at the same time takes nothing off and sends nothing.
pub tick_twice :
    (sends later : ℕ → Send) (now : ℕ) (c : Ctx) (q : Ipc)
    → tick later now (tick sends now c q).0 (tick sends now c q).2
      ≡ ((tick sends now c q).0, [], (tick sends now c q).2)
unfolding tick send_timeouts
tick_twice sends later now c q = rw (tick_nodes_again now c.dmc_list) refl
