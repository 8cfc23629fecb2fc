-- ===== src/DevModel/Ipc/Queue.antt =====
-- The queue behind dm_ipc.c: first in, first out, and bounded.
use nu_maker_mbed_aliyun_io.Base.{
  ℕ, ◌≤◌, ◌≡◌, refl, ap, ◌∙◌, subst, arith, Bool, true, false, Option, none, some, List, [], ◌∷◌,
  ◌++◌, length, length-append, append_assoc,
}
use nu_maker_mbed_aliyun_io.DevModel.State.{State, success_return}
use nu_maker_mbed_aliyun_io.DevModel.Ipc.{Ipc, init, msg_insert, msg_next}

-- The counter is the number of messages, and within the limit.
pub record IsCounted (q : Ipc) : Type 0 where
  pub exact : q.msg_list.size ≡ length q.msg_list.message_list
  pub bounded : q.msg_list.size ≤ q.msg_list.max_size

pub data Call : Type 0 where
  inserts : Bool → Option ℕ → Call
  nexts : Call

-- What a call hands back: a message that was queued, or one that was taken.
pub record Trace : Type 0 where
  pub queue : Ipc
  pub accepted : List ℕ
  pub delivered : List ℕ

abbrev note : Trace → Option ℕ → Ipc × State → Trace
note t (some msg) (q, success_return) = record t { queue = q; accepted = t.accepted ++ msg ∷ [] }
note t _ (q, s) = record t { queue = q }

abbrev note_next : Trace → Ipc × State × Option (Option ℕ) → Trace
note_next t (q, s, some (some msg)) = record t { queue = q; delivered = t.delivered ++ msg ∷ [] }
note_next t (q, s, slot) = record t { queue = q }

unfoldable pub step : Trace → Call → Trace
step t (inserts alloc msg) = note t msg (msg_insert alloc t.queue msg)
step t nexts = note_next t (msg_next t.queue (some none))

unfoldable pub run : Trace → List Call → Trace
run t [] = t
run t (k ∷ ks) = run (step t k) ks

-- What was accepted is what was delivered and then what still waits, and the count is right.
pub record IsFifo (t : Trace) : Type 0 where
  pub order : t.accepted ≡ t.delivered ++ t.queue.msg_list.message_list
  pub counted : IsCounted t.queue

step-IsFifo : (t : Trace) (k : Call) → IsFifo t → IsFifo (step t k)
unfolding step msg_insert msg_next
step-IsFifo t (inserts alloc none) v = v
step-IsFifo t (inserts alloc (some msg)) v = ground (
  arith,
  append_assoc t.delivered t.queue.msg_list.message_list (msg ∷ []),
  length-append t.queue.msg_list.message_list (msg ∷ []),
)
step-IsFifo t nexts v = go t.queue.msg_list.message_list refl
  where
    go : (ms : List ℕ) → t.queue.msg_list.message_list ≡ ms → IsFifo (step t nexts)
    go [] e = ground arith
    go (m ∷ ms) e = ground (arith, append_assoc t.delivered (m ∷ []) ms)

run-IsFifo : (t : Trace) (ks : List Call) → IsFifo t → IsFifo (run t ks)
unfolding run
run-IsFifo t [] v = v
run-IsFifo t (k ∷ ks) v = run-IsFifo (step t k) ks (step-IsFifo t k v)

step-max_size :
    (t : Trace) (k : Call) → (step t k).queue.msg_list.max_size ≡ t.queue.msg_list.max_size
unfolding step msg_insert msg_next
step-max_size t (inserts alloc none) = refl
step-max_size t (inserts alloc (some msg)) = ground arith
step-max_size t nexts = go t.queue.msg_list.message_list refl
  where
    go :
        (ms : List ℕ)
        → t.queue.msg_list.message_list ≡ ms
        → (step t nexts).queue.msg_list.max_size ≡ t.queue.msg_list.max_size
    go [] e = ground arith
    go (m ∷ ms) e = ground arith

run-max_size :
    (t : Trace) (ks : List Call) → (run t ks).queue.msg_list.max_size ≡ t.queue.msg_list.max_size
unfolding run
run-max_size t [] = refl
run-max_size t (k ∷ ks) = run-max_size (step t k) ks ∙ step-max_size t k

abbrev new_queue : ℕ → Ipc
new_queue max_size = record {
  mutex = true;
  msg_list = record { max_size = max_size; size = 0; message_list = [] };
}

abbrev from_some : Ipc → Option Ipc → Ipc
from_some d none = d
from_some d (some q) = q

abbrev pub fresh : Ipc → Trace
fresh q = record { queue = q; accepted = []; delivered = [] }

-- From an init that succeeds on, whatever the calls: the messages come out in the order in which they
-- were accepted, none lost and none made up, and the queue holds at most `max_size` messages, counted
-- exactly. The limit stays the one that init was given.
pub run-fresh-IsFifo :
    (made : Bool) (max_size : ℕ) (q : Ipc) (ks : List Call)
    → (init made max_size).0 ≡ some q
    → IsFifo (run (fresh q) ks) × ((run (fresh q) ks).queue.msg_list.max_size ≡ max_size)
unfolding init
run-fresh-IsFifo false max_size q ks e = cc
run-fresh-IsFifo true max_size q ks e =
    let same : new_queue max_size ≡ q = ap (from_some (new_queue max_size)) e in
    subst (λ x. IsFifo (run (fresh x) ks) × ((run (fresh x) ks).queue.msg_list.max_size ≡ max_size))
      same (run-IsFifo _ ks (ground arith), run-max_size (fresh (new_queue max_size)) ks)
