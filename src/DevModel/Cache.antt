-- ===== src/DevModel/Cache.antt =====
-- eng/dev_model/dm_message_cache.c: the requests that wait for a reply of the cloud.
-- The list of nodes is the C list, first node first. The outcome of an allocation and the time that
-- HAL_UptimeMs gives are arguments. A time-out goes to the user through the queue of dm_ipc.c, by
-- dm_msg_send_msg_timeout_to_user of eng/dev_model/dm_message.c; its text is not modelled. Locking is only shown where the code does not balance it.
pub mod Sizes
pub mod Search
pub mod Tick
mod Runs
use mathlib.Core.Option
use nu_maker_mbed_aliyun_io.Base.{
  ℕ, zero, suc, ◌+◌, ◌-◌, ◌≤◌, ◌<◌, Bool, true, false, ◌||◌, ltb, leb, not, if◌then◌else◌, Option,
  none, some, List, [], ◌∷◌, ◌++◌, length, ℤ, pos, negsuc, is_negative,
}
use nu_maker_mbed_aliyun_io.DevModel.State.{
  State, eq_ℤ, success_return, user_input_invalid, malloc_failed, mutex_create_failed,
  ctx_list_full, ctx_list_empty,
}
use nu_maker_mbed_aliyun_io.DevModel.Ipc.{Ipc, msg_insert}

abbrev pub queue_maxlen : ℕ
queue_maxlen = 50

abbrev pub timeout_ms : ℕ
timeout_ms = 10000

-- `payload` is the pointer `data`: the address of a block.
pub record Node : Type 0 where
  pub msgid : ℤ
  pub devid : ℤ
  pub response_type : ℕ
  pub payload : Option ℕ
  pub ctime : ℕ

pub record Ctx : Type 0 where
  pub mutex : Bool
  pub dmc_list_size : ℕ
  pub dmc_list : List Node

-- `made` says whether HAL_MutexCreate succeeds; if not, dm_msg_cache_init returns before it sets up the
-- head of the list, and there is no list (`none`) on which another operation could be called.
unfoldable pub init : Bool → Option Ctx × State
init made =
    if made
    then (some (record { mutex = true; dmc_list_size = 0; dmc_list = [] }), success_return)
    else (none, mutex_create_failed)

pub data LockOp : Type 0 where
  lock unlock destroy : LockOp

abbrev unlocks : List Node → List LockOp
unlocks [] = unlock ∷ destroy ∷ []
unlocks (n ∷ ns) = unlock ∷ unlocks ns

-- Every node is freed; the calls on the mutex are the second component. The size is left as it is.
unfoldable pub deinit : Ctx → Ctx × List LockOp
deinit c = (record c { dmc_list = [] }, if c.mutex then lock ∷ unlocks c.dmc_list else [])

-- The node that dm_msg_cache_insert fills in.
abbrev pub new_node : ℕ → ℤ → ℤ → ℕ → Option ℕ → Node
new_node now msgid devid type payload = record {
  msgid = msgid;
  devid = devid;
  response_type = type;
  payload = payload;
  ctime = now;
}

unfoldable pub insert : Bool → ℕ → Ctx → ℤ → ℤ → ℕ → Option ℕ → Ctx × State
insert alloc now c msgid devid type payload =
    if leb queue_maxlen c.dmc_list_size
    then (c, ctx_list_full)
    else if alloc
    then (
      record c {
        dmc_list = c.dmc_list ++ new_node now msgid devid type payload ∷ [];
        dmc_list_size = c.dmc_list_size + 1;
      },
      success_return,
    )
    else (c, malloc_failed)

unfoldable pub find_node : List Node → ℤ → Option Node
find_node [] msgid = none
find_node (n ∷ ns) msgid = if eq_ℤ n.msgid msgid then some n else find_node ns msgid

-- The slot is the argument `node`: NULL, or what `*node` holds.
abbrev slot_taken : Option (Option Node) → Bool
slot_taken none = true
slot_taken (some none) = false
slot_taken (some (some n)) = true

abbrev found : Option Node → State × Option (Option Node)
found none = (ctx_list_empty, some none)
found (some n) = (success_return, some (some n))

-- The status and what the slot holds afterwards.
unfoldable pub search : Ctx → ℤ → Option (Option Node) → State × Option (Option Node)
search c msgid slot =
    if is_negative msgid || slot_taken slot
    then (user_input_invalid, slot)
    else found (find_node c.dmc_list msgid)

-- The list with the first node of that id taken out, if there is one.
unfoldable pub remove_node : List Node → ℤ → Option (List Node)
remove_node [] msgid = none
remove_node (n ∷ ns) msgid =
    let rest = Option.map (λ ms. n ∷ ms) (remove_node ns msgid) in
    if eq_ℤ n.msgid msgid then some ns else rest

unfoldable pub remove : Ctx → ℤ → Ctx × State
remove c msgid = elim (remove_node c.dmc_list msgid) [
  | none ↦ (c, ctx_list_empty)
  | some ns ↦ (record c { dmc_list = ns; dmc_list_size = c.dmc_list_size - 1 }, success_return)
]

-- A clock that went back restarts the node's time.
abbrev pub restamp : ℕ → Node → Node
restamp now n = if ltb now n.ctime then record n { ctime = now } else n

abbrev pub is_expired : ℕ → Node → Bool
is_expired now n = leb timeout_ms (now - (restamp now n).ctime)

-- The nodes that stay, and those for which a time-out is sent, in order.
unfoldable pub tick_nodes : ℕ → List Node → List Node × List Node
tick_nodes now [] = ([], [])
tick_nodes now (n ∷ ns) =
    let (kept, gone) = tick_nodes now ns in
    if is_expired now n then (kept, n ∷ gone) else (restamp now n ∷ kept, gone)

-- What dm_msg_send_msg_timeout_to_user meets: whether the text is allocated, the message (`none` if it
-- is not allocated), and whether the queue's node is.
pub record Send : Type 0 where
  pub text : Bool
  pub message : Option ℕ
  pub node : Bool

-- dm_msg_send_msg_timeout_to_user and _dm_msg_send_to_user
unfoldable pub send_timeout : Send → Ipc → Ipc × State
send_timeout e q = if not e.text then (q, malloc_failed) else elim e.message [
  | none ↦ (q, malloc_failed)
  | some message ↦ msg_insert e.node q (some message)
]

-- One send for each node, whose result is not used; `sends` is what each of them meets.
unfoldable pub send_timeouts : (ℕ → Send) → List Node → Ipc → Ipc
send_timeouts sends [] q = q
send_timeouts sends (n ∷ ns) q = send_timeouts (λ i. sends (suc i)) ns (send_timeout (sends 0) q).0

-- dm_msg_cache_tick: the list, the nodes that are taken off, and the queue to the user. The list size
-- is not touched.
unfoldable pub tick : (ℕ → Send) → ℕ → Ctx → Ipc → Ctx × List Node × Ipc
tick sends now c q =
    let (kept, gone) = tick_nodes now c.dmc_list in
    (record c { dmc_list = kept }, gone, send_timeouts sends gone q)
