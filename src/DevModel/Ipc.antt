-- ===== src/DevModel/Ipc.antt =====
-- eng/dev_model/dm_ipc.c: the bounded queue of messages from the device model to the user.
-- The list of nodes is the C list, first node first; a message is the address of a block. The outcome
-- of an allocation is an argument. Every operation holds the mutex while it uses the list.
pub mod Queue
mod Runs
use nu_maker_mbed_aliyun_io.Base.{
  ℕ, ◌+◌, ◌-◌, Bool, true, false, ◌||◌, leb, if◌then◌else◌, Option, none, some, List, [], ◌∷◌, ◌++◌,
}
use nu_maker_mbed_aliyun_io.DevModel.State.{
  State, success_return, user_input_invalid, malloc_failed, mutex_create_failed, msgq_full,
  msgq_empty,
}

pub record MsgList : Type 0 where
  pub max_size : ℕ
  pub size : ℕ
  pub message_list : List ℕ

pub record Ipc : Type 0 where
  pub mutex : Bool
  pub msg_list : MsgList

-- `made` says whether HAL_MutexCreate succeeds; if not, dm_ipc_init returns before it sets up the head of
-- the list, and there is no queue (`none`) on which another operation could be called.
unfoldable pub init : Bool → ℕ → Option Ipc × State
init made max_size =
    if made
    then (
      some (record {
        mutex = true;
        msg_list = record { max_size = max_size; size = 0; message_list = [] };
      }),
      success_return,
    )
    else (none, mutex_create_failed)

-- The messages that are freed are the second component; the size is left as it is.
unfoldable pub deinit : Ipc → Ipc × List ℕ
deinit q =
    (record q { msg_list = record (q.msg_list) { message_list = [] } }, q.msg_list.message_list)

unfoldable pub msg_insert : Bool → Ipc → Option ℕ → Ipc × State
msg_insert alloc q none = (q, user_input_invalid)
msg_insert alloc q (some msg) =
    if leb q.msg_list.max_size q.msg_list.size
    then (q, msgq_full)
    else if alloc
    then (
      record q {
        msg_list = record (q.msg_list) {
          size = q.msg_list.size + 1;
          message_list = q.msg_list.message_list ++ msg ∷ [];
        };
      },
      success_return,
    )
    else (q, malloc_failed)

abbrev slot_taken : Option (Option ℕ) → Bool
slot_taken none = true
slot_taken (some none) = false
slot_taken (some (some m)) = true

-- The queue, the status and what the caller's slot `data` holds: NULL, or the pointer in `*data`.
unfoldable pub msg_next : Ipc → Option (Option ℕ) → Ipc × State × Option (Option ℕ)
msg_next q slot =
    if slot_taken slot then (q, user_input_invalid, slot) else elim q.msg_list.message_list [
      | [] ↦ (q, msgq_empty, slot)
      | msg ∷ rest ↦ (
        record q {
          msg_list = record (q.msg_list) { size = q.msg_list.size - 1; message_list = rest };
        },
        success_return,
        some (some msg),
      )
    ]
