-- ===== src/DevModel/Connections.antt =====
-- eng/dev_model/iotx_cm.c: the table of connections to the cloud. A connection is a number in place of
-- the pointer to its functions; what those functions return, and whether a mutex can be created, is an
-- argument. The yield thread of a gateway is not modelled.
pub mod Table
pub mod Orphans
mod Runs
use nu_maker_mbed_aliyun_io.Base.{
  ℕ, zero, suc, ◌+◌, ◌-◌, ◌&&◌, not, Bool, true, false, ltb, ◌==◌, if◌then◌else◌, Option, none,
  some, List, [], ◌∷◌, ℤ, pos, negsuc,
}
use nu_maker_mbed_aliyun_io.DevModel.State.{
  State, success_return, fail_return, mutex_create_failed, cm_open_failed, cm_fd_error,
  cm_fd_not_found,
}

abbrev pub cm_max_fd_num : ℕ
cm_max_fd_num = 3

-- The static variables: whether fd_lock exists, _cm_fd, and inited_conn_num.
pub record Cm : Type 0 where
  pub fd_lock : Bool
  pub cm_fd : List (Option ℕ)
  pub inited_conn_num : ℕ

-- Before the first call.
unfoldable pub cm_init : Cm
cm_init = record { fd_lock = false; cm_fd = none ∷ none ∷ none ∷ []; inited_conn_num = 0 }

-- `_cm_fd[fd]`, and NULL behind the end.
unfoldable pub slot : ℕ → List (Option ℕ) → Option ℕ
slot fd [] = none
slot zero (h ∷ hs) = h
slot (suc fd) (h ∷ hs) = slot fd hs

unfoldable pub set_slot : ℕ → Option ℕ → List (Option ℕ) → List (Option ℕ)
set_slot fd h [] = []
set_slot zero h (g ∷ gs) = h ∷ gs
set_slot (suc fd) h (g ∷ gs) = g ∷ set_slot fd h gs

abbrev pub is_open : Option ℕ → Bool
is_open none = false
is_open (some h) = true

unfoldable pub fd_is_valid : ℤ → Cm → Bool
fd_is_valid (negsuc _) cm = false
fd_is_valid (pos fd) cm = cm.fd_lock && (ltb fd cm_max_fd_num && is_open (slot fd cm.cm_fd))

abbrev pub next_fd : Option ℕ → Option ℕ
next_fd none = none
next_fd (some fd) = some (suc fd)

-- The loop of _get_fd: the first slot that is free.
unfoldable pub free_fd : List (Option ℕ) → Option ℕ
free_fd [] = none
free_fd (none ∷ hs) = some 0
free_fd (some h ∷ hs) = next_fd (free_fd hs)

-- What a call of iotx_cm_open returns: a descriptor or an error.
pub data Opened : Type 0 where
  opened : ℕ → Opened
  refused : State → Opened

-- _get_fd behind the creation of the lock.
unfoldable pub take_fd : ℕ → Option ℕ → Cm → Opened × Cm
take_fd handle none cm = (refused cm_fd_not_found, cm)
take_fd handle (some fd) cm = (opened fd, record cm { cm_fd = set_slot fd (some handle) cm.cm_fd })

-- _get_fd
unfoldable pub get_fd : Bool → ℕ → Cm → Opened × Cm
get_fd mutex handle cm =
    if not cm.fd_lock && not mutex
    then (refused mutex_create_failed, cm)
    else take_fd handle (free_fd cm.cm_fd) (record cm { fd_lock = true })

-- iotx_cm_open: `connection` is what iotx_cm_open_mqtt or iotx_cm_open_coap returns.
unfoldable pub cm_open : Bool → Option ℕ → Cm → Opened × Cm
cm_open mutex none cm = (refused cm_open_failed, cm)
cm_open mutex (some handle) cm = get_fd mutex handle cm

-- iotx_cm_connect: `ret` is whether connect_func returns 0.
unfoldable pub cm_connect : Bool → ℤ → Cm → State × Cm
cm_connect ret fd cm =
    if not (fd_is_valid fd cm)
    then (cm_fd_error, cm)
    else if ret
    then (success_return, record cm { inited_conn_num = cm.inited_conn_num + 1 })
    else (fail_return, cm)

-- The connection whose function iotx_cm_sub, iotx_cm_unsub, iotx_cm_pub or iotx_cm_yield calls.
unfoldable pub cm_call : ℤ → Cm → Option ℕ
cm_call (negsuc _) cm = none
cm_call (pos fd) cm = if fd_is_valid (pos fd) cm then slot fd cm.cm_fd else none

-- iotx_cm_close behind its first test: `closed` is whether close_func returns 0.
unfoldable pub close_valid : Bool → ℕ → Cm → State × Cm
close_valid closed fd cm =
    let left = cm.inited_conn_num - 1 in
    if not closed then (fail_return, record cm { inited_conn_num = left }) else (
      success_return,
      record {
        fd_lock = not (left == 0);
        cm_fd = set_slot fd none cm.cm_fd;
        inited_conn_num = left;
      },
    )

-- iotx_cm_close
unfoldable pub cm_close : Bool → ℤ → Cm → State × Cm
cm_close closed (negsuc _) cm = (cm_fd_error, cm)
cm_close closed (pos fd) cm =
    if fd_is_valid (pos fd) cm then close_valid closed fd cm else (cm_fd_error, cm)
