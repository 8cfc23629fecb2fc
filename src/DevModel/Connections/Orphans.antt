-- ===== src/DevModel/Connections/Orphans.antt =====
-- Closing a connection: when the rest of the table stays usable, and when it does not.
use nu_maker_mbed_aliyun_io.Base.{
  ℕ, ◌-◌, ◌≤◌, ◌≡◌, refl, sym, ◌∙◌, arith, ◌&&◌, not, Bool, true, false, ltb, lt→ltb, ◌==◌, if_elim,
  none, some, List, [], ◌∷◌, length, pos, ◌≢◌, Bool-cases, Option-cases, inl, inr,
}
use nu_maker_mbed_aliyun_io.DevModel.State.{State, success_return, cm_fd_error}
use nu_maker_mbed_aliyun_io.DevModel.Connections.{
  Cm, cm_init, slot, is_open, fd_is_valid, free_fd, Opened, opened, refused, take_fd, get_fd,
  cm_open, cm_connect, cm_call, close_valid, cm_close,
}
use nu_maker_mbed_aliyun_io.DevModel.Connections.Table.{
  count_open, count_open-take, count_open-release, slot-set_slot_other, length-set_slot,
  slot-set_slot, free_fd-IsFree,
}

-- A connection is opened and, if that succeeds, connected; or a descriptor is closed. The connection's
-- functions to connect and to close succeed.
pub data Use : Type 0 where
  attaches : Bool → ℕ → Use
  detaches : ℕ → Use

-- Connecting what was opened.
unfoldable pub connect_opened : Opened × Cm → Cm
connect_opened (opened fd, cm) = (cm_connect true (pos fd) cm).1
connect_opened (refused s, cm) = cm

unfoldable pub use_step : Cm → Use → Cm
use_step cm (attaches mutex handle) = connect_opened (cm_open mutex (some handle) cm)
use_step cm (detaches fd) = (cm_close true (pos fd) cm).1

unfoldable pub use_run : Cm → List Use → Cm
use_run cm [] = cm
use_run cm (u ∷ us) = use_run (use_step cm u) us

-- Every open descriptor is connected, and there is a lock while one is open.
pub record IsBalanced (cm : Cm) : Type 0 where
  pub size : length cm.cm_fd ≡ 3
  pub counted : cm.inited_conn_num ≡ count_open cm.cm_fd
  pub locked : cm.fd_lock ≡ false → count_open cm.cm_fd ≡ 0

valid_parts :
    (fd : ℕ) (cm : Cm)
    → fd_is_valid (pos fd) cm ≡ true
    → (cm.fd_lock ≡ true) × (is_open (slot fd cm.cm_fd) ≡ true)
unfolding fd_is_valid
valid_parts fd cm e = elim (Bool-cases cm.fd_lock) [
  | inr f ↦ cc (rw f at e)
  | inl t ↦ elim (Bool-cases (ltb fd 3)) [
    | inr g ↦ cc (rw (t, g) at e)
    | inl g ↦ (t, rw (t, g) at e)
  ]
]

take_fd-IsBalanced :
    (handle : ℕ) (cm : Cm)
    → cm.fd_lock ≡ true
    → IsBalanced cm
    → IsBalanced (connect_opened (take_fd handle (free_fd cm.cm_fd) cm))
unfolding connect_opened take_fd cm_connect fd_is_valid
take_fd-IsBalanced handle cm lock v = elim (Option-cases (free_fd cm.cm_fd)) [
  | inl e ↦ rw e v
  | inr (k, e) ↦
      let (free, b) = free_fd-IsFree cm.cm_fd k e in
      let filled = slot-set_slot k (some handle) cm.cm_fd b in
      let more = count_open-take k handle cm.cm_fd free b in
      rw (e, lock, lt→ltb k 3 (omega (arith, b, v.size)), filled)
        (record {
          size = length-set_slot k (some handle) cm.cm_fd ∙ v.size;
          counted = omega (arith, more, v.counted);
          locked = λ h. cc h;
        })
]

not_zero : (n : ℕ) → not (n == 0) ≡ false → n ≡ 0
not_zero n e = ground (arith, e)

use_step-IsBalanced : (cm : Cm) (u : Use) → IsBalanced cm → IsBalanced (use_step cm u)
unfolding use_step connect_opened cm_open get_fd take_fd cm_connect cm_close close_valid
use_step-IsBalanced cm (attaches mutex handle) v =
    let P = λ (r : Opened × Cm). IsBalanced (connect_opened r) in
    if_elim P (not cm.fd_lock && not mutex) (λ a. v)
      (λ a.
        take_fd-IsBalanced handle (record cm { fd_lock = true }) refl
          (record { size = v.size; counted = v.counted; locked = λ h. cc }))
use_step-IsBalanced cm (detaches fd) v =
    if_elim (λ (r : State × Cm). IsBalanced r.1) (fd_is_valid (pos fd) cm)
      (λ e.
        let (lock, is) = valid_parts fd cm e in
        let less = count_open-release fd cm.cm_fd is in
        record {
          size = length-set_slot fd none cm.cm_fd ∙ v.size;
          counted = omega (arith, less, v.counted);
          locked = λ h. omega (arith, less, v.counted, not_zero (cm.inited_conn_num - 1) h);
        })
      (λ e. v)

use_run-IsBalanced : (cm : Cm) (us : List Use) → IsBalanced cm → IsBalanced (use_run cm us)
unfolding use_run
use_run-IsBalanced cm [] v = v
use_run-IsBalanced cm (u ∷ us) v =
    use_run-IsBalanced (use_step cm u) us (use_step-IsBalanced cm u v)

-- If every connection that is opened is also connected, and every call of a connection's own functions
-- succeeds, then, with openings that fail and closings of descriptors that are not open in between, in
-- any order, the counter is the number of open descriptors and the lock exists as long as one is open.
pub use_run-init-IsBalanced : (us : List Use) → IsBalanced (use_run cm_init us)
unfolding cm_init count_open
use_run-init-IsBalanced us =
    use_run-IsBalanced cm_init us (record { size = refl; counted = refl; locked = λ h. refl })

-- If at most one connection is counted, closing one of two open descriptors removes the lock: the other
-- one still occupies its slot, and as long as no connection is opened, a call on it is refused without
-- any change, be it iotx_cm_sub, iotx_cm_unsub, iotx_cm_pub, iotx_cm_yield, iotx_cm_connect or
-- iotx_cm_close.
pub cm_close-orphans :
    (a b : ℕ) (cm : Cm)
    → a ≢ b
    → cm.inited_conn_num ≤ 1
    → fd_is_valid (pos a) cm ≡ true
    → fd_is_valid (pos b) cm ≡ true
    → ((cm_close true (pos a) cm).0 ≡ success_return)
      × (is_open (slot b (cm_close true (pos a) cm).1.cm_fd) ≡ true)
      × (cm_call (pos b) (cm_close true (pos a) cm).1 ≡ none)
      × ((closed : Bool)
          → cm_close closed (pos b) (cm_close true (pos a) cm).1
            ≡ (cm_fd_error, (cm_close true (pos a) cm).1))
      × ((ret : Bool)
          → cm_connect ret (pos b) (cm_close true (pos a) cm).1
            ≡ (cm_fd_error, (cm_close true (pos a) cm).1))
unfolding cm_close close_valid cm_call cm_connect fd_is_valid
cm_close-orphans a b cm n few va vb =
    let (lock, is) = valid_parts b cm vb in
    let last : (cm.inited_conn_num - 1 == 0) ≡ true = ground (arith, few) in
    let kept = slot-set_slot_other a b none cm.cm_fd (λ e. n (sym e)) in
    rw (va, last) (refl, rw kept is, refl, λ closed. refl, λ ret. refl)
