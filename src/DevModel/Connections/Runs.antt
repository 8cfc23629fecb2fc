-- ===== src/DevModel/Connections/Runs.antt =====
-- Tests, and the theorems on the table of connections at concrete tables.
use nu_maker_mbed_aliyun_io.Base.{◌≡◌, refl, arith, Bool, true, none, some, [], ◌∷◌, pos}
use nu_maker_mbed_aliyun_io.DevModel.State.{success_return, cm_fd_error}
use nu_maker_mbed_aliyun_io.DevModel.Connections.{
  Cm, cm_init, slot, is_open, cm_call, cm_close, cm_connect, fd_is_valid,
}
use nu_maker_mbed_aliyun_io.DevModel.Connections.Orphans.{
  attaches, detaches, use_run, IsBalanced, use_run-init-IsBalanced, cm_close-orphans,
}

-- Connections 7 and 8 are open, and only 7 is connected.
abbrev two_open : Cm
two_open = record { fd_lock = true; cm_fd = some 7 ∷ some 8 ∷ none ∷ []; inited_conn_num = 1 }

use_run-init-IsBalanced_example :
    IsBalanced (use_run cm_init (attaches true 7 ∷ attaches true 8 ∷ detaches 0 ∷ []))
use_run-init-IsBalanced_example =
    use_run-init-IsBalanced (attaches true 7 ∷ attaches true 8 ∷ detaches 0 ∷ [])

cm_close-orphans_example :
    ((cm_close true (pos 1) two_open).0 ≡ success_return)
    × (is_open (slot 0 (cm_close true (pos 1) two_open).1.cm_fd) ≡ true)
    × (cm_call (pos 0) (cm_close true (pos 1) two_open).1 ≡ none)
    × ((closed : Bool)
        → cm_close closed (pos 0) (cm_close true (pos 1) two_open).1
          ≡ (cm_fd_error, (cm_close true (pos 1) two_open).1))
    × ((ret : Bool)
        → cm_connect ret (pos 0) (cm_close true (pos 1) two_open).1
          ≡ (cm_fd_error, (cm_close true (pos 1) two_open).1))
unfolding fd_is_valid slot
cm_close-orphans_example =
    cm_close-orphans 1 0 two_open (λ e. omega (arith, e)) (omega arith) refl refl
