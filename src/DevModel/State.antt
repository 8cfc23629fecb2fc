-- ===== src/DevModel/State.antt =====
-- The status codes of eng/infra/infra_state.h and eng/infra/infra_defs.h that the modelled functions
-- return, and C's `int` as an identifier.
use nu_maker_mbed_aliyun_io.Base.{◌≡◌, ◌==◌, Bool, true, false, ◌↔◌, arith, ℤ, pos, negsuc}

pub data State : Type 0 where
  success_return fail_return : State
  user_input_invalid : State
  malloc_failed mutex_create_failed : State
  ctx_list_full ctx_list_empty : State
  msgq_full msgq_empty : State
  invalid_dm_option : State
  url_split_failed : State
  user_input_pk user_input_dn user_input_devid : State
  cm_open_failed cm_fd_error cm_fd_not_found null_value_error internal_error : State
  device_not_found device_already_exist subd_not_deleteable : State

abbrev pub eq_ℤ : ℤ → ℤ → Bool
eq_ℤ (pos a) (pos b) = a == b
eq_ℤ (negsuc a) (negsuc b) = a == b
eq_ℤ _ _ = false

pub eq_ℤ_iff : (a b : ℤ) → (eq_ℤ a b ≡ true) ↔ (a ≡ b)
eq_ℤ_iff a b = ground arith
