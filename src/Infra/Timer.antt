-- ===== src/Infra/Timer.antt =====
-- eng/infra/infra_timer.c: timers on the 32-bit millisecond clock. A timer is its field `time`; a NULL
-- pointer is `none`. What HAL_UptimeMs returns is an argument, one for each call.
pub mod Deadline
use nu_maker_mbed_aliyun_io.Base.{
  ℕ, ◌+◌, ◌-◌, Bool, true, false, ltb, ◌==◌, if◌then◌else◌, Option, none, some,
}
use nu_maker_mbed_aliyun_io.Base.Bits.{u32}

-- UINT32_MAX / 2
abbrev pub half_range : ℕ
half_range = 0x7fffffff

-- `a - b` on `uint32_t`
abbrev pub sub32 : ℕ → ℕ → ℕ
sub32 a b = u32 (a + 0x100000000 - b)

unfoldable pub time_start : ℕ → Option ℕ → Option ℕ
time_start now none = none
time_start now (some t) = some (u32 now)

unfoldable pub time_spend : ℕ → Option ℕ → ℕ
time_spend now none = 0
time_spend now (some start) = sub32 (u32 now) start

unfoldable pub time_is_expired : ℕ → Option ℕ → ℕ
time_is_expired now none = 1
time_is_expired now (some t) = if ltb (sub32 (u32 now) t) half_range then 1 else 0

-- `now1` is read by utils_time_is_expired, `now2` afterwards.
unfoldable pub time_left : ℕ → ℕ → Option ℕ → ℕ
time_left now1 now2 none = 0
time_left now1 now2 (some end) =
    if time_is_expired now1 (some end) == 0 then sub32 end (u32 now2) else 0

unfoldable pub time_init : Option ℕ → Option ℕ
time_init none = none
time_init (some t) = some 0

unfoldable pub time_countdown_ms : ℕ → Option ℕ → ℕ → Option ℕ
time_countdown_ms now none millisecond = none
time_countdown_ms now (some t) millisecond = some (u32 (now + millisecond))
