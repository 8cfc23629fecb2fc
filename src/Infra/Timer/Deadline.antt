-- ===== src/Infra/Timer/Deadline.antt =====
-- What a started countdown says at a later time, wrap-around of the clock included.
use nu_maker_mbed_aliyun_io.Base.{ℕ, ◌+◌, ◌-◌, ◌≤◌, ◌<◌, ◌≡◌, arith, some, ◌↔◌}
use nu_maker_mbed_aliyun_io.Infra.Timer.{half_range, time_is_expired, time_left, time_countdown_ms}

-- A countdown of at most 2^31 ms, asked `spent` ms after it was set and less than 2^31 - 1 ms after its
-- end, has expired exactly if its time is over. The clock may wrap in between.
pub time_is_expired-countdown :
    (now ms spent t : ℕ)
    → ms ≤ 0x80000000
    → spent < ms + half_range
    → ((time_is_expired (now + spent) (time_countdown_ms now (some t) ms) ≡ 1) ↔ (ms ≤ spent))
unfolding time_is_expired time_countdown_ms
time_is_expired-countdown now ms spent t short soon =
    (λ e. ground (arith, e), λ h. ground (arith, h))

-- In the same range, with one reading of the clock, what is left is the countdown less the time spent.
pub time_left-countdown :
    (now ms spent t : ℕ)
    → ms ≤ 0x80000000
    → spent < ms + half_range
    → time_left (now + spent) (now + spent) (time_countdown_ms now (some t) ms) ≡ ms - spent
unfolding time_left time_is_expired time_countdown_ms
time_left-countdown now ms spent t short soon = ground arith

-- If the end passes between the two readings of the clock, the time left wraps round: it is
-- 2^32 less the time since the end, not 0.
pub time_left-passed :
    (now ms before after t : ℕ)
    → ms ≤ 0x80000000
    → before < ms
    → ms < after
    → after < ms + half_range
    → time_left (now + before) (now + after) (time_countdown_ms now (some t) ms)
      ≡ 0x100000000 - (after - ms)
unfolding time_left time_is_expired time_countdown_ms
time_left-passed now ms before after t short running over soon = ground arith

-- From 2^31 - 1 ms past its end on, for another 2^31 ms, an expired countdown counts as running again.
pub time_is_expired-stale :
    (now ms spent t : ℕ)
    → ms + half_range ≤ spent
    → spent < ms + 0x100000000
    → time_is_expired (now + spent) (time_countdown_ms now (some t) ms) ≡ 0
unfolding time_is_expired time_countdown_ms
time_is_expired-stale now ms spent t late soon = ground arith
