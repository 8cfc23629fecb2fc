-- ===== src/Mqtt/Link/Reconnect.antt =====
-- How long the client waits between its attempts to reconnect.
use nu_maker_mbed_aliyun_io.Base.{
  ℕ, suc, ◌+◌, ◌*◌, ◌^◌, ◌≤◌, ◌<◌, min, ◌≡◌, refl, sym, ap, ◌∙◌, arith, false, some, List, [], ◌∷◌,
  length, Bool-cases, inl, inr, ◌⊎◌, ◌≢◌, ◌↔◌,
}
use native.Mathlib.Nat.{mul_comm, mul_assoc, pow-succ'}
use nu_maker_mbed_aliyun_io.Base.Bits.{u32}
use nu_maker_mbed_aliyun_io.Infra.Timer.{half_range, time_is_expired, time_countdown_ms}
use nu_maker_mbed_aliyun_io.Infra.Timer.Deadline.{time_is_expired-countdown}
use nu_maker_mbed_aliyun_io.Mqtt.Status.{is_success, wait_reconn_timer}
use nu_maker_mbed_aliyun_io.Mqtt.Link.{
  Client, LoopEnd, returned, accepted, exhausted, first_interval, connect_end, mqtt_connect,
  countdown,
}
use nu_maker_mbed_aliyun_io.Mqtt.Link.Connect.{connect_loop-sent}
use nu_maker_mbed_aliyun_io.Mqtt.Link.Yield.{
  Env, attempt_reconnect, handle_reconnect, next_interval, wait_interval,
}

-- The attempt is due, and fails.
unfoldable pub HasFailed : Env → Client → Type 0
HasFailed env c =
    (time_is_expired env.retry_now (some c.reconnect_next_time) ≡ 1)
    × (is_success (mqtt_connect env.connected_now env.attempts c).0.0 ≡ false)

-- The client after one attempt after another.
unfoldable pub retries : List Env → Client → Client
retries [] c = c
retries (env ∷ envs) c = retries envs (handle_reconnect env c).0.1

pub data AllFailed : List Env → Client → Type 0 where
  none_left : (c : Client) → AllFailed [] c
  failed_then :
      (env : Env) (envs : List Env) (c : Client)
      → HasFailed env c
      → AllFailed envs (handle_reconnect env c).0.1
      → AllFailed (env ∷ envs) c

-- A failed attempt leaves the client as it was.
pub connect_end-failed :
    (now : ℕ) (end : LoopEnd) (c : Client)
    → is_success (connect_end now end c).0 ≡ false
    → (connect_end now end c).1 ≡ c
unfolding connect_end
connect_end-failed now (returned rc) c h = refl
connect_end-failed now exhausted c h = refl
connect_end-failed now accepted c h = ground arith

handle_reconnect-failed :
    (env : Env) (c : Client)
    → HasFailed env c
    → (handle_reconnect env c).0.1 ≡ record c {
      reconnect_time_interval_ms = next_interval c.reconnect_time_interval_ms;
      reconnect_next_time =
          countdown env.retry_set c.reconnect_next_time
            (wait_interval (next_interval c.reconnect_time_interval_ms));
    }
unfolding handle_reconnect attempt_reconnect HasFailed mqtt_connect
handle_reconnect-failed env c (due, f) =
    let same = connect_end-failed _ _ c f in rw (due, f, same) refl

-- What is kept of the interval, up to its limit, doubles.
next_interval_lem :
    (ms x : ℕ) → min 30000 ms ≡ min 30000 x → min 30000 (next_interval ms) ≡ min 30000 (2 * x)
unfolding next_interval
next_interval_lem ms x e = ground (arith, e)

wait_interval_lem : (ms : ℕ) → wait_interval ms ≡ min 30000 ms
unfolding wait_interval
wait_interval_lem ms = ground arith

retries-interval :
    (envs : List Env) (c : Client) (x : ℕ)
    → min 30000 c.reconnect_time_interval_ms ≡ min 30000 x
    → AllFailed envs c
    → min 30000 (retries envs c).reconnect_time_interval_ms ≡ min 30000 (x * 2 ^ length envs)
unfolding retries
retries-interval [] c x e f = omega (arith, e)
retries-interval (env ∷ envs) c x e (failed_then _ _ _ h f) =
    retries-interval envs (handle_reconnect env c).0.1 (2 * x)
      (ap (λ d. min 30000 d.reconnect_time_interval_ms) (handle_reconnect-failed env c h)
        ∙ next_interval_lem c.reconnect_time_interval_ms x e)
      f
    ∙ ap (min 30000)
        (rw (mul_comm 2 x, mul_assoc x 2 (2 ^ length envs), pow-succ' 2 (length envs)) refl)

-- The wait after one more failure.
retries-next_time :
    (envs : List Env) (env : Env) (c : Client)
    → c.reconnect_time_interval_ms ≡ 1000
    → AllFailed envs c
    → HasFailed env (retries envs c)
    → (handle_reconnect env (retries envs c)).0.1.reconnect_next_time
      ≡ u32 (env.retry_set + min 30000 (1000 * 2 ^ suc (length envs)))
unfolding time_countdown_ms
retries-next_time envs env c s f h =
    let d = retries envs c in
    let kept = retries-interval envs c 1000 (ap (min 30000) s) f in
    let wait =
      wait_interval_lem (next_interval d.reconnect_time_interval_ms)
      ∙ next_interval_lem d.reconnect_time_interval_ms (1000 * 2 ^ length envs) kept in
    ap (λ e. e.reconnect_next_time) (handle_reconnect-failed env d h)
    ∙ ap (λ w. u32 (env.retry_set + w))
        (wait ∙ ap (min 30000) (omega (arith, pow-succ' 2 (length envs))))

-- An attempt that is due sends at least one packet.
handle_reconnect-due :
    (env : Env) (c : Client)
    → time_is_expired env.retry_now (some c.reconnect_next_time) ≡ 1
    → (handle_reconnect env c).1 ≢ []
unfolding handle_reconnect attempt_reconnect mqtt_connect
handle_reconnect-due env c due e =
    let user = c.keep_alive_interval in
    let (n, b, sent) = connect_loop-sent 7 0 (first_interval user) user env.attempts in
    elim (Bool-cases (is_success (mqtt_connect env.connected_now env.attempts c).0.0)) [
      | inl t ↦ cc (sent, rw (due, t) at e)
      | inr f ↦ cc (sent, rw (due, f) at e)
    ]

handle_reconnect-early :
    (env : Env) (c : Client)
    → time_is_expired env.retry_now (some c.reconnect_next_time) ≡ 0
    → handle_reconnect env c ≡ ((wait_reconn_timer, c), [])
unfolding handle_reconnect
handle_reconnect-early env c e = rw e refl

expired-cases :
    (now t : ℕ) → (time_is_expired now (some t) ≡ 0) ⊎ (time_is_expired now (some t) ≡ 1)
unfolding time_is_expired
expired-cases now t = ground arith

-- After a number of failed attempts that began at the shortest interval and one more failure, the
-- next call of iotx_mc_handle_reconnect sends CONNECT packets exactly if the time since that failure
-- has reached the smaller of 30 seconds and one second doubled once for each failure. The time since
-- that failure is less than half the range of the clock.
pub backoff :
    (envs : List Env) (env next : Env) (c : Client) (spent : ℕ)
    → c.reconnect_time_interval_ms ≡ 1000
    → AllFailed envs c
    → HasFailed env (retries envs c)
    → next.retry_now ≡ env.retry_set + spent
    → spent < half_range
    → (((handle_reconnect next (handle_reconnect env (retries envs c)).0.1).1 ≢ [])
        ↔ (min 30000 (1000 * 2 ^ suc (length envs)) ≤ spent))
unfolding time_countdown_ms
backoff envs env next c spent s f h e soon =
    let d = (handle_reconnect env (retries envs c)).0.1 in
    let wait = min 30000 (1000 * 2 ^ suc (length envs)) in
    let due = retries-next_time envs env c s f h in
    let asks = time_is_expired-countdown env.retry_set wait spent 0 (omega arith) (omega arith) in
    let clock =
      ap (λ t. time_is_expired t (some d.reconnect_next_time)) e
      ∙ ap (λ t. time_is_expired (env.retry_set + spent) (some t)) due in
    elim (expired-cases next.retry_now d.reconnect_next_time) [
      | inl running ↦ (
        λ ne. elim (ne (ap (λ r. r.1) (handle_reconnect-early next d running))) [ ],
        λ over x. omega (arith, sym running ∙ clock ∙ asks.1 over),
      )
      | inr expired ↦
          (λ ne. asks.0 (sym clock ∙ expired), λ over. handle_reconnect-due next d expired)
    ]
