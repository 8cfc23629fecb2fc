-- ===== src/Mqtt/Link/Connect.antt =====
-- The loop that sends CONNECT packets.
use nu_maker_mbed_aliyun_io.Base.{
  ℕ, zero, suc, ◌+◌, ◌*◌, ◌≤◌, ◌<◌, min, ◌≡◌, refl, ap, subst, ◌∙◌, arith, Bool, true, false, not,
  if◌then◌else◌, List, [], ◌∷◌, replicate, ◌⊎◌,
}
use nu_maker_mbed_aliyun_io.Base.Bits.{u32}
use nu_maker_mbed_aliyun_io.Infra.Timer.{time_countdown_ms}
use nu_maker_mbed_aliyun_io.Mqtt.Status.{Status, is_success, state_success, conn_retry_exceed_max}
use nu_maker_mbed_aliyun_io.Mqtt.Link.{
  Client, Attempt, LoopEnd, accepted, exhausted, connect_loop, first_interval, connect_end,
  mqtt_connect, connected, wait_connack, is_reject,
}

-- A pass of the loop is refused for good: the packet is not sent, or the server rejects it.
abbrev pub IsRefused : Attempt → Type 0
IsRefused a = (is_success a.sent ≡ false) ⊎ (is_reject (wait_connack a.reads) ≡ true)

-- A pass that is tried again.
abbrev pub IsRetried : Attempt → Type 0
IsRetried a =
    (is_success a.sent ≡ true)
    × (is_reject (wait_connack a.reads) ≡ false)
    × (is_success (wait_connack a.reads) ≡ false)

abbrev pub IsAccepted : Attempt → Type 0
IsAccepted a = (is_success a.sent ≡ true) × (is_success (wait_connack a.reads) ≡ true)

-- The packets of one pass: its own, and those of the passes after it if it is tried again.
pass-sent :
    (s r a : Bool) (x y z w : LoopEnd) (current user left n : ℕ) (rest : List ℕ)
    → n ≤ left
    → rest ≡ replicate n user
    → (k : ℕ) × (k ≤ left)
      × ((if◌then◌else◌ {A = LoopEnd × List ℕ}
            (not s)
            (x, current ∷ [])
            (if r
              then (y, current ∷ [])
              else if a
              then (z, current ∷ [])
              else (w, current ∷ rest))).1
          ≡ current ∷ replicate k user)
pass-sent false r a x y z w current user left n rest b e = (0, omega arith, refl)
pass-sent true true a x y z w current user left n rest b e = (0, omega arith, refl)
pass-sent true false true x y z w current user left n rest b e = (0, omega arith, refl)
pass-sent true false false x y z w current user left n rest b e = (n, b, ap (λ l. current ∷ l) e)

pub connect_loop-sent :
    (left i current user : ℕ) (attempts : ℕ → Attempt)
    → (n : ℕ) × (n ≤ left)
      × ((connect_loop (suc left) i current user attempts).1 ≡ current ∷ replicate n user)
unfolding connect_loop
connect_loop-sent zero i current user attempts =
    pass-sent (is_success (attempts i).sent) (is_reject (wait_connack (attempts i).reads))
      (is_success (wait_connack (attempts i).reads)) _ _ _ _ current user 0 0 [] (omega arith) refl
connect_loop-sent (suc left) i current user attempts =
    let (n, b, e) = connect_loop-sent left (i + 1) user user attempts in
    pass-sent (is_success (attempts i).sent) (is_reject (wait_connack (attempts i).reads))
      (is_success (wait_connack (attempts i).reads)) _ _ _ _ current user (suc left) (suc n) _
      (omega arith) e

first_interval_lem : (user : ℕ) → user ≤ 1200 → first_interval user ≡ min 1200 (2 * user)
unfolding first_interval
first_interval_lem user h = ground arith

-- However the server answers, _mqtt_connect ends after one to eight CONNECT packets: the first carries
-- twice the user's interval, at most 1200 seconds, and each further one the user's interval itself.
pub mqtt_connect-sent :
    (now : ℕ) (attempts : ℕ → Attempt) (c : Client)
    → c.keep_alive_interval ≤ 1200
    → (n : ℕ) × (n ≤ 7)
      × ((mqtt_connect now attempts c).1
          ≡ min 1200 (2 * c.keep_alive_interval) ∷ replicate n c.keep_alive_interval)
unfolding mqtt_connect
mqtt_connect-sent now attempts c h =
    let user = c.keep_alive_interval in
    let (n, b, e) = connect_loop-sent 7 0 (first_interval user) user attempts in
    (n, b, e ∙ ap (λ i. i ∷ replicate n user) (first_interval_lem user h))

not_reject : (rc : Status) → is_success rc ≡ true → is_reject rc ≡ false
unfolding is_reject
not_reject rc h = ground arith

-- A pass that is accepted after others that were not.
retried-accepted :
    (k left i m current user : ℕ) (attempts : ℕ → Attempt)
    → k ≤ left
    → i + k ≡ m
    → ((j : ℕ) → i ≤ j → j < m → IsRetried (attempts j))
    → IsAccepted (attempts m)
    → connect_loop (suc left) i current user attempts ≡ (accepted, current ∷ replicate k user)
unfolding connect_loop
retried-accepted zero left i m current user attempts b e r a =
    let same = subst (λ j. IsAccepted (attempts j)) {x = m} {y = i} (omega arith) a in
    rw (same.0, not_reject _ same.1, same.1) refl
retried-accepted (suc k) zero i m current user attempts b e r a = ground arith
retried-accepted (suc k) (suc left) i m current user attempts b e r a =
    let (s, j, w) = r i (omega arith) (omega arith) in
    let next =
      retried-accepted k left (i + 1) m user user attempts (omega arith) (omega arith)
        (λ j l g. r j (omega arith) g) a in
    rw (s, j, w) (ap (λ p. (p.0, current ∷ p.1)) next)

retried-exhausted :
    (left i current user : ℕ) (attempts : ℕ → Attempt)
    → ((j : ℕ) → i ≤ j → j ≤ i + left → IsRetried (attempts j))
    → connect_loop (suc left) i current user attempts ≡ (exhausted, current ∷ replicate left user)
unfolding connect_loop
retried-exhausted zero i current user attempts r =
    let (s, j, w) = r i (omega arith) (omega arith) in rw (s, j, w) refl
retried-exhausted (suc left) i current user attempts r =
    let (s, j, w) = r i (omega arith) (omega arith) in
    let next =
      retried-exhausted left (i + 1) user user attempts
        (λ j l g. r j (omega arith) (omega arith)) in
    rw (s, j, w) (ap (λ p. (p.0, current ∷ p.1)) next)

-- If the server accepts the pass number k, of at most eight counted from 0, and the passes before it
-- only time out, _mqtt_connect succeeds after k + 1 CONNECT packets: the client is connected with no
-- ping outstanding, and the next ping is due after the user's interval.
pub mqtt_connect-accepted :
    (k now : ℕ) (attempts : ℕ → Attempt) (c : Client)
    → c.keep_alive_interval ≤ 1200
    → k ≤ 7
    → ((j : ℕ) → j < k → IsRetried (attempts j))
    → IsAccepted (attempts k)
    → mqtt_connect now attempts c ≡ (
      (
        state_success,
        record c {
          keepalive_probes = 0;
          client_state = connected;
          next_ping_time = u32 (now + c.keep_alive_interval * 1000);
        },
      ),
      min 1200 (2 * c.keep_alive_interval) ∷ replicate k c.keep_alive_interval,
    )
unfolding mqtt_connect connect_end time_countdown_ms
mqtt_connect-accepted k now attempts c h b r a =
    let user = c.keep_alive_interval in
    rw
      (
        retried-accepted k 7 0 k (first_interval user) user attempts b (omega arith) (λ j l. r j) a,
        first_interval_lem user h,
      )
      refl

-- If all eight passes only time out, _mqtt_connect gives up with its own code and leaves the client as
-- it was.
pub mqtt_connect-exhausted :
    (now : ℕ) (attempts : ℕ → Attempt) (c : Client)
    → ((j : ℕ) → j ≤ 7 → IsRetried (attempts j))
    → (mqtt_connect now attempts c).0 ≡ (conn_retry_exceed_max, c)
unfolding mqtt_connect connect_end
mqtt_connect-exhausted now attempts c r =
    let user = c.keep_alive_interval in
    rw (retried-exhausted 7 0 (first_interval user) user attempts (λ j l. r j)) refl
