-- ===== src/Mqtt/Link/Probes.antt =====
-- The pings that the server has not answered.
use nu_maker_mbed_aliyun_io.Base.{
  ℕ, if_elim, ◌||◌, ◌≤◌, ◌≡◌, refl, sym, subst, arith, true, not, ltb, ltb→ge, ◌==◌, some, List, [],
  ◌∷◌,
}
use nu_maker_mbed_aliyun_io.Infra.Timer.{time_is_expired}
use nu_maker_mbed_aliyun_io.Mqtt.Status.{Status, is_success}
use nu_maker_mbed_aliyun_io.Mqtt.Link.{
  McState, invalid, initialized, connected, disconnected, disconnected_reconnecting, connect_block,
  is_connected, Client, Read, Attempt, LoopEnd, returned, accepted, exhausted, connect_end,
  mqtt_connect, probe_max, mqtt_cpt_reserved, connack, pingresp, mc_init, set_connect_params,
}
use nu_maker_mbed_aliyun_io.Mqtt.Link.Session.{Turn, yields}
use nu_maker_mbed_aliyun_io.Mqtt.Link.Yield.{
  Env, attempt_reconnect, handle_reconnect, keepalive_sub, keepalive_in, keepalive, try_reconnect,
  start_reconnect, cycle, is_handled, Event, check_state, is_nwk_close,
}
use nu_maker_mbed_aliyun_io.Mqtt.Publish.{PubClient, Resend, proc_nodes, pub_info_proc}
use nu_maker_mbed_aliyun_io.Mqtt.Cycle.{Pass, cycle_pass, mqtt_cycle, yield}

-- A client that is connected has at most three pings outstanding, another one at most two.
abbrev IsQuiet : Client → Type 0
IsQuiet c =
    (c.keepalive_probes ≤ 3) × (not (is_connected c.client_state) ≡ true → c.keepalive_probes ≤ 2)

keepalive_sub-IsQuiet :
    (env : Env) (c : Client) → c.keepalive_probes ≤ 2 → IsQuiet (keepalive_sub env c).1
unfolding keepalive_sub check_state
keepalive_sub-IsQuiet env c a =
    let P = λ (p : Status × Client). IsQuiet p.1 in
    if_elim P (not (is_connected c.client_state)) (λ f. (omega arith, λ g. a))
      (λ t.
        if_elim P (time_is_expired env.ping_now (some c.next_ping_time) == 0)
          (λ e. (omega arith, λ g. a))
          (λ e.
            if_elim P (is_success env.ping_rc) (λ r. (omega arith, λ g. cc))
              (λ r.
                if_elim P (is_nwk_close env.ping_rc) (λ n. (omega arith, λ g. a))
                  (λ n. (omega arith, λ g. a)))))

connect_end-probes :
    (now : ℕ) (end : LoopEnd) (c : Client)
    → c.keepalive_probes ≤ 2
    → (connect_end now end c).1.keepalive_probes ≤ 2
unfolding connect_end
connect_end-probes now (returned rc) c h = h
connect_end-probes now exhausted c h = h
connect_end-probes now accepted c h = omega arith

try_reconnect-probes :
    (env : Env) (c : Client) → c.keepalive_probes ≤ 2 → (try_reconnect env c).1.keepalive_probes ≤ 2
unfolding try_reconnect handle_reconnect attempt_reconnect mqtt_connect
try_reconnect-probes env c h =
    let P = λ (p : (Status × Client) × List ℕ). p.0.1.keepalive_probes ≤ 2 in
    let kept =
      if_elim P (time_is_expired env.retry_now (some c.reconnect_next_time) == 0) (λ e. h)
        (λ e.
          if_elim P (is_success (mqtt_connect env.connected_now env.attempts c).0.0)
            (λ r. connect_end-probes _ _ c h) (λ r. connect_end-probes _ _ c h)) in
    if_elim (λ (p : List Event × Client). p.1.keepalive_probes ≤ 2)
      (is_success (handle_reconnect env c).0.0) (λ r. kept) (λ r. kept)

keepalive_in-IsQuiet :
    (s : McState) (env : Env) (c : Client)
    → c.client_state ≡ s
    → IsQuiet c
    → IsQuiet (keepalive_in s env c).1
unfolding keepalive_in start_reconnect
keepalive_in-IsQuiet invalid env c e q = q
keepalive_in-IsQuiet initialized env c e q = q
keepalive_in-IsQuiet connected env c e q = q
keepalive_in-IsQuiet disconnected env c e (_, q) = let h = q (rw e refl) in (omega arith, λ g. h)
keepalive_in-IsQuiet disconnected_reconnecting env c e (_, q) =
    let h = try_reconnect-probes env c (q (rw e refl)) in (omega arith, λ g. h)
keepalive_in-IsQuiet connect_block env c e (_, q) =
    let h = try_reconnect-probes env c (q (rw e refl)) in (omega arith, λ g. h)

cycle-probes : (r : Read) (c : Client) → IsQuiet c → (cycle r c).1.keepalive_probes ≤ 2
unfolding cycle
cycle-probes r c (most, q) =
    let P = λ (p : Status × Client). p.1.keepalive_probes ≤ 2 in
    if_elim P (not (is_connected c.client_state)) q (λ t.
      if_elim P (ltb probe_max c.keepalive_probes) (λ e. omega arith)
        (λ e.
          let h = ltb→ge _ _ e in
          if_elim P (not (is_success r.rc))
            (λ x.
              if_elim (λ (d : Client). d.keepalive_probes ≤ 2) (is_nwk_close r.rc) (λ n. h)
                (λ n. h))
            (λ x.
              if_elim P (r.packet_type == mqtt_cpt_reserved) (λ y. h)
                (λ y.
                  if_elim P (is_handled r.packet_type) (λ z. omega arith)
                    (λ z.
                      if_elim P (r.packet_type == connack || r.packet_type == pingresp)
                        (λ w. omega arith) (λ w. omega arith))))))

pub_info_proc-probes :
    (resends : ℕ → Resend) (c : PubClient)
    → (pub_info_proc resends c).1.link.keepalive_probes ≡ c.link.keepalive_probes
unfolding pub_info_proc
pub_info_proc-probes resends c =
    if_elim (λ (l : Client). l.keepalive_probes ≡ c.link.keepalive_probes)
      (proc_nodes 0 resends (is_connected c.link.client_state) c.request_timeout_ms
        c.list_pub_wait_ack).2
      (λ e. refl) (λ e. refl)

cycle_pass-probes :
    (p : Pass) (c : PubClient) → IsQuiet c.link → (cycle_pass p c).link.keepalive_probes ≤ 2
unfolding cycle_pass
cycle_pass-probes p c q =
    let h = cycle-probes p.read c.link q in
    if_elim (λ (d : PubClient). d.link.keepalive_probes ≤ 2) (is_success (cycle p.read c.link).0)
      (λ e. omega (arith, h, pub_info_proc-probes p.resends _)) (λ e. h)

mqtt_cycle-probes :
    (p : Pass) (ps : List Pass) (c : PubClient)
    → IsQuiet c.link
    → (mqtt_cycle p ps c).link.keepalive_probes ≤ 2
unfolding mqtt_cycle
mqtt_cycle-probes p [] c q = cycle_pass-probes p c q
mqtt_cycle-probes p (r ∷ ps) c q =
    let h = cycle_pass-probes p c q in mqtt_cycle-probes r ps (cycle_pass p c) (omega arith, λ g. h)

yields-probes :
    (ts : List Turn) (c : PubClient)
    → c.link.keepalive_probes ≤ 2
    → (yields ts c).1.link.keepalive_probes ≤ 2
unfolding yields yield keepalive
yields-probes [] c h = h
yields-probes (t ∷ ts) c h =
    let d = (keepalive_sub t.env c.link).1 in
    let quiet =
      keepalive_in-IsQuiet d.client_state t.env d refl (keepalive_sub-IsQuiet t.env c.link h) in
    yields-probes ts (yield t.env t.first t.passes c).1 (mqtt_cycle-probes t.first t.passes _ quiet)

-- However a new client connects, whatever packets wait for their acknowledgement, and whatever the
-- clock, the network and the server do in any number of calls of wrapper_mqtt_yield, at most two pings
-- are outstanding between the calls, so that the count of pings never wraps round.
pub yields-IsCounted :
    (interval now : ℕ) (attempts : ℕ → Attempt) (c : PubClient) (ts : List Turn)
    → c.link ≡ (mqtt_connect now attempts (mc_init interval)).0.1
    → (yields ts c).1.link.keepalive_probes ≤ 2
unfolding mqtt_connect mc_init set_connect_params
yields-IsCounted interval now attempts c ts e =
    let h = connect_end-probes now _ (mc_init interval) (omega arith) in
    yields-probes ts c (subst (λ (l : Client). l.keepalive_probes ≤ 2) (sym e) h)
