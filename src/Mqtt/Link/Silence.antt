-- ===== src/Mqtt/Link/Silence.antt =====
-- A server that stops answering.
use nu_maker_mbed_aliyun_io.Base.{
  ◌+◌, ◌*◌, ◌≤◌, ◌≡◌, refl, sym, ap, ◌∙◌, subst, arith, Bool, true, false, not, leb, if_elim, ℕ,
  le→ltb, some, List, [], ◌∷◌, All,
}
use nu_maker_mbed_aliyun_io.Base.Bits.{u8, u32}
use nu_maker_mbed_aliyun_io.Infra.Timer.{time_is_expired, time_spend}
use nu_maker_mbed_aliyun_io.Mqtt.Status.{state_success, is_success}
use nu_maker_mbed_aliyun_io.Mqtt.Link.{
  connected, disconnected, disconnected_reconnecting, is_connected, Client, Read, countdown,
  mqtt_cpt_reserved,
}
use nu_maker_mbed_aliyun_io.Mqtt.Link.Session.{Turn, yields}
use nu_maker_mbed_aliyun_io.Mqtt.Link.Yield.{
  keepalive_sub, keepalive_in, keepalive, start_reconnect, cycle, event_disconnect, check_state,
}
use nu_maker_mbed_aliyun_io.Mqtt.Publish.{
  is_invalid, PubInfo, PubClient, Resend, proc_nodes, pub_info_proc,
}
use nu_maker_mbed_aliyun_io.Mqtt.Cycle.{Pass, cycle_pass, mqtt_cycle, yield}

-- A read that times out with nothing received.
abbrev IsEmpty : Read → Type 0
IsEmpty r = (r.rc ≡ state_success) × (r.packet_type ≡ mqtt_cpt_reserved)

-- A pass in which nothing is received, and every packet that is due to be sent again goes out.
abbrev IsIdle : Pass → Type 0
IsIdle p = IsEmpty p.read × ((i : ℕ) → (p.resends i).sent ≡ true)

-- In a call a ping is due and goes out, nothing is received, and every packet that is due to be sent
-- again goes out.
pub record IsSilent (t : Turn) (c : Client) : Type 0 where
  pub due : time_is_expired t.env.ping_now (some c.next_ping_time) ≡ 1
  pub pinged : t.env.ping_rc ≡ state_success
  pub first_idle : IsIdle t.first
  pub all_idle : All IsIdle t.passes

-- The client after one ping more.
abbrev pub ping : Turn → Client → Client
ping t c = record c {
  keepalive_probes = c.keepalive_probes + 1;
  next_ping_time = countdown t.env.ping_set c.next_ping_time (c.keep_alive_interval * 1000);
}

keepalive_sub-ping :
    (t : Turn) (c : Client)
    → c.client_state ≡ connected
    → c.keepalive_probes ≤ 2
    → IsSilent t c
    → keepalive_sub t.env c ≡ (state_success, ping t c)
unfolding keepalive_sub check_state
keepalive_sub-ping t c e b s =
    let small : u8 (c.keepalive_probes + 1) ≡ c.keepalive_probes + 1 = omega arith in
    rw (e, s.due, s.pinged, small) refl

keepalive-ping :
    (t : Turn) (c : Client)
    → c.client_state ≡ connected
    → c.keepalive_probes ≤ 2
    → IsSilent t c
    → keepalive t.env c ≡ ([], ping t c)
unfolding keepalive keepalive_in
keepalive-ping t c e b s = rw (keepalive_sub-ping t c e b s, e) refl

-- The link of the client behind a call that reads `r` on the connection `c`.
pass_link-failed :
    (p : Pass) (c : PubClient)
    → is_success (cycle p.read c.link).0 ≡ false
    → (cycle_pass p c).link ≡ (cycle p.read c.link).1
unfolding cycle_pass
pass_link-failed p c e = rw (cycle_pass, e) refl

cycle-offline :
    (r : Read) (c : Client)
    → is_connected c.client_state ≡ false
    → (is_success (cycle r c).0 ≡ false) × ((cycle r c).1 ≡ c)
unfolding cycle
cycle-offline r c e = rw (cycle, e) (refl, refl)

pass-offline :
    (p : Pass) (c : PubClient)
    → is_connected c.link.client_state ≡ false
    → (cycle_pass p c).link ≡ c.link
pass-offline p c e =
    let (failed, same) = cycle-offline p.read c.link e in pass_link-failed p c failed ∙ same

mqtt_cycle-offline :
    (p : Pass) (ps : List Pass) (c : PubClient)
    → is_connected c.link.client_state ≡ false
    → (mqtt_cycle p ps c).link ≡ c.link
unfolding mqtt_cycle
mqtt_cycle-offline p [] c e = pass-offline p c e
mqtt_cycle-offline p (q ∷ ps) c e =
    let same = pass-offline p c e in
    mqtt_cycle-offline q ps (cycle_pass p c) (ap (λ l. is_connected l.client_state) same ∙ e) ∙ same

cycle-empty :
    (r : Read) (c : Client)
    → c.client_state ≡ connected
    → c.keepalive_probes ≤ 2
    → IsEmpty r
    → (cycle r c).1 ≡ c
unfolding cycle
cycle-empty r c e b (ok, empty) = rw (cycle, e, le→ltb 2 c.keepalive_probes b, ok, empty) refl

-- As long as packets go out, sending them again closes nothing.
proc_nodes-sent :
    (i : ℕ) (resends : ℕ → Resend) (online : Bool) (timeout : ℕ) (ns : List PubInfo)
    → ((j : ℕ) → (resends j).sent ≡ true)
    → (proc_nodes i resends online timeout ns).2 ≡ false
unfolding proc_nodes
proc_nodes-sent i resends online timeout [] h = refl
proc_nodes-sent i resends online timeout (n ∷ ns) h =
    let P = λ (r : List PubInfo × List (List ℕ) × Bool). r.2 ≡ false in
    let rest = proc_nodes-sent (i + 1) resends online timeout ns h in
    if_elim P (is_invalid n.node_state) (λ e. rest)
      (λ e.
        if_elim P (not online) (λ f. rest)
          (λ f.
            if_elim P
              (leb (time_spend (resends i).asked (some n.pub_start_time)) (u32 (timeout * 2)))
              (λ g. rest) (λ g. if_elim P (not (resends i).sent) (λ k. cc (k, h i)) (λ k. rest))))

pub_info_proc-sent :
    (resends : ℕ → Resend) (c : PubClient)
    → ((j : ℕ) → (resends j).sent ≡ true)
    → (pub_info_proc resends c).1.link ≡ c.link
unfolding pub_info_proc
pub_info_proc-sent resends c h =
    rw
      (proc_nodes-sent 0 resends (is_connected c.link.client_state) c.request_timeout_ms
        c.list_pub_wait_ack h)
      refl

pass-idle :
    (p : Pass) (c : PubClient)
    → c.link.client_state ≡ connected
    → c.link.keepalive_probes ≤ 2
    → IsIdle p
    → (cycle_pass p c).link ≡ c.link
unfolding cycle_pass
pass-idle p c e b (empty, sent) =
    if_elim (λ (d : PubClient). d.link ≡ c.link) (is_success (cycle p.read c.link).0)
      (λ f. pub_info_proc-sent p.resends _ sent ∙ cycle-empty p.read c.link e b empty)
      (λ f. cycle-empty p.read c.link e b empty)

mqtt_cycle-idle :
    (p : Pass) (ps : List Pass) (c : PubClient)
    → c.link.client_state ≡ connected
    → c.link.keepalive_probes ≤ 2
    → IsIdle p
    → All IsIdle ps
    → (mqtt_cycle p ps c).link ≡ c.link
unfolding mqtt_cycle
mqtt_cycle-idle p [] c e b z zs = pass-idle p c e b z
mqtt_cycle-idle p (q ∷ ps) c e b z (y, zs) =
    let same = pass-idle p c e b z in
    mqtt_cycle-idle q ps (cycle_pass p c) (ap (λ l. l.client_state) same ∙ e)
      (subst (λ (l : Client). l.keepalive_probes ≤ 2) (sym same) b) y zs
    ∙ same

-- The pass of the loop that finds a third ping unanswered.
cycle-third :
    (r : Read) (c : Client)
    → c.client_state ≡ connected
    → c.keepalive_probes ≡ 3
    → (is_success (cycle r c).0 ≡ false)
      × ((cycle r c).1 ≡ record c { client_state = disconnected; keepalive_probes = 0 })
unfolding cycle
cycle-third r c e three = rw (cycle, e, three) (refl, refl)

mqtt_cycle-third :
    (p : Pass) (ps : List Pass) (c : PubClient)
    → c.link.client_state ≡ connected
    → c.link.keepalive_probes ≡ 3
    → (mqtt_cycle p ps c).link
      ≡ record (c.link) { client_state = disconnected; keepalive_probes = 0 }
unfolding mqtt_cycle
mqtt_cycle-third p [] c e three =
    let (failed, same) = cycle-third p.read c.link e three in pass_link-failed p c failed ∙ same
mqtt_cycle-third p (q ∷ ps) c e three =
    let (failed, same) = cycle-third p.read c.link e three in
    let lost = pass_link-failed p c failed ∙ same in
    mqtt_cycle-offline q ps (cycle_pass p c) (ap (λ l. is_connected l.client_state) lost) ∙ lost

yield-silent :
    (t : Turn) (c : PubClient)
    → c.link.client_state ≡ connected
    → c.link.keepalive_probes ≤ 1
    → IsSilent t c.link
    → ((yield t.env t.first t.passes c).0 ≡ [])
      × ((yield t.env t.first t.passes c).1.link ≡ ping t c.link)
unfolding yield
yield-silent t c e b s = rw (keepalive-ping t c.link e (omega arith) s) (
  refl,
  mqtt_cycle-idle t.first t.passes (record c { link = ping t c.link }) e (omega arith) s.first_idle
      s.all_idle,
)

yield-third :
    (t : Turn) (c : PubClient)
    → c.link.client_state ≡ connected
    → c.link.keepalive_probes ≡ 2
    → IsSilent t c.link
    → ((yield t.env t.first t.passes c).0 ≡ [])
      × ((yield t.env t.first t.passes c).1.link.client_state ≡ disconnected)
unfolding yield
yield-third t c e b s = rw (keepalive-ping t c.link e (omega arith) s) (
  refl,
  ap (λ l. l.client_state)
      (mqtt_cycle-third t.first t.passes (record c { link = ping t c.link }) e (omega arith)),
)

yield-lost :
    (t : Turn) (c : PubClient)
    → c.link.client_state ≡ disconnected
    → ((yield t.env t.first t.passes c).0 ≡ event_disconnect ∷ [])
      × ((yield t.env t.first t.passes c).1.link.client_state ≡ disconnected_reconnecting)
unfolding yield keepalive keepalive_sub check_state keepalive_in start_reconnect
yield-lost t c e =
    rw e (refl, ap (λ d. d.client_state) (mqtt_cycle-offline t.first t.passes _ refl))

-- If a connected client with no ping outstanding finds a ping due in each of three calls of
-- wrapper_mqtt_yield and receives nothing, and every packet that is due to be sent again goes out, it is
-- still connected after the second call, and the call after the third, whatever it meets, tells the user
-- once that the connection is lost and starts to reconnect.
pub yields-silent :
    (t u v w : Turn) (c : PubClient)
    → c.link.client_state ≡ connected
    → c.link.keepalive_probes ≡ 0
    → IsSilent t c.link
    → IsSilent u (ping t c.link)
    → IsSilent v (ping u (ping t c.link))
    → ((yields (t ∷ u ∷ []) c).1.link.client_state ≡ connected)
      × ((yields (t ∷ u ∷ v ∷ w ∷ []) c).0 ≡ event_disconnect ∷ [])
      × ((yields (t ∷ u ∷ v ∷ w ∷ []) c).1.link.client_state ≡ disconnected_reconnecting)
unfolding yields
yields-silent t u v w c e z s1 s2 s3 =
    let c1 = (yield t.env t.first t.passes c).1 in
    let c2 = (yield u.env u.first u.passes c1).1 in
    let c3 = (yield v.env v.first v.passes c2).1 in
    let (quiet1, one) = yield-silent t c e (omega arith) s1 in
    let probes1 = ap (λ l. l.keepalive_probes) one in
    let (quiet2, two) =
      yield-silent u c1 (ap (λ l. l.client_state) one ∙ e) (omega (arith, probes1))
        (subst (IsSilent u) (sym one) s2) in
    let link2 = two ∙ ap (ping u) one in
    let probes2 = ap (λ l. l.keepalive_probes) link2 in
    let (quiet3, three) =
      yield-third v c2 (ap (λ l. l.client_state) link2 ∙ e) (omega (arith, probes2))
        (subst (IsSilent v) (sym link2) s3) in
    let (told, end) = yield-lost w c3 three in
    (ap (λ l. l.client_state) link2 ∙ e, rw (quiet1, quiet2, quiet3, told) refl, end)
