-- ===== src/Mqtt/Link/Session.antt =====
-- How the state of a connection moves over calls of wrapper_mqtt_yield, and what the user hears of it.
use nu_maker_mbed_aliyun_io.Base.{
  ℕ, ◌+◌, if_elim, ◌||◌, ◌≡◌, refl, sym, ap, subst, Bool, true, false, not, ltb, ◌==◌, some, List,
  [], ◌∷◌, ◌++◌, append_assoc, append-nil,
}
use nu_maker_mbed_aliyun_io.Infra.Timer.{time_is_expired}
use nu_maker_mbed_aliyun_io.Mqtt.Status.{Status, is_success}
use nu_maker_mbed_aliyun_io.Mqtt.Link.{
  McState, invalid, initialized, connected, disconnected, disconnected_reconnecting, connect_block,
  is_connected, Client, Read, mqtt_connect, connack, pingresp, probe_max, mqtt_cpt_reserved,
}
use nu_maker_mbed_aliyun_io.Mqtt.Link.Reconnect.{connect_end-failed}
use nu_maker_mbed_aliyun_io.Mqtt.Link.Yield.{
  Env, attempt_reconnect, handle_reconnect, keepalive_sub, keepalive_in, keepalive, try_reconnect,
  start_reconnect, cycle, is_handled, Event, event_reconnect, event_disconnect, check_state,
  is_nwk_close,
}
use nu_maker_mbed_aliyun_io.Mqtt.Publish.{
  is_invalid, PubInfo, PubClient, Resend, proc_nodes, pub_info_proc,
}
use nu_maker_mbed_aliyun_io.Mqtt.Cycle.{Pass, cycle_pass, mqtt_cycle, yield}

-- The states between which one step of the client moves, and the events the user hears.
pub data Moves : McState → List Event → McState → Type 0 where
  stays : (s : McState) → Moves s [] s
  lost : Moves connected [] disconnected
  noticed : Moves disconnected (event_disconnect ∷ []) disconnected_reconnecting
  resumed : Moves disconnected_reconnecting (event_reconnect ∷ []) connected
  unblocked : Moves connect_block (event_reconnect ∷ []) connected

-- One move after another.
pub data Runs : McState → List Event → McState → Type 0 where
  done : (s : McState) → Runs s [] s
  moved : (s t u : McState) (es fs : List Event) → Moves s es t → Runs t fs u → Runs s (es ++ fs) u

Runs-append :
    (s t u : McState) (es fs : List Event) → Runs s es t → Runs t fs u → Runs s (es ++ fs) u
Runs-append s _ u _ fs (done _) r = r
Runs-append s t u _ fs (moved _ m _ es gs x q) r =
    subst (λ l. Runs s l u) (sym (append_assoc es gs fs))
      (moved s m u es (gs ++ fs) x (Runs-append m t u gs fs q r))

lost_from : (s : McState) → not (is_connected s) ≡ false → Moves s [] disconnected
lost_from connected h = lost
lost_from invalid h = cc
lost_from initialized h = cc
lost_from disconnected h = cc
lost_from disconnected_reconnecting h = cc
lost_from connect_block h = cc

-- The pings move a connected client to disconnected, or nowhere.
keepalive_sub-Moves :
    (env : Env) (c : Client) → Moves c.client_state [] (keepalive_sub env c).1.client_state
unfolding keepalive_sub check_state
keepalive_sub-Moves env c =
    let P = λ (p : Status × Client). Moves c.client_state [] p.1.client_state in
    if_elim P (not (is_connected c.client_state)) (λ f. stays _)
      (λ t.
        if_elim P (time_is_expired env.ping_now (some c.next_ping_time) == 0) (λ e. stays _)
          (λ e.
            if_elim P (is_success env.ping_rc) (λ r. stays _)
              (λ r.
                if_elim P (is_nwk_close env.ping_rc) (λ n. lost_from c.client_state t)
                  (λ n. stays _))))

-- A successful reconnection leaves a connected client; a failed one keeps the state.
abbrev IsSettled : McState → Status × Client → Type 0
IsSettled s p =
    (is_success p.0 ≡ true → p.1.client_state ≡ connected)
    × (is_success p.0 ≡ false → p.1.client_state ≡ s)

handle_reconnect-IsSettled :
    (env : Env) (c : Client) → IsSettled c.client_state (handle_reconnect env c).0
unfolding handle_reconnect attempt_reconnect mqtt_connect
handle_reconnect-IsSettled env c =
    let P = λ (p : (Status × Client) × List ℕ). IsSettled c.client_state p.0 in
    if_elim P (time_is_expired env.retry_now (some c.reconnect_next_time) == 0)
      (λ e. ((λ h. cc), λ h. refl))
      (λ e.
        if_elim P (is_success (mqtt_connect env.connected_now env.attempts c).0.0)
          (λ r. ((λ h. refl), λ h. cc))
          (λ r. ((λ h. cc), λ h. ap (λ d. d.client_state) (connect_end-failed _ _ c r))))

try_reconnect-Moves :
    (env : Env) (c : Client)
    → Moves c.client_state (event_reconnect ∷ []) connected
    → Moves c.client_state (try_reconnect env c).0 (try_reconnect env c).1.client_state
unfolding try_reconnect
try_reconnect-Moves env c m =
    let s = c.client_state in
    let (ok, failed) = handle_reconnect-IsSettled env c in
    if_elim (λ (p : List Event × Client). Moves s p.0 p.1.client_state)
      (is_success (handle_reconnect env c).0.0)
      (λ r. subst (λ t. Moves s (event_reconnect ∷ []) t) (sym (ok r)) m)
      (λ r. subst (λ t. Moves s [] t) (sym (failed r)) (stays s))

keepalive_in-Moves :
    (s : McState) (env : Env) (c : Client)
    → c.client_state ≡ s
    → Moves s (keepalive_in s env c).0 (keepalive_in s env c).1.client_state
unfolding keepalive_in start_reconnect
keepalive_in-Moves invalid env c e = rw e (stays invalid)
keepalive_in-Moves initialized env c e = rw e (stays initialized)
keepalive_in-Moves connected env c e = rw e (stays connected)
keepalive_in-Moves disconnected env c e = noticed
keepalive_in-Moves disconnected_reconnecting env c e =
    subst (λ s. Moves s (try_reconnect env c).0 (try_reconnect env c).1.client_state) e
      (try_reconnect-Moves env c (rw e resumed))
keepalive_in-Moves connect_block env c e =
    subst (λ s. Moves s (try_reconnect env c).0 (try_reconnect env c).1.client_state) e
      (try_reconnect-Moves env c (rw e unblocked))

cycle-Moves : (r : Read) (c : Client) → Moves c.client_state [] (cycle r c).1.client_state
unfolding cycle
cycle-Moves r c =
    let P = λ (p : Status × Client). Moves c.client_state [] p.1.client_state in
    if_elim P (not (is_connected c.client_state)) (λ f. stays _)
      (λ t.
        if_elim P (ltb probe_max c.keepalive_probes) (λ e. lost_from c.client_state t)
          (λ e.
            if_elim P (not (is_success r.rc))
              (λ x.
                if_elim (λ (d : Client). Moves c.client_state [] d.client_state) (is_nwk_close r.rc)
                  (λ n. lost_from c.client_state t) (λ n. stays _))
              (λ x.
                if_elim P (r.packet_type == mqtt_cpt_reserved) (λ y. stays _)
                  (λ y.
                    if_elim P (is_handled r.packet_type) (λ z. stays _)
                      (λ z.
                        if_elim P (r.packet_type == connack || r.packet_type == pingresp)
                          (λ w. stays _) (λ w. stays _))))))

one_move : (s t : McState) (es : List Event) → Moves s es t → Runs s es t
one_move s t es m = subst (λ l. Runs s l t) (append-nil es) (moved s t t es [] m (done t))

-- A client that is not connected sends nothing again.
proc_nodes-offline :
    (i : ℕ) (resends : ℕ → Resend) (timeout : ℕ) (ns : List PubInfo)
    → (proc_nodes i resends false timeout ns).2 ≡ false
unfolding proc_nodes
proc_nodes-offline i resends timeout [] = refl
proc_nodes-offline i resends timeout (n ∷ ns) =
    if_elim (λ (r : List PubInfo × List (List ℕ) × Bool). r.2 ≡ false) (is_invalid n.node_state)
      (λ e. proc_nodes-offline (i + 1) resends timeout ns)
      (λ e. proc_nodes-offline (i + 1) resends timeout ns)

not_closed :
    (s : McState) (resends : ℕ → Resend) (timeout : ℕ) (ns : List PubInfo)
    → (proc_nodes 0 resends (is_connected s) timeout ns).2 ≡ true
    → Moves s [] disconnected
not_closed connected resends timeout ns e = lost
not_closed invalid resends timeout ns e = cc (e, proc_nodes-offline 0 resends timeout ns)
not_closed initialized resends timeout ns e = cc (e, proc_nodes-offline 0 resends timeout ns)
not_closed disconnected resends timeout ns e = cc (e, proc_nodes-offline 0 resends timeout ns)
not_closed disconnected_reconnecting resends timeout ns e =
    cc (e, proc_nodes-offline 0 resends timeout ns)
not_closed connect_block resends timeout ns e = cc (e, proc_nodes-offline 0 resends timeout ns)

-- A packet that cannot be sent again moves a connected client to disconnected.
pub_info_proc-Moves :
    (resends : ℕ → Resend) (c : PubClient)
    → Moves c.link.client_state [] (pub_info_proc resends c).1.link.client_state
unfolding pub_info_proc
pub_info_proc-Moves resends c =
    if_elim (λ (l : Client). Moves c.link.client_state [] l.client_state)
      (proc_nodes 0 resends (is_connected c.link.client_state) c.request_timeout_ms
        c.list_pub_wait_ack).2
      (λ e. not_closed c.link.client_state resends c.request_timeout_ms c.list_pub_wait_ack e)
      (λ e. stays _)

cycle_pass-Runs :
    (p : Pass) (c : PubClient) → Runs c.link.client_state [] (cycle_pass p c).link.client_state
unfolding cycle_pass
cycle_pass-Runs p c =
    if_elim (λ (d : PubClient). Runs c.link.client_state [] d.link.client_state)
      (is_success (cycle p.read c.link).0)
      (λ e.
        moved _ _ _ [] [] (cycle-Moves p.read c.link)
          (one_move _ _ [] (pub_info_proc-Moves p.resends _)))
      (λ e. one_move _ _ [] (cycle-Moves p.read c.link))

mqtt_cycle-Runs :
    (p : Pass) (ps : List Pass) (c : PubClient)
    → Runs c.link.client_state [] (mqtt_cycle p ps c).link.client_state
unfolding mqtt_cycle
mqtt_cycle-Runs p [] c = cycle_pass-Runs p c
mqtt_cycle-Runs p (q ∷ ps) c =
    Runs-append _ _ _ [] [] (cycle_pass-Runs p c) (mqtt_cycle-Runs q ps (cycle_pass p c))

yield-Runs :
    (env : Env) (p : Pass) (ps : List Pass) (c : PubClient)
    → Runs c.link.client_state (yield env p ps c).0 (yield env p ps c).1.link.client_state
unfolding yield keepalive
yield-Runs env p ps c =
    let d = (keepalive_sub env c.link).1 in
    let (events, after) = keepalive_in d.client_state env d in
    let end = mqtt_cycle p ps (record c { link = after }) in
    moved _ _ _ [] events (keepalive_sub-Moves env c.link) (
      subst (λ l. Runs d.client_state l end.link.client_state) (append-nil events)
        (moved _ _ _ events [] (keepalive_in-Moves d.client_state env d refl)
          (mqtt_cycle-Runs p ps (record c { link = after }))))

-- What one call of wrapper_mqtt_yield meets.
pub record Turn : Type 0 where
  pub env : Env
  pub first : Pass
  pub passes : List Pass

-- One call after another, with the events of all of them.
unfoldable pub yields : List Turn → PubClient → List Event × PubClient
yields [] c = ([], c)
yields (t ∷ ts) c =
    let (events, d) = yield t.env t.first t.passes c in
    let (later, e) = yields ts d in (events ++ later, e)

yields-Runs :
    (ts : List Turn) (c : PubClient)
    → Runs c.link.client_state (yields ts c).0 (yields ts c).1.link.client_state
unfolding yields
yields-Runs [] c = done _
yields-Runs (t ∷ ts) c =
    Runs-append _ _ _ _ _ (yield-Runs t.env t.first t.passes c)
      (yields-Runs ts (yield t.env t.first t.passes c).1)

-- The event that may come next.
unfoldable pub next_event : McState → Event
next_event disconnected_reconnecting = event_reconnect
next_event connect_block = event_reconnect
next_event _ = event_disconnect

-- Disconnections and reconnections in turn: the first index is the event that comes first, the last
-- the one that would come next.
pub data Alternates : Event → List Event → Event → Type 0 where
  quiet : (e : Event) → Alternates e [] e
  disconnects :
      (es : List Event) (e : Event)
      → Alternates event_reconnect es e
      → Alternates event_disconnect (event_disconnect ∷ es) e
  reconnects :
      (es : List Event) (e : Event)
      → Alternates event_disconnect es e
      → Alternates event_reconnect (event_reconnect ∷ es) e

Moves-Alternates :
    (s t : McState) (es fs : List Event) (e : Event)
    → Moves s es t
    → Alternates (next_event t) fs e
    → Alternates (next_event s) (es ++ fs) e
unfolding next_event
Moves-Alternates s _ _ fs e (stays _) a = a
Moves-Alternates _ _ _ fs e lost a = a
Moves-Alternates _ _ _ fs e noticed a = disconnects fs e a
Moves-Alternates _ _ _ fs e resumed a = reconnects fs e a
Moves-Alternates _ _ _ fs e unblocked a = reconnects fs e a

Runs-Alternates :
    (s t : McState) (es : List Event) → Runs s es t → Alternates (next_event s) es (next_event t)
Runs-Alternates s _ _ (done _) = quiet (next_event s)
Runs-Alternates s u _ (moved _ t _ es fs m r) =
    Moves-Alternates s t es fs (next_event u) m (Runs-Alternates t u fs r)

-- Whatever the clock, the network and the server do, the user of a client that starts connected hears
-- of disconnections and reconnections strictly in turn, a disconnection first; and after the last call
-- the event still to come is a reconnection exactly if the client is reconnecting.
pub yields-Alternates :
    (ts : List Turn) (c : PubClient)
    → c.link.client_state ≡ connected
    → Alternates event_disconnect (yields ts c).0 (next_event (yields ts c).1.link.client_state)
unfolding next_event
yields-Alternates ts c e =
    subst
      (λ s.
        Alternates (next_event s) (yields ts c).0 (next_event (yields ts c).1.link.client_state))
      e (Runs-Alternates _ _ _ (yields-Runs ts c))
