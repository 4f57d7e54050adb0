-- ===== src/DhcpClient/Client/Lease.antt =====
-- src/services/dhcp_client/worker.rs: what the parent is told of the lease, against a machine of three
-- states.
use trimrouter.Prelude.{
  ℕ, ◌≡◌, refl, Bool, Option, none, some, List, [], ◌∷◌, ◌++◌, true, false, ltb, leb, if◌then◌else◌,
}
use trimrouter.Net.{Ipv4Addr, MacAddr, Instant}
use trimrouter.DhcpClient.{Message, DhcpOffer, DhcpAck, ParseAckResult, acked, naked, ignored}
use trimrouter.DhcpClient.Client.{
  DhcpClientToParentMsg, send_discover, send_request, clear_wan_lease, heartbeat, Msgs, Phase,
  discovering, requesting, holding, renewing, failing, pausing, stopped, Arrival, timer, raw_packet,
  closed, io_error, Env, t1_secs, elapsed_secs, deconfigure, apply_lease_config, should_send,
  handle_phase_failure, discover_round, discover_phase, request_round, renew_round, bound_round,
  bound_phase, wait_for_offer, handle_ack_result, renew_lease, step, run, start,
}

-- What the WAN is, for the parent.
pub data WanState : Type 0 where
  idle : WanState
  leased : DhcpAck → WanState
  over : WanState

abbrev pub view : Phase → WanState
view (discovering _ _ _) = idle
view (requesting _ _ _ _) = idle
view (holding ack _ _) = leased ack
view (renewing ack _ _ _ _) = leased ack
view (failing _) = idle
view (pausing _) = idle
view stopped = over

-- The messages that a state allows. Without a lease the client only asks for one, with an address of
-- its own that is 0; with a lease it asks for that address alone, or leaves the lease.
pub data Allows : WanState → DhcpClientToParentMsg → WanState → Type 0 where
  beat : Allows idle heartbeat idle
  beat_leased : (ack : DhcpAck) → Allows (leased ack) heartbeat (leased ack)
  discover : (xid : ℕ) → Allows idle (send_discover xid) idle
  select :
      (xid : ℕ) (ip : Ipv4Addr) (srv : Option Ipv4Addr)
      → Allows idle (send_request xid ip srv 0) idle
  acquire : (ack : DhcpAck) → Allows idle (apply_lease_config ack) (leased ack)
  extend :
      (ack : DhcpAck) (xid : ℕ) (srv : Option Ipv4Addr)
      → Allows (leased ack) (send_request xid ack.ip srv ack.ip) (leased ack)
  replace : (old ack : DhcpAck) → Allows (leased old) (apply_lease_config ack) (leased ack)
  release : (ack : DhcpAck) → Allows (leased ack) clear_wan_lease idle
  clear : Allows idle clear_wan_lease idle

-- A run of the machine, with its messages. It stops only without a lease.
pub data Trace : WanState → Msgs → WanState → Type 0 where
  done : (s : WanState) → Trace s [] s
  halt : Trace idle [] over
  next :
      (s t u : WanState) (m : DhcpClientToParentMsg) (ms : Msgs)
      → Allows s m t
      → Trace t ms u
      → Trace s (m ∷ ms) u

Trace-append :
    (s t u : WanState) (ms ns : Msgs) → Trace s ms t → Trace t ns u → Trace s (ms ++ ns) u
Trace-append s t u ms ns (done _) b = b
Trace-append s t u ms ns (next _ v _ m ks a rest) b =
    next s v u m (ks ++ ns) a (Trace-append v t u ks ns rest b)
Trace-append s t u ms ns halt (done _) = halt
Trace-append s t u ms ns halt (next _ v _ m ks a rest) = absurd (elim a [ ])

-- The rest of a worker's way from a state on is a run of the machine.
abbrev Refines : WanState → Msgs × Phase → Type 0
Refines s r = Trace s r.0 (view r.1)

-- Whether `ClearWanLease` can be sent whenever the worker sends it.
abbrev pub Heard : List (Env × Arrival) → Type 0
Heard [] = Unit {0}
Heard ((env, a) ∷ es) = (env.clear_sent ≡ true) × Heard es

deconfigure-sent : (env : Env) → env.clear_sent ≡ true → deconfigure env ≡ clear_wan_lease ∷ []
unfolding deconfigure
deconfigure-sent env sent = rw sent refl

handle_phase_failure-Refines :
    (env : Env) → env.clear_sent ≡ true → Refines idle (handle_phase_failure env)
unfolding handle_phase_failure
handle_phase_failure-Refines env sent =
    rw (deconfigure-sent env sent) (next idle idle idle _ [] clear (done idle))

-- `deconfigure` before a failure.
dropped :
    (env : Env) (ack : DhcpAck)
    → env.clear_sent ≡ true
    → Trace
        (leased ack)
        (deconfigure env ++ (handle_phase_failure env).0)
        (view (handle_phase_failure env).1)
dropped env ack sent =
    rw (deconfigure-sent env sent)
      (next _ idle _ _ _ (release ack) (handle_phase_failure-Refines env sent))

discover_round-Refines : (env : Env) (xid delay : ℕ) → Refines idle (discover_round env xid delay)
unfolding discover_round
discover_round-Refines env xid delay =
    next _ idle _ _ _ beat (next _ idle _ _ _ (discover xid) (done idle))

request_round-Refines :
    (env : Env) (xid : ℕ) (offer : DhcpOffer) (delay : ℕ)
    → Refines idle (request_round env xid offer delay)
unfolding request_round
request_round-Refines env xid offer delay =
    next _ idle _ _ _ beat (next _ idle _ _ _ (select xid _ _) (done idle))

-- Both branches of a test are runs.
if-Refines :
    (s : WanState) (b : Bool) (r q : Msgs × Phase)
    → Refines s r
    → Refines s q
    → Refines s (if b then r else q)
if-Refines s true r q t u = t
if-Refines s false r q t u = u

renew_round-Refines :
    (env : Env) (ack : DhcpAck) (bound_at : Instant) (xid : ℕ) (sent : Option Instant)
    → env.clear_sent ≡ true
    → Refines (leased ack) (renew_round env ack bound_at xid sent)
unfolding renew_round
renew_round-Refines env ack bound_at xid sent ok = next _ _ _ _ _ (beat_leased ack) (
    if-Refines (leased ack) (leb ack.lease_secs (elapsed_secs env.now bound_at)) _ _
      (dropped env ack ok)
      (if-Refines (leased ack) (should_send env.now sent _) _ _
        (next _ _ _ _ _ (extend ack xid _) (done (leased ack))) (done (leased ack))))

bound_round-Refines :
    (env : Env) (ack : DhcpAck) (bound_at : Instant)
    → env.clear_sent ≡ true
    → Refines (leased ack) (bound_round env ack bound_at)
unfolding bound_round
bound_round-Refines env ack bound_at ok =
    if-Refines (leased ack) (leb ack.lease_secs (elapsed_secs env.now bound_at)) _ _
      (dropped env ack ok)
      (if-Refines (leased ack) (ltb (elapsed_secs env.now bound_at) (t1_secs ack)) _ _
        (next _ _ _ _ _ (beat_leased ack) (done (leased ack)))
        (renew_round-Refines env ack bound_at env.random_xid none ok))

bound_phase-Refines :
    (env : Env) (ack : DhcpAck) → env.clear_sent ≡ true → Refines idle (bound_phase env ack)
unfolding bound_phase
bound_phase-Refines env ack ok =
    if-Refines idle env.apply_sent _ _
      (next _ _ _ _ _ (acquire ack) (bound_round-Refines env ack env.now ok))
      (handle_phase_failure-Refines env ok)

rebound-Refines :
    (env : Env) (old ack : DhcpAck)
    → env.clear_sent ≡ true
    → Refines (leased old) (bound_phase env ack)
unfolding bound_phase handle_phase_failure
rebound-Refines env old ack ok =
    if-Refines (leased old) env.apply_sent _ _
      (next _ _ _ _ _ (replace old ack) (bound_round-Refines env ack env.now ok))
      (rw (deconfigure-sent env ok) (next _ idle _ _ _ (release old) (done idle)))

module _ (parse_dhcp_payload : List ℕ → ℕ → Option Message) (mac : MacAddr) where
  offered-Refines :
      (env : Env) (xid delay : ℕ) (deadline : Instant) (o : Option DhcpOffer)
      → Refines idle (wait_for_offer parse_dhcp_payload mac env xid delay deadline o)
  unfolding wait_for_offer
  offered-Refines env xid delay deadline (some offer) = request_round-Refines env xid offer _
  offered-Refines env xid delay deadline none =
      if-Refines (view (discovering xid delay deadline)) (ltb env.now deadline) _ _ (done _)
        (discover_round-Refines env xid _)

  answered-Refines :
      (env : Env) (xid : ℕ) (offer : DhcpOffer) (delay : ℕ) (deadline : Instant)
      (r : ParseAckResult)
      → env.clear_sent ≡ true
      → Refines idle (handle_ack_result parse_dhcp_payload mac env xid offer delay deadline r)
  unfolding handle_ack_result
  answered-Refines env xid offer delay deadline (acked ack) ok = bound_phase-Refines env ack ok
  answered-Refines env xid offer delay deadline naked ok = handle_phase_failure-Refines env ok
  answered-Refines env xid offer delay deadline ignored ok =
      if-Refines (view (requesting xid offer delay deadline)) (ltb env.now deadline) _ _ (done _)
        (request_round-Refines env xid offer _)

  renewed-Refines :
      (env : Env) (ack : DhcpAck) (bound_at : Instant) (xid : ℕ) (sent : Option Instant)
      (deadline : Instant) (r : ParseAckResult)
      → env.clear_sent ≡ true
      → Refines
          (leased ack)
          (renew_lease parse_dhcp_payload mac env ack bound_at xid sent deadline r)
  unfolding renew_lease
  renewed-Refines env ack bound_at xid sent deadline (acked new_ack) ok =
      rebound-Refines env ack new_ack ok
  renewed-Refines env ack bound_at xid sent deadline naked ok = dropped env ack ok
  renewed-Refines env ack bound_at xid sent deadline ignored ok =
      if-Refines (view (renewing ack bound_at xid sent deadline)) (ltb env.now deadline) _ _
        (done _) (renew_round-Refines env ack bound_at xid sent ok)

  released :
      (env : Env) (ack : DhcpAck)
      → env.clear_sent ≡ true
      → Trace (leased ack) (deconfigure env) over
  released env ack ok = rw (deconfigure-sent env ok) (next _ idle _ _ _ (release ack) halt)

  step-Refines :
      (p : Phase) (env : Env) (a : Arrival)
      → env.clear_sent ≡ true
      → Refines (view p) (step parse_dhcp_payload mac p env a)
  unfolding step discover_phase
  step-Refines (discovering xid delay deadline) env timer ok = discover_round-Refines env xid _
  step-Refines (discovering xid delay deadline) env (raw_packet f) ok =
      offered-Refines env xid delay deadline _
  step-Refines (discovering xid delay deadline) env closed ok = halt
  step-Refines (discovering xid delay deadline) env io_error ok =
      handle_phase_failure-Refines env ok
  step-Refines (requesting xid offer delay deadline) env timer ok =
      request_round-Refines env xid offer _
  step-Refines (requesting xid offer delay deadline) env (raw_packet f) ok =
      answered-Refines env xid offer delay deadline _ ok
  step-Refines (requesting xid offer delay deadline) env closed ok = halt
  step-Refines (requesting xid offer delay deadline) env io_error ok =
      handle_phase_failure-Refines env ok
  step-Refines (holding ack bound_at wake) env timer ok = bound_round-Refines env ack bound_at ok
  step-Refines (holding ack bound_at wake) env (raw_packet f) ok =
      bound_round-Refines env ack bound_at ok
  step-Refines (holding ack bound_at wake) env closed ok = released env ack ok
  step-Refines (holding ack bound_at wake) env io_error ok = released env ack ok
  step-Refines (renewing ack bound_at xid sent deadline) env timer ok =
      renew_round-Refines env ack bound_at xid sent ok
  step-Refines (renewing ack bound_at xid sent deadline) env (raw_packet f) ok =
      renewed-Refines env ack bound_at xid sent deadline _ ok
  step-Refines (renewing ack bound_at xid sent deadline) env closed ok = released env ack ok
  step-Refines (renewing ack bound_at xid sent deadline) env io_error ok = dropped env ack ok
  step-Refines (failing deadline) env timer ok = discover_round-Refines env env.random_xid _
  step-Refines (failing deadline) env (raw_packet f) ok = done idle
  step-Refines (failing deadline) env closed ok = halt
  step-Refines (failing deadline) env io_error ok = halt
  step-Refines (pausing deadline) env timer ok = discover_round-Refines env env.random_xid _
  step-Refines (pausing deadline) env (raw_packet f) ok = done idle
  step-Refines (pausing deadline) env closed ok = done idle
  step-Refines (pausing deadline) env io_error ok = done idle
  step-Refines stopped env a ok = done over

  run-Refines :
      (p : Phase) (es : List (Env × Arrival))
      → Heard es
      → Refines (view p) (run parse_dhcp_payload mac p es)
  unfolding run
  run-Refines p [] h = done (view p)
  run-Refines p ((env, a) ∷ es) h =
      let r = step parse_dhcp_payload mac p env a in
      Trace-append (view p) (view r.1) _ r.0 _ (step-Refines p env a h.0) (run-Refines r.1 es h.1)

  -- From its start on, and whatever ends its awaits, as long as `ClearWanLease` can be sent whenever the
  -- worker sends it: the messages that it sends to the parent are a run of the machine of three
  -- states, and lead to the state of the phase that it is in. In that machine a lease is left by a
  -- `ClearWanLease` or a new lease only, no discovery is sent with a lease, and every request with a
  -- lease is for the leased address.
  pub run-start-Refines :
      (env : Env) (es : List (Env × Arrival))
      → Heard es
      → Trace idle
          ((start env).0 ++ (run parse_dhcp_payload mac (start env).1 es).0)
          (view (run parse_dhcp_payload mac (start env).1 es).1)
  unfolding start discover_phase
  run-start-Refines env es h =
      Trace-append idle (view (start env).1) _ (start env).0 _
        (discover_round-Refines env env.random_xid _) (run-Refines (start env).1 es h)
