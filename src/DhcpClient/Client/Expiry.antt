-- ===== src/DhcpClient/Client/Expiry.antt =====
-- src/services/dhcp_client/worker.rs: how long the worker waits with a lease.
use trimrouter.Prelude.{
  ℕ, ◌+◌, ◌≤◌, ◌<◌, ◌≡◌, refl, true, false, Option, none, some, List, arith, if◌then◌else◌, leb,
  ltb, Bool,
}
use trimrouter.Net.{Instant, MacAddr, from_secs}
use trimrouter.DhcpClient.{Message, DhcpAck, ParseAckResult, DhcpOffer, acked, naked, ignored}
use trimrouter.DhcpClient.Client.{
  Msgs, Phase, discovering, requesting, holding, renewing, failing, pausing, stopped, Arrival,
  timer, raw_packet, closed, io_error, Env, elapsed_secs, t1_secs, t2_secs, should_send,
  calculate_renewal_params, handle_phase_failure, discover_round, discover_phase, request_round,
  renew_round, bound_round, bound_phase, wait_for_offer, handle_ack_result, renew_lease, step,
}
use trimrouter.DhcpClient.Client.Timing.{calculate_renewal_params-bounds}
use trimrouter.DhcpClient.Client.Lease.{idle, view}

-- A wait with a lease ends less than a second after the lease.
abbrev pub InTime : Phase → Type 0
InTime (holding ack bound_at wake) = wake < bound_at + from_secs (ack.lease_secs + 1)
InTime (renewing ack bound_at xid sent deadline) =
    deadline < bound_at + from_secs (ack.lease_secs + 1)
InTime _ = Unit {0}

-- The clock is past the start of a lease, by less than 2 ^ 32 seconds.
abbrev pub Since : Instant → Instant → Type 0
Since bound_at now = (bound_at ≤ now) × (now < bound_at + from_secs 4294967296)

abbrev pub Timely : Phase → Instant → Type 0
Timely (holding ack bound_at wake) now = Since bound_at now
Timely (renewing ack bound_at xid sent deadline) now = Since bound_at now
Timely _ now = Unit {0}

-- When the lease of a phase is over.
abbrev pub expiry : Phase → Option Instant
expiry (holding ack bound_at wake) = some (bound_at + from_secs ack.lease_secs)
expiry (renewing ack bound_at xid sent deadline) = some (bound_at + from_secs ack.lease_secs)
expiry _ = none

if-InTime :
    (b : Bool) (r q : Msgs × Phase)
    → (b ≡ true → InTime r.1)
    → (b ≡ false → InTime q.1)
    → InTime (if b then r else q).1
if-InTime true r q t u = t refl
if-InTime false r q t u = u refl

renew_round-InTime :
    (env : Env) (ack : DhcpAck) (bound_at : Instant) (xid : ℕ) (sent : Option Instant)
    → Since bound_at env.now
    → InTime (renew_round env ack bound_at xid sent).1
unfolding renew_round handle_phase_failure
renew_round-InTime env ack bound_at xid sent s =
    let e = elapsed_secs env.now bound_at in
    let params = calculate_renewal_params e (t2_secs ack) ack.lease_secs in
    let ends : e < ack.lease_secs
        → env.now + from_secs params.0 < bound_at + from_secs (ack.lease_secs + 1) =
      λ live. omega (arith, calculate_renewal_params-bounds e ack live, s) in
    if-InTime (leb ack.lease_secs e) _ _ (λ _. tt)
      (λ live.
        if-InTime (should_send env.now sent params.0) _ _ (λ _. ends (ground (arith, live)))
          (λ _. ends (ground (arith, live))))

bound_round-InTime :
    (env : Env) (ack : DhcpAck) (bound_at : Instant)
    → Since bound_at env.now
    → InTime (bound_round env ack bound_at).1
unfolding bound_round handle_phase_failure
bound_round-InTime env ack bound_at s =
    let e = elapsed_secs env.now bound_at in
    if-InTime (leb ack.lease_secs e) _ _ (λ _. tt)
      (λ live.
        if-InTime (ltb e (t1_secs ack)) _ _ (λ early. ground (arith, s, live, early))
          (λ _. renew_round-InTime env ack bound_at env.random_xid none s))

bound_phase-InTime : (env : Env) (ack : DhcpAck) → InTime (bound_phase env ack).1
unfolding bound_phase handle_phase_failure
bound_phase-InTime env ack =
    if-InTime env.apply_sent _ _
      (λ _. bound_round-InTime env ack env.now (omega arith, omega arith)) (λ _. tt)

module _ (parse_dhcp_payload : List ℕ → ℕ → Option Message) (mac : MacAddr) where
  offered-InTime :
      (env : Env) (xid delay : ℕ) (deadline : Instant) (o : Option DhcpOffer)
      → InTime (wait_for_offer parse_dhcp_payload mac env xid delay deadline o).1
  unfolding wait_for_offer request_round discover_round
  offered-InTime env xid delay deadline (some offer) = tt
  offered-InTime env xid delay deadline none =
      if-InTime (ltb env.now deadline) _ _ (λ _. tt) (λ _. tt)

  answered-InTime :
      (env : Env) (xid : ℕ) (offer : DhcpOffer) (delay : ℕ) (deadline : Instant)
      (r : ParseAckResult)
      → InTime (handle_ack_result parse_dhcp_payload mac env xid offer delay deadline r).1
  unfolding handle_ack_result request_round handle_phase_failure
  answered-InTime env xid offer delay deadline (acked ack) = bound_phase-InTime env ack
  answered-InTime env xid offer delay deadline naked = tt
  answered-InTime env xid offer delay deadline ignored =
      if-InTime (ltb env.now deadline) _ _ (λ _. tt) (λ _. tt)

  renewed-InTime :
      (env : Env) (ack : DhcpAck) (bound_at : Instant) (xid : ℕ) (sent : Option Instant)
      (deadline : Instant) (r : ParseAckResult)
      → Since bound_at env.now
      → InTime (renewing ack bound_at xid sent deadline)
      → InTime (renew_lease parse_dhcp_payload mac env ack bound_at xid sent deadline r).1
  unfolding renew_lease handle_phase_failure
  renewed-InTime env ack bound_at xid sent deadline (acked new_ack) s h =
      bound_phase-InTime env new_ack
  renewed-InTime env ack bound_at xid sent deadline naked s h = tt
  renewed-InTime env ack bound_at xid sent deadline ignored s h =
      if-InTime (ltb env.now deadline) _ _ (λ _. h)
        (λ _. renew_round-InTime env ack bound_at xid sent s)

  -- A wait with a lease is never set to end a second after the lease or later: whatever ends an await,
  -- the next await keeps that bound, if the clock is not 2 ^ 32 seconds past the start of the lease.
  pub step-InTime :
      (p : Phase) (env : Env) (a : Arrival)
      → Timely p env.now
      → InTime p
      → InTime (step parse_dhcp_payload mac p env a).1
  unfolding step discover_phase discover_round request_round handle_phase_failure
  step-InTime (discovering xid delay deadline) env timer t h = tt
  step-InTime (discovering xid delay deadline) env (raw_packet f) t h =
      offered-InTime env xid delay deadline _
  step-InTime (discovering xid delay deadline) env closed t h = tt
  step-InTime (discovering xid delay deadline) env io_error t h = tt
  step-InTime (requesting xid offer delay deadline) env timer t h = tt
  step-InTime (requesting xid offer delay deadline) env (raw_packet f) t h =
      answered-InTime env xid offer delay deadline _
  step-InTime (requesting xid offer delay deadline) env closed t h = tt
  step-InTime (requesting xid offer delay deadline) env io_error t h = tt
  step-InTime (holding ack bound_at wake) env timer t h = bound_round-InTime env ack bound_at t
  step-InTime (holding ack bound_at wake) env (raw_packet f) t h =
      bound_round-InTime env ack bound_at t
  step-InTime (holding ack bound_at wake) env closed t h = tt
  step-InTime (holding ack bound_at wake) env io_error t h = tt
  step-InTime (renewing ack bound_at xid sent deadline) env timer t h =
      renew_round-InTime env ack bound_at xid sent t
  step-InTime (renewing ack bound_at xid sent deadline) env (raw_packet f) t h =
      renewed-InTime env ack bound_at xid sent deadline _ t h
  step-InTime (renewing ack bound_at xid sent deadline) env closed t h = tt
  step-InTime (renewing ack bound_at xid sent deadline) env io_error t h = tt
  step-InTime (failing deadline) env timer t h = tt
  step-InTime (failing deadline) env (raw_packet f) t h = tt
  step-InTime (failing deadline) env closed t h = tt
  step-InTime (failing deadline) env io_error t h = tt
  step-InTime (pausing deadline) env timer t h = tt
  step-InTime (pausing deadline) env (raw_packet f) t h = tt
  step-InTime (pausing deadline) env closed t h = tt
  step-InTime (pausing deadline) env io_error t h = tt
  step-InTime stopped env a t h = tt

  -- When the timer of a wait fires once the lease that the client holds is over, the client gives the
  -- lease up, if the clock is not 2 ^ 32 seconds past the start of the lease.
  pub step-expired :
      (p : Phase) (env : Env) (end : Instant)
      → Timely p env.now
      → expiry p ≡ some end
      → end ≤ env.now
      → view (step parse_dhcp_payload mac p env timer).1 ≡ idle
  unfolding step bound_round renew_round handle_phase_failure
  step-expired (holding ack bound_at wake) env end s e h =
      let late : leb ack.lease_secs (elapsed_secs env.now bound_at) ≡ true =
        ground (arith, s, h, e) in
      rw late refl
  step-expired (renewing ack bound_at xid sent deadline) env end s e h =
      let late : leb ack.lease_secs (elapsed_secs env.now bound_at) ≡ true =
        ground (arith, s, h, e) in
      rw late refl
  step-expired (discovering xid delay deadline) env end s e h = cc
  step-expired (requesting xid offer delay deadline) env end s e h = cc
  step-expired (failing deadline) env end s e h = cc
  step-expired (pausing deadline) env end s e h = cc
  step-expired stopped env end s e h = cc
