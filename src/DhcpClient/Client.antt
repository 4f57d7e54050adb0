-- ===== src/DhcpClient/Client.antt =====
-- src/services/dhcp_client/worker.rs: `DhcpClientInternal`. A `Phase` is where the worker awaits, with the
-- variables that are live there; `step` runs it from there to its next await. The code between two
-- awaits takes no time. A timer is a deadline on the clock, which stands for `start`, `timeout` and
-- `remaining` of the code: it is read again where the code reads `elapsed()` again.
pub mod Timing
pub mod Lease
pub mod Expiry
pub mod Replies
use trimrouter.Prelude.{
  ℕ, ◌+◌, ◌-◌, ◌*◌, ◌/◌, ◌%◌, min, max, Bool, true, false, Option, none, some, List, [], ◌∷◌, ◌++◌,
  if◌then◌else◌, ltb, leb,
}
use trimrouter.Net.{Ipv4Addr, MacAddr, Instant, Duration, from_secs, nanos_per_sec}
use trimrouter.Net.Subnet.{mask_to_prefix_len}
use trimrouter.DhcpClient.{
  Message, DhcpOffer, DhcpAck, ParseAckResult, acked, naked, ignored, parse_offer, parse_ack_nak,
  octets, starts_with,
}

-- src/services/ipc.rs
pub data DhcpClientToParentMsg : Type 0 where
  send_discover : ℕ → DhcpClientToParentMsg
  send_request : ℕ → Ipv4Addr → Option Ipv4Addr → Ipv4Addr → DhcpClientToParentMsg
  apply_wan_lease : Ipv4Addr → ℕ → Ipv4Addr → List Ipv4Addr → DhcpClientToParentMsg
  clear_wan_lease : DhcpClientToParentMsg
  heartbeat : DhcpClientToParentMsg

abbrev pub Msgs : Type 0
Msgs = List DhcpClientToParentMsg

abbrev pub max_retry_delay_secs : ℕ
max_retry_delay_secs = 64

abbrev pub initial_retry_delay_secs : ℕ
initial_retry_delay_secs = 4

abbrev pub socket_restart_delay_secs : ℕ
socket_restart_delay_secs = 5

abbrev pub bound_heartbeat_interval_secs : ℕ
bound_heartbeat_interval_secs = 3

unfoldable pub calculate_next_delay : ℕ → ℕ
calculate_next_delay current_delay =
    let doubled = current_delay * 2 % 4294967296 in
    if ltb max_retry_delay_secs doubled then max_retry_delay_secs else doubled

-- `jitter` is the random number times two seconds; a result below a second is a second.
unfoldable pub get_jittered_duration : ℕ → Duration → Duration
get_jittered_duration base_secs jitter =
    max (from_secs 1) ((from_secs base_secs + jitter) - from_secs 1)

abbrev interval_in : ℕ → ℕ
interval_in remaining = if ltb 60 remaining then max (remaining / 2) 60 else max (remaining / 2) 1

-- The interval, and whether the client rebinds; the code computes an address too, and ignores it.
unfoldable pub calculate_renewal_params : ℕ → ℕ → ℕ → ℕ × Bool
calculate_renewal_params current_elapsed t2_secs lease_secs =
    let in_rebinding = leb t2_secs current_elapsed in
    (
      if in_rebinding
          then interval_in (lease_secs - current_elapsed)
          else interval_in (t2_secs - current_elapsed),
      in_rebinding,
    )

-- `bound_at.elapsed().as_secs() as u32`
abbrev pub elapsed_secs : Instant → Instant → ℕ
elapsed_secs now since = (now - since) / nanos_per_sec % 4294967296

abbrev pub t1_secs : DhcpAck → ℕ
t1_secs ack = ack.lease_secs / 2

-- `(lease_secs as f64 * 0.875) as u32`: an f64 holds the product exactly.
abbrev pub t2_secs : DhcpAck → ℕ
t2_secs ack = ack.lease_secs * 7 / 8

-- `holding` is the sleep of `bound_phase` before T1, `failing` the select of
-- `handle_phase_failure`, and `pausing` its sleep after a packet.
pub data Phase : Type 0 where
  discovering : (xid retry_delay_secs : ℕ) (deadline : Instant) → Phase
  requesting : (xid : ℕ) (offer : DhcpOffer) (retry_delay_secs : ℕ) (deadline : Instant) → Phase
  holding : (ack : DhcpAck) (bound_at wake : Instant) → Phase
  renewing :
      (ack : DhcpAck) (bound_at : Instant) (renew_xid : ℕ) (renew_sent : Option Instant)
      (deadline : Instant)
      → Phase
  failing : (deadline : Instant) → Phase
  pausing : (deadline : Instant) → Phase
  stopped : Phase

-- What ends an await: its timer, a frame from the parent, the end of the socket, or an error on it.
pub data Arrival : Type 0 where
  timer : Arrival
  raw_packet : List ℕ → Arrival
  closed : Arrival
  io_error : Arrival

-- The clock and the random numbers when an await ends, and whether `ApplyWanLease` and `ClearWanLease`
-- can be sent then.
pub record Env : Type 0 where
  pub now : Instant
  pub random_xid : ℕ
  pub jitter : Duration
  pub apply_sent : Bool
  pub clear_sent : Bool

abbrev before : Msgs → Msgs × Phase → Msgs × Phase
before ms r = (ms ++ r.0, r.1)

-- `deconfigure`: when the message cannot be sent, this is only logged.
unfoldable pub deconfigure : Env → Msgs
deconfigure env = if env.clear_sent then clear_wan_lease ∷ [] else []

-- `handle_phase_failure` up to its select.
unfoldable pub handle_phase_failure : Env → Msgs × Phase
unfolding deconfigure
handle_phase_failure env =
    (deconfigure env, failing (env.now + from_secs socket_restart_delay_secs))

-- A round of the loop of `discover_phase`, up to its wait.
unfoldable pub discover_round : Env → ℕ → ℕ → Msgs × Phase
unfolding get_jittered_duration
discover_round env xid retry_delay_secs = (
  heartbeat ∷ send_discover xid ∷ [],
  discovering xid retry_delay_secs (env.now + get_jittered_duration retry_delay_secs env.jitter),
)

unfoldable pub discover_phase : Env → Msgs × Phase
discover_phase env = discover_round env env.random_xid initial_retry_delay_secs

-- A round of the loop of `request_phase`, up to its wait.
unfoldable pub request_round : Env → ℕ → DhcpOffer → ℕ → Msgs × Phase
unfolding get_jittered_duration
request_round env xid offer retry_delay_secs = (
  heartbeat ∷ send_request xid offer.offered_ip offer.server_ip 0 ∷ [],
  requesting xid offer retry_delay_secs
      (env.now + get_jittered_duration retry_delay_secs env.jitter),
)

abbrev should_send : Instant → Option Instant → ℕ → Bool
should_send now none retry_interval = true
should_send now (some t) retry_interval = leb retry_interval (elapsed_secs now t)

-- A round of the loop of `renew_lease`, up to its wait.
unfoldable pub renew_round : Env → DhcpAck → Instant → ℕ → Option Instant → Msgs × Phase
renew_round env ack bound_at renew_xid renew_sent =
    let current_elapsed = elapsed_secs env.now bound_at in
    let params = calculate_renewal_params current_elapsed (t2_secs ack) ack.lease_secs in
    let deadline = env.now + from_secs params.0 in
    before (heartbeat ∷ []) (
      if leb ack.lease_secs current_elapsed
      then before (deconfigure env) (handle_phase_failure env)
      else if should_send env.now renew_sent params.0
      then (
        send_request renew_xid ack.ip (if params.1 then none else ack.server_ip) ack.ip ∷ [],
        renewing ack bound_at renew_xid (some env.now) deadline,
      )
      else ([], renewing ack bound_at renew_xid renew_sent deadline))

-- A round of the loop of `bound_phase`, up to its sleep or into the renewal.
unfoldable pub bound_round : Env → DhcpAck → Instant → Msgs × Phase
bound_round env ack bound_at =
    let elapsed = elapsed_secs env.now bound_at in
    if leb ack.lease_secs elapsed
    then before (deconfigure env) (handle_phase_failure env)
    else if ltb elapsed (t1_secs ack)
    then (
      heartbeat ∷ [],
      holding ack bound_at
          (env.now + from_secs (min bound_heartbeat_interval_secs (t1_secs ack - elapsed))),
    )
    else renew_round env ack bound_at env.random_xid none

abbrev pub or_24 : Option ℕ → ℕ
or_24 none = 24
or_24 (some p) = p

abbrev pub or_unspecified : Option Ipv4Addr → Ipv4Addr
or_unspecified none = 0
or_unspecified (some ip) = ip

-- The message of `apply_lease_config`.
abbrev pub apply_lease_config : DhcpAck → DhcpClientToParentMsg
apply_lease_config ack =
    apply_wan_lease ack.ip (or_24 (mask_to_prefix_len ack.mask)) (or_unspecified ack.gateway)
      ack.dns_servers

-- `bound_phase`, and the branch of its loop after a renewal. A message that cannot be sent is none.
unfoldable pub bound_phase : Env → DhcpAck → Msgs × Phase
bound_phase env ack =
    if env.apply_sent
    then before (apply_lease_config ack ∷ []) (bound_round env ack env.now)
    else handle_phase_failure env

-- A packet that is no answer: the wait goes on unless its time is over.
abbrev or_timed_out : Env → Instant → Phase → Msgs × Phase → Msgs × Phase
or_timed_out env deadline here next = if ltb env.now deadline then ([], here) else next

module _ (parse_dhcp_payload : List ℕ → ℕ → Option Message) (mac : MacAddr) where
  abbrev to_me : Option Message → Option Message
  to_me none = none
  to_me (some d) = if starts_with d.chaddr (octets mac) then some d else none

  -- The frames that `recv_dhcp_packet` returns.
  unfoldable pub recv_dhcp_packet : List ℕ → Option Message
  recv_dhcp_packet frame = to_me (parse_dhcp_payload frame 68)

  abbrev offer_in : Option Message → ℕ → Option DhcpOffer
  offer_in none xid = none
  offer_in (some dhcp) xid = parse_offer dhcp xid

  abbrev reply_in : Option Message → ℕ → ParseAckResult
  reply_in none xid = ignored
  reply_in (some dhcp) xid = parse_ack_nak dhcp xid

  unfoldable pub wait_for_offer : Env → ℕ → ℕ → Instant → Option DhcpOffer → Msgs × Phase
  wait_for_offer env xid delay deadline (some offer) =
      request_round env xid offer initial_retry_delay_secs
  wait_for_offer env xid delay deadline none =
      or_timed_out env deadline (discovering xid delay deadline)
        (discover_round env xid (calculate_next_delay delay))

  unfoldable pub handle_ack_result :
      Env → ℕ → DhcpOffer → ℕ → Instant → ParseAckResult → Msgs × Phase
  handle_ack_result env xid offer delay deadline (acked ack) = bound_phase env ack
  handle_ack_result env xid offer delay deadline naked = handle_phase_failure env
  handle_ack_result env xid offer delay deadline ignored =
      or_timed_out env deadline (requesting xid offer delay deadline)
        (request_round env xid offer (calculate_next_delay delay))

  -- The end of a wait in `renew_lease`; a failure passes through `bound_phase`, which deconfigures.
  unfoldable pub renew_lease :
      Env → DhcpAck → Instant → ℕ → Option Instant → Instant → ParseAckResult → Msgs × Phase
  renew_lease env ack bound_at xid sent deadline (acked new_ack) = bound_phase env new_ack
  renew_lease env ack bound_at xid sent deadline naked =
      before (deconfigure env) (handle_phase_failure env)
  renew_lease env ack bound_at xid sent deadline ignored =
      or_timed_out env deadline (renewing ack bound_at xid sent deadline)
        (renew_round env ack bound_at xid sent)

  unfoldable pub step : Phase → Env → Arrival → Msgs × Phase
  step (discovering xid delay deadline) env timer =
      discover_round env xid (calculate_next_delay delay)
  step (discovering xid delay deadline) env (raw_packet f) =
      wait_for_offer env xid delay deadline (offer_in (recv_dhcp_packet f) xid)
  step (discovering xid delay deadline) env closed = ([], stopped)
  step (discovering xid delay deadline) env io_error = handle_phase_failure env
  step (requesting xid offer delay deadline) env timer =
      request_round env xid offer (calculate_next_delay delay)
  step (requesting xid offer delay deadline) env (raw_packet f) =
      handle_ack_result env xid offer delay deadline (reply_in (recv_dhcp_packet f) xid)
  step (requesting xid offer delay deadline) env closed = ([], stopped)
  step (requesting xid offer delay deadline) env io_error = handle_phase_failure env
  step (holding ack bound_at wake) env timer = bound_round env ack bound_at
  step (holding ack bound_at wake) env (raw_packet f) = bound_round env ack bound_at
  step (holding ack bound_at wake) env closed = (deconfigure env, stopped)
  step (holding ack bound_at wake) env io_error = (deconfigure env, stopped)
  step (renewing ack bound_at xid sent deadline) env timer = renew_round env ack bound_at xid sent
  step (renewing ack bound_at xid sent deadline) env (raw_packet f) =
      renew_lease env ack bound_at xid sent deadline (reply_in (recv_dhcp_packet f) xid)
  step (renewing ack bound_at xid sent deadline) env closed = (deconfigure env, stopped)
  step (renewing ack bound_at xid sent deadline) env io_error =
      before (deconfigure env) (handle_phase_failure env)
  step (failing deadline) env timer = discover_phase env
  step (failing deadline) env (raw_packet f) =
      ([], pausing (env.now + from_secs socket_restart_delay_secs))
  step (failing deadline) env closed = ([], stopped)
  step (failing deadline) env io_error = ([], stopped)
  step (pausing deadline) env timer = discover_phase env
  step (pausing deadline) env _ = ([], pausing deadline)
  step stopped env _ = ([], stopped)

  -- `run`, from an await on, over what ends its awaits.
  unfoldable pub run : Phase → List (Env × Arrival) → Msgs × Phase
  run p [] = ([], p)
  run p (e ∷ es) = let r = step p e.0 e.1 in let rest = run r.1 es in (r.0 ++ rest.0, rest.1)

-- The worker starts with `discover_phase`.
unfoldable pub start : Env → Msgs × Phase
unfolding discover_phase
start env = discover_phase env
