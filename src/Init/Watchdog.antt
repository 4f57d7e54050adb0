-- ===== src/Init/Watchdog.antt =====
-- src/init/watchdog.rs: the monitor that pets the hardware watchdog while the services are alive. A pass
-- of its loop is given by the time, the heartbeats that the channel has, and the shutdown flag.
pub mod Health
pub mod Monitor
use trimrouter.Prelude.{
  ℕ, zero, suc, ◌-◌, ◌/◌, ◌≡◌, Bool, true, false, ◌&&◌, Option, none, some, List, [], ◌∷◌,
  if◌then◌else◌, leb, ltb, nat_eq,
}
use trimrouter.Net.{Instant, Duration, from_secs}

pub data MonitoredService : Type 0 where
  dns_forwarder interface_monitor dhcp_client lan_manager : MonitoredService

-- `MonitoredService::ALL`
abbrev pub all_services : List MonitoredService
all_services = dns_forwarder ∷ interface_monitor ∷ dhcp_client ∷ lan_manager ∷ []

-- `self as usize`
abbrev pub index : MonitoredService → ℕ
index dns_forwarder = 0
index interface_monitor = 1
index dhcp_client = 2
index lan_manager = 3

-- `ServiceLivenessMap`: four slots, by the index of a service.
abbrev pub ServiceLivenessMap : Type 0
ServiceLivenessMap = List (Option Instant)

abbrev pub never_seen : ServiceLivenessMap
never_seen = none ∷ none ∷ none ∷ none ∷ []

abbrev pub default_watchdog_interval : Duration
default_watchdog_interval = from_secs 5

abbrev pub default_heartbeat_timeout : Duration
default_heartbeat_timeout = from_secs 30

-- `liveness[i]` and `liveness[i] = Some(now)`, for an index in range.
unfoldable pub slot : ℕ → ServiceLivenessMap → Option Instant
slot i [] = none
slot zero (x ∷ xs) = x
slot (suc i) (x ∷ xs) = slot i xs

unfoldable pub mark : ℕ → Instant → ServiceLivenessMap → ServiceLivenessMap
mark i now [] = []
mark zero now (x ∷ xs) = some now ∷ xs
mark (suc i) now (x ∷ xs) = x ∷ mark i now xs

-- A heartbeat that `try_recv` takes, with the time that is noted for it.
unfoldable pub drain_heartbeats :
    List (MonitoredService × Instant) → ServiceLivenessMap → ServiceLivenessMap
unfolding mark
drain_heartbeats [] liveness = liveness
drain_heartbeats ((service, now) ∷ rx) liveness =
    drain_heartbeats rx (mark (index service) now liveness)

-- `matches!(slot, Some(last) if now.duration_since(last) <= timeout)`; `duration_since` is 0 for a
-- later instant.
abbrev pub is_recent : Instant → Duration → Option Instant → Bool
is_recent now timeout none = false
is_recent now timeout (some last) = leb (now - last) timeout

unfoldable pub evaluate_health :
    Instant → List MonitoredService → ServiceLivenessMap → Duration → Bool
unfolding slot
evaluate_health now [] liveness timeout = true
evaluate_health now (service ∷ services) liveness timeout =
    let rest = evaluate_health now services liveness timeout in
    if is_recent now timeout (slot (index service) liveness) then rest else false

-- The loop of `start_watchdog_monitor` that notes its start for every expected service.
unfoldable pub expect_all :
    Instant → List MonitoredService → ServiceLivenessMap → ServiceLivenessMap
unfolding mark
expect_all start_time [] liveness = liveness
expect_all start_time (service ∷ services) liveness =
    expect_all start_time services (mark (index service) start_time liveness)

-- The interval of the ticker, by what the driver says of its timeout.
unfoldable pub keepalive_interval : Option Duration → Duration
keepalive_interval none = default_watchdog_interval
keepalive_interval (some hw) =
    if ltb (hw / 2) default_watchdog_interval && ltb 0 (hw / 2)
    then hw / 2
    else default_watchdog_interval

-- What the monitor asks of the device.
pub data DeviceCall : Type 0 where
  keepalive disarm : DeviceCall

pub record Tick : Type 0 where
  pub now : Instant
  pub heartbeats : List (MonitoredService × Instant)
  pub shutdown : Bool

-- The loop of `start_watchdog_monitor` over its passes; it ends at the shutdown flag.
unfoldable pub monitor_loop :
    List MonitoredService → List Tick → ServiceLivenessMap → List DeviceCall
unfolding drain_heartbeats evaluate_health
monitor_loop expected [] liveness = []
monitor_loop expected (tick ∷ ticks) liveness =
    let seen = drain_heartbeats tick.heartbeats liveness in
    let rest = monitor_loop expected ticks seen in
    if tick.shutdown
    then disarm ∷ []
    else if evaluate_health tick.now expected seen default_heartbeat_timeout
    then keepalive ∷ rest
    else rest

unfoldable pub start_watchdog_monitor :
    Instant → List MonitoredService → List Tick → List DeviceCall
unfolding expect_all monitor_loop
start_watchdog_monitor start_time expected ticks =
    monitor_loop expected ticks (expect_all start_time expected never_seen)
