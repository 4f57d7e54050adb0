-- ===== src/Init/Watchdog/Health.antt =====
-- src/init/watchdog.rs: what `evaluate_health` tests, and the interval of the ticker.
use trimrouter.Prelude.{
  ◌-◌, ◌*◌, ◌/◌, ◌<◌, ◌≤◌, ◌≡◌, ◌↔◌, refl, subst, inl, inr, Bool, true, Option, none, some, List,
  [], ◌∷◌, arith, nat_eq, any, Bool-cases,
}
use trimrouter.Net.{Instant, Duration}
use trimrouter.Init.Watchdog.{
  MonitoredService, ServiceLivenessMap, index, slot, is_recent, evaluate_health, keepalive_interval,
  default_watchdog_interval,
}

-- Membership of a service.
abbrev pub expects : MonitoredService → List MonitoredService → Bool
expects service = any (λ s. nat_eq (index s) (index service))

-- A service that a healthy system expects is recent.
pub evaluate_health-recent :
    (now : Instant) (expected : List MonitoredService) (liveness : ServiceLivenessMap)
    (timeout : Duration) (service : MonitoredService)
    → evaluate_health now expected liveness timeout ≡ true
    → expects service expected ≡ true
    → is_recent now timeout (slot (index service) liveness) ≡ true
unfolding evaluate_health any
evaluate_health-recent now [] liveness timeout service h m = cc
evaluate_health-recent now (s ∷ ss) liveness timeout service h m =
    elim (Bool-cases (nat_eq (index s) (index service))) [
      | inl same ↦
          let e : index s ≡ index service = ground (arith, same) in
          subst (λ i. is_recent now timeout (slot i liveness) ≡ true) e (ground (arith, h))
      | inr other ↦
          evaluate_health-recent now ss liveness timeout service (ground (arith, h))
            (ground (arith, other, m))
    ]

all_recent-evaluate_health :
    (now : Instant) (expected : List MonitoredService) (liveness : ServiceLivenessMap)
    (timeout : Duration)
    → ((service : MonitoredService)
        → expects service expected ≡ true
        → is_recent now timeout (slot (index service) liveness) ≡ true)
    → evaluate_health now expected liveness timeout ≡ true
unfolding evaluate_health any
all_recent-evaluate_health now [] liveness timeout h = refl
all_recent-evaluate_health now (s ∷ ss) liveness timeout h = rw (h s (ground arith)) (
    all_recent-evaluate_health now ss liveness timeout (λ service m. h service (ground (arith, m))))

is_recent-last :
    (now : Instant) (timeout : Duration) (o : Option Instant)
    → is_recent now timeout o ≡ true
    → (last : Instant) × (o ≡ some last) × (now - last ≤ timeout)
is_recent-last now timeout none h = cc
is_recent-last now timeout (some last) h = (last, refl, ground (arith, h))

-- The system is healthy exactly when every expected service has sent a heartbeat that is no older
-- than the timeout.
pub evaluate_health_iff :
    (now : Instant) (expected : List MonitoredService) (liveness : ServiceLivenessMap)
    (timeout : Duration)
    → (evaluate_health now expected liveness timeout ≡ true) ↔ (
        (service : MonitoredService)
        → expects service expected ≡ true
        → (last : Instant) × (slot (index service) liveness ≡ some last) × (now - last ≤ timeout))
evaluate_health_iff now expected liveness timeout = (
  λ h service m.
      is_recent-last now timeout (slot (index service) liveness)
        (evaluate_health-recent now expected liveness timeout service h m),
  λ h.
      all_recent-evaluate_health now expected liveness timeout
        (λ service m. let (last, e, le) = h service m in rw e (ground (arith, le))),
)

-- The monitor runs at least every five seconds, and twice in the time of the driver, if half of that
-- is any time at all.
pub keepalive_interval_bounds :
    (hw : Duration)
    → 0 < hw / 2
    → (0 < keepalive_interval (some hw))
      × (keepalive_interval (some hw) ≤ default_watchdog_interval)
      × (2 * keepalive_interval (some hw) ≤ hw)
unfolding keepalive_interval
keepalive_interval_bounds hw h = ground arith
