-- ===== src/Init/Watchdog/Monitor.antt =====
-- src/init/watchdog.rs: what the loop of the monitor asks of the device over its passes.
use trimrouter.Prelude.{
  ℕ, zero, suc, ◌+◌, ◌-◌, ◌<◌, ◌≡◌, ◌≢◌, refl, inl, inr, Bool, true, false, some, List, [], ◌∷◌,
  arith, if◌then◌else◌, leb, nat_eq, any, Bool-cases, subst,
}
use trimrouter.Net.{Instant}
use trimrouter.Init.Watchdog.{
  MonitoredService, ServiceLivenessMap, DeviceCall, keepalive, disarm, Tick, index, slot, mark,
  drain_heartbeats, is_recent, evaluate_health, monitor_loop, default_heartbeat_timeout,
}
use trimrouter.Init.Watchdog.Health.{expects, evaluate_health-recent}

abbrev pub is_keepalive : DeviceCall → Bool
is_keepalive keepalive = true
is_keepalive disarm = false

-- How often the device is disarmed.
pub disarms : List DeviceCall → ℕ
disarms [] = 0
disarms (keepalive ∷ calls) = disarms calls
disarms (disarm ∷ calls) = suc (disarms calls)

-- Whether some heartbeat of a list is the service's.
abbrev pub beats : MonitoredService → List (MonitoredService × Instant) → Bool
beats service = any (λ h. nat_eq (index h.0) (index service))

-- The passes are without a heartbeat of the service, and later than a time.
abbrev pub Silent : MonitoredService → Instant → List Tick → Type 0
Silent service since [] = Unit {0}
Silent service since (tick ∷ ticks) =
    (beats service tick.heartbeats ≡ false) × (since < tick.now) × Silent service since ticks

slot-mark_ne :
    (i j : ℕ) (now : Instant) (liveness : ServiceLivenessMap)
    → i ≢ j
    → slot j (mark i now liveness) ≡ slot j liveness
unfolding slot mark
slot-mark_ne i j now [] ne = refl
slot-mark_ne zero zero now (x ∷ xs) ne = absurd (ne refl)
slot-mark_ne zero (suc j) now (x ∷ xs) ne = refl
slot-mark_ne (suc i) zero now (x ∷ xs) ne = refl
slot-mark_ne (suc i) (suc j) now (x ∷ xs) ne = slot-mark_ne i j now xs (λ e. ne (omega (arith, e)))

slot-drain_heartbeats :
    (service : MonitoredService) (rx : List (MonitoredService × Instant))
    (liveness : ServiceLivenessMap)
    → beats service rx ≡ false
    → slot (index service) (drain_heartbeats rx liveness) ≡ slot (index service) liveness
unfolding drain_heartbeats any
slot-drain_heartbeats service [] liveness h = refl
slot-drain_heartbeats service ((s, now) ∷ rx) liveness h =
    rw (slot-drain_heartbeats service rx (mark (index s) now liveness) (ground (arith, h)))
      (slot-mark_ne (index s) (index service) now liveness (λ e. ground (arith, h, e)))

-- A service that has stopped: in passes that are each more than 30 seconds after the last heartbeat of
-- an expected service, and in which none of it arrives, the monitor never pets the watchdog.
pub monitor_loop-starves :
    (expected : List MonitoredService) (service : MonitoredService) (ticks : List Tick)
    (liveness : ServiceLivenessMap) (last : Instant)
    → expects service expected ≡ true
    → slot (index service) liveness ≡ some last
    → Silent service (last + default_heartbeat_timeout) ticks
    → any is_keepalive (monitor_loop expected ticks liveness) ≡ false
unfolding monitor_loop any
monitor_loop-starves expected service [] liveness last m seen silent = refl
monitor_loop-starves expected service (tick ∷ ticks) liveness last m seen silent =
    let kept : slot (index service) (drain_heartbeats tick.heartbeats liveness) ≡ some last =
      rw (slot-drain_heartbeats service tick.heartbeats liveness silent.0) seen in
    let later =
      monitor_loop-starves expected service ticks (drain_heartbeats tick.heartbeats liveness) last m
        kept silent.2 in
    elim (Bool-cases tick.shutdown) [
      | inl stop ↦ rw stop refl
      | inr go ↦
          elim (Bool-cases (
            evaluate_health tick.now expected (drain_heartbeats tick.heartbeats liveness)
              default_heartbeat_timeout)) [
                | inl healthy ↦
                    let recent : leb (tick.now - last) default_heartbeat_timeout ≡ true =
                      subst (λ o. is_recent tick.now default_heartbeat_timeout o ≡ true) kept
                        (evaluate_health-recent tick.now expected
                          (drain_heartbeats tick.heartbeats liveness) default_heartbeat_timeout
                          service healthy m) in
                    absurd (ground (arith, recent, silent.1))
                | inr ill ↦ rw (go, ill) later
              ]
    ]

-- The watchdog is disarmed exactly when some pass sees the shutdown flag, and at most once.
pub monitor_loop-disarms :
    (expected : List MonitoredService) (ticks : List Tick) (liveness : ServiceLivenessMap)
    → disarms (monitor_loop expected ticks liveness)
      ≡ (if any (λ t. t.shutdown) ticks then 1 else 0)
unfolding monitor_loop any disarms
monitor_loop-disarms expected [] liveness = refl
monitor_loop-disarms expected (tick ∷ ticks) liveness =
    ground (arith, monitor_loop-disarms expected ticks (drain_heartbeats tick.heartbeats liveness))
