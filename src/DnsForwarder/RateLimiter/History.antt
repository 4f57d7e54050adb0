-- ===== src/DnsForwarder/RateLimiter/History.antt =====
-- src/services/dns_forwarder/rate_limiter.rs: histories of checks and of the worker's cleanups.
use trimrouter.Prelude.{
  ℕ, ◌+◌, ◌-◌, ◌*◌, ◌≤◌, ◌≡◌, refl, ap, Bool, false, ◌&&◌, List, [], ◌∷◌, arith, if◌then◌else◌,
  nat_eq, nat_key,
}
use trimrouter.HashMap
use trimrouter.HashMap.{IsMap}
use trimrouter.Net.{Ipv4Addr, Instant}
use trimrouter.DnsForwarder.RateLimiter.{
  DnsRateLimiter, one_token, idle_client_timeout, check, retain_recent, default,
}
use trimrouter.DnsForwarder.RateLimiter.Budget.{
  available, available-le, available-later, check-eq, check_lem, retain_recent-available,
  spent_bucket,
}

-- What the worker's loop does with its limiter: a query of a client, or the cleanup timer.
pub data LimiterEvent : Type 0 where
  query : Ipv4Addr → LimiterEvent
  cleanup : LimiterEvent

unfoldable pub limiter_step : Instant → LimiterEvent → DnsRateLimiter → DnsRateLimiter
limiter_step now (query ip) l = (check now ip l).0
limiter_step now cleanup l = retain_recent now l

unfoldable pub limiter_run : List (Instant × LimiterEvent) → DnsRateLimiter → DnsRateLimiter
unfolding limiter_step
limiter_run [] l = l
limiter_run ((now, ev) ∷ evs) l = limiter_run evs (limiter_step now ev l)

-- Whether the event is a query of the client that is admitted.
unfoldable pub admits : Ipv4Addr → Instant → LimiterEvent → DnsRateLimiter → Bool
admits ip now (query c) l = nat_eq c ip && (check now c l).1
admits ip now cleanup l = false

-- The queries of the client that are admitted.
unfoldable pub admissions : Ipv4Addr → List (Instant × LimiterEvent) → DnsRateLimiter → ℕ
unfolding limiter_step admits
admissions ip [] l = 0
admissions ip ((now, ev) ∷ evs) l =
    (if admits ip now ev l then 1 else 0) + admissions ip evs (limiter_step now ev l)

-- Time does not go back.
abbrev pub Ascends : Instant → List (Instant × LimiterEvent) → Type 0
Ascends start [] = Unit {0}
Ascends start ((now, ev) ∷ evs) = (start ≤ now) × Ascends now evs

abbrev pub last_time : Instant → List (Instant × LimiterEvent) → Instant
last_time start [] = start
last_time start ((now, ev) ∷ evs) = last_time now evs

-- Distinct clients, and a bucket that ten idle seconds fill.
pub record Refills (l : DnsRateLimiter) : Type 0 where
  pub distinct : IsMap l.clients
  pub full : l.max_burst ≤ idle_client_timeout * l.rate_per_sec

step-Refills :
    (now : Instant) (ev : LimiterEvent) (l : DnsRateLimiter)
    → Refills l
    → Refills (limiter_step now ev l)
unfolding limiter_step retain_recent
step-Refills now (query ip) l v =
    rw (limiter_step, check-eq now ip l)
      (record {
        distinct = HashMap.insert-IsMap ip (spent_bucket l now ip) l.clients v.distinct;
        full = v.full;
      })
step-Refills now cleanup l v = record {
  distinct = HashMap.retain-IsMap _ l.clients v.distinct;
  full = v.full;
}

step-rate :
    (now : Instant) (ev : LimiterEvent) (l : DnsRateLimiter)
    → (limiter_step now ev l).rate_per_sec ≡ l.rate_per_sec
unfolding limiter_step retain_recent
step-rate now (query ip) l = rw (limiter_step, check-eq now ip l)
step-rate now cleanup l = refl

-- An event pays for the query that it admits.
step-available :
    (now : Instant) (ev : LimiterEvent) (ip : Ipv4Addr) (l : DnsRateLimiter)
    → Refills l
    → available now ip (limiter_step now ev l) + one_token * (if admits ip now ev l then 1 else 0)
      ≤ available now ip l
unfolding limiter_step admits
step-available now (query c) ip l v = ground (arith, check_lem now c ip l)
step-available now cleanup ip l v =
    omega (arith, retain_recent-available now now ip l v.distinct (omega arith) v.full)

last_time-le :
    (start : Instant) (evs : List (Instant × LimiterEvent))
    → Ascends start evs
    → start ≤ last_time start evs
last_time-le start [] h = omega arith
last_time-le start ((now, ev) ∷ evs) h = omega (arith, last_time-le now evs h.1)

times-sum : (a b c rate : ℕ) → a ≤ b → b ≤ c → (c - a) * rate ≡ (b - a) * rate + (c - b) * rate
times-sum a b c rate h k = let e : c - a ≡ (b - a) + (c - b) = omega arith in rw e (omega arith)

spend-bound :
    (start : Instant) (evs : List (Instant × LimiterEvent)) (ip : Ipv4Addr) (l : DnsRateLimiter)
    → Ascends start evs
    → Refills l
    → available (last_time start evs) ip (limiter_run evs l) + one_token * admissions ip evs l
      ≤ available start ip l + (last_time start evs - start) * l.rate_per_sec
unfolding limiter_run admissions
spend-bound start [] ip l h v = omega arith
spend-bound start ((now, ev) ∷ evs) ip l h v = omega (
  arith,
  spend-bound now evs ip (limiter_step now ev l) h.1 (step-Refills now ev l v),
  step-rate now ev l,
  step-available now ev ip l v,
  available-later start now ip l h.0,
  times-sum start now (last_time now evs) l.rate_per_sec h.0 (last_time-le now evs h.1),
  ap (λ (r : ℕ). (last_time now evs - now) * r) (step-rate now ev l),
)

-- Over any history of queries and cleanups, the queries of one client that are admitted are paid from
-- a full bucket and what the rate gives in the time, whatever other clients ask. Ten idle seconds
-- fill a bucket.
pub admissions-le :
    (start : Instant) (evs : List (Instant × LimiterEvent)) (ip : Ipv4Addr) (l : DnsRateLimiter)
    → Ascends start evs
    → Refills l
    → one_token * admissions ip evs l ≤ l.max_burst + (last_time start evs - start) * l.rate_per_sec
admissions-le start evs ip l h v =
    omega (arith, spend-bound start evs ip l h v, available-le start ip l)

pub default-Refills : Refills default
unfolding default
default-Refills = record { distinct = tt; full = omega arith }
