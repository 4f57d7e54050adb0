-- ===== src/DnsForwarder/RateLimiter/Budget.antt =====
-- src/services/dns_forwarder/rate_limiter.rs: how many queries of a client pass in a time.
use trimrouter.Prelude.{
  ℕ, ◌+◌, ◌-◌, ◌*◌, ◌≤◌, ◌≡◌, ◌≢◌, refl, true, arith, inl, inr, if◌then◌else◌, leb, nat_eq, nat_key,
  Option-cases, Bool-cases,
}
use trimrouter.HashMap
use trimrouter.HashMap.{IsMap}
use trimrouter.Net.{Ipv4Addr, Instant}
use trimrouter.DnsForwarder.RateLimiter.{
  ClientBucket, DnsRateLimiter, one_token, idle_client_timeout, bucket_of, refilled, check,
  retain_recent,
}

-- What a client may spend at `now`.
pub available : Instant → Ipv4Addr → DnsRateLimiter → ℕ
available now ip l = refilled l now (bucket_of l now (HashMap.get ip l.clients))

mul_mono : (a b c : ℕ) → a ≤ b → a * c ≤ b * c
mul_mono a b c h = grind arith

waiting :
    (now later last rate : ℕ)
    → now ≤ later
    → (later - last) * rate ≤ (now - last) * rate + (later - now) * rate
waiting now later last rate h =
    omega (arith, mul_mono (later - last) ((now - last) + (later - now)) rate (omega arith))

-- In a time a client gains at most the rate times it.
pub available-later :
    (now later : Instant) (ip : Ipv4Addr) (l : DnsRateLimiter)
    → now ≤ later
    → available later ip l ≤ available now ip l + (later - now) * l.rate_per_sec
unfolding available
available-later now later ip l h = elim (Option-cases (HashMap.get ip l.clients)) [
  | inl e ↦ rw e (omega arith)
  | inr (b, e) ↦ rw e (omega (arith, waiting now later b.last_update l.rate_per_sec h))
]

mul_zero : (n k : ℕ) → n ≡ 0 → n * k ≡ 0
mul_zero n k e = rw e (omega arith)

refilled_now :
    (l : DnsRateLimiter) (now : Instant) (tokens : ℕ)
    → tokens ≤ l.max_burst
    → refilled l now (record { tokens = tokens; last_update = now }) ≡ tokens
refilled_now l now tokens h = omega (arith, mul_zero (now - now) l.rate_per_sec (omega arith))

pub available-le :
    (now : Instant) (ip : Ipv4Addr) (l : DnsRateLimiter) → available now ip l ≤ l.max_burst
unfolding available
available-le now ip l = omega arith

-- The bucket that `check` leaves.
abbrev pub spent : DnsRateLimiter → Instant → Ipv4Addr → ℕ
spent l now ip = available now ip l - (if leb one_token (available now ip l) then one_token else 0)

abbrev pub spent_bucket : DnsRateLimiter → Instant → Ipv4Addr → ClientBucket
spent_bucket l now ip = record { tokens = spent l now ip; last_update = now }

pub check-eq :
    (now : Instant) (ip : Ipv4Addr) (l : DnsRateLimiter)
    → check now ip l ≡ (
      record l {
        clients =
            HashMap.insert ip (record { tokens = spent l now ip; last_update = now }) l.clients;
      },
      leb one_token (available now ip l),
    )
unfolding check available
check-eq now ip l = elim (Bool-cases (leb one_token (available now ip l))) [
  | inl yes' ↦ rw (yes', check)
  | inr no' ↦ rw (no', check) (ground arith)
]

-- `check` admits a client exactly when it has a token to spend, takes the token then, and leaves what
-- every other client may spend.
pub check_lem :
    (now : Instant) (ip other : Ipv4Addr) (l : DnsRateLimiter)
    → ((check now ip l).1 ≡ leb one_token (available now ip l))
      × (available now other (check now ip l).0 ≡ (
          if nat_eq ip other
          then available now ip l - (if (check now ip l).1 then one_token else 0)
          else available now other l))
unfolding available
check_lem now ip other l = rw (check-eq now ip l) (
  refl,
  rw (HashMap.get-insert ip other (spent_bucket l now ip) l.clients)
      (elim (Bool-cases (nat_eq ip other)) [
        | inl same ↦
            rw same (refilled_now l now (spent l now ip) (omega (arith, available-le now ip l)))
        | inr ne ↦ rw ne
      ]),
)

-- A client's tokens at any later time do not depend on what others ask in between.
pub check-available_ne :
    (now later : Instant) (ip other : Ipv4Addr) (l : DnsRateLimiter)
    → ip ≢ other
    → available later other (check now ip l).0 ≡ available later other l
unfolding available
check-available_ne now later ip other l ne =
    rw (check-eq now ip l, HashMap.get-insert ip other (spent_bucket l now ip) l.clients)
      (ground arith)

-- Where ten idle seconds fill a bucket, forgetting an idle client changes nothing that it may spend.
pub retain_recent-available :
    (now later : Instant) (ip : Ipv4Addr) (l : DnsRateLimiter)
    → IsMap l.clients
    → now ≤ later
    → l.max_burst ≤ idle_client_timeout * l.rate_per_sec
    → available later ip (retain_recent now l) ≡ available later ip l
unfolding available retain_recent
retain_recent-available now later ip l u h full =
    rw (HashMap.get-retain (λ _ b. leb (now - b.last_update) idle_client_timeout) ip l.clients u)
      (elim (Option-cases (HashMap.get ip l.clients)) [
        | inl e ↦ rw e
        | inr (b, e) ↦ rw e (elim (Bool-cases (leb (now - b.last_update) idle_client_timeout)) [
          | inl recent ↦ rw recent
          | inr idle ↦ rw idle (
              omega (
                arith,
                mul_zero (later - later) l.rate_per_sec (omega arith),
                mul_mono idle_client_timeout (later - b.last_update) l.rate_per_sec (ground arith),
              ))
        ])
      ])

-- A client that waits as long as the rate takes for one token is admitted, whatever its last
-- query was answered.
pub check-after_wait :
    (now later : Instant) (ip : Ipv4Addr) (l : DnsRateLimiter)
    → one_token ≤ l.max_burst
    → one_token ≤ (later - now) * l.rate_per_sec
    → (check later ip (check now ip l).0).1 ≡ true
unfolding available
check-after_wait now later ip l room wait =
    rw
      (
        (check_lem later ip ip (check now ip l).0).0,
        check-eq now ip l,
        HashMap.get-insert ip ip (spent_bucket l now ip) l.clients,
      )
      (ground arith)
