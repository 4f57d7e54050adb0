-- ===== src/DnsForwarder/RateLimiter.antt =====
-- src/services/dns_forwarder/rate_limiter.rs: `DnsRateLimiter`. The rates of the source are whole numbers of tokens;
-- a bucket counts billionths of a token, so that a nanosecond at `rate_per_sec` tokens a second is
-- worth exactly `rate_per_sec` units, and the arithmetic is exact where the source rounds f64.
pub mod Budget
pub mod History
use trimrouter.Prelude.{
  ℕ, ◌+◌, ◌-◌, ◌*◌, ◌≡◌, Bool, true, false, Option, none, some, List, [], ◌∷◌, min, max,
  if◌then◌else◌, leb, nat_key,
}
use trimrouter.HashMap
use trimrouter.Net.{Ipv4Addr, Instant, Duration, from_secs}

pub record ClientBucket : Type 0 where
  pub tokens : ℕ
  pub last_update : Instant

pub record DnsRateLimiter : Type 0 where
  pub clients : List (Ipv4Addr × ClientBucket)
  pub rate_per_sec : ℕ
  pub max_burst : ℕ

abbrev pub one_token : ℕ
one_token = 1000000000

abbrev pub idle_client_timeout : Duration
idle_client_timeout = from_secs 10

unfoldable pub new : ℕ → ℕ → DnsRateLimiter
new rate_per_sec max_burst = record {
  clients = [];
  rate_per_sec = max rate_per_sec 1;
  max_burst = max max_burst 1 * one_token;
}

-- `DnsRateLimiter::default`: 100.0 queries a second, and bursts of 150.0.
unfoldable pub default : DnsRateLimiter
unfolding new
default = new 100 150

-- `entry(..).or_insert_with(..)`
abbrev pub bucket_of : DnsRateLimiter → Instant → Option ClientBucket → ClientBucket
bucket_of l now none = record { tokens = l.max_burst; last_update = now }
bucket_of l now (some b) = b

-- The tokens of a bucket at `now`; `duration_since` is 0 for a later instant.
abbrev pub refilled : DnsRateLimiter → Instant → ClientBucket → ℕ
refilled l now b = min (b.tokens + (now - b.last_update) * l.rate_per_sec) l.max_burst

unfoldable pub check : Instant → Ipv4Addr → DnsRateLimiter → DnsRateLimiter × Bool
check now client_ip l =
    let tokens = refilled l now (bucket_of l now (HashMap.get client_ip l.clients)) in
    if leb one_token tokens
    then (
      record l {
        clients =
            HashMap.insert client_ip (record { tokens = tokens - one_token; last_update = now })
              l.clients;
      },
      true,
    )
    else (
      record l {
        clients =
            HashMap.insert client_ip (record { tokens = tokens; last_update = now }) l.clients;
      },
      false,
    )

unfoldable pub retain_recent : Instant → DnsRateLimiter → DnsRateLimiter
retain_recent now l = record l {
  clients =
      HashMap.retain (λ _ bucket. leb (now - bucket.last_update) idle_client_timeout) l.clients;
}
