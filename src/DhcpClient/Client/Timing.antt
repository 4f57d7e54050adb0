-- ===== src/DhcpClient/Client/Timing.antt =====
-- src/services/dhcp_client/worker.rs: the delays and intervals.
use trimrouter.Prelude.{ℕ, ◌+◌, ◌*◌, ◌≤◌, ◌<◌, ◌≡◌, ◌↔◌, true, false, arith}
use trimrouter.Net.{Duration, from_secs}
use trimrouter.DhcpClient.{DhcpAck}
use trimrouter.DhcpClient.Client.{
  calculate_next_delay, get_jittered_duration, calculate_renewal_params, t2_secs,
}

-- The jitter is less than a second either way, and a wait is at least a second long.
pub get_jittered_duration-bounds :
    (base_secs : ℕ) (jitter : Duration)
    → 1 ≤ base_secs
    → jitter < from_secs 2
    → (from_secs 1 ≤ get_jittered_duration base_secs jitter)
      × (from_secs base_secs ≤ get_jittered_duration base_secs jitter + from_secs 1)
      × (get_jittered_duration base_secs jitter < from_secs (base_secs + 1))
unfolding get_jittered_duration
get_jittered_duration-bounds base_secs jitter h j = (ground arith, ground arith, ground arith)

-- From a delay of 4 to 64 seconds the next one is so too, is no shorter, and no longer than double.
pub calculate_next_delay-bounds :
    (d : ℕ)
    → 4 ≤ d
    → d ≤ 64
    → (d ≤ calculate_next_delay d)
      × (calculate_next_delay d ≤ 64)
      × (calculate_next_delay d ≤ 2 * d)
unfolding calculate_next_delay
calculate_next_delay-bounds d l u = (ground arith, ground arith, ground arith)

-- While a lease lasts, an interval of its renewal is at least a second, ends by the expiry, and before T2
-- it ends by T2; the client rebinds exactly from T2 on.
pub calculate_renewal_params-bounds :
    (elapsed : ℕ) (ack : DhcpAck)
    → elapsed < ack.lease_secs
    → let r = calculate_renewal_params elapsed (t2_secs ack) ack.lease_secs in
      (1 ≤ r.0)
      × (elapsed + r.0 ≤ ack.lease_secs)
      × ((r.1 ≡ true) ↔ (t2_secs ack ≤ elapsed))
      × (r.1 ≡ false → elapsed + r.0 ≤ t2_secs ack)
unfolding calculate_renewal_params
calculate_renewal_params-bounds elapsed ack live =
    (ground arith, ground arith, ground arith, λ h. ground arith)
