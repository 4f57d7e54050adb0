-- ===== src/Supervisor.antt =====
-- src/services/utils.rs: the delay before a worker that has ended is started again.
pub mod Worker
pub mod Backoff
use trimrouter.Prelude.{
  ℕ, ◌+◌, ◌^◌, ◌≤◌, ◌<◌, Bool, true, false, ◌&&◌, ◌||◌, min, arith, if◌then◌else◌, nat_eq, leb,
}
use trimrouter.Net.{Duration, from_secs}
use native.Mathlib.Nat.{pow-le-pow_right}

abbrev pub max_supervisor_restart_delay_secs : ℕ
max_supervisor_restart_delay_secs = 60

-- `1u64 << shift` is `2 ^ shift`: the shift is 6 at most.
unfoldable pub calculate_supervisor_restart_delay : ℕ → Duration
calculate_supervisor_restart_delay attempt =
    if nat_eq attempt 0
    then 0
    else from_secs (min (2 ^ min attempt 6) max_supervisor_restart_delay_secs)

abbrev pub u32_max : ℕ
u32_max = 4294967295

-- What ends the wait: the delay is over, or the shutdown channel has changed, with whether it is
-- closed and the flag that it has.
pub data Woken : Type 0 where
  elapsed : Woken
  changed : Bool → Bool → Woken

abbrev pub stops : Woken → Bool
stops elapsed = false
stops (changed is_err flag) = is_err || flag

-- The new count of attempts, and whether the worker is started.
unfoldable pub handle_supervisor_restart_delay : ℕ → Woken → ℕ × Bool
handle_supervisor_restart_delay attempt woken =
    if leb 1 attempt && stops woken then (attempt, false) else (min (attempt + 1) u32_max, true)

-- The delay does not fall from one attempt to the next, is a minute at most, and from the first
-- failure on two seconds at least.
pub calculate_supervisor_restart_delay_bounds :
    (attempt later : ℕ)
    → 0 < attempt
    → attempt ≤ later
    → (calculate_supervisor_restart_delay attempt ≤ calculate_supervisor_restart_delay later)
      × (calculate_supervisor_restart_delay later ≤ from_secs 60)
      × (from_secs 2 ≤ calculate_supervisor_restart_delay attempt)
unfolding calculate_supervisor_restart_delay
calculate_supervisor_restart_delay_bounds attempt later pos le =
    let mono : 2 ^ min attempt 6 ≤ 2 ^ min later 6 =
      pow-le-pow_right (omega arith) (omega (arith, le)) in
    let low : 2 ^ 1 ≤ 2 ^ min attempt 6 =
      pow-le-pow_right (omega arith) {i = 1} (omega (arith, pos)) in
    ground (arith, mono, low, pos, le)
