-- ===== src/SntpClient.antt =====
-- src/services/sntp_client/worker.rs: the worker that asks for the time. The crates `sntpc` and `chrono` are
-- the answer to a query.
pub mod Retries
use trimrouter.Prelude.{
  ℕ, ◌+◌, ◌*◌, min, Bool, true, false, Option, none, some, List, [], ◌∷◌, ◌++◌, if◌then◌else◌,
}
use trimrouter.Net.{Ipv4Addr, Instant, Duration, from_secs, is_valid_ntp_server_ip}

abbrev pub sync_interval : Duration
sync_interval = from_secs 1800

abbrev pub retry_interval : Duration
retry_interval = from_secs 60

abbrev pub max_retry_interval : Duration
max_retry_interval = from_secs 900

pub record SyncScheduleResult : Type 0 where
  pub next_sync_delay : Duration
  pub next_retry_delay : Duration

-- src/services/ipc.rs's `SntpClientToParentMsg`, and the queries to a server.
pub data SntpAction : Type 0 where
  resolve_time_server : SntpAction
  set_system_time : (seconds nanoseconds : ℕ) → SntpAction
  query_ntp : Ipv4Addr → SntpAction

-- What `query_ntp_time` returns: an error, a time before 1970, or the time since then.
pub data NtpAnswer : Type 0 where
  failed before_epoch : NtpAnswer
  since_epoch : (seconds nanoseconds : ℕ) → NtpAnswer

-- The largest `Duration`, at which `saturating_mul` stops.
abbrev max_duration : Duration
max_duration = 18446744073709551615 * 1000000000 + 999999999

unfoldable pub calculate_next_retry_delay : Duration → Duration
calculate_next_retry_delay current = min (min (current * 2) max_duration) max_retry_interval

abbrev pub retry_schedule : Duration → SyncScheduleResult
unfolding calculate_next_retry_delay
retry_schedule current = record {
  next_sync_delay = current;
  next_retry_delay = calculate_next_retry_delay current;
}

abbrev synced_schedule : SyncScheduleResult
synced_schedule = record { next_sync_delay = sync_interval; next_retry_delay = retry_interval }

-- After a query.
unfoldable pub handle_answer : NtpAnswer → Duration → List SntpAction × SyncScheduleResult
unfolding calculate_next_retry_delay
handle_answer failed current = ([], retry_schedule current)
handle_answer before_epoch current = ([], synced_schedule)
handle_answer (since_epoch seconds nanoseconds) current =
    (set_system_time seconds nanoseconds ∷ [], synced_schedule)

-- `none` is a name that could not be resolved; the answer is read only when there is a query.
unfoldable pub handle_time_server_resolved :
    Option Ipv4Addr → NtpAnswer → Duration → List SntpAction × SyncScheduleResult
unfolding handle_answer calculate_next_retry_delay
handle_time_server_resolved none answer current = ([], retry_schedule current)
handle_time_server_resolved (some ip) answer current =
    if is_valid_ntp_server_ip ip
    then (query_ntp ip ∷ (handle_answer answer current).0, (handle_answer answer current).1)
    else ([], retry_schedule current)

-- What the loop keeps: the delay of the next failure, and when its timer ticks.
pub record SntpState : Type 0 where
  pub current_retry_delay : Duration
  pub next_tick : Instant

pub data SntpEvent : Type 0 where
  tick : (sent : Bool) → SntpEvent
  time_server_resolved : (now : Instant) → Option Ipv4Addr → NtpAnswer → SntpEvent
  closed : SntpEvent

-- The loop of `run_sntp_worker_loop`.
unfoldable pub sntp_loop : SntpState → List SntpEvent → List SntpAction × SntpState
unfolding handle_time_server_resolved
sntp_loop s [] = ([], s)
sntp_loop s (tick sent ∷ es) =
    let rest = sntp_loop (record s { next_tick = s.next_tick + sync_interval }) es in
    if sent then (resolve_time_server ∷ rest.0, rest.1) else ([], s)
sntp_loop s (time_server_resolved now result answer ∷ es) =
    let r = handle_time_server_resolved result answer s.current_retry_delay in
    let rest =
      sntp_loop
        (record {
          current_retry_delay = r.1.next_retry_delay;
          next_tick = now + r.1.next_sync_delay;
        })
        es in
    (r.0 ++ rest.0, rest.1)
sntp_loop s (closed ∷ es) = ([], s)

-- A timer of `tokio` ticks at once the first time.
unfoldable pub run_sntp_worker_loop : Instant → List SntpEvent → List SntpAction × SntpState
run_sntp_worker_loop now es =
    let rest = sntp_loop (record { current_retry_delay = retry_interval; next_tick = now }) es in
    (resolve_time_server ∷ rest.0, rest.1)
