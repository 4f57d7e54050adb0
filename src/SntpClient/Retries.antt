-- ===== src/SntpClient/Retries.antt =====
-- src/services/sntp_client/worker.rs: the delays, and the servers that are asked.
use trimrouter.Prelude.{
  ℕ, zero, suc, ◌+◌, ◌*◌, ◌^◌, ◌≤◌, ◌≡◌, refl, inl, inr, min, Bool, true, false, Option, none, some,
  List, [], ◌∷◌, ◌++◌, arith, Bool-cases,
}
use trimrouter.Net.{Ipv4Addr, Instant, Duration, from_secs, is_valid_ntp_server_ip}
use trimrouter.SntpClient.{
  SntpAction, resolve_time_server, set_system_time, query_ntp, NtpAnswer, failed, before_epoch,
  since_epoch, calculate_next_retry_delay, handle_answer, handle_time_server_resolved, SntpState,
  SntpEvent, tick, time_server_resolved, closed, sntp_loop, run_sntp_worker_loop, retry_interval,
  max_retry_interval, sync_interval,
}

-- The delay after a number of failures in a row.
unfoldable pub delay_after : ℕ → Duration
unfolding calculate_next_retry_delay
delay_after zero = retry_interval
delay_after (suc k) = calculate_next_retry_delay (delay_after k)

-- The delay doubles from one minute with each failure in a row, up to a quarter of an hour.
pub delay_after_lem : (k : ℕ) → delay_after k ≡ min (from_secs 60 * 2 ^ k) (from_secs 900)
unfolding delay_after calculate_next_retry_delay
delay_after_lem zero = refl
delay_after_lem (suc k) = ground (arith, delay_after_lem k)

-- A delay between a minute and a quarter of an hour.
abbrev pub InBounds : Duration → Type 0
InBounds d = (retry_interval ≤ d) × (d ≤ max_retry_interval)

handle_answer-InBounds :
    (answer : NtpAnswer) (current : Duration)
    → InBounds current
    → let r = (handle_answer answer current).1 in
      InBounds r.next_retry_delay
      × (retry_interval ≤ r.next_sync_delay)
      × (r.next_sync_delay ≤ sync_interval)
unfolding handle_answer calculate_next_retry_delay
handle_answer-InBounds failed current h = ground (arith, h)
handle_answer-InBounds before_epoch current h = ground (arith, h)
handle_answer-InBounds (since_epoch s n) current h = ground (arith, h)

handle_time_server_resolved-InBounds :
    (result : Option Ipv4Addr) (answer : NtpAnswer) (current : Duration)
    → InBounds current
    → let r = (handle_time_server_resolved result answer current).1 in
      InBounds r.next_retry_delay
      × (retry_interval ≤ r.next_sync_delay)
      × (r.next_sync_delay ≤ sync_interval)
unfolding handle_time_server_resolved calculate_next_retry_delay
handle_time_server_resolved-InBounds none answer current h = ground (arith, h)
handle_time_server_resolved-InBounds (some ip) answer current h =
    elim (Bool-cases (is_valid_ntp_server_ip ip)) [
      | inl good ↦ rw good (handle_answer-InBounds answer current h)
      | inr bad ↦ rw bad (ground (arith, h))
    ]

sntp_loop-InBounds :
    (s : SntpState) (es : List SntpEvent)
    → InBounds s.current_retry_delay
    → InBounds (sntp_loop s es).1.current_retry_delay
unfolding sntp_loop
sntp_loop-InBounds s [] h = h
sntp_loop-InBounds s (tick sent ∷ es) h =
    let rest = sntp_loop-InBounds (record s { next_tick = s.next_tick + sync_interval }) es h in
    elim (Bool-cases sent) [ inl works ↦ rw works rest | inr fails ↦ rw fails h ]
sntp_loop-InBounds s (time_server_resolved now result answer ∷ es) h =
    sntp_loop-InBounds _ es
      (handle_time_server_resolved-InBounds result answer s.current_retry_delay h).0
sntp_loop-InBounds s (closed ∷ es) h = h

-- Whatever is resolved and answered, the delay that the worker keeps for its next failure is between
-- a minute and a quarter of an hour, and the wait that an answer sets is between a minute and half
-- an hour.
pub run_sntp_worker_loop-InBounds :
    (start now : Instant) (es : List SntpEvent) (result : Option Ipv4Addr) (answer : NtpAnswer)
    → let s = (run_sntp_worker_loop start es).1 in
      let r = (handle_time_server_resolved result answer s.current_retry_delay).1 in
      InBounds s.current_retry_delay
      × (retry_interval ≤ r.next_sync_delay)
      × (r.next_sync_delay ≤ sync_interval)
unfolding run_sntp_worker_loop
run_sntp_worker_loop-InBounds start now es result answer =
    let kept =
      sntp_loop-InBounds (record { current_retry_delay = retry_interval; next_tick = start }) es
        (omega arith, omega arith) in
    let (_, low, high) = handle_time_server_resolved-InBounds result answer _ kept in
    (kept, low, high)

-- Every query goes to an address that can be a server, and the time is set right after a query only.
abbrev pub Guarded : Bool → List SntpAction → Type 0
Guarded asked [] = Unit {0}
Guarded asked (resolve_time_server ∷ acts) = Guarded false acts
Guarded asked (set_system_time s n ∷ acts) = (asked ≡ true) × Guarded false acts
Guarded asked (query_ntp ip ∷ acts) = (is_valid_ntp_server_ip ip ≡ true) × Guarded true acts

Guarded-weaken : (acts : List SntpAction) → Guarded false acts → Guarded true acts
Guarded-weaken [] g = g
Guarded-weaken (resolve_time_server ∷ acts) g = g
Guarded-weaken (set_system_time s n ∷ acts) g = (refl, g.1)
Guarded-weaken (query_ntp ip ∷ acts) g = g

answered-Guarded :
    (answer : NtpAnswer) (current : Duration) (acts : List SntpAction)
    → Guarded false acts
    → Guarded true ((handle_answer answer current).0 ++ acts)
unfolding handle_answer
answered-Guarded failed current acts g = Guarded-weaken acts g
answered-Guarded before_epoch current acts g = Guarded-weaken acts g
answered-Guarded (since_epoch s n) current acts g = (refl, g)

resolved-Guarded :
    (result : Option Ipv4Addr) (answer : NtpAnswer) (current : Duration) (acts : List SntpAction)
    → Guarded false acts
    → Guarded false ((handle_time_server_resolved result answer current).0 ++ acts)
unfolding handle_time_server_resolved
resolved-Guarded none answer current acts g = g
resolved-Guarded (some ip) answer current acts g = elim (Bool-cases (is_valid_ntp_server_ip ip)) [
  | inl good ↦ rw good (good, answered-Guarded answer current acts g)
  | inr bad ↦ rw bad g
]

sntp_loop-Guarded : (s : SntpState) (es : List SntpEvent) → Guarded false (sntp_loop s es).0
unfolding sntp_loop
sntp_loop-Guarded s [] = tt
sntp_loop-Guarded s (tick sent ∷ es) =
    let rest = sntp_loop-Guarded (record s { next_tick = s.next_tick + sync_interval }) es in
    elim (Bool-cases sent) [ inl works ↦ rw works rest | inr fails ↦ rw fails tt ]
sntp_loop-Guarded s (time_server_resolved now result answer ∷ es) =
    resolved-Guarded result answer s.current_retry_delay _ (sntp_loop-Guarded _ es)
sntp_loop-Guarded s (closed ∷ es) = tt

-- Whatever the parent resolves, the worker queries no address that cannot be a server of time, and it sets
-- the clock only as the answer to a query, once for each.
pub run_sntp_worker_loop-Guarded :
    (now : Instant) (es : List SntpEvent) → Guarded false (run_sntp_worker_loop now es).0
unfolding run_sntp_worker_loop
run_sntp_worker_loop-Guarded now es = sntp_loop-Guarded _ es
