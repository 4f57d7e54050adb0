-- ===== src/Tests/Wan.antt =====
-- src/services/dhcp_client/worker.rs and src/services/sntp_client/worker.rs at concrete inputs.
use trimrouter.Prelude.{
  ℕ, ◌≡◌, refl, true, false, Option, none, some, List, [], ◌∷◌, ◌++◌, arith, nat_eq, if◌then◌else◌,
}
use trimrouter.Net.{from_secs}
use trimrouter.DhcpClient.{Message, MessageType, ack, offer, DhcpAck}
use trimrouter.DhcpClient.Client.{
  Env, Arrival, timer, raw_packet, Phase, requesting, holding, start, run, step,
}
use trimrouter.DhcpClient.Client.Lease.{Trace, idle, view, run-start-Refines}
use trimrouter.DhcpClient.Client.Replies.{Earned, step-Earned}
use trimrouter.DhcpClient.Client.Expiry.{InTime, step-InTime, step-expired}
use trimrouter.DhcpClient.Parent.{no_lease, lease_after}
use trimrouter.DhcpClient.Parent.Wan.{seen_as, lease_after-run}
use trimrouter.Supervisor.{elapsed}
use trimrouter.Supervisor.Worker.{set_up, Pass, start_supervised}
use trimrouter.Supervisor.Backoff.{
  paces, retries_from, Fails, Attended, start_supervised-Attended, start_supervised-backoff,
}
use trimrouter.SntpClient.{tick, time_server_resolved, since_epoch, failed, run_sntp_worker_loop}
use trimrouter.SntpClient.Retries.{Guarded, run_sntp_worker_loop-Guarded}

abbrev env : ℕ → Env
env secs = record {
  now = from_secs secs;
  random_xid = 7;
  jitter = from_secs 1;
  apply_sent = true;
  clear_sent = true;
}

-- A frame of one number: an offer, or else an ACK of ten seconds.
abbrev message : MessageType → Message
message t = record {
  is_boot_request = false;
  xid = 7;
  broadcast = false;
  chaddr = 0 ∷ 0 ∷ 0 ∷ 0 ∷ 0 ∷ 9 ∷ [];
  ciaddr = 0;
  yiaddr = 55;
  message_type = some t;
  requested_ip = none;
  server_identifier = some 1;
  parameter_request_list = [];
  subnet_mask = none;
  router = none;
  domain_name_server = none;
  address_lease_time = some 10;
}

abbrev decode : List ℕ → ℕ → Option Message
decode [] port = none
decode (k ∷ f) port = some (message (if nat_eq k 0 then offer else ack))

abbrev lease : DhcpAck
lease = record {
  ip = 55;
  mask = 4294967040;
  gateway = none;
  server_ip = some 1;
  lease_secs = 10;
  dns_servers = [];
}

abbrev arrivals : List (Env × Arrival)
arrivals =
    (env 1, raw_packet (0 ∷ []))
    ∷ (env 2, raw_packet (1 ∷ []))
    ∷ (env 5, timer)
    ∷ (env 7, timer)
    ∷ (env 13, timer)
    ∷ []

run-start-Refines_example :
    Trace idle
      ((start (env 0)).0 ++ (run decode 9 (start (env 0)).1 arrivals).0)
      (view (run decode 9 (start (env 0)).1 arrivals).1)
run-start-Refines_example =
    run-start-Refines decode 9 (env 0) arrivals (refl, (refl, (refl, (refl, (refl, tt)))))

abbrev asked : Phase
asked = requesting 7 (record { offered_ip = 55; server_ip = some 1 }) 4 (from_secs 5)

step-Earned_example : Earned decode 9 asked (raw_packet (1 ∷ [])) lease
unfolding step trimrouter.DhcpClient.Client.handle_ack_result
    trimrouter.DhcpClient.Client.recv_dhcp_packet trimrouter.DhcpClient.parse_ack_nak
    trimrouter.DhcpClient.ack_of trimrouter.DhcpClient.parse_lease_options
    trimrouter.DhcpClient.Client.bound_phase trimrouter.DhcpClient.Client.bound_round
step-Earned_example = step-Earned decode 9 asked (env 2) (raw_packet (1 ∷ [])) lease refl

abbrev held : Phase
held = holding lease (from_secs 2) (from_secs 5)

step-InTime_example : InTime (step decode 9 held (env 5) timer).1
step-InTime_example =
    step-InTime decode 9 held (env 5) timer (omega arith, omega arith) (omega arith)

step-expired_example : view (step decode 9 held (env 13) timer).1 ≡ idle
step-expired_example =
    step-expired decode 9 held (env 13) (from_secs 12) (omega arith, omega arith) refl (omega arith)

run_sntp_worker_loop-Guarded_example :
    Guarded false
      (run_sntp_worker_loop 0 (
        tick true
        ∷ time_server_resolved 5 (some 134744072) (since_epoch 9 0)
        ∷ time_server_resolved 6 (some 0) failed
        ∷ [])).0
run_sntp_worker_loop-Guarded_example = run_sntp_worker_loop-Guarded 0 (
    tick true
    ∷ time_server_resolved 5 (some 134744072) (since_epoch 9 0)
    ∷ time_server_resolved 6 (some 0) failed
    ∷ [])

lease_after-run_example :
    lease_after
      (message ack)
      (λ m. true)
      9
      ((start (env 0)).0 ++ (run decode 9 (start (env 0)).1 arrivals).0)
      no_lease
    ≡ seen_as (view (run decode 9 (start (env 0)).1 arrivals).1)
lease_after-run_example =
    lease_after-run (message ack) (λ m. true) 9 decode 9 (env 0) arrivals
      (refl, (refl, (refl, (refl, (refl, tt)))))

-- A worker whose process ends after a second, and one that cannot be started.
abbrev crash : Pass
crash = record {
  shut_before = false;
  woken = elapsed;
  shut_first = false;
  setup_works = true;
  shut_after_setup = false;
  child_pid = some 7;
  ran_for = some (from_secs 1);
}

abbrev broken : Pass
broken = record crash { setup_works = false }

crash-Fails : Fails crash
crash-Fails = record { goes_on = refl; delayed = refl; still_on = refl; is_short = refl }

broken-Fails : Fails broken
broken-Fails = record { goes_on = refl; delayed = refl; still_on = refl; is_short = refl }

start_supervised-Attended_example : Attended none (start_supervised 0 (crash ∷ broken ∷ []))
start_supervised-Attended_example = start_supervised-Attended 0 (crash ∷ broken ∷ [])

start_supervised-backoff_example :
    paces (start_supervised 0 (crash ∷ broken ∷ crash ∷ [])) ≡ set_up ∷ retries_from 1 2
start_supervised-backoff_example =
    start_supervised-backoff crash (broken ∷ crash ∷ []) crash-Fails
      (broken-Fails, (crash-Fails, tt)) (omega arith)
