-- ===== src/DhcpServer/LeaseTable/Actor.antt =====
-- src/services/dhcp_server/lease_table.rs: `LeaseCommand`, `handle_lease_command` and
-- `run_lease_actor_loop`. A reply channel is the second part of the result; a reply that nobody
-- waits for is dropped, as `let _ = reply_tx.send(..)` does.
use trimrouter.Prelude.{◌+◌, Bool, false, not, Option, none, some, List, [], ◌∷◌, nat_eq, nat_key}
use trimrouter.HashMap
use trimrouter.Net.{Ipv4Addr, MacAddr, Instant, Duration, Hostname, Ipv4Net, MacLib}
use trimrouter.DhcpServer.LeaseTable.{
  LeaseTable, ClientLease, StaticLease, LeaseConfirmation, new, get, insert, remove,
  set_static_leases, evict_expired, record_conflict, get_mac_by_ip,
}
use trimrouter.DhcpServer.LeaseTable.Assign.{
  DhcpLeaseInfo, allocate_candidate, validate_and_confirm, update_from_neighbor, get_active_leases,
  lease_ip,
}

pub data LeaseCommand : Type 0 where
  get_existing_ip : MacAddr → LeaseCommand
  allocate_candidate_for : MacAddr → Ipv4Net → Ipv4Addr → LeaseCommand
  confirm_lease : MacAddr → Ipv4Addr → Duration → Option Hostname → LeaseCommand
  validate_and_confirm_request :
      MacAddr → Option Ipv4Addr → Ipv4Addr → Ipv4Net → Duration → Option Hostname → LeaseCommand
  check_conflict : Ipv4Addr → MacAddr → LeaseCommand
  record_conflict_on : Ipv4Addr → Duration → LeaseCommand
  release : MacAddr → LeaseCommand
  evict : LeaseCommand
  add_neighbor : MacAddr → Ipv4Addr → LeaseCommand
  set_statics : List StaticLease → LeaseCommand
  list_active : LeaseCommand

-- What goes back over `reply_tx`.
pub data Reply : Type 0 where
  done : Reply
  maybe_ip : Option Ipv4Addr → Reply
  confirmation : Option LeaseConfirmation → Reply
  conflict : Bool → Reply
  released : Option (Ipv4Addr × Option Hostname) → Reply
  expired : List Hostname → Reply
  active : List DhcpLeaseInfo → Reply

abbrev pub existing_ip : Option StaticLease → Option ClientLease → Option Ipv4Addr
existing_ip (some s) l = some s.ip
existing_ip none l = lease_ip l

abbrev pub is_other : Option MacAddr → MacAddr → Bool
is_other none client_mac = false
is_other (some mac) client_mac = not (nat_eq mac client_mac)

abbrev pub released_parts : Option ClientLease → Option (Ipv4Addr × Option Hostname)
released_parts none = none
released_parts (some l) = some (l.ip, l.hostname)

-- An event that `select!` takes in the loop: the cleanup timer, or a command.
pub data ActorEvent : Type 0 where
  cleanup_tick : ActorEvent
  received : LeaseCommand → ActorEvent

module _ (lib : MacLib) where
  unfoldable pub handle_lease_command : Instant → LeaseCommand → LeaseTable → LeaseTable × Reply
  handle_lease_command now (set_statics leases) t = (set_static_leases leases t, done)
  handle_lease_command now (get_existing_ip mac) t =
      (t, maybe_ip (existing_ip (HashMap.get mac t.static_leases) (get mac t)))
  handle_lease_command now (allocate_candidate_for mac net server_ip) t =
      let r = allocate_candidate now mac net server_ip t in (r.0, maybe_ip r.1)
  handle_lease_command now (confirm_lease mac ip duration hostname) t =
      (insert mac (record { ip = ip; expiry = now + duration; hostname = hostname }) t, done)
  handle_lease_command now (validate_and_confirm_request mac ip server_ip net duration name) t =
      let r = validate_and_confirm now mac ip server_ip net duration name t in
      (r.0, confirmation r.1)
  handle_lease_command now (check_conflict ip mac) t =
      (t, conflict (is_other (get_mac_by_ip now ip t) mac))
  handle_lease_command now (record_conflict_on ip duration) t =
      (record_conflict now ip duration t, done)
  handle_lease_command now (release mac) t =
      let r = remove mac t in (r.0, released (released_parts r.1))
  handle_lease_command now evict t = let r = evict_expired now t in (r.0, expired r.1)
  handle_lease_command now (add_neighbor mac ip) t = (update_from_neighbor lib now mac ip t, done)
  handle_lease_command now list_active t = (t, active (get_active_leases now t))

  unfoldable pub actor_step : LeaseTable → Instant × ActorEvent → LeaseTable
  unfolding handle_lease_command
  actor_step t (now, cleanup_tick) = (evict_expired now t).0
  actor_step t (now, received cmd) = (handle_lease_command now cmd t).0

  -- `run_lease_actor_loop` over the events up to the close of its channel.
  unfoldable pub actor_run : LeaseTable → List (Instant × ActorEvent) → LeaseTable
  unfolding actor_step
  actor_run t [] = t
  actor_run t (ev ∷ evs) = actor_run (actor_step t ev) evs

  unfoldable pub run_lease_actor_loop : List (Instant × ActorEvent) → LeaseTable
  unfolding actor_run
  run_lease_actor_loop evs = actor_run new evs
