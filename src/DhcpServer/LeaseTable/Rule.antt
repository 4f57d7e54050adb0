-- ===== src/DhcpServer/LeaseTable/Rule.antt =====
-- src/services/dhcp_server/lease_table.rs: a rule for the invariants of the lease actor. What
-- `insert`, `remove` and `evict_expired` keep, and what does not depend on the reservations or the
-- conflict holds, every command keeps.
use trimrouter.Prelude.{inl, inr, ◌||◌, Option, List, [], ◌∷◌, arith, nat_eq, nat_key, Bool-cases}
use trimrouter.HashMap
use trimrouter.Net.{Ipv4Addr, MacAddr, Instant, Duration, Hostname, Ipv4Net, MacLib}
use trimrouter.DhcpServer.LeaseTable.{
  LeaseTable, ClientLease, StaticLease, get, insert, remove, drop_moved, set_static_loop,
  set_static_leases, evict_expired, record_conflict,
}
use trimrouter.DhcpServer.LeaseTable.Assign.{
  allocate_candidate, confirm, validate_and_confirm, update_from_neighbor, reserved_elsewhere,
  has_ip,
}
use trimrouter.DhcpServer.LeaseTable.Cases.{allocate_cases, validate_cases}
use trimrouter.DhcpServer.LeaseTable.Actor.{
  LeaseCommand, get_existing_ip, allocate_candidate_for, confirm_lease,
  validate_and_confirm_request, check_conflict, record_conflict_on, release, evict, add_neighbor,
  set_statics, list_active, ActorEvent, cleanup_tick, received, handle_lease_command, actor_run,
}

module _ {ℓ} (P : LeaseTable → Type ℓ)
    (other_fields : (t : LeaseTable) (c : List (Ipv4Addr × Instant))
        (s : List (MacAddr × StaticLease)) (r : List Ipv4Addr)
      → P t
      → P (record t { conflicts = c; static_leases = s; reserved_ips = r }))
    (inserted : (mac : MacAddr) (l : ClientLease) (t : LeaseTable) → P t → P (insert mac l t))
    (removed : (mac : MacAddr) (t : LeaseTable) → P t → P (remove mac t).0)
    (evicted : (now : Instant) (t : LeaseTable) → P t → P (evict_expired now t).0) where
  drop_moved-rule : (l : StaticLease) (t : LeaseTable) → P t → P (drop_moved l t)
  unfolding drop_moved
  drop_moved-rule l t p = ground (arith, removed l.mac t p)

  set_static_loop-rule :
      (ls : List StaticLease) (t : LeaseTable) (s : List (MacAddr × StaticLease))
      (r : List Ipv4Addr)
      → P t
      → P (set_static_loop ls t s r)
  unfolding set_static_loop
  set_static_loop-rule [] t s r p = other_fields t t.conflicts s r p
  set_static_loop-rule (l ∷ ls) t s r p =
      set_static_loop-rule ls (drop_moved l t) _ _ (drop_moved-rule l t p)

  allocate_candidate-rule :
      (now : Instant) (mac : MacAddr) (net : Ipv4Net) (server_ip : Ipv4Addr) (t : LeaseTable)
      → P t
      → P (allocate_candidate now mac net server_ip t).0
  allocate_candidate-rule now mac net server_ip t p =
      allocate_cases (λ r. P r.0) now mac net server_ip t (λ s _ _ _ _. inserted mac _ t p)
        (λ _ _ _. p) (λ ip _ _. inserted mac _ _ (evicted now t p)) (λ _ _. evicted now t p)

  validate_and_confirm-rule :
      (now : Instant) (mac : MacAddr) (ip : Option Ipv4Addr) (server_ip : Ipv4Addr) (net : Ipv4Net)
      (d : Duration) (name : Option Hostname) (t : LeaseTable)
      → P t
      → P (validate_and_confirm now mac ip server_ip net d name t).0
  unfolding confirm
  validate_and_confirm-rule now mac ip server_ip net d name t p =
      validate_cases (λ r. P r.0) now mac ip server_ip net d name t p
        (λ ip _ _ _. inserted mac _ t p)

  update_from_neighbor-rule :
      (lib : MacLib) (now : Instant) (mac : MacAddr) (ip : Ipv4Addr) (t : LeaseTable)
      → P t
      → P (update_from_neighbor lib now mac ip t)
  unfolding update_from_neighbor
  update_from_neighbor-rule lib now mac ip t p =
      elim (Bool-cases (
        (nat_eq mac lib.zero_mac || nat_eq mac lib.broadcast_mac)
        || reserved_elsewhere (HashMap.get mac t.static_leases) ip
        || has_ip (get mac t) ip)) [
          | inl skip ↦ rw (skip, update_from_neighbor) p
          | inr go ↦ rw (go, update_from_neighbor) (inserted mac _ t p)
        ]

  pub handle_lease_command-rule :
      (lib : MacLib) (now : Instant) (c : LeaseCommand) (t : LeaseTable)
      → P t
      → P (handle_lease_command lib now c t).0
  unfolding handle_lease_command set_static_leases record_conflict
  handle_lease_command-rule lib now (set_statics ls) t p = set_static_loop-rule ls t [] [] p
  handle_lease_command-rule lib now (get_existing_ip mac) t p = p
  handle_lease_command-rule lib now (allocate_candidate_for mac net ip) t p =
      allocate_candidate-rule now mac net ip t p
  handle_lease_command-rule lib now (confirm_lease mac ip d name) t p = inserted mac _ t p
  handle_lease_command-rule lib now (validate_and_confirm_request mac ip s net d name) t p =
      validate_and_confirm-rule now mac ip s net d name t p
  handle_lease_command-rule lib now (check_conflict ip mac) t p = p
  handle_lease_command-rule lib now (record_conflict_on ip d) t p =
      other_fields t _ t.static_leases t.reserved_ips p
  handle_lease_command-rule lib now (release mac) t p = removed mac t p
  handle_lease_command-rule lib now evict t p = evicted now t p
  handle_lease_command-rule lib now (add_neighbor mac ip) t p =
      update_from_neighbor-rule lib now mac ip t p
  handle_lease_command-rule lib now list_active t p = p

  pub actor_run-rule :
      (lib : MacLib) (evs : List (Instant × ActorEvent)) (t : LeaseTable)
      → P t
      → P (actor_run lib t evs)
  unfolding actor_run
  actor_run-rule lib [] t p = p
  actor_run-rule lib ((now, cleanup_tick) ∷ evs) t p = actor_run-rule lib evs _ (evicted now t p)
  actor_run-rule lib ((now, received c) ∷ evs) t p =
      actor_run-rule lib evs _ (handle_lease_command-rule lib now c t p)
