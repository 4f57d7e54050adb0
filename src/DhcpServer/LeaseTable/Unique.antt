-- ===== src/DhcpServer/LeaseTable/Unique.antt =====
-- src/services/dhcp_server/lease_table.rs: two clients never hold one address by leases that still
-- run, as long as the commands that do not check for it name free addresses.
use trimrouter.Prelude.{
  ◌<◌, ◌≤◌, ◌≡◌, inl, inr, Bool, true, false, Option, some, List, [], ◌∷◌, arith, if◌then◌else◌,
  ltb, nat_key, Option-cases,
}
use trimrouter.HashMap
use trimrouter.HashMap.{IsMap}
use trimrouter.Net.{Ipv4Addr, MacAddr, Instant, Duration, Hostname, Ipv4Net, MacLib}
use trimrouter.DhcpServer.LeaseTable.{
  LeaseTable, ClientLease, StaticLease, insert, remove, drop_moved, set_static_loop,
  set_static_leases, evict_expired, record_conflict, is_ip_available_for_dynamic,
}
use trimrouter.DhcpServer.LeaseTable.Assign.{
  allocate_candidate, validate_and_confirm, confirm, refuses_ip, update_from_neighbor,
}
use trimrouter.DhcpServer.LeaseTable.Cases.{allocate_cases, validate_cases, usable}
use trimrouter.DhcpServer.LeaseTable.Index.{elem-held_ips}
use trimrouter.DhcpServer.LeaseTable.Allocation.{find-true}
use trimrouter.DhcpServer.LeaseTable.Actor.{
  LeaseCommand, get_existing_ip, allocate_candidate_for, confirm_lease,
  validate_and_confirm_request, check_conflict, record_conflict_on, release, evict, add_neighbor,
  set_statics, list_active, ActorEvent, cleanup_tick, received, handle_lease_command, actor_step,
  actor_run,
}
use trimrouter.DhcpServer.LeaseTable.Taken.{FreeOfOthers, is_ip_taken_by_other-FreeOfOthers}

-- Leases that still run at `now` have different addresses.
pub record LiveUnique (now : Instant) (t : LeaseTable) : Type 0 where
  pub distinct : IsMap t.by_mac
  pub unique :
      (a b : MacAddr) (l k : ClientLease)
      → HashMap.get a t.by_mac ≡ some l
      → HashMap.get b t.by_mac ≡ some k
      → now < l.expiry
      → now < k.expiry
      → l.ip ≡ k.ip
      → a ≡ b

pub later-LiveUnique :
    (now later : Instant) (t : LeaseTable) → now ≤ later → LiveUnique now t → LiveUnique later t
later-LiveUnique now later t le v = record {
  distinct = v.distinct;
  unique = λ a b l k ga gb la lb same. v.unique a b l k ga gb (omega arith) (omega arith) same;
}

pub insert-LiveUnique :
    (now : Instant) (mac : MacAddr) (lease : ClientLease) (t : LeaseTable)
    → FreeOfOthers now lease.ip mac t
    → LiveUnique now t
    → LiveUnique now (insert mac lease t)
unfolding insert
insert-LiveUnique now mac lease t free v = record {
  distinct = HashMap.insert-IsMap mac lease t.by_mac v.distinct;
  unique = λ a b l k ga gb la lb same. ground (
    arith,
    HashMap.get-insert mac a lease t.by_mac,
    HashMap.get-insert mac b lease t.by_mac,
    free a l,
    free b k,
    v.unique a b l k,
  );
}

pub remove-LiveUnique :
    (now : Instant) (mac : MacAddr) (t : LeaseTable)
    → LiveUnique now t
    → LiveUnique now (remove mac t).0
unfolding remove
remove-LiveUnique now mac t v = elim (Option-cases (HashMap.get mac t.by_mac)) [
  | inl n ↦ rw (n, remove) v
  | inr (old, o) ↦
      rw (o, remove)
        (record {
          distinct = HashMap.remove-IsMap mac t.by_mac v.distinct;
          unique = λ a b l k ga gb la lb same. ground (
            arith,
            HashMap.get-remove mac a t.by_mac,
            HashMap.get-remove mac b t.by_mac,
            v.unique a b l k,
          );
        })
]

pub evict-LiveUnique :
    (now : Instant) (at : Instant) (t : LeaseTable)
    → LiveUnique now t
    → LiveUnique now (evict_expired at t).0
unfolding evict_expired
evict-LiveUnique now at t v = record {
  distinct = HashMap.retain-IsMap (λ _ l. ltb at l.expiry) t.by_mac v.distinct;
  unique = λ a b l k ga gb la lb same. ground (
    arith,
    HashMap.get-retain (λ _ x. ltb at x.expiry) a t.by_mac v.distinct,
    HashMap.get-retain (λ _ x. ltb at x.expiry) b t.by_mac v.distinct,
    v.unique a b l k,
  );
}

drop_moved-LiveUnique :
    (now : Instant) (l : StaticLease) (t : LeaseTable)
    → LiveUnique now t
    → LiveUnique now (drop_moved l t)
unfolding drop_moved
drop_moved-LiveUnique now l t v = ground (arith, remove-LiveUnique now l.mac t v)

set_static_loop-LiveUnique :
    (now : Instant) (ls : List StaticLease) (t : LeaseTable) (s : List (MacAddr × StaticLease))
    (r : List Ipv4Addr)
    → LiveUnique now t
    → LiveUnique now (set_static_loop ls t s r)
unfolding set_static_loop
set_static_loop-LiveUnique now [] t s r v = record { distinct = v.distinct; unique = v.unique }
set_static_loop-LiveUnique now (l ∷ ls) t s r v =
    set_static_loop-LiveUnique now ls (drop_moved l t) _ _ (drop_moved-LiveUnique now l t v)

-- A host that is free after the eviction is held by nobody there.
usable-FreeOfOthers :
    (now : Instant) (mac : MacAddr) (server_ip : Ipv4Addr) (t : LeaseTable) (ip : Ipv4Addr)
    → usable now server_ip t ip ≡ true
    → FreeOfOthers now ip mac (evict_expired now t).0
unfolding is_ip_available_for_dynamic evict_expired
usable-FreeOfOthers now mac server_ip t ip h other l g _ live same =
    ground (arith, elem-held_ips other l (HashMap.retain (λ _ x. ltb now x.expiry) t.by_mac) g)

allocate_candidate-LiveUnique :
    (now : Instant) (mac : MacAddr) (net : Ipv4Net) (server_ip : Ipv4Addr) (t : LeaseTable)
    → LiveUnique now t
    → LiveUnique now (allocate_candidate now mac net server_ip t).0
allocate_candidate-LiveUnique now mac net server_ip t v =
    allocate_cases (λ r. LiveUnique now r.0) now mac net server_ip t
      (λ s _ _ _ f.
        insert-LiveUnique now mac _ t (is_ip_taken_by_other-FreeOfOthers now s.ip mac t f) v)
      (λ _ _ _. v)
      (λ ip _ found.
        insert-LiveUnique now mac _ _
          (usable-FreeOfOthers now mac server_ip t ip
            (find-true (usable now server_ip t) net.hosts ip found).0)
          (evict-LiveUnique now now t v))
      (λ _ _. evict-LiveUnique now now t v)

validate_and_confirm-LiveUnique :
    (now : Instant) (mac : MacAddr) (requested : Option Ipv4Addr) (server_ip : Ipv4Addr)
    (net : Ipv4Net) (d : Duration) (name : Option Hostname) (t : LeaseTable)
    → LiveUnique now t
    → LiveUnique now (validate_and_confirm now mac requested server_ip net d name t).0
unfolding confirm refuses_ip
validate_and_confirm-LiveUnique now mac requested server_ip net d name t v =
    validate_cases (λ r. LiveUnique now r.0) now mac requested server_ip net d name t v
      (λ ip _ ok _.
        insert-LiveUnique now mac _ t
          (is_ip_taken_by_other-FreeOfOthers now ip mac t (ground arith)) v)

if-LiveUnique :
    (now : Instant) (b : Bool) (t u : LeaseTable)
    → LiveUnique now t
    → LiveUnique now u
    → LiveUnique now (if b then t else u)
if-LiveUnique now true t u v w = v
if-LiveUnique now false t u v w = w

update_from_neighbor-LiveUnique :
    (lib : MacLib) (now : Instant) (mac : MacAddr) (ip : Ipv4Addr) (t : LeaseTable)
    → FreeOfOthers now ip mac t
    → LiveUnique now t
    → LiveUnique now (update_from_neighbor lib now mac ip t)
unfolding update_from_neighbor
update_from_neighbor-LiveUnique lib now mac ip t free v =
    if-LiveUnique now _ t _ v (insert-LiveUnique now mac _ t free v)

-- The commands that take an address on trust, from a neighbor entry or from an earlier answer, take one
-- that no other client has a running lease on.
abbrev pub IsFree : Instant → LeaseCommand → LeaseTable → Type 0
IsFree now (confirm_lease mac ip d name) t = FreeOfOthers now ip mac t
IsFree now (add_neighbor mac ip) t = FreeOfOthers now ip mac t
IsFree now _ t = Unit {0}

-- Every command keeps the leases that run apart, the two on trust when their address is free.
pub handle_lease_command-LiveUnique :
    (lib : MacLib) (now : Instant) (c : LeaseCommand) (t : LeaseTable)
    → IsFree now c t
    → LiveUnique now t
    → LiveUnique now (handle_lease_command lib now c t).0
unfolding handle_lease_command set_static_leases record_conflict
handle_lease_command-LiveUnique lib now (confirm_lease mac ip d name) t h v =
    insert-LiveUnique now mac _ t h v
handle_lease_command-LiveUnique lib now (add_neighbor mac ip) t h v =
    update_from_neighbor-LiveUnique lib now mac ip t h v
handle_lease_command-LiveUnique lib now (set_statics ls) t h v =
    set_static_loop-LiveUnique now ls t [] [] v
handle_lease_command-LiveUnique lib now (get_existing_ip mac) t h v = v
handle_lease_command-LiveUnique lib now (allocate_candidate_for mac net ip) t h v =
    allocate_candidate-LiveUnique now mac net ip t v
handle_lease_command-LiveUnique lib now (validate_and_confirm_request mac ip s net d name) t h v =
    validate_and_confirm-LiveUnique now mac ip s net d name t v
handle_lease_command-LiveUnique lib now (check_conflict ip mac) t h v = v
handle_lease_command-LiveUnique lib now (record_conflict_on ip d) t h v = record {
  distinct = v.distinct;
  unique = v.unique;
}
handle_lease_command-LiveUnique lib now (release mac) t h v = remove-LiveUnique now mac t v
handle_lease_command-LiveUnique lib now evict t h v = evict-LiveUnique now now t v
handle_lease_command-LiveUnique lib now list_active t h v = v

-- A history from a table on, at times that do not go back, in which each `ConfirmLease` and each
-- `AddNeighbor` names an address that is free when it is handled.
abbrev pub IsFreeFrom : MacLib → Instant → LeaseTable → List (Instant × ActorEvent) → Type 0
IsFreeFrom lib start t [] = Unit {0}
IsFreeFrom lib start t ((now, cleanup_tick) ∷ evs) =
    (start ≤ now) × IsFreeFrom lib now (actor_step lib t (now, cleanup_tick)) evs
IsFreeFrom lib start t ((now, received c) ∷ evs) =
    (start ≤ now) × IsFree now c t × IsFreeFrom lib now (actor_step lib t (now, received c)) evs

-- The time of the last event.
abbrev pub end_time : Instant → List (Instant × ActorEvent) → Instant
end_time start [] = start
end_time start ((now, ev) ∷ evs) = end_time now evs

-- A history of the actor, of any events at times that do not go back, in which each `ConfirmLease` and
-- each `AddNeighbor`, which do not check it themselves, name an address that no other client has a
-- running lease on when they are handled: from running leases with different addresses for different
-- clients it leads to such leases at the time of its last event.
pub actor_run-LiveUnique :
    (lib : MacLib) (start : Instant) (evs : List (Instant × ActorEvent)) (t : LeaseTable)
    → IsFreeFrom lib start t evs
    → LiveUnique start t
    → LiveUnique (end_time start evs) (actor_run lib t evs)
unfolding actor_run actor_step
actor_run-LiveUnique lib start [] t h v = v
actor_run-LiveUnique lib start ((now, cleanup_tick) ∷ evs) t h v =
    actor_run-LiveUnique lib now evs _ h.1
      (evict-LiveUnique now now t (later-LiveUnique start now t h.0 v))
actor_run-LiveUnique lib start ((now, received c) ∷ evs) t h v =
    actor_run-LiveUnique lib now evs _ h.2
      (handle_lease_command-LiveUnique lib now c t h.1 (later-LiveUnique start now t h.0 v))
