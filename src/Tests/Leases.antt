-- ===== src/Tests/Leases.antt =====
-- src/services/dhcp_server/lease_table.rs at concrete inputs: clients 7, 8 and 9 on a network whose
-- hosts are 10, 11 and 12, with the server at 10 and client 9 reserved at 12.
use trimrouter.Prelude.{
  ℕ, ◌≡◌, ◌≢◌, ◌↔◌, refl, true, ◌&&◌, Option, none, some, List, [], ◌∷◌, arith, leb, elem, find,
  nat_key,
}
use trimrouter.HashMap
use trimrouter.Net.{Ipv4Addr, MacAddr, Instant, Ipv4Net, MacLib, HostsLieInNet, from_secs}
use trimrouter.DhcpServer.LeaseTable.{
  LeaseTable, ClientLease, StaticLease, evict_expired, set_static_leases, set_static_loop,
  drop_moved, next_available_ip,
}
use trimrouter.DhcpServer.LeaseTable.Assign.{allocate_candidate, validate_and_confirm, lease_ip}
use trimrouter.DhcpServer.LeaseTable.Actor.{
  confirm_lease, ActorEvent, cleanup_tick, received, allocate_candidate_for,
  validate_and_confirm_request, release, set_statics, handle_lease_command, actor_run,
  run_lease_actor_loop,
}
use trimrouter.DhcpServer.LeaseTable.Index.{IndexSound, run_lease_actor_loop-IndexSound, Holds}
use trimrouter.DhcpServer.LeaseTable.Taken.{FreeOfOthers}
use trimrouter.DhcpServer.LeaseTable.Allocation.{
  allocate_candidate-safe, allocate_candidate-none_iff, Suits, IsBlocked,
}
use trimrouter.DhcpServer.LeaseTable.Confirmation.{validate_and_confirm_lem, Outcome}
use trimrouter.DhcpServer.LeaseTable.Unique.{LiveUnique, actor_run-LiveUnique, end_time}
use trimrouter.DhcpServer.LeaseTable.Eviction.{evict_expired_lem, running}
use trimrouter.DhcpServer.LeaseTable.Reserved.{
  ReservationsKept, set_static_leases-ReservationsKept, handle_lease_command-ReservationsKept,
}

abbrev lib : MacLib
lib = record { zero_mac = 0; broadcast_mac = 281474976710655 }

abbrev net : Ipv4Net
net = record {
  addr = 10;
  network = 8;
  broadcast = 15;
  contains = λ ip. leb 8 ip && leb ip 15;
  hosts = 10 ∷ 11 ∷ 12 ∷ [];
  prefix_len = 24;
}

net-HostsLieInNet : HostsLieInNet net
unfolding elem
net-HostsLieInNet = record { contained = λ ip h. ground arith }

-- "pc"
abbrev pc : List ℕ
pc = 112 ∷ 99 ∷ []

abbrev reservation : StaticLease
reservation = record { mac = 9; ip = 12; hostname = none }

abbrev lease_11 : ClientLease
lease_11 = record { ip = 11; expiry = 500; hostname = some pc }

-- The table in which client 8 has the address 11 until 500.
abbrev one_lease : LeaseTable
one_lease = record {
  by_mac = (8, lease_11) ∷ [];
  allocated_ips = 11 ∷ [];
  conflicts = [];
  static_leases = (9, reservation) ∷ [];
  reserved_ips = 12 ∷ [];
}

-- The table in which clients 7 and 8 both have the address 11.
abbrev shared : LeaseTable
shared = record one_lease { by_mac = (7, lease_11) ∷ (8, lease_11) ∷ [] }

abbrev history : List (Instant × ActorEvent)
history =
    (1, received (confirm_lease 9 19 (from_secs 60) none))
    ∷ (1, received (set_statics (reservation ∷ [])))
    ∷ (2, received (allocate_candidate_for 7 net 10))
    ∷ (3, received (validate_and_confirm_request 7 (some 11) 10 net (from_secs 60) (some pc)))
    ∷ (4, received (release 7))
    ∷ (5, cleanup_tick)
    ∷ []

run_lease_actor_loop-IndexSound_example : IndexSound (run_lease_actor_loop lib history)
run_lease_actor_loop-IndexSound_example = run_lease_actor_loop-IndexSound lib history

abbrev given : LeaseTable × Option Ipv4Addr
given = allocate_candidate 600 7 net 10 one_lease

given-ip : given ≡ (given.0, some 11)
unfolding allocate_candidate HashMap.get next_available_ip find elem HashMap.retain
given-ip = refl

allocate_candidate-safe_example :
    (net.contains 11 ≡ true)
    × ◌≢◌ {A = ℕ} 11 10
    × FreeOfOthers 600 11 7 one_lease
    × Suits 600 one_lease none 11
    × (lease_ip (HashMap.get 7 given.0.by_mac) ≡ some 11)
unfolding HashMap.get
allocate_candidate-safe_example =
    allocate_candidate-safe 600 7 net 10 one_lease given.0 11 net-HostsLieInNet given-ip

allocate_candidate-none_iff_example : ((allocate_candidate 100 7 net 10 one_lease).1 ≡ none) ↔ (
    (ip : Ipv4Addr)
    → elem ip net.hosts ≡ true
    → IsBlocked 100 10 (evict_expired 100 one_lease).0 ip)
unfolding HashMap.get
allocate_candidate-none_iff_example =
    allocate_candidate-none_iff 100 7 net 10 one_lease (refl, tt) refl

validate_and_confirm_lem_example :
    Outcome 100 8
      (some 11)
      10
      net
      (from_secs 60)
      one_lease
      (validate_and_confirm 100 8 (some 11) 10 net (from_secs 60) (some pc) one_lease)
validate_and_confirm_lem_example =
    validate_and_confirm_lem 100 8 (some 11) 10 net (from_secs 60) (some pc) one_lease

one_lease-LiveUnique : LiveUnique 0 one_lease
unfolding HashMap.get
one_lease-LiveUnique = record {
  distinct = (refl, tt);
  unique = λ a b l k g h x y same. ground arith;
}

free_19 : FreeOfOthers 1 19 9 one_lease
unfolding HashMap.get
free_19 other l g ne live same = ground arith

actor_run-LiveUnique_example : LiveUnique (end_time 0 history) (actor_run lib one_lease history)
actor_run-LiveUnique_example =
    actor_run-LiveUnique lib 0 history one_lease
      (
        omega arith,
        free_19,
        (
          omega arith,
          tt,
          (omega arith, tt, (omega arith, tt, (omega arith, tt, (omega arith, tt)))),
        ),
      )
      one_lease-LiveUnique

handle_lease_command-ReservationsKept_example :
    ReservationsKept
      (handle_lease_command lib 0
        (allocate_candidate_for 9 net 10)
        (handle_lease_command lib 0 (set_statics (reservation ∷ [])) one_lease).0).0
unfolding handle_lease_command set_static_leases set_static_loop drop_moved HashMap.get
handle_lease_command-ReservationsKept_example =
    handle_lease_command-ReservationsKept lib 0 (allocate_candidate_for 9 net 10)
      (set_static_leases (reservation ∷ []) one_lease) (refl, tt) tt
      (set_static_leases-ReservationsKept (reservation ∷ []) one_lease)

evict_expired_lem_example :
    ((mac : MacAddr)
      → HashMap.get mac (evict_expired 600 shared).0.by_mac
        ≡ running 600 (HashMap.get mac shared.by_mac))
    × ((ip : Ipv4Addr)
        → (elem ip (evict_expired 600 shared).0.allocated_ips ≡ true)
          ↔ Holds ip (evict_expired 600 shared).0.by_mac)
unfolding HashMap.get
evict_expired_lem_example = evict_expired_lem 600 shared (refl, (refl, tt))
