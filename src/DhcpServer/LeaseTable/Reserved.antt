-- ===== src/DhcpServer/LeaseTable/Reserved.antt =====
-- src/services/dhcp_server/lease_table.rs: the reservations against the leases and their index.
use trimrouter.Prelude.{
  ◌≡◌, inl, inr, true, false, ◌||◌, none, some, List, [], ◌∷◌, arith, nat_eq, ltb, nat_key, elem,
  Option-cases, Bool-cases,
}
use trimrouter.HashMap
use trimrouter.HashMap.{IsMap}
use trimrouter.HashSet
use trimrouter.Net.{Ipv4Addr, MacAddr, Instant, MacLib}
use trimrouter.DhcpServer.LeaseTable.{
  LeaseTable, ClientLease, StaticLease, get, insert, remove, drop_moved, set_static_loop,
  set_static_leases, evict_expired, record_conflict,
}
use trimrouter.DhcpServer.LeaseTable.Assign.{
  confirm, update_from_neighbor, reserved_elsewhere, has_ip, refuses_reservation,
}
use trimrouter.DhcpServer.LeaseTable.Cases.{allocate_cases, validate_cases}
use trimrouter.DhcpServer.LeaseTable.Actor.{
  LeaseCommand, get_existing_ip, allocate_candidate_for, confirm_lease,
  validate_and_confirm_request, check_conflict, record_conflict_on, release, evict, add_neighbor,
  set_statics, list_active, handle_lease_command,
}

-- Every reserved address is in the set of reserved addresses, and a client with a reservation holds
-- no other address.
pub record Agrees (by_mac : List (MacAddr × ClientLease)) (statics : List (MacAddr × StaticLease))
    (reserved : List Ipv4Addr) : Type 0 where
  pub indexed :
      (mac : MacAddr) (s : StaticLease)
      → HashMap.get mac statics ≡ some s
      → elem s.ip reserved ≡ true
  pub kept :
      (mac : MacAddr) (s : StaticLease) (l : ClientLease)
      → HashMap.get mac statics ≡ some s
      → HashMap.get mac by_mac ≡ some l
      → l.ip ≡ s.ip

abbrev pub ReservationsKept : LeaseTable → Type 0
ReservationsKept t = Agrees t.by_mac t.static_leases t.reserved_ips

drop_moved-by_mac :
    (s : StaticLease) (t : LeaseTable) (mac : MacAddr) (l : ClientLease)
    → HashMap.get mac (drop_moved s t).by_mac ≡ some l
    → HashMap.get mac t.by_mac ≡ some l
unfolding drop_moved
drop_moved-by_mac s t mac l g = ground (arith, HashMap.get-remove s.mac mac t.by_mac)

drop_moved-same_ip :
    (s : StaticLease) (t : LeaseTable) (l : ClientLease)
    → HashMap.get s.mac (drop_moved s t).by_mac ≡ some l
    → l.ip ≡ s.ip
unfolding drop_moved
drop_moved-same_ip s t l g = ground (arith, HashMap.get-remove s.mac s.mac t.by_mac)

drop_moved-Agrees :
    (s : StaticLease) (t : LeaseTable) (m : List (MacAddr × StaticLease)) (r : List Ipv4Addr)
    → Agrees t.by_mac m r
    → Agrees (drop_moved s t).by_mac (HashMap.insert s.mac s m) (HashSet.insert s.ip r)
drop_moved-Agrees s t m r v = record {
  indexed = λ mac x g.
      ground
        (arith, HashMap.get-insert s.mac mac s m, HashSet.elem-insert s.ip x.ip r, v.indexed mac x);
  kept = λ mac x l g h. elim (Bool-cases (nat_eq s.mac mac)) [
    | inl same ↦ ground (arith, HashMap.get-insert s.mac mac s m, drop_moved-same_ip s t l)
    | inr ne ↦
        v.kept mac x l (ground (arith, HashMap.get-insert s.mac mac s m))
          (drop_moved-by_mac s t mac l h)
  ];
}

set_static_loop-ReservationsKept :
    (ls : List StaticLease) (t : LeaseTable) (m : List (MacAddr × StaticLease)) (r : List Ipv4Addr)
    → Agrees t.by_mac m r
    → ReservationsKept (set_static_loop ls t m r)
unfolding set_static_loop
set_static_loop-ReservationsKept [] t m r v = v
set_static_loop-ReservationsKept (s ∷ ls) t m r v =
    set_static_loop-ReservationsKept ls (drop_moved s t) _ _ (drop_moved-Agrees s t m r v)

-- Whatever the table was before, and whatever reservations are set, also several for one client:
-- afterwards every reserved address is in the set of reserved addresses, and no client with a
-- reservation holds another address.
pub set_static_leases-ReservationsKept :
    (leases : List StaticLease) (t : LeaseTable) → ReservationsKept (set_static_leases leases t)
unfolding set_static_leases HashMap.get
set_static_leases-ReservationsKept leases t =
    set_static_loop-ReservationsKept leases t [] []
      (record { indexed = λ mac s g. cc; kept = λ mac s l g h. cc })

insert-Agrees :
    (mac : MacAddr) (lease : ClientLease) (t : LeaseTable)
    → ((s : StaticLease) → HashMap.get mac t.static_leases ≡ some s → lease.ip ≡ s.ip)
    → ReservationsKept t
    → ReservationsKept (insert mac lease t)
unfolding insert
insert-Agrees mac lease t own v = record {
  indexed = v.indexed;
  kept = λ other s l g h. elim (Bool-cases (nat_eq mac other)) [
    | inl same ↦ ground (arith, HashMap.get-insert mac other lease t.by_mac, own s)
    | inr ne ↦ v.kept other s l g (ground (arith, HashMap.get-insert mac other lease t.by_mac))
  ];
}

remove-Agrees :
    (mac : MacAddr) (t : LeaseTable) → ReservationsKept t → ReservationsKept (remove mac t).0
unfolding remove
remove-Agrees mac t v = elim (Option-cases (HashMap.get mac t.by_mac)) [
  | inl n ↦ rw (n, remove) v
  | inr (old, o) ↦
      rw (o, remove)
        (record {
          indexed = v.indexed;
          kept = λ other s l g h.
              v.kept other s l g (ground (arith, HashMap.get-remove mac other t.by_mac));
        })
]

evict-Agrees :
    (now : Instant) (t : LeaseTable)
    → IsMap t.by_mac
    → ReservationsKept t
    → ReservationsKept (evict_expired now t).0
unfolding evict_expired
evict-Agrees now t u v = record {
  indexed = v.indexed;
  kept = λ other s l g h.
      v.kept other s l g
        (ground (arith, HashMap.get-retain (λ _ x. ltb now x.expiry) other t.by_mac u));
}

reserved_elsewhere-own :
    (mac : MacAddr) (ip : Ipv4Addr) (t : LeaseTable)
    → reserved_elsewhere (HashMap.get mac t.static_leases) ip ≡ false
    → (s : StaticLease) → HashMap.get mac t.static_leases ≡ some s
    → ip ≡ s.ip
reserved_elsewhere-own mac ip t h s e = ground arith

no_reservation :
    (mac : MacAddr) (now : Instant) (t : LeaseTable) (s : StaticLease)
    → HashMap.get mac t.static_leases ≡ none
    → HashMap.get mac (evict_expired now t).0.static_leases ≡ some s
    → ⊥
unfolding evict_expired
no_reservation mac now t s e g = ground arith

own_reservation :
    (mac : MacAddr) (ip : Ipv4Addr) (t : LeaseTable)
    → refuses_reservation (HashMap.get mac t.static_leases) ip t ≡ false
    → (s : StaticLease) → HashMap.get mac t.static_leases ≡ some s
    → ip ≡ s.ip
unfolding refuses_reservation
own_reservation mac ip t h s e = ground arith

-- What `ConfirmLease` must be given: for a client with a reservation, that address.
abbrev pub ConfirmsReserved : LeaseCommand → LeaseTable → Type 0
ConfirmsReserved (confirm_lease mac ip d name) t =
    (s : StaticLease) → HashMap.get mac t.static_leases ≡ some s → ip ≡ s.ip
ConfirmsReserved _ t = Unit {0}

-- Every command keeps the reservations, `ConfirmLease` if it is given the reserved address of a
-- client that has one. The keys of the table are distinct.
pub handle_lease_command-ReservationsKept :
    (lib : MacLib) (now : Instant) (c : LeaseCommand) (t : LeaseTable)
    → IsMap t.by_mac
    → ConfirmsReserved c t
    → ReservationsKept t
    → ReservationsKept (handle_lease_command lib now c t).0
unfolding handle_lease_command record_conflict confirm update_from_neighbor
handle_lease_command-ReservationsKept lib now (confirm_lease mac ip d name) t u p v =
    insert-Agrees mac _ t p v
handle_lease_command-ReservationsKept lib now (set_statics ls) t u p v =
    set_static_leases-ReservationsKept ls t
handle_lease_command-ReservationsKept lib now (add_neighbor mac ip) t u p v =
    elim (Bool-cases (
      (nat_eq mac lib.zero_mac || nat_eq mac lib.broadcast_mac)
      || reserved_elsewhere (HashMap.get mac t.static_leases) ip
      || has_ip (get mac t) ip)) [
        | inl skip ↦ rw (skip, update_from_neighbor) v
        | inr go ↦
            rw (go, update_from_neighbor)
              (insert-Agrees mac _ t (reserved_elsewhere-own mac ip t (ground arith)) v)
      ]
handle_lease_command-ReservationsKept lib now (allocate_candidate_for mac net ip) t u p v =
    allocate_cases (λ r. ReservationsKept r.0) now mac net ip t
      (λ s e _ _ _. insert-Agrees mac _ t (λ x g. ground arith) v) (λ _ _ _. v)
      (λ host e _.
        insert-Agrees mac _ _ (λ s g. absurd (no_reservation mac now t s e g))
          (evict-Agrees now t u v))
      (λ _ _. evict-Agrees now t u v)
handle_lease_command-ReservationsKept lib now (validate_and_confirm_request mac ip s net d name) t u
      p v =
    validate_cases (λ r. ReservationsKept r.0) now mac ip s net d name t v
      (λ target _ _ res. insert-Agrees mac _ t (own_reservation mac target t res) v)
handle_lease_command-ReservationsKept lib now (get_existing_ip mac) t u p v = v
handle_lease_command-ReservationsKept lib now (check_conflict ip mac) t u p v = v
handle_lease_command-ReservationsKept lib now (record_conflict_on ip d) t u p v = v
handle_lease_command-ReservationsKept lib now (release mac) t u p v = remove-Agrees mac t v
handle_lease_command-ReservationsKept lib now evict t u p v = evict-Agrees now t u v
handle_lease_command-ReservationsKept lib now list_active t u p v = v
