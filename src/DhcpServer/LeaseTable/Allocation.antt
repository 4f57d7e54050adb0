-- ===== src/DhcpServer/LeaseTable/Allocation.antt =====
-- src/services/dhcp_server/lease_table.rs: what `allocate_candidate`
-- promises of the address that it gives, and when it gives none.
use trimrouter.Prelude.{
  ◌≡◌, ◌≢◌, refl, subst, sym, ◌∙◌, ◌↔◌, ◌⊎◌, inl, inr, Bool, true, false, Option, none, some, List,
  [], ◌∷◌, arith, ltb, nat_key, elem, find, Option-cases, Bool-cases,
}
use trimrouter.HashMap
use trimrouter.HashMap.{IsMap}
use trimrouter.Net.{Ipv4Addr, MacAddr, Instant, Ipv4Net, HostsLieInNet}
use trimrouter.DhcpServer.LeaseTable.{
  LeaseTable, StaticLease, evict_expired, is_conflict_active, is_ip_available_for_dynamic,
  next_available_ip, held_ips,
}
use trimrouter.DhcpServer.LeaseTable.Assign.{allocate_candidate, lease_ip}
use trimrouter.DhcpServer.LeaseTable.Cases.{allocate_cases, candidate, usable}
use trimrouter.DhcpServer.LeaseTable.Taken.{
  FreeOfOthers, is_ip_taken_by_other-FreeOfOthers, is_ip_available_for_dynamic-free,
  get-insert_self,
}
use trimrouter.DhcpServer.LeaseTable.Index.{Holds, held_ips-Holds, elem-held_ips}

pub find-true :
    (p : Ipv4Addr → Bool) (xs : List Ipv4Addr) (ip : Ipv4Addr)
    → find p xs ≡ some ip
    → (p ip ≡ true) × (elem ip xs ≡ true)
unfolding find elem
find-true p [] ip h = cc
find-true p (x ∷ xs) ip h = elim (Bool-cases (p x)) [
  | inl hit ↦ ground arith
  | inr miss ↦ ground (arith, find-true p xs ip)
]

find-none :
    (p : Ipv4Addr → Bool) (xs : List Ipv4Addr) (ip : Ipv4Addr)
    → find p xs ≡ none
    → elem ip xs ≡ true
    → p ip ≡ false
unfolding find elem
find-none p [] ip h e = cc
find-none p (x ∷ xs) ip h e = ground (arith, find-none p xs ip)

find-nowhere :
    (p : Ipv4Addr → Bool) (xs : List Ipv4Addr)
    → ((ip : Ipv4Addr) → elem ip xs ≡ true → p ip ≡ false)
    → find p xs ≡ none
unfolding find elem
find-nowhere p [] h = refl
find-nowhere p (x ∷ xs) h =
    rw (h x (ground arith)) (find-nowhere p xs (λ ip e. h ip (ground arith)))

-- What the reservations say of an address for a client: with a reservation it is that one, without
-- one it is nobody's reservation, and no conflict hold on it is active.
abbrev pub Suits : Instant → LeaseTable → Option StaticLease → Ipv4Addr → Type 0
Suits now t (some s) ip = ip ≡ s.ip
Suits now t none ip = (elem ip t.reserved_ips ≡ false) × (is_conflict_active now ip t ≡ false)

-- An address given by `allocate_candidate` on the table `t`, with the table that results.
abbrev pub IsSafe :
    Instant → MacAddr → Ipv4Net → Ipv4Addr → LeaseTable → LeaseTable × Option Ipv4Addr → Type 0
IsSafe now mac net server_ip t (t', none) = Unit {0}
IsSafe now mac net server_ip t (t', some ip) =
    (net.contains ip ≡ true)
    × (ip ≢ server_ip)
    × FreeOfOthers now ip mac t
    × Suits now t (HashMap.get mac t.static_leases) ip
    × (lease_ip (HashMap.get mac t'.by_mac) ≡ some ip)

module _ (now : Instant) (mac : MacAddr) (net : Ipv4Net) (server_ip : Ipv4Addr)
    (t : LeaseTable) where
  allocate_candidate-IsSafe :
      HostsLieInNet net
      → IsSafe now mac net server_ip t (allocate_candidate now mac net server_ip t)
  allocate_candidate-IsSafe law =
      allocate_cases (IsSafe now mac net server_ip t) now mac net server_ip t
        (λ s e c n f. (
          c,
          ground arith,
          is_ip_taken_by_other-FreeOfOthers now s.ip mac t f,
          rw e refl,
          rw (get-insert_self mac (candidate now s.ip s.hostname) t),
        ))
        (λ _ _ _. tt)
        (λ ip e found.
          let (ok, hosted) = find-true (usable now server_ip t) net.hosts ip found in
          let (free, calm, unreserved) = is_ip_available_for_dynamic-free now ip t (ground arith) in
          (
            law.contained ip hosted,
            ground arith,
            λ other l g _ live. free other l g live,
            rw e (unreserved, calm),
            rw (get-insert_self mac (candidate now ip none) _),
          ))
        (λ _ _. tt)

-- The address that `allocate_candidate` gives lies in the network, is not the server's, and no other
-- client has a lease on it that still runs. It is the client's reservation, if there is one, and
-- otherwise not reserved and under no active conflict hold. The table then holds it for the client.
pub allocate_candidate-safe :
    (now : Instant) (mac : MacAddr) (net : Ipv4Net) (server_ip : Ipv4Addr) (t t' : LeaseTable)
    (ip : Ipv4Addr)
    → HostsLieInNet net
    → allocate_candidate now mac net server_ip t ≡ (t', some ip)
    → (net.contains ip ≡ true)
      × (ip ≢ server_ip)
      × FreeOfOthers now ip mac t
      × Suits now t (HashMap.get mac t.static_leases) ip
      × (lease_ip (HashMap.get mac t'.by_mac) ≡ some ip)
allocate_candidate-safe now mac net server_ip t t' ip law e =
    subst (IsSafe now mac net server_ip t) e (allocate_candidate-IsSafe now mac net server_ip t law)

-- Why a host is not given out: it is the server's, reserved, under a conflict hold, or leased.
abbrev pub IsBlocked : Instant → Ipv4Addr → LeaseTable → Ipv4Addr → Type 0
IsBlocked now server_ip t ip =
    (ip ≡ server_ip)
    ⊎ (elem ip t.reserved_ips ≡ true)
    ⊎ (is_conflict_active now ip t ≡ true)
    ⊎ Holds ip t.by_mac

not_usable-IsBlocked :
    (now : Instant) (server_ip : Ipv4Addr) (t : LeaseTable) (ip : Ipv4Addr)
    → IsMap t.by_mac
    → usable now server_ip t ip ≡ false
    → IsBlocked now server_ip (evict_expired now t).0 ip
unfolding is_ip_available_for_dynamic evict_expired
not_usable-IsBlocked now server_ip t ip u h =
    let live = HashMap.retain (λ _ l. ltb now l.expiry) t.by_mac in
    elim (Bool-cases (elem ip (held_ips live))) [
      | inl held ↦ inr (
          inr (
            inr (
              held_ips-Holds ip live (HashMap.retain-IsMap (λ _ l. ltb now l.expiry) t.by_mac u)
                held)))
      | inr free ↦ ground arith
    ]

IsBlocked-not_usable :
    (now : Instant) (server_ip : Ipv4Addr) (t : LeaseTable) (ip : Ipv4Addr)
    → IsBlocked now server_ip (evict_expired now t).0 ip
    → usable now server_ip t ip ≡ false
unfolding is_ip_available_for_dynamic evict_expired
IsBlocked-not_usable now server_ip t ip (inl same) = ground arith
IsBlocked-not_usable now server_ip t ip (inr (inl reserved)) = ground arith
IsBlocked-not_usable now server_ip t ip (inr (inr (inl conflict))) = ground arith
IsBlocked-not_usable now server_ip t ip (inr (inr (inr (mac, l, g, same)))) =
    ground (arith, elem-held_ips mac l (HashMap.retain (λ _ l. ltb now l.expiry) t.by_mac))

dynamic-none :
    (now : Instant) (mac : MacAddr) (net : Ipv4Net) (server_ip : Ipv4Addr) (t : LeaseTable)
    → HashMap.get mac t.static_leases ≡ none
    → (allocate_candidate now mac net server_ip t).1 ≡ find (usable now server_ip t) net.hosts
unfolding allocate_candidate next_available_ip
dynamic-none now mac net server_ip t e =
    elim (Option-cases (find (usable now server_ip t) net.hosts)) [
      | inl f ↦ rw (e, allocate_candidate, f)
      | inr (ip, f) ↦ rw (e, allocate_candidate, f)
    ]

-- A client without a reservation is refused exactly when every host of the network is blocked in
-- the table without its expired entries. The keys of the table are distinct.
pub allocate_candidate-none_iff :
    (now : Instant) (mac : MacAddr) (net : Ipv4Net) (server_ip : Ipv4Addr) (t : LeaseTable)
    → IsMap t.by_mac
    → HashMap.get mac t.static_leases ≡ none
    → ((allocate_candidate now mac net server_ip t).1 ≡ none) ↔ (
        (ip : Ipv4Addr)
        → elem ip net.hosts ≡ true
        → IsBlocked now server_ip (evict_expired now t).0 ip)
allocate_candidate-none_iff now mac net server_ip t u e = (
  λ refused ip hosted. not_usable-IsBlocked now server_ip t ip u (
      find-none (usable now server_ip t) net.hosts ip
        (sym (dynamic-none now mac net server_ip t e) ∙ refused) hosted),
  λ blocked.
      dynamic-none now mac net server_ip t e
      ∙ find-nowhere (usable now server_ip t) net.hosts
          (λ ip hosted. IsBlocked-not_usable now server_ip t ip (blocked ip hosted)),
)
