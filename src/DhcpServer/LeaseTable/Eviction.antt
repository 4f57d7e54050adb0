-- ===== src/DhcpServer/LeaseTable/Eviction.antt =====
-- src/services/dhcp_server/lease_table.rs: `evict_expired`, which makes the index exact again, and
-- `remove`, which may leave it short.
use trimrouter.Prelude.{
  ◌≡◌, ◌≢◌, ap, ◌↔◌, inl, inr, Bool, true, false, ◌&&◌, not, Option, none, some, List, [], ◌∷◌,
  arith, ltb, bytes_eq, bytes_eq_iff, nat_key, if◌then◌else◌, elem, any, Option-cases, Bool-cases,
}
use trimrouter.HashMap
use trimrouter.HashMap.{IsMap}
use trimrouter.HashSet
use trimrouter.Net.{Ipv4Addr, MacAddr, Instant, Hostname}
use trimrouter.DhcpServer.LeaseTable.{
  LeaseTable, ClientLease, names, remove, evict_expired, expired_hostnames,
}
use trimrouter.DhcpServer.LeaseTable.Index.{Holds, held_ips-Holds, elem-held_ips}

-- The client's lease, if it still runs.
abbrev pub running : Instant → Option ClientLease → Option ClientLease
running now none = none
running now (some l) = if ltb now l.expiry then some l else none

-- After an eviction the table has exactly the leases that still run, and the index has exactly the
-- addresses that they hold. The keys of the table are distinct.
pub evict_expired_lem :
    (now : Instant) (t : LeaseTable)
    → IsMap t.by_mac
    → ((mac : MacAddr)
        → HashMap.get mac (evict_expired now t).0.by_mac ≡ running now (HashMap.get mac t.by_mac))
      × ((ip : Ipv4Addr)
          → (elem ip (evict_expired now t).0.allocated_ips ≡ true)
            ↔ Holds ip (evict_expired now t).0.by_mac)
unfolding evict_expired
evict_expired_lem now t u = (
  λ mac. elim (Option-cases (HashMap.get mac t.by_mac)) [
    | inl e ↦ rw e (rw (HashMap.get-retain (λ _ l. ltb now l.expiry) mac t.by_mac u, e))
    | inr (l, e) ↦ rw e (rw (HashMap.get-retain (λ _ l. ltb now l.expiry) mac t.by_mac u, e))
  ],
  λ ip. (
    held_ips-Holds ip _ (HashMap.retain-IsMap (λ _ l. ltb now l.expiry) t.by_mac u),
    λ (mac, l, g, same). rw (← same) (elem-held_ips mac l _ g),
  ),
)

-- Some lease that has run out carries the name.
abbrev pub HasExpired : Instant → Hostname → List (MacAddr × ClientLease) → Type 0
HasExpired now name m =
    (mac : MacAddr) × (l : ClientLease) × (HashMap.get mac m ≡ some l)
    × (ltb now l.expiry ≡ false)
    × (l.hostname ≡ some name)

abbrev pub listed : Hostname → List Hostname → Bool
listed name = any (λ h. bytes_eq h name)

HasExpired-cons :
    (now : Instant) (name : Hostname) (mac : MacAddr) (x : ClientLease)
    (m : List (MacAddr × ClientLease))
    → HashMap.get mac m ≡ none
    → HasExpired now name m
    → HasExpired now name ((mac, x) ∷ m)
unfolding HashMap.get
HasExpired-cons now name mac x m fresh (other, l, g, late, n) = (other, l, ground arith, late, n)

names-eq : (name : Hostname) (h : Option Hostname) → names name h ≡ true → h ≡ some name
names-eq name none e = cc
names-eq name (some x) e = ap some ((bytes_eq_iff x name).0 e)

expired_hostnames-HasExpired :
    (now : Instant) (name : Hostname) (m : List (MacAddr × ClientLease))
    → IsMap m
    → listed name (expired_hostnames now m) ≡ true
    → HasExpired now name m
unfolding expired_hostnames any HashMap.get
expired_hostnames-HasExpired now name [] u h = cc
expired_hostnames-HasExpired now name ((mac, l) ∷ m) u h =
    elim (Bool-cases (not (ltb now l.expiry) && names name l.hostname)) [
      | inl here ↦ (mac, l, ground arith, ground arith, ground (arith, names-eq name l.hostname))
      | inr later ↦
          HasExpired-cons now name mac l m u.0
            (expired_hostnames-HasExpired now name m u.1 (ground arith))
    ]

HasExpired-expired_hostnames :
    (now : Instant) (name : Hostname) (mac : MacAddr) (l : ClientLease)
    (m : List (MacAddr × ClientLease))
    → HashMap.get mac m ≡ some l
    → ltb now l.expiry ≡ false
    → l.hostname ≡ some name
    → listed name (expired_hostnames now m) ≡ true
unfolding expired_hostnames any HashMap.get
HasExpired-expired_hostnames now name mac l [] g x n = cc
HasExpired-expired_hostnames now name mac l ((other, k) ∷ m) g x n =
    ground (arith, HasExpired-expired_hostnames now name mac l m, bytes_eq_iff name name)

-- `evict_expired` returns exactly the names of the leases that have run out. The keys of the table
-- are distinct.
pub evict_expired-hostnames_iff :
    (now : Instant) (t : LeaseTable) (name : Hostname)
    → IsMap t.by_mac
    → (listed name (evict_expired now t).1 ≡ true) ↔ HasExpired now name t.by_mac
unfolding evict_expired
evict_expired-hostnames_iff now t name u = (
  expired_hostnames-HasExpired now name t.by_mac u,
  λ (mac, l, g, late, n). HasExpired-expired_hostnames now name mac l t.by_mac g late n,
)

-- The doc of `LeaseTable` says that an address is in the index if and only if an entry has it. Where
-- two clients share an address, removing the lease of one takes the address out of the index
-- though the other still holds it.
pub remove-unindexed :
    (t : LeaseTable) (mac other : MacAddr) (l k : ClientLease)
    → HashMap.get mac t.by_mac ≡ some l
    → HashMap.get other t.by_mac ≡ some k
    → mac ≢ other
    → l.ip ≡ k.ip
    → (HashMap.get other (remove mac t).0.by_mac ≡ some k)
      × (elem k.ip (remove mac t).0.allocated_ips ≡ false)
unfolding remove
remove-unindexed t mac other l k g h ne same =
    rw (g, remove)
      (
        ground (arith, HashMap.get-remove mac other t.by_mac),
        ground (arith, HashSet.elem-remove l.ip k.ip t.allocated_ips),
      )
