-- ===== src/DhcpServer/LeaseTable/Index.antt =====
-- src/services/dhcp_server/lease_table.rs: the index `allocated_ips` against the leases in `by_mac`.
use trimrouter.Prelude.{
  ◌≡◌, ◌≢◌, inl, inr, true, none, some, List, [], ◌∷◌, arith, nat_eq, ltb, nat_key, Bool-cases,
  Option-cases, elem,
}
use trimrouter.HashMap
use trimrouter.HashMap.{IsMap}
use trimrouter.HashSet
use trimrouter.Net.{Ipv4Addr, MacAddr, Instant, MacLib}
use trimrouter.DhcpServer.LeaseTable.Actor.{ActorEvent, run_lease_actor_loop}
use trimrouter.DhcpServer.LeaseTable.Rule.{actor_run-rule}
use trimrouter.DhcpServer.LeaseTable.{
  LeaseTable, ClientLease, new, insert, remove, held_ips, evict_expired, forget_ip,
}

-- Some entry of the map has the address.
abbrev pub Holds : Ipv4Addr → List (MacAddr × ClientLease) → Type 0
Holds ip m = (mac : MacAddr) × (l : ClientLease) × (HashMap.get mac m ≡ some l) × (l.ip ≡ ip)

-- Keys are distinct, and every indexed address is held.
pub record IndexSound (t : LeaseTable) : Type 0 where
  pub distinct : IsMap t.by_mac
  pub sound : (ip : Ipv4Addr) → elem ip t.allocated_ips ≡ true → Holds ip t.by_mac

insert_other :
    (mac : MacAddr) (lease : ClientLease) (t : LeaseTable) (ip : Ipv4Addr)
    → lease.ip ≢ ip
    → elem ip (insert mac lease t).allocated_ips ≡ true
    → Holds ip t.by_mac
    → Holds ip (insert mac lease t).by_mac
unfolding insert
insert_other mac lease t ip ne e (other, l, g, same) = (
  other,
  l,
  ground (
    arith,
    HashMap.get-insert mac other lease t.by_mac,
    HashSet.elem-insert lease.ip ip (forget_ip (HashMap.get mac t.by_mac) t.allocated_ips),
    HashSet.elem-remove l.ip ip t.allocated_ips,
  ),
  same,
)

still_indexed :
    (mac : MacAddr) (lease : ClientLease) (t : LeaseTable) (ip : Ipv4Addr)
    → lease.ip ≢ ip
    → elem ip (insert mac lease t).allocated_ips ≡ true
    → elem ip t.allocated_ips ≡ true
unfolding insert
still_indexed mac lease t ip ne e = elim (Option-cases (HashMap.get mac t.by_mac)) [
  | inl n ↦ ground (arith, HashSet.elem-insert lease.ip ip t.allocated_ips)
  | inr (old, o) ↦ ground (
    arith,
    HashSet.elem-insert lease.ip ip (HashSet.remove old.ip t.allocated_ips),
    HashSet.elem-remove old.ip ip t.allocated_ips,
  )
]

pub insert-IndexSound :
    (mac : MacAddr) (lease : ClientLease) (t : LeaseTable)
    → IndexSound t
    → IndexSound (insert mac lease t)
unfolding insert
insert-IndexSound mac lease t v = record {
  distinct = HashMap.insert-IsMap mac lease t.by_mac v.distinct;
  sound = λ ip e. elim (Bool-cases (nat_eq lease.ip ip)) [
    | inl same ↦
        (mac, lease, ground (arith, HashMap.get-insert mac mac lease t.by_mac), ground arith)
    | inr ne ↦
        insert_other mac lease t ip (ground arith) e
          (v.sound ip (still_indexed mac lease t ip (ground arith) e))
  ];
}

remove_other :
    (mac : MacAddr) (old : ClientLease) (t : LeaseTable) (ip : Ipv4Addr)
    → HashMap.get mac t.by_mac ≡ some old
    → elem ip (HashSet.remove old.ip t.allocated_ips) ≡ true
    → Holds ip t.by_mac
    → Holds ip (HashMap.remove mac t.by_mac)
remove_other mac old t ip o e (other, l, g, same) = (
  other,
  l,
  ground (
    arith,
    HashMap.get-remove mac other t.by_mac,
    HashSet.elem-remove l.ip ip t.allocated_ips,
    HashSet.elem-remove old.ip ip t.allocated_ips,
  ),
  same,
)

pub remove-IndexSound :
    (mac : MacAddr) (t : LeaseTable) → IndexSound t → IndexSound (remove mac t).0
unfolding remove
remove-IndexSound mac t v = elim (Option-cases (HashMap.get mac t.by_mac)) [
  | inl n ↦ rw (n, remove) v
  | inr (old, o) ↦
      rw (o, remove)
        (record {
          distinct = HashMap.remove-IsMap mac t.by_mac v.distinct;
          sound = λ ip e.
              remove_other mac old t ip o e
                (v.sound ip (ground (arith, HashSet.elem-remove old.ip ip t.allocated_ips)));
        })
]

-- Every entry's address is in the set of the values' addresses, and nothing else is.
pub elem-held_ips :
    (mac : MacAddr) (l : ClientLease) (m : List (MacAddr × ClientLease))
    → HashMap.get mac m ≡ some l
    → elem l.ip (held_ips m) ≡ true
unfolding HashMap.get held_ips
elem-held_ips mac l [] g = cc
elem-held_ips mac l ((other, x) ∷ m) g =
    ground (arith, elem-held_ips mac l m, HashSet.elem-insert x.ip l.ip (held_ips m))

Holds-cons :
    (mac : MacAddr) (x : ClientLease) (m : List (MacAddr × ClientLease)) (ip : Ipv4Addr)
    → HashMap.get mac m ≡ none
    → Holds ip m
    → Holds ip ((mac, x) ∷ m)
unfolding HashMap.get
Holds-cons mac x m ip fresh (other, l, g, same) = (other, l, ground arith, same)

pub held_ips-Holds :
    (ip : Ipv4Addr) (m : List (MacAddr × ClientLease))
    → IsMap m
    → elem ip (held_ips m) ≡ true
    → Holds ip m
unfolding HashMap.get held_ips elem
held_ips-Holds ip [] u e = cc
held_ips-Holds ip ((mac, x) ∷ m) u e = elim (Bool-cases (nat_eq x.ip ip)) [
  | inl same ↦ (mac, x, ground arith, ground arith)
  | inr ne ↦
      Holds-cons mac x m ip u.0
        (held_ips-Holds ip m u.1 (ground (arith, HashSet.elem-insert x.ip ip (held_ips m))))
]

pub evict-IndexSound :
    (now : Instant) (t : LeaseTable) → IndexSound t → IndexSound (evict_expired now t).0
unfolding evict_expired
evict-IndexSound now t v =
    let u = HashMap.retain-IsMap (λ _ l. ltb now l.expiry) t.by_mac v.distinct in
    record { distinct = u; sound = λ ip e. held_ips-Holds ip _ u e }

new-IndexSound : IndexSound new
unfolding elem
new-IndexSound = record { distinct = tt; sound = λ ip e. cc }

-- After any history of commands and cleanups from the empty table, the keys of `by_mac` are
-- distinct and every address in the index is held by some entry.
pub run_lease_actor_loop-IndexSound :
    (lib : MacLib) (evs : List (Instant × ActorEvent)) → IndexSound (run_lease_actor_loop lib evs)
unfolding run_lease_actor_loop
run_lease_actor_loop-IndexSound lib evs =
    actor_run-rule IndexSound (λ t c s r v. record { distinct = v.distinct; sound = v.sound })
      insert-IndexSound remove-IndexSound evict-IndexSound lib evs new new-IndexSound
