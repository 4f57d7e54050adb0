-- ===== src/DhcpServer/LeaseTable/Taken.antt =====
-- src/services/dhcp_server/lease_table.rs: what the tests on the leases of other clients mean.
use trimrouter.Prelude.{
  ◌<◌, ◌≡◌, ◌≢◌, true, false, ◌&&◌, not, some, arith, nat_eq, ltb, bytes_eq_iff, nat_key, elem,
  Option-cases, inl, inr,
}
use trimrouter.HashMap
use trimrouter.HashMap.{IsMap}
use trimrouter.Net.{Ipv4Addr, MacAddr, Instant, Hostname}
use trimrouter.DhcpServer.LeaseTable.{
  LeaseTable, ClientLease, insert, is_ip_taken_by_other, is_hostname_taken_by_other, names,
  is_conflict_active, is_ip_available_for_dynamic, evict_expired,
}
use trimrouter.DhcpServer.LeaseTable.Index.{elem-held_ips}

-- No other client has a lease on the address that still runs.
abbrev pub FreeOfOthers : Instant → Ipv4Addr → MacAddr → LeaseTable → Type 0
FreeOfOthers now ip mac t =
    (other : MacAddr) (l : ClientLease)
    → HashMap.get other t.by_mac ≡ some l
    → other ≢ mac
    → now < l.expiry
    → l.ip ≢ ip

-- No other client with a lease that still runs uses the name.
abbrev pub NameFree : Instant → Hostname → MacAddr → LeaseTable → Type 0
NameFree now name mac t =
    (other : MacAddr) (l : ClientLease)
    → HashMap.get other t.by_mac ≡ some l
    → other ≢ mac
    → now < l.expiry
    → l.hostname ≢ some name

pub is_ip_taken_by_other-FreeOfOthers :
    (now : Instant) (ip : Ipv4Addr) (mac : MacAddr) (t : LeaseTable)
    → is_ip_taken_by_other now ip mac t ≡ false
    → FreeOfOthers now ip mac t
unfolding is_ip_taken_by_other
is_ip_taken_by_other-FreeOfOthers now ip mac t h other l g ne live same = ground (
  arith,
  HashMap.any-get (λ e. nat_eq e.1.ip ip && ltb now e.1.expiry && not (nat_eq e.0 mac)) other l
      t.by_mac h g,
)

pub is_hostname_taken_by_other-NameFree :
    (now : Instant) (name : Hostname) (mac : MacAddr) (t : LeaseTable)
    → is_hostname_taken_by_other now name mac t ≡ false
    → NameFree now name mac t
unfolding is_hostname_taken_by_other
is_hostname_taken_by_other-NameFree now name mac t h other l g ne live same = ground (
  arith,
  bytes_eq_iff name name,
  HashMap.any-get (λ e. not (nat_eq e.0 mac) && ltb now e.1.expiry && names name e.1.hostname) other
      l t.by_mac h g,
)

-- An address that is free for a dynamic client, once what expired is gone: no client at all has a
-- lease on it that still runs, no conflict hold on it is active, and it is not reserved.
pub is_ip_available_for_dynamic-free :
    (now : Instant) (ip : Ipv4Addr) (t : LeaseTable)
    → is_ip_available_for_dynamic now ip (evict_expired now t).0 ≡ true
    → ((other : MacAddr) (l : ClientLease)
        → HashMap.get other t.by_mac ≡ some l
        → now < l.expiry
        → l.ip ≢ ip)
      × (is_conflict_active now ip t ≡ false)
      × (elem ip t.reserved_ips ≡ false)
unfolding is_ip_available_for_dynamic evict_expired
is_ip_available_for_dynamic-free now ip t h = (
  λ other l g live same. ground (
    arith,
    HashMap.get-retain_kept (λ _ k. ltb now k.expiry) other l t.by_mac,
    elem-held_ips other l (HashMap.retain (λ _ k. ltb now k.expiry) t.by_mac),
  ),
  elim (Option-cases (HashMap.get ip t.conflicts)) [
    | inl e ↦ rw (e, is_conflict_active)
    | inr (expiry, e) ↦
        ground (arith, HashMap.get-retain_kept (λ _ x. ltb now x) ip expiry t.conflicts)
  ],
  ground arith,
)

pub get-insert_self :
    (mac : MacAddr) (l : ClientLease) (t : LeaseTable)
    → HashMap.get mac (insert mac l t).by_mac ≡ some l
unfolding insert
get-insert_self mac l t = ground (arith, HashMap.get-insert mac mac l t.by_mac)
