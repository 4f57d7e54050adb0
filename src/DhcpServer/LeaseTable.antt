-- ===== src/DhcpServer/LeaseTable.antt =====
-- src/services/dhcp_server/lease_table.rs: `LeaseTable` and its methods. Each method takes the time that it reads
-- from `Instant::now()` as `now`, one reading for a call.
pub mod Assign
pub mod Actor
pub mod Index
pub mod Rule
pub mod Cases
pub mod Taken
pub mod Eviction
pub mod Allocation
pub mod Confirmation
pub mod Unique
pub mod Reserved
use trimrouter.Prelude.{
  ℕ, ◌+◌, ◌-◌, ◌/◌, ◌≡◌, Bool, true, false, ◌&&◌, ◌||◌, not, Option, none, some, List, [], ◌∷◌,
  ◌++◌, map, if◌then◌else◌, nat_eq, ltb, bytes_eq, is_some, any, find, elem, nat_key,
}
use trimrouter.HashMap
use trimrouter.HashSet
use trimrouter.Net.{
  Ipv4Addr, MacAddr, Instant, Duration, Hostname, Ipv4Net, MacLib, from_secs, nanos_per_sec,
}

pub record ClientLease : Type 0 where
  pub ip : Ipv4Addr
  pub expiry : Instant
  pub hostname : Option Hostname

-- src/config.rs
pub record StaticLease : Type 0 where
  pub mac : MacAddr
  pub ip : Ipv4Addr
  pub hostname : Option Hostname

pub record LeaseTable : Type 0 where
  pub by_mac : List (MacAddr × ClientLease)
  pub allocated_ips : List Ipv4Addr
  pub conflicts : List (Ipv4Addr × Instant)
  pub static_leases : List (MacAddr × StaticLease)
  pub reserved_ips : List Ipv4Addr

pub record LeaseConfirmation : Type 0 where
  pub ip : Ipv4Addr
  pub hostname : Option Hostname
  pub old_hostname_to_deregister : Option Hostname

abbrev pub candidate_hold_duration : Duration
candidate_hold_duration = from_secs 10

abbrev pub neighbor_hold_duration : Duration
neighbor_hold_duration = from_secs 300

-- `LeaseTable::default`
abbrev pub new : LeaseTable
new = record {
  by_mac = [];
  allocated_ips = [];
  conflicts = [];
  static_leases = [];
  reserved_ips = [];
}

unfoldable pub get : MacAddr → LeaseTable → Option ClientLease
get mac t = HashMap.get mac t.by_mac

unfoldable pub remove : MacAddr → LeaseTable → LeaseTable × Option ClientLease
remove mac t = elim (HashMap.get mac t.by_mac) [
  | none ↦ (t, none)
  | some lease ↦ (
    record t {
      by_mac = HashMap.remove mac t.by_mac;
      allocated_ips = HashSet.remove lease.ip t.allocated_ips;
    },
    some lease,
  )
]

-- The index without the address that `mac` gives up.
abbrev pub forget_ip : Option ClientLease → List Ipv4Addr → List Ipv4Addr
forget_ip none ips = ips
forget_ip (some old) ips = HashSet.remove old.ip ips

unfoldable pub insert : MacAddr → ClientLease → LeaseTable → LeaseTable
insert mac lease t = record t {
  by_mac = HashMap.insert mac lease t.by_mac;
  allocated_ips = HashSet.insert lease.ip (forget_ip (HashMap.get mac t.by_mac) t.allocated_ips);
}

-- The lease of a client whose reservation names another address goes.
unfoldable pub drop_moved : StaticLease → LeaseTable → LeaseTable
unfolding remove
drop_moved lease t = elim (HashMap.get lease.mac t.by_mac) [
  | none ↦ t
  | some existing ↦ if nat_eq existing.ip lease.ip then t else (remove lease.mac t).0
]

-- The loop of `set_static_leases`, over its local `map` and `reserved_ips`.
unfoldable pub set_static_loop :
    List StaticLease → LeaseTable → List (MacAddr × StaticLease) → List Ipv4Addr → LeaseTable
unfolding drop_moved
set_static_loop [] t statics reserved = record t {
  static_leases = statics;
  reserved_ips = reserved;
}
set_static_loop (lease ∷ rest) t statics reserved =
    set_static_loop rest (drop_moved lease t) (HashMap.insert lease.mac lease statics)
      (HashSet.insert lease.ip reserved)

unfoldable pub set_static_leases : List StaticLease → LeaseTable → LeaseTable
set_static_leases leases t = set_static_loop leases t [] []

-- The loop of `with_static_leases`.
unfoldable pub with_static_loop :
    List StaticLease → List (MacAddr × StaticLease) → List Ipv4Addr → LeaseTable
with_static_loop [] statics reserved = record new {
  static_leases = statics;
  reserved_ips = reserved;
}
with_static_loop (lease ∷ rest) statics reserved =
    with_static_loop rest (HashMap.insert lease.mac lease statics)
      (HashSet.insert lease.ip reserved)

unfoldable pub with_static_leases : List StaticLease → LeaseTable
unfolding with_static_loop
with_static_leases leases = with_static_loop leases [] []

-- `lease.hostname.as_deref() == Some(hostname)`
abbrev pub names : Hostname → Option Hostname → Bool
names hostname none = false
names hostname (some h) = bytes_eq h hostname

unfoldable pub is_hostname_taken_by_other : Instant → Hostname → MacAddr → LeaseTable → Bool
is_hostname_taken_by_other now hostname client_mac t =
    any (λ e. not (nat_eq e.0 client_mac) && ltb now e.1.expiry && names hostname e.1.hostname)
      t.by_mac

unfoldable pub is_conflict_active : Instant → Ipv4Addr → LeaseTable → Bool
is_conflict_active now ip t = elim (HashMap.get ip t.conflicts) [
  | none ↦ false
  | some expiry ↦ ltb now expiry
]

unfoldable pub is_ip_available : Instant → Ipv4Addr → LeaseTable → Bool
unfolding is_conflict_active
is_ip_available now ip t = not (elem ip t.allocated_ips) && not (is_conflict_active now ip t)

unfoldable pub is_ip_available_for_dynamic : Instant → Ipv4Addr → LeaseTable → Bool
unfolding is_ip_available
is_ip_available_for_dynamic now ip t = is_ip_available now ip t && not (elem ip t.reserved_ips)

unfoldable pub record_conflict : Instant → Ipv4Addr → Duration → LeaseTable → LeaseTable
record_conflict now ip duration t = record t {
  conflicts = HashMap.insert ip (now + duration) t.conflicts;
}

unfoldable pub is_ip_taken_by_other : Instant → Ipv4Addr → MacAddr → LeaseTable → Bool
is_ip_taken_by_other now ip client_mac t =
    any (λ e. nat_eq e.1.ip ip && ltb now e.1.expiry && not (nat_eq e.0 client_mac)) t.by_mac

-- The names that the closure of `retain` collects.
unfoldable pub expired_hostnames : Instant → List (MacAddr × ClientLease) → List Hostname
expired_hostnames now [] = []
expired_hostnames now ((mac, l) ∷ m) =
    let rest = expired_hostnames now m in
    if ltb now l.expiry then rest else elim l.hostname [ none ↦ rest | some h ↦ h ∷ rest ]

-- `by_mac.values().map(|l| l.ip).collect()`
unfoldable pub held_ips : List (MacAddr × ClientLease) → List Ipv4Addr
held_ips [] = []
held_ips ((mac, l) ∷ m) = HashSet.insert l.ip (held_ips m)

unfoldable pub evict_expired : Instant → LeaseTable → LeaseTable × List Hostname
unfolding expired_hostnames held_ips
evict_expired now t =
    let live = HashMap.retain (λ _ l. ltb now l.expiry) t.by_mac in
    (
      record t {
        by_mac = live;
        allocated_ips = held_ips live;
        conflicts = HashMap.retain (λ _ expiry. ltb now expiry) t.conflicts;
      },
      expired_hostnames now t.by_mac,
    )

unfoldable pub next_available_ip :
    Instant → Ipv4Net → Ipv4Addr → LeaseTable → LeaseTable × Option Ipv4Addr
unfolding evict_expired is_ip_available_for_dynamic
next_available_ip now net server_ip t =
    let t' = (evict_expired now t).0 in
    (t', find (λ ip. not (nat_eq ip server_ip) && is_ip_available_for_dynamic now ip t') net.hosts)

unfoldable pub get_mac_by_ip : Instant → Ipv4Addr → LeaseTable → Option MacAddr
get_mac_by_ip now ip t = elim (find (λ e. nat_eq e.1.ip ip && ltb now e.1.expiry) t.by_mac) [
  | none ↦ none
  | some e ↦ some e.0
]
