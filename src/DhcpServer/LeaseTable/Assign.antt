-- ===== src/DhcpServer/LeaseTable/Assign.antt =====
-- src/services/dhcp_server/lease_table.rs: the methods of `LeaseTable` that give an address to a
-- client, and the list of leases for the status page.
use trimrouter.Prelude.{
  ℕ, ◌+◌, ◌-◌, ◌/◌, Bool, true, false, ◌&&◌, ◌||◌, not, Option, none, some, List, [], ◌∷◌, ◌++◌,
  if◌then◌else◌, nat_eq, ltb, bytes_eq, elem, nat_key,
}
use trimrouter.HashMap
use trimrouter.HashMap.{contains_key}
use trimrouter.HashSet
use trimrouter.Net.{Ipv4Addr, MacAddr, Instant, Duration, Hostname, Ipv4Net, MacLib, nanos_per_sec}
use trimrouter.DhcpServer.LeaseTable.{
  LeaseTable, ClientLease, StaticLease, LeaseConfirmation, get, insert, next_available_ip,
  is_ip_taken_by_other, is_hostname_taken_by_other, candidate_hold_duration, neighbor_hold_duration,
}

-- The reserved address of a client that has a reservation.
unfoldable pub allocate_reserved :
    Instant → MacAddr → Ipv4Net → Ipv4Addr → StaticLease → LeaseTable → LeaseTable × Option Ipv4Addr
allocate_reserved now client_mac net server_ip static_lease t =
    if net.contains static_lease.ip
      && not (nat_eq static_lease.ip server_ip)
      && not (is_ip_taken_by_other now static_lease.ip client_mac t)
    then (
      insert client_mac
          (record {
            ip = static_lease.ip;
            expiry = now + candidate_hold_duration;
            hostname = static_lease.hostname;
          })
          t,
      some static_lease.ip,
    )
    else (t, none)

-- What follows `next_available_ip` in `allocate_candidate`.
unfoldable pub hold_candidate :
    Instant → MacAddr → LeaseTable × Option Ipv4Addr → LeaseTable × Option Ipv4Addr
hold_candidate now client_mac (t, none) = (t, none)
hold_candidate now client_mac (t, some ip) = (
  insert client_mac (record { ip = ip; expiry = now + candidate_hold_duration; hostname = none }) t,
  some ip,
)

unfoldable pub allocate_candidate :
    Instant → MacAddr → Ipv4Net → Ipv4Addr → LeaseTable → LeaseTable × Option Ipv4Addr
unfolding allocate_reserved hold_candidate
allocate_candidate now client_mac net server_ip t = elim (HashMap.get client_mac t.static_leases) [
  | some static_lease ↦ allocate_reserved now client_mac net server_ip static_lease t
  | none ↦ hold_candidate now client_mac (next_available_ip now net server_ip t)
]

abbrev pub or_else {ℓ} : {A : Type ℓ} → Option A → Option A → Option A
or_else none b = b
or_else (some a) b = some a

abbrev pub lease_ip : Option ClientLease → Option Ipv4Addr
lease_ip none = none
lease_ip (some l) = some l.ip

abbrev pub lease_hostname : Option ClientLease → Option Hostname
lease_hostname none = none
lease_hostname (some l) = l.hostname

abbrev pub static_hostname : Option StaticLease → Option Hostname
static_hostname none = none
static_hostname (some s) = s.hostname

-- `target_hostname.filter(..)`: a name that another client uses is not given.
unfoldable pub effective_hostname :
    Instant → MacAddr → Option Hostname → LeaseTable → Option Hostname
effective_hostname now client_mac none t = none
effective_hostname now client_mac (some base) t =
    if is_hostname_taken_by_other now base client_mac t then none else some base

-- The `match` on the old name and the new one.
unfoldable pub old_hostname_to_deregister : Option Hostname → Option Hostname → Option Hostname
old_hostname_to_deregister (some old) (some name) = if bytes_eq old name then none else some old
old_hostname_to_deregister (some old) none = some old
old_hostname_to_deregister none _ = none

-- The two validations of `validate_and_confirm`: of the address, and of the reservations.
unfoldable pub refuses_ip : Instant → MacAddr → Ipv4Addr → Ipv4Net → Ipv4Addr → LeaseTable → Bool
refuses_ip now client_mac server_ip net target_ip t =
    nat_eq target_ip server_ip
    || nat_eq target_ip net.network
    || nat_eq target_ip net.broadcast
    || not (net.contains target_ip)
    || is_ip_taken_by_other now target_ip client_mac t

unfoldable pub refuses_reservation : Option StaticLease → Ipv4Addr → LeaseTable → Bool
refuses_reservation (some s) target_ip t = not (nat_eq target_ip s.ip)
refuses_reservation none target_ip t = elem target_ip t.reserved_ips

-- What `validate_and_confirm` does with an address that passed.
unfoldable pub confirm :
    Instant
    → MacAddr
    → Ipv4Addr
    → Duration
    → Option Hostname
    → LeaseTable
    → LeaseTable × LeaseConfirmation
unfolding effective_hostname old_hostname_to_deregister
confirm now client_mac target_ip duration requested_hostname t =
    let static_lease = HashMap.get client_mac t.static_leases in
    let hostname =
      effective_hostname now client_mac (or_else (static_hostname static_lease) requested_hostname)
        t in
    (
      insert client_mac (record { ip = target_ip; expiry = now + duration; hostname = hostname }) t,
      record {
        ip = target_ip;
        hostname = hostname;
        old_hostname_to_deregister =
            old_hostname_to_deregister (lease_hostname (get client_mac t)) hostname;
      },
    )

unfoldable pub validate_and_confirm :
    Instant
    → MacAddr
    → Option Ipv4Addr
    → Ipv4Addr
    → Ipv4Net
    → Duration
    → Option Hostname
    → LeaseTable
    → LeaseTable × Option LeaseConfirmation
validate_and_confirm now client_mac requested_ip server_ip net duration requested_hostname t =
    elim (or_else requested_ip (lease_ip (get client_mac t))) [
      | none ↦ (t, none)
      | some target_ip ↦
          if refuses_ip now client_mac server_ip net target_ip t
            || refuses_reservation (HashMap.get client_mac t.static_leases) target_ip t
          then (t, none)
          else (
            (confirm now client_mac target_ip duration requested_hostname t).0,
            some (confirm now client_mac target_ip duration requested_hostname t).1,
          )
    ]

-- A reservation that names another address refuses the neighbor.
abbrev pub reserved_elsewhere : Option StaticLease → Ipv4Addr → Bool
reserved_elsewhere none ip = false
reserved_elsewhere (some s) ip = not (nat_eq ip s.ip)

abbrev pub has_ip : Option ClientLease → Ipv4Addr → Bool
has_ip none ip = false
has_ip (some l) ip = nat_eq l.ip ip

unfoldable pub update_from_neighbor :
    MacLib → Instant → MacAddr → Ipv4Addr → LeaseTable → LeaseTable
update_from_neighbor lib now mac ip t =
    if (nat_eq mac lib.zero_mac || nat_eq mac lib.broadcast_mac)
      || reserved_elsewhere (HashMap.get mac t.static_leases) ip
      || has_ip (get mac t) ip
    then t
    else insert mac
        (record {
          ip = ip;
          expiry = now + neighbor_hold_duration;
          hostname = static_hostname (HashMap.get mac t.static_leases);
        })
        t

-- src/services/ipc.rs
pub record DhcpLeaseInfo : Type 0 where
  pub mac : MacAddr
  pub ip : Ipv4Addr
  pub hostname : Option Hostname
  pub expires_in_seconds : ℕ
  pub is_static : Bool

-- The first loop of `get_active_leases`; `active_macs` are the addresses of its entries.
unfoldable pub active_entries :
    Instant → List (MacAddr × StaticLease) → List (MacAddr × ClientLease) → List DhcpLeaseInfo
active_entries now statics [] = []
active_entries now statics ((mac, lease) ∷ m) =
    let rest = active_entries now statics m in
    if ltb now lease.expiry
    then record {
      mac = mac;
      ip = lease.ip;
      hostname = lease.hostname;
      expires_in_seconds = (lease.expiry - now) / nanos_per_sec;
      is_static = contains_key mac statics;
    }
      ∷ rest
    else rest

unfoldable pub active_macs : Instant → List (MacAddr × ClientLease) → List MacAddr
active_macs now [] = []
active_macs now ((mac, lease) ∷ m) =
    let rest = active_macs now m in if ltb now lease.expiry then HashSet.insert mac rest else rest

-- Its second loop: the reservations with no active lease.
unfoldable pub inactive_statics : List MacAddr → List (MacAddr × StaticLease) → List DhcpLeaseInfo
inactive_statics active [] = []
inactive_statics active ((mac, static_lease) ∷ m) =
    let rest = inactive_statics active m in
    if elem mac active
    then rest
    else record {
      mac = mac;
      ip = static_lease.ip;
      hostname = static_lease.hostname;
      expires_in_seconds = 0;
      is_static = true;
    }
      ∷ rest

unfoldable pub get_active_leases : Instant → LeaseTable → List DhcpLeaseInfo
unfolding active_entries active_macs inactive_statics
get_active_leases now t =
    active_entries now t.static_leases t.by_mac
    ++ inactive_statics (active_macs now t.by_mac) t.static_leases
