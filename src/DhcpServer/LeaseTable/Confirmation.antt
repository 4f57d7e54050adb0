-- ===== src/DhcpServer/LeaseTable/Confirmation.antt =====
-- src/services/dhcp_server/lease_table.rs: what `validate_and_confirm`
-- promises of the lease that it confirms, and of a request that it refuses.
use trimrouter.Prelude.{◌+◌, ◌≡◌, ◌≢◌, refl, true, false, Option, none, some, arith, nat_key, elem}
use trimrouter.HashMap
use trimrouter.HashMap.{IsMap}
use trimrouter.Net.{Ipv4Addr, MacAddr, Instant, Duration, Hostname, Ipv4Net}
use trimrouter.DhcpServer.LeaseTable.{LeaseTable, StaticLease, LeaseConfirmation, get}
use trimrouter.DhcpServer.LeaseTable.Assign.{
  validate_and_confirm, confirm, effective_hostname, refuses_ip, refuses_reservation, or_else,
  lease_ip,
}
use trimrouter.DhcpServer.LeaseTable.Cases.{validate_cases}
use trimrouter.DhcpServer.LeaseTable.Taken.{
  FreeOfOthers, NameFree, is_ip_taken_by_other-FreeOfOthers, is_hostname_taken_by_other-NameFree,
  get-insert_self,
}

-- The reservations allow the client the address: its own one, or nobody's.
abbrev pub Respects : Option StaticLease → Ipv4Addr → LeaseTable → Type 0
Respects (some s) ip t = ip ≡ s.ip
Respects none ip t = elem ip t.reserved_ips ≡ false

refuses_reservation-Respects :
    (s : Option StaticLease) (ip : Ipv4Addr) (t : LeaseTable)
    → refuses_reservation s ip t ≡ false
    → Respects s ip t
unfolding refuses_reservation
refuses_reservation-Respects (some s) ip t h = ground arith
refuses_reservation-Respects none ip t h = h

-- What `validate_and_confirm` confirms, in the table `t`.
abbrev pub IsConfirmed :
    Instant → MacAddr → Ipv4Addr → Ipv4Net → LeaseTable → Ipv4Addr → Option Hostname → Type 0
IsConfirmed now mac server_ip net t ip name =
    (ip ≢ server_ip)
    × (ip ≢ net.network)
    × (ip ≢ net.broadcast)
    × (net.contains ip ≡ true)
    × FreeOfOthers now ip mac t
    × Respects (HashMap.get mac t.static_leases) ip t
    × ((h : Hostname) → name ≡ some h → NameFree now h mac t)

effective_hostname-NameFree :
    (now : Instant) (mac : MacAddr) (name : Option Hostname) (t : LeaseTable) (h : Hostname)
    → effective_hostname now mac name t ≡ some h
    → NameFree now h mac t
unfolding effective_hostname
effective_hostname-NameFree now mac none t h e = absurd (ground arith)
effective_hostname-NameFree now mac (some base) t h e =
    is_hostname_taken_by_other-NameFree now h mac t (ground arith)

abbrev pub Outcome :
    Instant
    → MacAddr
    → Option Ipv4Addr
    → Ipv4Addr
    → Ipv4Net
    → Duration
    → LeaseTable
    → LeaseTable × Option LeaseConfirmation
    → Type 0
Outcome now mac requested server_ip net duration t (t', none) = t' ≡ t
Outcome now mac requested server_ip net duration t (t', some c) =
    IsConfirmed now mac server_ip net t c.ip c.hostname
    × (or_else requested (lease_ip (HashMap.get mac t.by_mac)) ≡ some c.ip)
    × (HashMap.get mac t'.by_mac
        ≡ some (record { ip = c.ip; expiry = now + duration; hostname = c.hostname }))

-- A refused request leaves the table as it was. A confirmed one gives the requested address, or else
-- the client's present one; it lies in the network and is none of the server's, network and broadcast
-- addresses; no other client has a lease on it, or uses the confirmed name, that still runs; the
-- reservations allow it. The table then holds it for the client for the whole duration.
pub validate_and_confirm_lem :
    (now : Instant) (mac : MacAddr) (requested : Option Ipv4Addr) (server_ip : Ipv4Addr)
    (net : Ipv4Net) (duration : Duration) (name : Option Hostname) (t : LeaseTable)
    → Outcome now mac requested server_ip net duration t
        (validate_and_confirm now mac requested server_ip net duration name t)
unfolding confirm refuses_ip get
validate_and_confirm_lem now mac requested server_ip net duration name t =
    validate_cases (Outcome now mac requested server_ip net duration t) now mac requested server_ip
      net duration name t refl
      (λ ip e ok res. (
        (
          ground arith,
          ground arith,
          ground arith,
          ground arith,
          is_ip_taken_by_other-FreeOfOthers now ip mac t (ground arith),
          refuses_reservation-Respects _ ip t res,
          λ h s. effective_hostname-NameFree now mac _ t h s,
        ),
        e,
        get-insert_self mac _ t,
      ))
