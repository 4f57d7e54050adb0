-- ===== src/Net.antt =====
-- Addresses, times and networks, as every service uses them. An `Ipv4Addr` is its u32, a `MacAddr`
-- its 48 bits, an `Instant` or a `Duration` its nanoseconds. What the crates `pnet` and `ipnet` give is a
-- record that the code is parametrised by. The tests on addresses are those of
-- `std::net::Ipv4Addr`; `is_valid_upstream_resolver` and `is_valid_ntp_server_ip` are
-- src/services/utils.rs.
pub mod Subnet
pub mod Hostname
pub mod Range
use trimrouter.Prelude.{
  ℕ, ◌*◌, ◌/◌, ◌≡◌, Bool, true, ◌&&◌, ◌||◌, not, List, Option, nat_eq, leb, elem,
}

abbrev pub Ipv4Addr : Type 0
Ipv4Addr = ℕ

abbrev pub MacAddr : Type 0
MacAddr = ℕ

abbrev pub Instant : Type 0
Instant = ℕ

abbrev pub Duration : Type 0
Duration = ℕ

-- A label of a host name, as its characters.
abbrev pub Hostname : Type 0
Hostname = List ℕ

abbrev pub nanos_per_sec : ℕ
nanos_per_sec = 1000000000

-- `Duration::from_secs`
abbrev pub from_secs : ℕ → Duration
from_secs n = n * nanos_per_sec

-- `pnet::util::MacAddr`: the two reserved addresses.
pub record MacLib : Type 0 where
  pub zero_mac : MacAddr
  pub broadcast_mac : MacAddr

-- `ipnet::Ipv4Net`: what the code asks of a network.
pub record Ipv4Net : Type 0 where
  pub addr : Ipv4Addr
  pub network : Ipv4Addr
  pub broadcast : Ipv4Addr
  pub contains : Ipv4Addr → Bool
  pub hosts : List Ipv4Addr
  pub prefix_len : ℕ

-- A text, as its code points.
abbrev pub Text : Type 0
Text = List ℕ

-- `Ipv4Net::new`, `str::parse` and `==` of `ipnet`.
pub record NetLib : Type 0 where
  pub new_net : Ipv4Addr → ℕ → Option Ipv4Net
  pub parse : Text → Option Ipv4Net
  pub same : Ipv4Net → Ipv4Net → Bool

-- The documented behaviour of `Ipv4Net::hosts`: every host lies in the network.
pub record HostsLieInNet (net : Ipv4Net) : Type 0 where
  pub contained : (ip : Ipv4Addr) → elem ip net.hosts ≡ true → net.contains ip ≡ true

abbrev pub is_unspecified : Ipv4Addr → Bool
is_unspecified ip = nat_eq ip 0

abbrev pub is_broadcast : Ipv4Addr → Bool
is_broadcast ip = nat_eq ip 4294967295

abbrev pub is_loopback : Ipv4Addr → Bool
is_loopback ip = nat_eq (ip / 16777216) 127

abbrev pub is_multicast : Ipv4Addr → Bool
is_multicast ip = leb 224 (ip / 16777216) && leb (ip / 16777216) 239

abbrev pub is_link_local : Ipv4Addr → Bool
is_link_local ip = nat_eq (ip / 65536) 43518

-- 192.0.2.0/24, 198.51.100.0/24 and 203.0.113.0/24
abbrev pub is_documentation : Ipv4Addr → Bool
is_documentation ip =
    nat_eq (ip / 256) 12582914 || nat_eq (ip / 256) 12989284 || nat_eq (ip / 256) 13303921

unfoldable pub is_valid_upstream_resolver : Ipv4Addr → Bool
is_valid_upstream_resolver ip =
    not (is_unspecified ip)
    && not (is_broadcast ip)
    && not (is_loopback ip)
    && not (is_multicast ip)
    && not (is_link_local ip)
    && not (is_documentation ip)

unfoldable pub is_valid_ntp_server_ip : Ipv4Addr → Bool
is_valid_ntp_server_ip ip =
    not (is_unspecified ip)
    && not (is_broadcast ip)
    && not (is_loopback ip)
    && not (is_multicast ip)
    && not (is_link_local ip)
    && not (is_documentation ip)

-- src/services/utils.rs: the lease of the WAN, as the parent keeps it for the other services.
pub record WanLease : Type 0 where
  pub ip : Option Ipv4Addr
  pub mask : Option Ipv4Addr
  pub gateway : Option Ipv4Addr
  pub dns_servers : List Ipv4Addr
