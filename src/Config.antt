-- ===== src/Config.antt =====
-- src/config.rs: the configuration, its sections, and the tests that several of them share. The texts of
-- the errors are constructors of `RouterError`; what `toml` deserialises is given as its sections.
-- What the crates parse and print is the record `ConfigLib`.
pub mod Network
pub mod Reservations
pub mod Ports
pub mod Accepted
use trimrouter.Prelude.{
  ℕ, ◌+◌, ◌/◌, ◌%◌, Option, none, some, Bool, true, false, ◌||◌, ◌&&◌, not, List, [], ◌∷◌, map,
  nat_eq, ltb, leb, if◌then◌else◌, bytes_eq,
}
use trimrouter.Prelude.Results.{Result, ok, err, and_then, ok_or, refuse_if}
use trimrouter.Net.{Ipv4Addr, MacAddr, Ipv4Net, NetLib, MacLib, Text, Hostname}
use trimrouter.Net.Hostname.{lowercase_char, trim_start, trim_end}
use trimrouter.LanManager.Offsets.{checked_sub, checked_add}

pub data ForwardProtocol : Type 0 where
  tcp udp both : ForwardProtocol

pub record PortForwardRule : Type 0 where
  pub protocol : ForwardProtocol
  pub external_port : ℕ
  pub internal_ip : Ipv4Addr
  pub internal_port : ℕ
  pub description : Option Text

pub data RouterError : Type 0 where
  wan_mac_invalid wan_mac_not_unicast lan_mac_invalid lan_mac_not_unicast macs_equal : RouterError
  empty_network invalid_prefix_length invalid_network_ip invalid_cidr : RouterError
  broadcast_gateway invalid_derived_cidr networks_overlap : RouterError
  invalid_target_ip target_underflow target_overflow invalid_on_fallback : RouterError
  invalid_level invalid_resolver_ip invalid_resolver : RouterError
  reservation_mac_invalid reservation_mac_not_unicast reservation_ip_missing : RouterError
  reservation_ip_invalid hostname_invalid hostname_reserved : RouterError
  duplicate_hostname duplicate_mac duplicate_ip : RouterError
  invalid_protocol external_port_missing external_port_zero internal_ip_missing : RouterError
  internal_ip_invalid internal_port_zero : RouterError
  conflicts_with_dhcp_client duplicate_tcp_port duplicate_udp_port : RouterError

-- The crates: `MacAddr::from_str`, `Ipv4Addr::from_str`, `log::LevelFilter` by number, `Ipv4Net`, and
-- the text of an address and a prefix length.
pub record ConfigLib : Type 0 where
  pub macs : MacLib
  pub parse_mac : Text → Option MacAddr
  pub parse_ip : Text → Option Ipv4Addr
  pub parse_level : Text → Option ℕ
  pub info_level : ℕ
  pub nets : NetLib
  pub cidr_text : Ipv4Addr → ℕ → Text

abbrev pub Checked {ℓ} : Type ℓ → Type ℓ
Checked A = Result RouterError A

abbrev pub trim : Text → Text
trim s = trim_end (trim_start s)

abbrev pub unwrap_or {ℓ} : {A : Type ℓ} → Option A → A → A
unwrap_or none d = d
unwrap_or (some a) d = a

-- The low bit of the first octet is that of a multicast address.
unfoldable pub is_valid_unicast_mac : ConfigLib → MacAddr → Bool
is_valid_unicast_mac lib mac =
    if nat_eq mac lib.macs.zero_mac || nat_eq mac lib.macs.broadcast_mac
    then false
    else nat_eq (mac / 1099511627776 % 2) 0

abbrev host_of : Ipv4Net → Ipv4Addr → Bool
host_of net ip =
    net.contains ip
    && not (nat_eq ip net.network)
    && not (nat_eq ip net.broadcast)
    && not (nat_eq ip net.addr)

-- `Ok(())` is the pair without parts.
unfoldable pub validate_target_ip : Ipv4Addr → Ipv4Net → Ipv4Net → Checked (Unit {0})
validate_target_ip ip lan_net backup_net = refuse_if (not (host_of lan_net ip)) invalid_target_ip (
    and_then (ok_or (checked_sub ip lan_net.network) target_underflow) (λ offset.
      and_then (ok_or (checked_add backup_net.network offset) target_overflow)
        (λ backup_ip. refuse_if (not (host_of backup_net backup_ip)) invalid_on_fallback (ok tt))))

-- tcp, udp, both, tcp+udp, tcp,udp and all
unfoldable pub protocol_from_str : Text → Checked ForwardProtocol
protocol_from_str s =
    let t = map lowercase_char s in
    if bytes_eq t (116 ∷ 99 ∷ 112 ∷ [])
    then ok tcp
    else if bytes_eq t (117 ∷ 100 ∷ 112 ∷ [])
    then ok udp
    else if bytes_eq t (98 ∷ 111 ∷ 116 ∷ 104 ∷ [])
        || bytes_eq t (116 ∷ 99 ∷ 112 ∷ 43 ∷ 117 ∷ 100 ∷ 112 ∷ [])
        || bytes_eq t (116 ∷ 99 ∷ 112 ∷ 44 ∷ 117 ∷ 100 ∷ 112 ∷ [])
        || bytes_eq t (97 ∷ 108 ∷ 108 ∷ [])
    then ok both
    else err invalid_protocol
