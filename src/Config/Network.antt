-- ===== src/Config/Network.antt =====
-- src/config.rs: the hardware addresses, the two networks of the LAN, logging and the resolvers.
use trimrouter.Prelude.{
  ℕ, ◌+◌, max, Bool, true, false, ◌&&◌, ◌||◌, not, Option, none, some, List, [], ◌∷◌, ◌++◌, nat_eq,
  leb, elem, if◌then◌else◌,
}
use trimrouter.Prelude.Results.{ok, err, and_then, ok_or, refuse_if}
use trimrouter.Net.{Ipv4Addr, MacAddr, Ipv4Net, Text, is_valid_upstream_resolver}
use trimrouter.Config.{
  wan_mac_invalid, wan_mac_not_unicast, lan_mac_invalid, lan_mac_not_unicast, macs_equal,
  empty_network, invalid_prefix_length, invalid_network_ip, invalid_cidr, broadcast_gateway,
  invalid_derived_cidr, networks_overlap, invalid_level, invalid_resolver_ip, invalid_resolver,
  ConfigLib, Checked, trim, unwrap_or, is_valid_unicast_mac,
}

pub record NetworkSection : Type 0 where
  pub wan_mac : Text
  pub lan_mac : Text
  pub dns_servers : Option (List Text)

pub record LanSection : Type 0 where
  pub primary_network : Option Text
  pub fallback_network : Option Text
  pub prefix_length : Option ℕ

pub record LoggingSection : Type 0 where
  pub max_log_size_mb : Option ℕ
  pub level : Option Text

pub record LoggingConfig : Type 0 where
  pub max_log_size_mb : ℕ
  pub level : ℕ

-- 192.168.1.0
abbrev pub default_primary_network : Text
default_primary_network = 49 ∷ 57 ∷ 50 ∷ 46 ∷ 49 ∷ 54 ∷ 56 ∷ 46 ∷ 49 ∷ 46 ∷ 48 ∷ []

-- 10.0.0.0
abbrev pub default_fallback_network : Text
default_fallback_network = 49 ∷ 48 ∷ 46 ∷ 48 ∷ 46 ∷ 48 ∷ 46 ∷ 48 ∷ []

abbrev is_empty : Text → Bool
is_empty [] = true
is_empty (c ∷ cs) = false

module _ (lib : ConfigLib) where
  unfoldable pub parse_mac_addresses : NetworkSection → Checked (MacAddr × MacAddr)
  parse_mac_addresses net = and_then (ok_or (lib.parse_mac net.wan_mac) wan_mac_invalid) (λ wan_mac.
      refuse_if (not (is_valid_unicast_mac lib wan_mac)) wan_mac_not_unicast (
        and_then (ok_or (lib.parse_mac net.lan_mac) lan_mac_invalid) (λ lan_mac.
          refuse_if (not (is_valid_unicast_mac lib lan_mac)) lan_mac_not_unicast
            (refuse_if (nat_eq wan_mac lan_mac) macs_equal (ok (wan_mac, lan_mac))))))

  abbrev gateway_ip : Ipv4Addr → Ipv4Net → Checked Ipv4Addr
  gateway_ip base_ip net =
      if nat_eq base_ip net.network
      then ok (net.network + 1)
      else if nat_eq base_ip net.broadcast
      then err broadcast_gateway
      else ok base_ip

  unfoldable pub parse_lan_network : Option Text → ℕ → Text → Checked (Ipv4Net × Text)
  parse_lan_network raw_str prefix_len default_network =
      let input = trim (unwrap_or raw_str default_network) in
      refuse_if (is_empty input) empty_network (
        refuse_if (not (leb 8 prefix_len && leb prefix_len 30)) invalid_prefix_length (
          and_then (ok_or (lib.parse_ip input) invalid_network_ip) (λ base_ip.
            and_then (ok_or (lib.nets.new_net base_ip prefix_len) invalid_cidr) (λ net.
              and_then (gateway_ip base_ip net) (λ gateway.
                and_then (ok_or (lib.nets.new_net gateway prefix_len) invalid_derived_cidr)
                  (λ gateway_net. ok (gateway_net, lib.cidr_text gateway prefix_len)))))))

  abbrev prefix_of : Option LanSection → ℕ
  prefix_of none = 24
  prefix_of (some l) = unwrap_or l.prefix_length 24

  abbrev primary_of : Option LanSection → Option Text
  primary_of none = none
  primary_of (some l) = l.primary_network

  abbrev fallback_of : Option LanSection → Option Text
  fallback_of none = none
  fallback_of (some l) = l.fallback_network

  unfoldable pub parse_lan_subnets : Option LanSection → Checked (Ipv4Net × Ipv4Net × Text × Text)
  parse_lan_subnets lan_sec =
      and_then (parse_lan_network (primary_of lan_sec) (prefix_of lan_sec) default_primary_network)
        (λ lan.
          and_then
            (parse_lan_network (fallback_of lan_sec) (prefix_of lan_sec) default_fallback_network)
            (λ backup.
              refuse_if (lan.0.contains backup.0.network || backup.0.contains lan.0.network)
                networks_overlap (ok (lan.0, backup.0, lan.1, backup.1))))

  abbrev level_of : Option Text → Checked ℕ
  level_of none = ok lib.info_level
  level_of (some lvl_str) = ok_or (lib.parse_level lvl_str) invalid_level

  unfoldable pub parse_logging_config : Option LoggingSection → Checked LoggingConfig
  parse_logging_config none = ok (record { max_log_size_mb = 100; level = lib.info_level })
  parse_logging_config (some l) = and_then (level_of l.level) (λ level.
      ok (record { max_log_size_mb = max (unwrap_or l.max_log_size_mb 100) 1; level = level }))

  -- The loop of `parse_dns_servers`, with the addresses that it has so far.
  unfoldable pub parse_resolvers : List Text → List Ipv4Addr → Checked (List Ipv4Addr)
  parse_resolvers [] parsed_ips = ok parsed_ips
  parse_resolvers (ip_str ∷ raw_list) parsed_ips =
      and_then (ok_or (lib.parse_ip (trim ip_str)) invalid_resolver_ip) (λ ip.
        refuse_if (not (is_valid_upstream_resolver ip)) invalid_resolver (
          parse_resolvers raw_list
            (if not (elem ip parsed_ips) then parsed_ips ++ ip ∷ [] else parsed_ips)))

  -- `dns` is the list of the section of that name, which counts when the network section has none.
  unfoldable pub parse_dns_servers : NetworkSection → Option (List Text) → Checked (List Ipv4Addr)
  parse_dns_servers net dns = elim net.dns_servers [
    | some raw_list ↦ parse_resolvers raw_list []
    | none ↦ elim dns [ some raw_list ↦ parse_resolvers raw_list [] | none ↦ ok [] ]
  ]
