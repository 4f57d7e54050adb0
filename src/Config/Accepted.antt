-- ===== src/Config/Accepted.antt =====
-- src/config.rs: `RouterConfig::parse`, and what a configuration that it accepts means for the LAN manager.
use trimrouter.Prelude.{
  ℕ, suc, ◌≡◌, refl, ap, Bool, true, false, Option, none, some, List, [], ◌∷◌, arith, length,
}
use trimrouter.Prelude.Results.{
  ok, and_then, Holds, Holds-ok, Holds-and_then, Holds-after, Holds-refuse_if, ok_or-ok,
}
use trimrouter.Net.{Ipv4Addr, MacAddr, Ipv4Net, Text}
use trimrouter.DhcpServer.LeaseTable.{StaticLease}
use trimrouter.LanManager.{is_subnet_overlap, translate_ip_to_subnet, move_leases, move_rules}
use trimrouter.LanManager.Offsets.{checked_sub, checked_add}
use trimrouter.Config.{
  PortForwardRule, target_underflow, target_overflow, ConfigLib, Checked, unwrap_or,
  validate_target_ip,
}
use trimrouter.Config.Network.{
  NetworkSection, LanSection, LoggingSection, LoggingConfig, parse_mac_addresses, parse_lan_network,
  parse_lan_subnets, parse_logging_config, parse_dns_servers,
}
use trimrouter.Config.Reservations.{
  DhcpReservationToml, parse_dhcp_reservations, nothing_seen, AllNew, Seen, after,
  parse_dhcp_reservations-AllNew,
}
use trimrouter.Config.Ports.{
  PortForwardToml, parse_port_forward_rules, AllFree, Bound, nothing_bound, bound_after,
  parse_port_forward_rules-AllFree,
}

pub record ConfigToml : Type 0 where
  pub network : NetworkSection
  pub lan : Option LanSection
  pub dhcp : Option (Option (List DhcpReservationToml))
  pub watchdog : Option (Option Bool)
  pub logging : Option LoggingSection
  pub dns : Option (List Text)
  pub port_forwarding : Option (List PortForwardToml)

pub record RouterConfig : Type 0 where
  pub lan_ip : Text
  pub backup_lan_ip : Text
  pub wan_mac : MacAddr
  pub lan_mac : MacAddr
  pub logging : LoggingConfig
  pub watchdog : Bool
  pub dns_servers : List Ipv4Addr
  pub static_leases : List StaticLease
  pub port_forwards : List PortForwardRule

abbrev watchdog_of : Option (Option Bool) → Bool
watchdog_of none = true
watchdog_of (some s) = unwrap_or s true

module _ (lib : ConfigLib) where
  -- `RouterConfig::parse`, from what the file holds.
  unfoldable pub parse : ConfigToml → Checked RouterConfig
  parse parsed = and_then (parse_mac_addresses lib parsed.network) (λ macs.
      and_then (parse_dns_servers lib parsed.network parsed.dns) (λ dns_servers.
        and_then (parse_lan_subnets lib parsed.lan) (λ nets.
          and_then (parse_dhcp_reservations lib nets.0 nets.1 parsed.dhcp) (λ static_leases.
            and_then (parse_port_forward_rules lib nets.0 nets.1 parsed.port_forwarding)
              (λ port_forwards. and_then (parse_logging_config lib parsed.logging) (λ logging.
                ok (record {
                  lan_ip = nets.2;
                  backup_lan_ip = nets.3;
                  wan_mac = macs.0;
                  lan_mac = macs.1;
                  logging = logging;
                  watchdog = watchdog_of parsed.watchdog;
                  dns_servers = dns_servers;
                  static_leases = static_leases;
                  port_forwards = port_forwards;
                })))))))

-- An address that is valid as a target lands on the other network.
validate_target_ip-translate :
    (ip : Ipv4Addr) (lan_net backup_net : Ipv4Net)
    → Holds
        (λ _. (mapped : Ipv4Addr) × (translate_ip_to_subnet ip lan_net backup_net ≡ some mapped))
        (validate_target_ip ip lan_net backup_net)
unfolding validate_target_ip translate_ip_to_subnet
validate_target_ip-translate ip lan_net backup_net = Holds-refuse_if _ _ _ _ λ host.
    Holds-and_then _ _ _ λ offset sub. Holds-and_then _ _ _ λ backup_ip add.
      Holds-refuse_if _ _ _ _ λ other. (
        backup_ip,
        let inside : lan_net.contains ip ≡ true = ground (arith, host) in
            let s = ok_or-ok (checked_sub ip lan_net.network) target_underflow offset sub in
            let a =
              ok_or-ok (checked_add backup_net.network offset) target_overflow backup_ip add in
            rw (inside, s, a) (ground (arith, other)),
      )

module _ (lib : ConfigLib) (lan_net backup_net : Ipv4Net) where
  target-translate :
      (ip : Ipv4Addr)
      → validate_target_ip ip lan_net backup_net ≡ ok tt
      → (mapped : Ipv4Addr) × (translate_ip_to_subnet ip lan_net backup_net ≡ some mapped)
  target-translate ip h =
      Holds-ok
        (λ _. (mapped : Ipv4Addr) × (translate_ip_to_subnet ip lan_net backup_net ≡ some mapped)) _
        tt h (validate_target_ip-translate ip lan_net backup_net)

  move_leases-keeps :
      (ls : List StaticLease) (seen : Seen)
      → AllNew lib lan_net backup_net ls seen
      → length (move_leases ls lan_net backup_net) ≡ length ls
  unfolding move_leases
  move_leases-keeps [] seen n = refl
  move_leases-keeps (l ∷ ls) seen (n, ns) =
      let (mapped, e) = target-translate l.ip n.on_both in
      rw e (ap suc (move_leases-keeps ls (after lib lan_net backup_net l seen) ns))

  move_rules-keeps :
      (rs : List PortForwardRule) (bound : Bound)
      → AllFree lib lan_net backup_net rs bound
      → length (move_rules rs lan_net backup_net) ≡ length rs
  unfolding move_rules
  move_rules-keeps [] bound n = refl
  move_rules-keeps (r ∷ rs) bound (is, _, ns) =
      let (mapped, e) = target-translate r.internal_ip is.on_both in
      rw e (ap suc (move_rules-keeps rs (bound_after r bound) ns))

module _ (lib : ConfigLib) where
  -- The documented behaviour of `Display` and `FromStr` of `Ipv4Net`: the text of an address and a prefix
  -- length is read back as that network.
  pub record TextIsNet : Type 0 where
    pub read_back :
        (ip : Ipv4Addr) (prefix_len : ℕ) (net : Ipv4Net)
        → lib.nets.new_net ip prefix_len ≡ some net
        → lib.nets.parse (lib.cidr_text ip prefix_len) ≡ some net

  parse_lan_network-text :
      (raw : Option Text) (prefix_len : ℕ) (default : Text)
      → TextIsNet
      → Holds (λ r. lib.nets.parse r.1 ≡ some r.0) (parse_lan_network lib raw prefix_len default)
  unfolding parse_lan_network
  parse_lan_network-text raw prefix_len default texts = Holds-refuse_if _ _ _ _ λ _.
      Holds-refuse_if _ _ _ _ λ _. Holds-and_then _ _ _ λ base_ip _. Holds-and_then _ _ _ λ net _.
        Holds-and_then _ _ _ λ gateway _. Holds-and_then _ _ _ λ gateway_net made.
          texts.read_back gateway prefix_len gateway_net (ok_or-ok _ _ gateway_net made)

  -- Two networks that do not overlap, with the texts that name them.
  pub record Apart (lan_net backup_net : Ipv4Net) (lan_ip backup_lan_ip : Text) : Type 0 where
    pub lan : lib.nets.parse lan_ip ≡ some lan_net
    pub backup : lib.nets.parse backup_lan_ip ≡ some backup_net
    pub apart : is_subnet_overlap lan_net backup_net ≡ false

  parse_lan_subnets-Apart :
      (lan_sec : Option LanSection)
      → TextIsNet
      → Holds (λ r. Apart r.0 r.1 r.2 r.3) (parse_lan_subnets lib lan_sec)
  unfolding parse_lan_subnets is_subnet_overlap
  parse_lan_subnets-Apart lan_sec texts =
      Holds-after _ _ _ _ (parse_lan_network-text _ _ _ texts) λ lan l.
        Holds-after _ _ _ _ (parse_lan_network-text _ _ _ texts)
          λ backup b. Holds-refuse_if _ _ _ _ λ apart. record { lan = l; backup = b; apart = apart }

  -- What an accepted configuration gives the LAN manager.
  abbrev pub Movable : RouterConfig → Type 0
  Movable cfg =
      (lan_net : Ipv4Net) × (backup_net : Ipv4Net) × Apart lan_net backup_net cfg.lan_ip
        cfg.backup_lan_ip
      × (length (move_leases cfg.static_leases lan_net backup_net) ≡ length cfg.static_leases)
      × (length (move_rules cfg.port_forwards lan_net backup_net) ≡ length cfg.port_forwards)

  parse-Holds : (parsed : ConfigToml) → TextIsNet → Holds Movable (parse lib parsed)
  unfolding parse
  parse-Holds parsed texts = Holds-and_then _ _ _ λ macs _. Holds-and_then _ _ _ λ dns_servers _.
      Holds-after _ _ _ _ (parse_lan_subnets-Apart parsed.lan texts) λ nets apart.
        Holds-and_then _ _ _ λ static_leases s. Holds-and_then _ _ _ λ port_forwards p.
          Holds-and_then _ _ _ λ logging _. (
            nets.0,
            nets.1,
            apart,
            move_leases-keeps lib nets.0 nets.1 static_leases nothing_seen
                (parse_dhcp_reservations-AllNew lib nets.0 nets.1 parsed.dhcp static_leases s),
            move_rules-keeps lib nets.0 nets.1 port_forwards nothing_bound (
                parse_port_forward_rules-AllFree lib nets.0 nets.1 parsed.port_forwarding
                  port_forwards p),
          )

  -- When a configuration is accepted, its two networks are what the LAN manager reads in the texts
  -- of the addresses, they do not overlap, and when the LAN manager moves from the first network to
  -- the second it leaves out no reservation and no forwarded port.
  pub parse-Movable :
      (parsed : ConfigToml) (cfg : RouterConfig)
      → TextIsNet
      → parse lib parsed ≡ ok cfg
      → Movable cfg
  parse-Movable parsed cfg texts h =
      Holds-ok Movable (parse lib parsed) cfg h (parse-Holds parsed texts)
