-- ===== src/Tests/Lan.antt =====
-- src/services/lan/manager.rs and src/config.rs at concrete inputs, with small networks in place of those of
-- `ipnet`: a text is one number, and a network has 256 addresses.
use trimrouter.Prelude.{
  ℕ, ◌+◌, ◌*◌, ◌/◌, ◌≤◌, ◌<◌, ◌≡◌, ◌≢◌, ◌⊎◌, ◌↔◌, refl, inl, inr, Bool, true, false, Option, none,
  some, List, [], ◌∷◌, arith, nat_eq, elem, is_some, length, sym, subst, if◌then◌else◌, bytes_eq,
  bytes_eq_iff, any, Bool-cases,
}
use trimrouter.Prelude.Results.{Result, ok}
use trimrouter.Net.{WanLease, Ipv4Addr, Ipv4Net, NetLib, Text, MacLib}
use trimrouter.Net.Range.{IsRange}
use trimrouter.DhcpServer.LeaseTable.{StaticLease}
use trimrouter.LanManager.{is_subnet_overlap, translate_ip_to_subnet, move_leases}
use trimrouter.LanManager.Translate.{Lands, translate_ip_to_subnet_iff}
use trimrouter.LanManager.Runner.{
  LanRunner, Startup, LanEvent, shutdown, wan_changed, netlink, run, run_loop, check_and_resolve,
}
use trimrouter.LanManager.Runner.Actions.{services_after, configurations}
use trimrouter.LanManager.Runner.Conflict.{BackupUseless, check_and_resolve-Conflicts}
use trimrouter.LanManager.Runner.Shifts.{run-services, run_loop-shifts}
use trimrouter.Config.{ConfigLib, PortForwardRule}
use trimrouter.Config.Network.{NetworkSection, LanSection}
use trimrouter.Config.Reservations.{
  DhcpReservationToml, parse_dhcp_reservations, parse_dhcp_reservations-AllNew, AllNew,
  nothing_seen,
}
use trimrouter.Config.Ports.{
  PortForwardToml, parse_port_forward_rules, parse_port_forward_rules-AllFree, AllFree,
  nothing_bound,
}
use trimrouter.Config.Accepted.{ConfigToml, RouterConfig, parse, TextIsNet, Movable, parse-Movable}

abbrev net_of : Ipv4Addr → Ipv4Net
net_of a = record {
  addr = a;
  network = a / 256 * 256;
  broadcast = a / 256 * 256 + 255;
  contains = λ ip. nat_eq (ip / 256) (a / 256);
  hosts = [];
  prefix_len = 24;
}

net_of-IsRange : (a : Ipv4Addr) → a < 4294967296 → IsRange (net_of a)
net_of-IsRange a h = record {
  contains_iff = λ ip. ground arith;
  ordered = omega arith;
  bounded = omega (arith, h);
}

abbrev parse_text : Text → Option Ipv4Net
parse_text (a ∷ []) = some (net_of a)
parse_text _ = none

abbrev nets : NetLib
nets = record {
  new_net = λ a p. some (net_of a);
  parse = parse_text;
  same = λ a b. nat_eq a.addr b.addr;
}

-- 10.0.1.1 and 10.0.2.1
abbrev first : Ipv4Addr
first = 167772417

abbrev second : Ipv4Addr
second = 167772673

first-IsRange : IsRange (net_of first)
first-IsRange = net_of-IsRange first (omega arith)

second-IsRange : IsRange (net_of second)
second-IsRange = net_of-IsRange second (omega arith)

translate_ip_to_subnet_iff_example :
    (translate_ip_to_subnet 167772427 (net_of first) (net_of second) ≡ some 167772683)
    ↔ Lands 167772427 (net_of first) (net_of second) 167772683
translate_ip_to_subnet_iff_example =
    translate_ip_to_subnet_iff 167772427 (net_of first) (net_of second) 167772683 first-IsRange
      second-IsRange

abbrev leases : List StaticLease
leases =
    record { mac = 5; ip = 167772427; hostname = none }
    ∷ record { mac = 6; ip = 167772673; hostname = some (97 ∷ []) }
    ∷ []

abbrev runner : LanRunner
runner = record {
  initial_ip = first ∷ [];
  current_ip = first ∷ [];
  backup_ip = second ∷ [];
  has_local_hosts = true;
  static_leases = leases;
  port_forwards = [];
}

abbrev on_backup : LanRunner
on_backup = record runner { current_ip = second ∷ [] }

-- The WAN has an address of the first network, and of the second one.
abbrev wan_first : WanLease
wan_first = record { ip = some 167772420; mask = some 4294967040; gateway = none; dns_servers = [] }

abbrev wan_second : WanLease
wan_second = record {
  ip = some 167772680;
  mask = some 4294967040;
  gateway = none;
  dns_servers = [];
}

abbrev started : Startup
started = record { configured = true; dhcp_started = true; has_multicast = true }

abbrev events : List LanEvent
events = wan_changed wan_second true ∷ netlink true wan_first true ∷ shutdown ∷ []

run-services_example :
    is_some (services_after (run nets runner started wan_first true events).0 false false) ≡ true
run-services_example = run-services nets runner started wan_first true events

run_loop-shifts_example :
    (configurations (run_loop nets runner events).0 ≤ 1)
    × (runner.current_ip ≡ runner.backup_ip → configurations (run_loop nets runner events).0 ≡ 0)
    × (((run_loop nets runner events).1.current_ip ≡ runner.current_ip)
        ⊎ ((run_loop nets runner events).1.current_ip ≡ runner.backup_ip))
run_loop-shifts_example = run_loop-shifts nets runner events

check_and_resolve-Conflicts_example : BackupUseless nets (net_of 167772680) on_backup
unfolding trimrouter.Net.Subnet.mask_to_prefix_len trimrouter.LanManager.is_valid_subnet_prefix
    check_and_resolve is_subnet_overlap trimrouter.Prelude.bytes_eq
check_and_resolve-Conflicts_example =
    check_and_resolve-Conflicts nets on_backup wan_second true (net_of 167772680) refl
      (net_of second, refl, refl)

-- One number is the text of an address too.
abbrev parse_number : Text → Option ℕ
parse_number (a ∷ []) = some a
parse_number _ = none

abbrev lib : ConfigLib
lib = record {
  macs = record { zero_mac = 0; broadcast_mac = 281474976710655 };
  parse_mac = parse_number;
  parse_ip = parse_number;
  parse_level = parse_number;
  info_level = 3;
  nets = nets;
  cidr_text = λ a p. a ∷ [];
}

abbrev reservations : Option (Option (List DhcpReservationToml))
reservations = some (
    some (
      record { mac = 5 ∷ []; ip = some (167772427 ∷ []); hostname = some (97 ∷ []) }
      ∷ record { mac = 6 ∷ []; ip = some (167772428 ∷ []); hostname = none }
      ∷ []))

abbrev accepted : List StaticLease
accepted =
    record { mac = 5; ip = 167772427; hostname = some (97 ∷ []) }
    ∷ record { mac = 6; ip = 167772428; hostname = none }
    ∷ []

parse_dhcp_reservations-AllNew_example :
    AllNew lib (net_of first) (net_of second) accepted nothing_seen
unfolding parse_dhcp_reservations trimrouter.Config.Reservations.parse_reservations
    trimrouter.Prelude.Results.and_then trimrouter.Config.Reservations.parse_reservation
    trimrouter.Prelude.Results.ok_or trimrouter.Prelude.Results.refuse_if
    trimrouter.Config.is_valid_unicast_mac trimrouter.Net.Hostname.trim_end
    trimrouter.Net.Hostname.trim_start trimrouter.Config.validate_target_ip
    trimrouter.Config.Reservations.parse_hostname trimrouter.Net.Hostname.sanitize_hostname
    trimrouter.Prelude.bytes_eq trimrouter.Prelude.any elem trimrouter.HashSet.insert
parse_dhcp_reservations-AllNew_example =
    parse_dhcp_reservations-AllNew lib (net_of first) (net_of second) reservations accepted refl

abbrev raw_rules : Option (List PortForwardToml)
raw_rules = some (
    record {
      proto = none;
      external_port = some 80;
      internal_ip = some (167772427 ∷ []);
      internal_port = some 8080;
      description = none;
    }
    ∷ [])

abbrev rules : List PortForwardRule
rules =
    record {
      protocol = trimrouter.Config.ForwardProtocol.tcp;
      external_port = 80;
      internal_ip = 167772427;
      internal_port = 8080;
      description = none;
    }
    ∷ []

parse_port_forward_rules-AllFree_example :
    AllFree lib (net_of first) (net_of second) rules nothing_bound
unfolding parse_port_forward_rules trimrouter.Config.Ports.parse_rules
    trimrouter.Prelude.Results.and_then trimrouter.Config.Ports.validate_and_build_port_forward_rule
    trimrouter.Config.protocol_from_str trimrouter.Prelude.bytes_eq trimrouter.Prelude.Results.ok_or
    trimrouter.Prelude.Results.refuse_if trimrouter.Net.Hostname.trim_end
    trimrouter.Net.Hostname.trim_start trimrouter.Config.validate_target_ip
    trimrouter.Config.Ports.check_port_forward_conflicts elem
parse_port_forward_rules-AllFree_example =
    parse_port_forward_rules-AllFree lib (net_of first) (net_of second) raw_rules rules refl

abbrev config : ConfigToml
config = record {
  network = record {
    wan_mac = 2 ∷ [];
    lan_mac = 4 ∷ [];
    dns_servers = some ((134744072 ∷ []) ∷ []);
  };
  lan = some (record {
    primary_network = some (first ∷ []);
    fallback_network = some (second ∷ []);
    prefix_length = none;
  });
  dhcp = reservations;
  watchdog = none;
  logging = none;
  dns = none;
  port_forwarding = raw_rules;
}

abbrev router : RouterConfig
router = record {
  lan_ip = first ∷ [];
  backup_lan_ip = second ∷ [];
  wan_mac = 2;
  lan_mac = 4;
  logging = record { max_log_size_mb = 100; level = 3 };
  watchdog = true;
  dns_servers = 134744072 ∷ [];
  static_leases = accepted;
  port_forwards = rules;
}

texts : TextIsNet lib
texts = record { read_back = λ ip p net h. h }

parse-Movable_example : Movable lib router
unfolding parse parse_dhcp_reservations parse_port_forward_rules
    trimrouter.Config.Reservations.parse_reservations trimrouter.Prelude.Results.and_then
    trimrouter.Config.Reservations.parse_reservation trimrouter.Prelude.Results.ok_or
    trimrouter.Prelude.Results.refuse_if trimrouter.Config.is_valid_unicast_mac
    trimrouter.Net.Hostname.trim_end trimrouter.Net.Hostname.trim_start
    trimrouter.Config.validate_target_ip trimrouter.Config.Reservations.parse_hostname
    trimrouter.Net.Hostname.sanitize_hostname trimrouter.Prelude.bytes_eq trimrouter.Prelude.any
    elem trimrouter.HashSet.insert trimrouter.Config.Ports.parse_rules
    trimrouter.Config.Ports.validate_and_build_port_forward_rule trimrouter.Config.protocol_from_str
    trimrouter.Config.Ports.check_port_forward_conflicts
    trimrouter.Config.Network.parse_mac_addresses trimrouter.Config.Network.parse_dns_servers
    trimrouter.Config.Network.parse_resolvers trimrouter.Config.Network.parse_lan_subnets
    trimrouter.Config.Network.parse_lan_network trimrouter.Config.Network.parse_logging_config
    trimrouter.Net.is_valid_upstream_resolver
parse-Movable_example = parse-Movable lib config router texts refl
