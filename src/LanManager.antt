-- ===== src/LanManager.antt =====
-- src/services/lan/manager.rs: the addresses and rules that move to another subnet, and the test for a
-- conflict. `LanManager.Runner` is the manager itself.
pub mod Offsets
pub mod Translate
pub mod Remap
pub mod Runner
use trimrouter.Prelude.{
  ℕ, ◌+◌, ◌-◌, Bool, true, false, ◌&&◌, ◌||◌, not, Option, none, some, List, [], ◌∷◌, if◌then◌else◌,
  nat_eq, ltb, leb,
}
use trimrouter.Net.{Ipv4Addr, Ipv4Net, NetLib}
use trimrouter.DhcpServer.LeaseTable.{StaticLease}
use trimrouter.LanManager.Offsets.{checked_sub, checked_add}
use trimrouter.Config.{PortForwardRule}

unfoldable pub is_valid_subnet_prefix : ℕ → Bool
is_valid_subnet_prefix prefix = leb 8 prefix && leb prefix 30

unfoldable pub is_subnet_overlap : Ipv4Net → Ipv4Net → Bool
is_subnet_overlap net1 net2 = net1.contains net2.network || net2.contains net1.network

abbrev usable_in : Ipv4Net → Option Ipv4Addr → Option Ipv4Addr
usable_in to_net none = none
usable_in to_net (some mapped_ip) =
    if to_net.contains mapped_ip
      && not (nat_eq mapped_ip to_net.addr)
      && not (nat_eq mapped_ip to_net.broadcast)
    then some mapped_ip
    else none

abbrev offset_from : Option ℕ → Ipv4Addr → Option Ipv4Addr
offset_from none to_base = none
offset_from (some offset) to_base = checked_add to_base offset

unfoldable pub translate_ip_to_subnet : Ipv4Addr → Ipv4Net → Ipv4Net → Option Ipv4Addr
translate_ip_to_subnet ip from_net to_net =
    if not (from_net.contains ip)
    then none
    else usable_in to_net (offset_from (checked_sub ip from_net.network) to_net.network)

abbrev pub move_lease : StaticLease → Option Ipv4Addr → List StaticLease → List StaticLease
move_lease lease none rest = rest
move_lease lease (some mapped_ip) rest =
    record { mac = lease.mac; ip = mapped_ip; hostname = lease.hostname } ∷ rest

-- The loops of the two functions below.
unfoldable pub move_leases : List StaticLease → Ipv4Net → Ipv4Net → List StaticLease
move_leases [] primary_net target_net = []
move_leases (lease ∷ leases) primary_net target_net =
    move_lease lease (translate_ip_to_subnet lease.ip primary_net target_net)
      (move_leases leases primary_net target_net)

abbrev pub move_rule :
    PortForwardRule → Option Ipv4Addr → List PortForwardRule → List PortForwardRule
move_rule rule none rest = rest
move_rule rule (some mapped_ip) rest = record rule { internal_ip = mapped_ip } ∷ rest

unfoldable pub move_rules : List PortForwardRule → Ipv4Net → Ipv4Net → List PortForwardRule
move_rules [] primary_net target_net = []
move_rules (rule ∷ rules) primary_net target_net =
    move_rule rule (translate_ip_to_subnet rule.internal_ip primary_net target_net)
      (move_rules rules primary_net target_net)

module _ (lib : NetLib) where
  unfoldable pub remap_static_leases_for_subnet :
      List StaticLease → Ipv4Net → Ipv4Net → List StaticLease
  remap_static_leases_for_subnet static_leases primary_net target_net =
      if lib.same primary_net target_net
      then static_leases
      else move_leases static_leases primary_net target_net

  unfoldable pub remap_port_forwards_for_subnet :
      List PortForwardRule → Ipv4Net → Ipv4Net → List PortForwardRule
  remap_port_forwards_for_subnet port_forwards primary_net target_net =
      if lib.same primary_net target_net
      then port_forwards
      else move_rules port_forwards primary_net target_net
