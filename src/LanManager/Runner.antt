-- ===== src/LanManager/Runner.antt =====
-- src/services/lan/manager.rs: `LanRunner`. What it does to the services, the interface and the
-- firewall is a list of actions, in order; an action that fails is logged and changes nothing more,
-- but at the start.
pub mod Actions
pub mod Conflict
pub mod Shifts
use trimrouter.Prelude.{
  ℕ, Bool, true, false, Option, none, some, List, [], ◌∷◌, ◌++◌, if◌then◌else◌, not, bytes_eq,
}
use trimrouter.Net.{WanLease, Ipv4Addr, Ipv4Net, Hostname, Text, NetLib}
use trimrouter.Net.Subnet.{mask_to_prefix_len}
use trimrouter.DhcpServer.LeaseTable.{StaticLease}
use trimrouter.Config.{PortForwardRule}
use trimrouter.LanManager.{
  is_valid_subnet_prefix, is_subnet_overlap, remap_static_leases_for_subnet,
  remap_port_forwards_for_subnet,
}

pub data Action : Type 0 where
  send_service_heartbeat : Action
  stop_dhcp_server stop_observability : Action
  flush_ipv4_addresses : Action
  configure_interface_ip : Text → Action
  register_local_host : Hostname → Ipv4Addr → Action
  configure_firewall : List PortForwardRule → Action
  start_dhcp_server : Text → List StaticLease → Action
  start_observability : Text → Action

-- The fields that the code changes or that decide what it does.
pub record LanRunner : Type 0 where
  pub initial_ip : Text
  pub current_ip : Text
  pub backup_ip : Text
  pub has_local_hosts : Bool
  pub static_leases : List StaticLease
  pub port_forwards : List PortForwardRule

-- `ROUTER_HOSTNAME`: router
abbrev pub router_hostname : Hostname
router_hostname = 114 ∷ 111 ∷ 117 ∷ 116 ∷ 101 ∷ 114 ∷ []

abbrev pub stop_services : List Action
stop_services = stop_dhcp_server ∷ stop_observability ∷ []

-- `has_index`: whether the interface has an index.
abbrev pub reconfigure_lan_interface_ip : Bool → Text → List Action
reconfigure_lan_interface_ip has_index new_ip =
    (if has_index then flush_ipv4_addresses ∷ [] else []) ++ configure_interface_ip new_ip ∷ []

abbrev pub lease_host : StaticLease → Option Hostname → List Action → List Action
lease_host lease none rest = rest
lease_host lease (some name) rest = register_local_host name lease.ip ∷ rest

unfoldable pub lease_hosts : List StaticLease → List Action
lease_hosts [] = []
lease_hosts (lease ∷ leases) = lease_host lease lease.hostname (lease_hosts leases)

unfoldable pub notify_static_lease_dns_hosts : LanRunner → List StaticLease → List Action
notify_static_lease_dns_hosts r leases = if r.has_local_hosts then lease_hosts leases else []

-- A run of `start` that goes wrong stops there.
pub record Startup : Type 0 where
  pub configured : Bool
  pub dhcp_started : Bool
  pub has_multicast : Bool

-- What wakes the loop: its shutdown, its timer, a new lease of the WAN, the end of that channel, and a
-- message of the kernel that is or is not of an address or link. `has_index` as above.
pub data LanEvent : Type 0 where
  shutdown : LanEvent
  tick : LanEvent
  wan_changed : WanLease → (has_index : Bool) → LanEvent
  wan_closed : LanEvent
  netlink : (is_address_or_link_event : Bool) → WanLease → (has_index : Bool) → LanEvent

abbrev pub zip : Option Ipv4Addr → Option Ipv4Addr → Option (Ipv4Addr × Ipv4Addr)
zip (some a) (some b) = some (a, b)
zip _ _ = none

module _ (lib : NetLib) where
  abbrev router_host : Option Ipv4Net → List Action
  router_host none = []
  router_host (some net) = register_local_host router_hostname net.addr ∷ []

  unfoldable pub notify_router_dns_host : LanRunner → Text → List Action
  notify_router_dns_host r new_ip = if r.has_local_hosts then router_host (lib.parse new_ip) else []

  abbrev remapped :
      LanRunner → Option Ipv4Net → Option Ipv4Net → List StaticLease × List PortForwardRule
  remapped r (some primary_net) (some target_net) = (
    remap_static_leases_for_subnet lib r.static_leases primary_net target_net,
    remap_port_forwards_for_subnet lib r.port_forwards primary_net target_net,
  )
  remapped r _ _ = (r.static_leases, r.port_forwards)

  unfoldable pub compute_remapped_rules : LanRunner → Text → List StaticLease × List PortForwardRule
  compute_remapped_rules r new_ip = remapped r (lib.parse r.initial_ip) (lib.parse new_ip)

  unfoldable pub shift_lan_subnet : LanRunner → Text → Bool → List Action × LanRunner
  shift_lan_subnet r new_ip has_index =
      let shifted = record r { current_ip = new_ip } in
      let rules = compute_remapped_rules shifted new_ip in
      (
        stop_services
            ++ reconfigure_lan_interface_ip has_index new_ip
            ++ notify_router_dns_host shifted new_ip
            ++ notify_static_lease_dns_hosts shifted rules.0
            ++ configure_firewall rules.1
              ∷ start_dhcp_server shifted.current_ip rules.0
              ∷ start_observability shifted.current_ip
              ∷ [],
        shifted,
      )

  abbrev new_net_of : Option ℕ → Ipv4Addr → Option Ipv4Net
  new_net_of none wan_ip = none
  new_net_of (some wan_prefix) wan_ip =
      if not (is_valid_subnet_prefix wan_prefix) then none else lib.new_net wan_ip wan_prefix

  -- The network of the WAN in `check_and_resolve`; without one it returns.
  abbrev pub wan_net_of : Option (Ipv4Addr × Ipv4Addr) → Option Ipv4Net
  wan_net_of none = none
  wan_net_of (some (wan_ip, wan_mask)) = new_net_of (mask_to_prefix_len wan_mask) wan_ip

  abbrev pub resolve_backup : LanRunner → Bool → Ipv4Net → Option Ipv4Net → List Action × LanRunner
  resolve_backup r has_index wan_net none = ([], r)
  resolve_backup r has_index wan_net (some backup_net) =
      if is_subnet_overlap wan_net backup_net
      then ([], r)
      else shift_lan_subnet r r.backup_ip has_index

  abbrev pub resolve : LanRunner → Bool → Option Ipv4Net → Option Ipv4Net → List Action × LanRunner
  resolve r has_index (some wan_net) (some current_net) =
      if not (is_subnet_overlap wan_net current_net)
      then ([], r)
      else if bytes_eq r.current_ip r.backup_ip
      then ([], r)
      else resolve_backup r has_index wan_net (lib.parse r.backup_ip)
  resolve r has_index _ _ = ([], r)

  unfoldable pub check_and_resolve : LanRunner → WanLease → Bool → List Action × LanRunner
  check_and_resolve r lease has_index =
      resolve r has_index (wan_net_of (zip lease.ip lease.mask)) (lib.parse r.current_ip)

  -- The loop of `run`, which ends with `stop_services`.
  unfoldable pub run_loop : LanRunner → List LanEvent → List Action × LanRunner
  run_loop r [] = ([], r)
  run_loop r (shutdown ∷ es) = (send_service_heartbeat ∷ stop_services, r)
  run_loop r (tick ∷ es) =
      let rest = run_loop r es in (send_service_heartbeat ∷ send_service_heartbeat ∷ rest.0, rest.1)
  run_loop r (wan_changed lease has_index ∷ es) =
      let c = check_and_resolve r lease has_index in
      let rest = run_loop c.1 es in
      (send_service_heartbeat ∷ send_service_heartbeat ∷ c.0 ++ rest.0, rest.1)
  run_loop r (wan_closed ∷ es) = (send_service_heartbeat ∷ stop_services, r)
  run_loop r (netlink true lease has_index ∷ es) =
      let c = check_and_resolve r lease has_index in
      let rest = run_loop c.1 es in (send_service_heartbeat ∷ c.0 ++ rest.0, rest.1)
  run_loop r (netlink false lease has_index ∷ es) =
      let rest = run_loop r es in (send_service_heartbeat ∷ rest.0, rest.1)

  -- `run`, with the lease at its start.
  unfoldable pub run :
      LanRunner → Startup → WanLease → Bool → List LanEvent → List Action × LanRunner
  run r s lease has_index es =
      let c = check_and_resolve r lease has_index in
      let rest = run_loop c.1 es in
      let head = send_service_heartbeat ∷ configure_interface_ip r.current_ip ∷ [] in
      let services =
        head
        ++ start_dhcp_server r.current_ip r.static_leases ∷ start_observability r.current_ip ∷ [] in
      if not s.configured
      then (head, r)
      else if not s.dhcp_started
      then (head ++ start_dhcp_server r.current_ip r.static_leases ∷ [], r)
      else if not s.has_multicast
      then (services ++ stop_services, r)
      else (services ++ c.0 ++ rest.0, rest.1)
