-- ===== src/DhcpClient/Parent.antt =====
-- src/services/dhcp_client/manager.rs: what the parent does with a message of the worker. Whether a message can be
-- encoded and put in a frame is a parameter.
pub mod Wan
use trimrouter.Prelude.{
  ℕ, Bool, true, false, ◌&&◌, not, Option, none, some, List, [], ◌∷◌, if◌then◌else◌, nat_eq,
  bytes_eq,
}
use trimrouter.Net.{Ipv4Addr, MacAddr, WanLease, is_unspecified}
use trimrouter.Net.Subnet.{prefix_len_to_mask}
use trimrouter.DhcpClient.{Message, build_discover_message, build_request_message}
use trimrouter.DhcpClient.Client.{
  DhcpClientToParentMsg, send_discover, send_request, apply_wan_lease, clear_wan_lease, heartbeat,
  Msgs, or_unspecified,
}

pub data ParentAction : Type 0 where
  send_service_heartbeat : ParentAction
  send_frame : (src_ip dest_ip : Ipv4Addr) → Message → ParentAction
  configure_wan : (ip mask : Ipv4Addr) (gateway : Option Ipv4Addr) → ParentAction
  deconfigure_wan : (ip mask : Ipv4Addr) → ParentAction

abbrev opt_eq : Option ℕ → Option ℕ → Bool
opt_eq none none = true
opt_eq (some a) (some b) = nat_eq a b
opt_eq _ _ = false

-- `==` of `WanLease`
unfoldable pub same_lease : WanLease → WanLease → Bool
same_lease a b =
    opt_eq a.ip b.ip
    && opt_eq a.mask b.mask
    && opt_eq a.gateway b.gateway
    && bytes_eq a.dns_servers b.dns_servers

-- `WanLease::default()`
abbrev pub no_lease : WanLease
no_lease = record { ip = none; mask = none; gateway = none; dns_servers = [] }

-- The lease that the other services see, and what is done.
unfoldable pub apply_parent_lease :
    WanLease → Ipv4Addr → Ipv4Addr → Ipv4Addr → List Ipv4Addr → List ParentAction × WanLease
unfolding same_lease
apply_parent_lease current ip_address mask gateway dns_servers =
    let new_lease : WanLease = record {
      ip = some ip_address;
      mask = some mask;
      gateway = some gateway;
      dns_servers = dns_servers;
    } in
    if not (same_lease current new_lease)
    then (configure_wan ip_address mask (some gateway) ∷ [], new_lease)
    else ([], current)

abbrev deconfigured : Option Ipv4Addr → Option Ipv4Addr → List ParentAction
deconfigured (some ip) (some mask) = deconfigure_wan ip mask ∷ []
deconfigured _ _ = []

unfoldable pub clear_parent_lease : WanLease → List ParentAction × WanLease
clear_parent_lease current = (deconfigured current.ip current.mask, no_lease)

module _ (default_message : Message) (can_send : Message → Bool) (wan_mac : MacAddr) where
  unfoldable pub handle_send_discover : ℕ → List ParentAction
  unfolding build_discover_message
  handle_send_discover xid =
      let discover = build_discover_message default_message wan_mac xid in
      if can_send discover then send_frame 0 4294967295 discover ∷ [] else []

  abbrev destination : Option Ipv4Addr → Ipv4Addr
  destination none = 4294967295
  destination (some ip) = ip

  unfoldable pub handle_send_request : ℕ → Ipv4Addr → Option Ipv4Addr → Ipv4Addr → List ParentAction
  unfolding build_request_message
  handle_send_request xid requested_ip server_ip ciaddr =
      let request =
        build_request_message default_message wan_mac xid requested_ip server_ip ciaddr in
      if not (can_send request)
      then []
      else if is_unspecified ciaddr
      then send_frame 0 4294967295 request ∷ []
      else send_frame ciaddr (destination server_ip) request ∷ []

  unfoldable pub handle_client_ipc_msg :
      DhcpClientToParentMsg → WanLease → List ParentAction × WanLease
  unfolding handle_send_discover handle_send_request apply_parent_lease clear_parent_lease
      prefix_len_to_mask
  handle_client_ipc_msg (send_discover xid) current =
      (send_service_heartbeat ∷ handle_send_discover xid, current)
  handle_client_ipc_msg (send_request xid requested_ip server_ip ciaddr) current =
      (send_service_heartbeat ∷ handle_send_request xid requested_ip server_ip ciaddr, current)
  handle_client_ipc_msg (apply_wan_lease ip_address prefix_len gateway dns_servers) current =
      let r =
        apply_parent_lease current ip_address (prefix_len_to_mask prefix_len) gateway dns_servers in
      (send_service_heartbeat ∷ r.0, r.1)
  handle_client_ipc_msg heartbeat current = (send_service_heartbeat ∷ [], current)
  handle_client_ipc_msg clear_wan_lease current =
      let r = clear_parent_lease current in (send_service_heartbeat ∷ r.0, r.1)

  -- The messages of a worker, one after the other: the lease after them.
  unfoldable pub lease_after : Msgs → WanLease → WanLease
  unfolding handle_client_ipc_msg
  lease_after [] current = current
  lease_after (m ∷ ms) current = lease_after ms (handle_client_ipc_msg m current).1
