-- ===== src/DhcpServer/Worker.antt =====
-- src/services/dhcp_server/worker.rs: what the server does with a packet of a client. A handler returns the
-- table after its last ask, and the messages that it sends to the parent.
pub mod Requests
use trimrouter.Prelude.{
  ℕ, zero, suc, ◌+◌, ◌*◌, ◌≡◌, Bool, true, false, ◌&&◌, ◌||◌, not, Option, none, some, List, [],
  ◌∷◌, ◌++◌, if◌then◌else◌, nat_eq, ltb, leb, length,
}
use trimrouter.Net.{
  Ipv4Addr, MacAddr, Duration, Hostname, Ipv4Net, MacLib, from_secs, is_unspecified,
}
use trimrouter.Net.Hostname.{sanitize_hostname}
use trimrouter.DhcpServer.LeaseTable.{LeaseTable, LeaseConfirmation}
use trimrouter.DhcpServer.Handle
use trimrouter.DhcpServer.Handle.{Others}

pub record ServerConfig : Type 0 where
  pub server_ip : Ipv4Addr
  pub net : Ipv4Net

pub data MessageType : Type 0 where
  discover request decline release other_type : MessageType

-- What the code reads of a `dhcproto` message: whether its opcode is BootRequest, and its options.
pub record Message : Type 0 where
  pub is_boot_request : Bool
  pub hlen : ℕ
  pub chaddr : List ℕ
  pub giaddr : Ipv4Addr
  pub ciaddr : Ipv4Addr
  pub xid : ℕ
  pub broadcast : Bool
  pub message_type : Option MessageType
  pub server_identifier : Option Ipv4Addr
  pub requested_ip : Option Ipv4Addr
  pub hostname : Option (List ℕ)

-- src/services/ipc.rs: the messages to the parent that a packet brings about.
pub data DhcpServerWorkerToParentMsg : Type 0 where
  probe_arp_conflict : Ipv4Addr → DhcpServerWorkerToParentMsg
  send_offer : MacAddr → ℕ → Ipv4Addr → Bool → DhcpServerWorkerToParentMsg
  send_ack : MacAddr → ℕ → Ipv4Addr → Bool → DhcpServerWorkerToParentMsg
  send_nak : MacAddr → ℕ → DhcpServerWorkerToParentMsg
  register_local_host : Hostname → Ipv4Addr → DhcpServerWorkerToParentMsg
  deregister_local_host : Hostname → DhcpServerWorkerToParentMsg

abbrev pub Msgs : Type 0
Msgs = List DhcpServerWorkerToParentMsg

abbrev pub lan_lease : Duration
lan_lease = from_secs 3600

abbrev pub conflict_hold_duration : Duration
conflict_hold_duration = from_secs 300

-- `MacAddr::from(bytes)`, by the 48 bits.
abbrev pub mac_of : List ℕ → Option MacAddr
mac_of (a ∷ b ∷ c ∷ d ∷ e ∷ f ∷ rest) =
    some (((((a * 256 + b) * 256 + c) * 256 + d) * 256 + e) * 256 + f)
mac_of _ = none

abbrev pub is_spoofed_l2_packet : MacAddr → MacAddr → Ipv4Addr → Bool
is_spoofed_l2_packet eth_src client_mac giaddr =
    is_unspecified giaddr && not (nat_eq eth_src client_mac)

abbrev pub should_process_request_server_id : Option Ipv4Addr → Ipv4Addr → Bool
should_process_request_server_id none server_ip = true
should_process_request_server_id (some id) server_ip = nat_eq id server_ip

abbrev pub extract_sanitized_hostname : Message → Option Hostname
extract_sanitized_hostname dhcp = elim dhcp.hostname [
  | none ↦ none
  | some name ↦ sanitize_hostname name
]

-- The address that a request is about.
abbrev pub requested_ip_opt : Message → Option Ipv4Addr
requested_ip_opt dhcp = elim dhcp.requested_ip [
  | some ip ↦ some ip
  | none ↦ if not (is_unspecified dhcp.ciaddr) then some dhcp.ciaddr else none
]

abbrev pub deregister_old : Option Hostname → Msgs
deregister_old none = []
deregister_old (some old) = deregister_local_host old ∷ []

abbrev pub register_new : Option Hostname → Ipv4Addr → Msgs
register_new none ip = []
register_new (some name) ip = register_local_host name ip ∷ []

module _ (lib : MacLib) where
  abbrev good_mac : Option MacAddr → Option MacAddr
  good_mac none = none
  good_mac (some mac) =
      if nat_eq mac lib.zero_mac || nat_eq mac lib.broadcast_mac then none else some mac

  unfoldable pub extract_client_mac : Message → Option MacAddr
  extract_client_mac dhcp = if not (nat_eq dhcp.hlen 6) then none else good_mac (mac_of dhcp.chaddr)

  module _ (others : Others) (config : ServerConfig) where
    -- The loop from its ask of number `i` on, with the number of the ask that follows it; `none` means
    -- that the fuel ran out.
    unfoldable pub probe_and_allocate_ip :
        ℕ → ℕ → MacAddr → LeaseTable → Option (LeaseTable × ℕ × Option Ipv4Addr × Msgs)
    probe_and_allocate_ip zero i client_mac t = none
    probe_and_allocate_ip (suc fuel) i client_mac t =
        let r = Handle.allocate_candidate lib others i client_mac config.net config.server_ip t in
        elim r.1 [
          | none ↦ some (r.0, i + 1, none, [])
          | some ip ↦
              let c = Handle.check_conflict lib others (i + 1) ip client_mac r.0 in
              let held = Handle.record_conflict lib others (i + 2) ip conflict_hold_duration c.0 in
              let rest = probe_and_allocate_ip fuel (i + 3) client_mac held in
              if c.1
              then elim rest [
                | none ↦ none
                | some (t', j, found, msgs) ↦ some (t', j, found, probe_arp_conflict ip ∷ msgs)
              ]
              else some (c.0, i + 2, some ip, probe_arp_conflict ip ∷ [])
        ]

    unfoldable pub find_or_allocate_discover_ip :
        ℕ → MacAddr → LeaseTable → Option (LeaseTable × ℕ × Option Ipv4Addr × Msgs)
    unfolding probe_and_allocate_ip
    find_or_allocate_discover_ip fuel client_mac t =
        let r = Handle.get_existing_ip lib others 0 client_mac t in
        elim r.1 [
          | some ip ↦ some (r.0, 1, some ip, [])
          | none ↦ probe_and_allocate_ip fuel 1 client_mac r.0
        ]

    abbrev offer : Message → MacAddr → LeaseTable × ℕ × Option Ipv4Addr × Msgs → LeaseTable × Msgs
    offer dhcp client_mac (t, i, none, msgs) = (t, msgs)
    offer dhcp client_mac (t, i, some ip, msgs) = (
      Handle.confirm_lease lib others i client_mac ip lan_lease (extract_sanitized_hostname dhcp) t,
      msgs ++ send_offer client_mac dhcp.xid ip dhcp.broadcast ∷ [],
    )

    unfoldable pub handle_dhcp_discover :
        ℕ → Message → MacAddr → LeaseTable → Option (LeaseTable × Msgs)
    unfolding find_or_allocate_discover_ip
    handle_dhcp_discover fuel dhcp client_mac t =
        elim (find_or_allocate_discover_ip fuel client_mac t) [
          | none ↦ none
          | some found ↦ some (offer dhcp client_mac found)
        ]

    -- `verify_arp_conflict`, from its ask of number `i` on.
    unfoldable pub verify_arp_conflict : ℕ → Ipv4Addr → MacAddr → LeaseTable → LeaseTable × Bool
    verify_arp_conflict i leased_ip client_mac t =
        let c = Handle.check_conflict lib others i leased_ip client_mac t in
        if c.1
        then (Handle.record_conflict lib others (i + 1) leased_ip conflict_hold_duration c.0, true)
        else (c.0, false)

    -- What `handle_dhcp_request` does with a confirmed lease.
    unfoldable pub acknowledge :
        Message → MacAddr → LeaseConfirmation → LeaseTable → LeaseTable × Msgs
    unfolding verify_arp_conflict
    acknowledge dhcp client_mac c t =
        let v = verify_arp_conflict 1 c.ip client_mac t in
        if v.1 then (v.0, probe_arp_conflict c.ip ∷ send_nak client_mac dhcp.xid ∷ []) else (
          v.0,
          probe_arp_conflict c.ip
                ∷ send_ack client_mac dhcp.xid c.ip dhcp.broadcast
                ∷ deregister_old c.old_hostname_to_deregister
              ++ register_new c.hostname c.ip,
        )

    unfoldable pub handle_dhcp_request : Message → MacAddr → LeaseTable → LeaseTable × Msgs
    unfolding acknowledge
    handle_dhcp_request dhcp client_mac t =
        let r =
          Handle.validate_and_confirm_request lib others 0 client_mac (requested_ip_opt dhcp)
            config.server_ip config.net lan_lease (extract_sanitized_hostname dhcp) t in
        if not (should_process_request_server_id dhcp.server_identifier config.server_ip)
        then (t, [])
        else elim r.1 [
          | none ↦ (r.0, send_nak client_mac dhcp.xid ∷ [])
          | some c ↦ acknowledge dhcp client_mac c r.0
        ]

    -- A DHCPDECLINE or a DHCPRELEASE.
    unfoldable pub handle_release : MacAddr → LeaseTable → LeaseTable × Msgs
    handle_release client_mac t =
        let r = Handle.release lib others 0 client_mac t in
        elim r.1 [ none ↦ (r.0, []) | some (ip, name) ↦ (r.0, deregister_old name) ]

    unfoldable pub handle_message :
        ℕ → Message → MacAddr → Option MessageType → LeaseTable → Option (LeaseTable × Msgs)
    unfolding handle_dhcp_discover handle_dhcp_request handle_release
    handle_message fuel dhcp client_mac (some discover) t =
        handle_dhcp_discover fuel dhcp client_mac t
    handle_message fuel dhcp client_mac (some request) t =
        some (handle_dhcp_request dhcp client_mac t)
    handle_message fuel dhcp client_mac (some decline) t = some (handle_release client_mac t)
    handle_message fuel dhcp client_mac (some release) t = some (handle_release client_mac t)
    handle_message fuel dhcp client_mac _ t = some (t, [])

    -- `process_incoming_packet`, of what `parse_dhcp_payload` reads and the source of the frame.
    unfoldable pub process_incoming_packet :
        ℕ → Option Message → MacAddr → LeaseTable → Option (LeaseTable × Msgs)
    unfolding extract_client_mac handle_message
    process_incoming_packet fuel none src_mac t = some (t, [])
    process_incoming_packet fuel (some dhcp) src_mac t =
        if not dhcp.is_boot_request then some (t, []) else elim (extract_client_mac dhcp) [
          | none ↦ some (t, [])
          | some client_mac ↦
              if is_spoofed_l2_packet src_mac client_mac dhcp.giaddr
              then some (t, [])
              else handle_message fuel dhcp client_mac dhcp.message_type t
        ]
