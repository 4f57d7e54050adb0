-- ===== src/DhcpClient.antt =====
-- src/services/dhcp_client/worker.rs: the messages that the client of the WAN builds and reads. The
-- crate `dhcproto` is a record of what the code sets and asks of a message; `Client` and its
-- children are the loop of the worker.
pub mod Client
pub mod Parent
use trimrouter.Prelude.{
  ℕ, ◌/◌, ◌%◌, Bool, true, false, ◌&&◌, not, Option, none, some, List, [], ◌∷◌, if◌then◌else◌,
  nat_eq,
}
use trimrouter.Net.{Ipv4Addr, MacAddr, is_unspecified}

pub data MessageType : Type 0 where
  discover offer request ack nak other_type : MessageType

pub data OptionCode : Type 0 where
  subnet_mask_code router_code domain_name_server_code : OptionCode

-- A `dhcproto` message: the fields that the client sets or reads, and an option as what it holds.
pub record Message : Type 0 where
  pub is_boot_request : Bool
  pub xid : ℕ
  pub broadcast : Bool
  pub chaddr : List ℕ
  pub ciaddr : Ipv4Addr
  pub yiaddr : Ipv4Addr
  pub message_type : Option MessageType
  pub requested_ip : Option Ipv4Addr
  pub server_identifier : Option Ipv4Addr
  pub parameter_request_list : List OptionCode
  pub subnet_mask : Option Ipv4Addr
  pub router : Option (List Ipv4Addr)
  pub domain_name_server : Option (List Ipv4Addr)
  pub address_lease_time : Option ℕ

pub record DhcpOffer : Type 0 where
  pub offered_ip : Ipv4Addr
  pub server_ip : Option Ipv4Addr

pub record DhcpAck : Type 0 where
  pub ip : Ipv4Addr
  pub mask : Ipv4Addr
  pub gateway : Option Ipv4Addr
  pub server_ip : Option Ipv4Addr
  pub lease_secs : ℕ
  pub dns_servers : List Ipv4Addr

pub record LeaseOptions : Type 0 where
  pub mask : Ipv4Addr
  pub gateway : Option Ipv4Addr
  pub dns_servers : List Ipv4Addr
  pub lease_secs : ℕ

pub data ParseAckResult : Type 0 where
  acked : DhcpAck → ParseAckResult
  naked : ParseAckResult
  ignored : ParseAckResult

abbrev pub default_lease_secs : ℕ
default_lease_secs = 3600

abbrev pub default_subnet_mask : Ipv4Addr
default_subnet_mask = 4294967040

-- `MacAddr::octets`, of the 48 bits.
abbrev pub octets : MacAddr → List ℕ
octets mac =
    mac / 1099511627776 % 256
    ∷ mac / 4294967296 % 256
    ∷ mac / 16777216 % 256
    ∷ mac / 65536 % 256
    ∷ mac / 256 % 256
    ∷ mac % 256
    ∷ []

-- `slice::starts_with`
abbrev pub starts_with : List ℕ → List ℕ → Bool
starts_with xs [] = true
starts_with [] (y ∷ ys) = false
starts_with (x ∷ xs) (y ∷ ys) = nat_eq x y && starts_with xs ys

-- The messages are built from `Message::default()`, which is the crate's.
module _ (default_message : Message) where
  unfoldable pub build_discover_message : MacAddr → ℕ → Message
  build_discover_message mac xid = record default_message {
    is_boot_request = true;
    xid = xid;
    broadcast = true;
    chaddr = octets mac;
    message_type = some discover;
    parameter_request_list = subnet_mask_code ∷ router_code ∷ domain_name_server_code ∷ [];
  }

  abbrev request_head : MacAddr → ℕ → Ipv4Addr → Message
  request_head mac xid ciaddr = record default_message {
    is_boot_request = true;
    xid = xid;
    ciaddr = ciaddr;
    chaddr = octets mac;
    message_type = some request;
  }

  abbrev with_server : Option Ipv4Addr → Message → Message
  with_server none m = m
  with_server (some srv) m = record m { server_identifier = some srv }

  unfoldable pub build_request_message :
      MacAddr → ℕ → Ipv4Addr → Option Ipv4Addr → Ipv4Addr → Message
  build_request_message mac xid requested_ip server_ip ciaddr =
      if is_unspecified ciaddr
      then with_server server_ip (record (request_head mac xid ciaddr) {
        broadcast = true;
        requested_ip = some requested_ip;
      })
      else request_head mac xid ciaddr

abbrev first_router : Option (List Ipv4Addr) → Option Ipv4Addr
first_router (some (r ∷ rs)) = some r
first_router _ = none

abbrev or_default {ℓ} : {A : Type ℓ} → Option A → A → A
or_default none d = d
or_default (some a) d = a

unfoldable pub parse_lease_options : Message → LeaseOptions
parse_lease_options dhcp = record {
  mask = or_default dhcp.subnet_mask default_subnet_mask;
  gateway = first_router dhcp.router;
  dns_servers = or_default dhcp.domain_name_server [];
  lease_secs = or_default dhcp.address_lease_time default_lease_secs;
}

abbrev offer_of : Option MessageType → Message → Option DhcpOffer
offer_of (some offer) dhcp =
    some (record { offered_ip = dhcp.yiaddr; server_ip = dhcp.server_identifier })
offer_of _ dhcp = none

unfoldable pub parse_offer : Message → ℕ → Option DhcpOffer
parse_offer dhcp xid = if not (nat_eq dhcp.xid xid) then none else offer_of dhcp.message_type dhcp

unfoldable pub ack_of : Message → DhcpAck
unfolding parse_lease_options
ack_of dhcp =
    let opts = parse_lease_options dhcp in
    record {
      ip = dhcp.yiaddr;
      mask = opts.mask;
      gateway = opts.gateway;
      server_ip = dhcp.server_identifier;
      lease_secs = opts.lease_secs;
      dns_servers = opts.dns_servers;
    }

abbrev reply_of : Option MessageType → Message → ParseAckResult
reply_of (some ack) dhcp = acked (ack_of dhcp)
reply_of (some nak) dhcp = naked
reply_of _ dhcp = ignored

unfoldable pub parse_ack_nak : Message → ℕ → ParseAckResult
parse_ack_nak dhcp xid =
    if not (nat_eq dhcp.xid xid) then ignored else reply_of dhcp.message_type dhcp
