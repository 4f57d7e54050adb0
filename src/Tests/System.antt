-- ===== src/Tests/System.antt =====
-- src/init/watchdog.rs, src/services/dhcp_server/worker.rs and the restart delay at concrete inputs.
use trimrouter.Prelude.{
  ℕ, ◌≡◌, ◌≢◌, ◌⊎◌, refl, sym, ◌∙◌, Bool, true, false, Option, none, some, List, [], ◌∷◌, arith,
  leb, any, elem, find, ap,
}
use trimrouter.HashMap
use trimrouter.Net.{Ipv4Addr, MacAddr, MacLib, from_secs}
use trimrouter.Init.Watchdog.{
  dns_forwarder, dhcp_client, all_services, slot, ServiceLivenessMap, Tick, monitor_loop,
}
use trimrouter.Init.Watchdog.Monitor.{is_keepalive, monitor_loop-starves}
use trimrouter.DhcpServer.LeaseTable.{LeaseTable, new, is_ip_taken_by_other, get_mac_by_ip, insert}
use trimrouter.DhcpServer.LeaseTable.Assign.{
  validate_and_confirm, refuses_ip, refuses_reservation, confirm,
}
use trimrouter.DhcpServer.Handle
use trimrouter.DhcpServer.Handle.{Others}
use trimrouter.DhcpServer.Worker.{
  ServerConfig, Message, Msgs, request, extract_client_mac, handle_dhcp_request,
  process_incoming_packet,
}
use trimrouter.DhcpServer.Worker.Requests.{
  acks, Rightful, process_incoming_packet-authentic, handle_dhcp_request-acknowledged,
}

abbrev seen : ServiceLivenessMap
seen = some 1 ∷ some 2 ∷ some 3 ∷ some 4 ∷ []

-- The forwarder beats once, and then the client of DHCP is silent for more than half a minute.
abbrev ticks : List Tick
ticks =
    record { now = from_secs 40; heartbeats = (dns_forwarder, from_secs 40) ∷ []; shutdown = false }
    ∷ record { now = from_secs 45; heartbeats = []; shutdown = true }
    ∷ []

monitor_loop-starves_example : any is_keepalive (monitor_loop all_services ticks seen) ≡ false
unfolding any slot
monitor_loop-starves_example =
    monitor_loop-starves all_services dhcp_client ticks seen 3 refl refl
      (refl, omega arith, (refl, omega arith, tt))

abbrev lib : MacLib
lib = record { zero_mac = 0; broadcast_mac = 281474976710655 }

abbrev config : ServerConfig
config = record {
  server_ip = 10;
  net = record {
    addr = 10;
    network = 8;
    broadcast = 15;
    contains = λ ip. leb 8 ip;
    hosts = 10 ∷ 11 ∷ 12 ∷ [];
    prefix_len = 24;
  };
}

abbrev nobody : Others
nobody = record { now = λ i. 0; meanwhile = λ i t. t }

-- Client 7 asks for the address 11.
abbrev packet : Message
packet = record {
  is_boot_request = true;
  hlen = 6;
  chaddr = 0 ∷ 0 ∷ 0 ∷ 0 ∷ 0 ∷ 7 ∷ [];
  giaddr = 0;
  ciaddr = 0;
  xid = 5;
  broadcast = false;
  message_type = some request;
  server_identifier = some 10;
  requested_ip = some 11;
  hostname = none;
}

handle_dhcp_request-acknowledged_example :
    (acks (handle_dhcp_request lib nobody config packet 7 new).1 ≡ [])
    ⊎ ((ip : Ipv4Addr) × (acks (handle_dhcp_request lib nobody config packet 7 new).1
          ≡ (7, ip) ∷ [])
        × Rightful lib nobody config packet 7 new ip)
handle_dhcp_request-acknowledged_example =
    handle_dhcp_request-acknowledged lib nobody config packet 7 new

abbrev acks_of : Option (LeaseTable × Msgs) → List (MacAddr × Ipv4Addr)
acks_of none = []
acks_of (some r) = acks r.1

packet-ack :
    acks_of (process_incoming_packet lib nobody config 1 (some packet) 7 new) ≡ (7, 11) ∷ []
unfolding handle_dhcp_request Handle.validate_and_confirm_request validate_and_confirm refuses_ip
    is_ip_taken_by_other any refuses_reservation HashMap.get elem Handle.check_conflict
    get_mac_by_ip find confirm insert HashMap.insert process_incoming_packet
    trimrouter.DhcpServer.LeaseTable.get
packet-ack = refl

some_ne : ◌≢◌ {A = List (MacAddr × Ipv4Addr)} ((7, 11) ∷ []) []
some_ne e = cc

process_incoming_packet-authentic_example :
    ◌≡◌ {A = Bool} true true
    × ((client_mac : MacAddr) × (extract_client_mac lib packet ≡ some client_mac)
        × (◌≢◌ {A = ℕ} 0 0 ⊎ (◌≡◌ {A = ℕ} 7 client_mac)))
process_incoming_packet-authentic_example =
    process_incoming_packet-authentic lib nobody config 1 packet 7 new
      (λ e. some_ne (sym packet-ack ∙ ap acks_of e))
