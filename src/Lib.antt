-- ===== src/Lib.antt =====
-- Verification of trimrouter, a router for small networks: a first process that watches over the
-- machine and starts its services, a DHCP server and a DNS forwarder for the LAN, and the clients of
-- the uplink. Each service has a worker process, whose state is kept by one loop.
--
-- Parts and files:
-- - src/services/dhcp_server/lease_table.rs: DhcpServer/LeaseTable.antt has the table (`LeaseTable`) and its
--   methods under their own names, LeaseTable/Assign.antt the methods that give out an address and
--   the list for the status page, LeaseTable/Actor.antt `handle_lease_command` and the loop of the
--   actor over its commands and cleanups. DhcpServer/Handle.antt is `LeaseHandle`, by which tasks ask.
-- - src/services/dhcp_server/worker.rs: DhcpServer/Worker.antt has what a packet of a client brings about.
--   Between two asks of a task other tasks change the table: what they do is a parameter (`Others`).
-- - src/services/dns_forwarder/worker.rs: DnsForwarder/Wire.antt (bytes of a message), Cache.antt,
--   LocalHosts.antt (names of the LAN), Pending.antt (queries that wait for a resolver), and Worker.antt,
--   which puts them together: `Forwarder` is the state of `run_forwarder_loop`, `forwarder_step` what it
--   does with an event. What is sent is a list of actions.
-- - src/services/dns_forwarder/rate_limiter.rs: DnsForwarder/RateLimiter.antt.
-- - src/services/utils.rs: Net.antt, Net/Subnet.antt, Net/Hostname.antt, and Supervisor.antt for the delay
--   before a restart.
-- - src/config.rs: Config.antt, and under it Network.antt, Reservations.antt, Ports.antt and Accepted.antt, which
--   has `RouterConfig::parse` and what an accepted configuration means for the LAN manager.
-- - src/services/lan/manager.rs: LanManager.antt has the translation of addresses, LanManager/Runner.antt
--   `LanRunner`: what it does to the services and the interface is a list of actions.
-- - src/services/dhcp_client/worker.rs: DhcpClient.antt has the messages, DhcpClient/Client.antt the worker, which is
--   in a `Phase` between two awaits; Client/Lease.antt has a machine of three states for the WAN.
-- - src/services/dhcp_client/manager.rs: DhcpClient/Parent.antt, what the parent does with a message of that
--   worker.
-- - src/services/supervisor.rs: Supervisor/Worker.antt.
-- - src/services/sntp_client/worker.rs: SntpClient.antt.
-- - src/init/kmod.rs: Init/Modules.antt, the aliases of kernel modules, and Init/Modules/Depends.antt, their
--   dependencies; what is pushed to `resolved` last stands first in the model. Init/Modules/Load.antt has
--   modules.dep and the loading, Load/Candidates.antt the names that are tried; the kernel is a parameter.
-- - src/init/watchdog.rs: Init/Watchdog.antt, the monitor that pets the hardware watchdog.
-- - Prelude.antt, HashMap.antt and HashSet.antt are shared: tests, lists, results, and the maps and sets of
--   the standard library. Tests.antt has runs at concrete inputs.
--
-- How the code is read: a handler of the forwarder is `none` where the code panics by an index out of range,
-- but for the query that `handle_incoming_query` has found to have a header. An `ApplyWanLease` or
-- `ClearWanLease` that the DHCP client cannot send is not in the list of what it sends; of its other messages
-- the list has what it hands over. Time is an argument of a call that reads the clock, one reading for a call. A
-- map is an association list with distinct keys, in its order of iteration. Numbers are natural numbers; an
-- address is its u32. A bucket of the rate limiter counts billionths of a token, where the source
-- has f64. What the crates pnet, ipnet, dhcproto and hickory compute is a record that the definitions take
-- as a parameter (`MacLib`, `Ipv4Net`, `DnsLib`), or a record of what a parser returns (`Packet`, `Message`).
--
-- Fuel: the loop that draws an id for a query runs on fuel; without enough of it the model drops the
-- query, where the code goes on drawing. Any fuel in which the draws hit each
-- of the ids 1 to 4096 is enough while the table has room. The loop that probes for a free address runs on fuel as
-- well; `none` is its lack. The loop that matches a pattern is given
-- (length of the text) * (length of the pattern + 1) + (length of the pattern) + 1 rounds, which are
-- enough: a round takes a character of the pattern, or moves the place of the last star by one.
--
-- How the parts meet: the configuration gives the LAN manager two networks, reservations and forwarded ports; the
-- LAN manager starts the DHCP server with reservations that it moves between the networks; the worker of the
-- DHCP client tells the parent the lease of the WAN, which the LAN manager checks against.
--
-- Not modelled: sockets, processes, seccomp, the encoding of messages, the TCP connections of the
-- forwarder, the start of processes, the status pages, netlink, and
-- the syntax of the configuration file, which the crate toml reads.
pub mod Prelude
pub mod HashMap
pub mod HashSet
pub mod Net
pub mod Config
pub mod DhcpClient
pub mod LanManager
pub mod SntpClient
pub mod DhcpServer
pub mod DnsForwarder
pub mod Tests
pub mod Init
pub mod Supervisor
