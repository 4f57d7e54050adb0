-- ===== src/DhcpServer.antt =====
-- src/services/dhcp_server: the DHCP server of the LAN.
pub mod LeaseTable
pub mod Handle
pub mod Worker
