-- ===== src/Tests.antt =====
-- Runs of the model at concrete inputs, one module for each part of the code.
pub mod Leases
pub mod Modules
pub mod Dns
pub mod Forwarder
pub mod System
pub mod Lan
pub mod Wan
