-- ===== src/Init.antt =====
-- src/init: what runs in the first process.
pub mod Modules
pub mod Watchdog
