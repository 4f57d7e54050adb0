-- ===== src/DnsForwarder.antt =====
-- src/services/dns_forwarder: the rate limiter, the cache, the table of pending queries and the local
-- names of the DNS forwarder.
pub mod RateLimiter
pub mod Wire
pub mod Cache
pub mod Pending
pub mod Worker
pub mod LocalHosts
