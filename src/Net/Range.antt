-- ===== src/Net/Range.antt =====
-- `ipnet::Ipv4Net` as a range of addresses: what the services rely on.
use trimrouter.Prelude.{◌≤◌, ◌<◌, ◌≡◌, ◌↔◌, true}
use trimrouter.Net.{Ipv4Addr, Ipv4Net}

-- The documented behaviour of a network: it contains the addresses from its network address to its
-- broadcast address.
pub record IsRange (net : Ipv4Net) : Type 0 where
  pub contains_iff :
      (ip : Ipv4Addr) → (net.contains ip ≡ true) ↔ ((net.network ≤ ip) × (ip ≤ net.broadcast))
  pub ordered : net.network ≤ net.broadcast
  pub bounded : net.broadcast < 4294967296

pub in_range :
    {net : Ipv4Net} (r : IsRange net) (ip : Ipv4Addr)
    → net.contains ip ≡ true
    → (net.network ≤ ip) × (ip ≤ net.broadcast)
in_range r ip h = (r.contains_iff ip).0 h

pub contains-range :
    {net : Ipv4Net} (r : IsRange net) (ip : Ipv4Addr)
    → net.network ≤ ip
    → ip ≤ net.broadcast
    → net.contains ip ≡ true
contains-range r ip l u = (r.contains_iff ip).1 (l, u)
