-- ===== src/DhcpServer/LeaseTable/Cases.antt =====
-- src/services/dhcp_server/lease_table.rs: case rules for the methods that give an address. What
-- holds of each outcome holds of the call.
use trimrouter.Prelude.{
  ◌+◌, ◌≡◌, inl, inr, Bool, true, false, ◌||◌, ◌&&◌, not, Option, none, some, arith, nat_eq,
  nat_key, Bool-cases, Option-cases, find,
}
use trimrouter.HashMap
use trimrouter.Net.{Ipv4Addr, MacAddr, Instant, Duration, Hostname, Ipv4Net}
use trimrouter.DhcpServer.LeaseTable.{
  LeaseTable, ClientLease, StaticLease, LeaseConfirmation, get, insert, evict_expired,
  next_available_ip, is_ip_taken_by_other, is_ip_available_for_dynamic, candidate_hold_duration,
}
use trimrouter.DhcpServer.LeaseTable.Assign.{
  allocate_candidate, confirm, validate_and_confirm, or_else, lease_ip, refuses_ip,
  refuses_reservation,
}

-- The lease that holds a candidate for the client.
abbrev pub candidate : Instant → Ipv4Addr → Option Hostname → ClientLease
candidate now ip hostname = record {
  ip = ip;
  expiry = now + candidate_hold_duration;
  hostname = hostname;
}

-- The test of `next_available_ip` on a host, in the table without what has expired.
abbrev pub usable : Instant → Ipv4Addr → LeaseTable → Ipv4Addr → Bool
usable now server_ip t ip =
    not (nat_eq ip server_ip) && is_ip_available_for_dynamic now ip (evict_expired now t).0

module _ {ℓ} (P : LeaseTable × Option Ipv4Addr → Type ℓ) (now : Instant) (mac : MacAddr)
    (net : Ipv4Net) (server_ip : Ipv4Addr) (t : LeaseTable) where
  pub allocate_cases :
      ((s : StaticLease)
        → HashMap.get mac t.static_leases ≡ some s
        → net.contains s.ip ≡ true
        → nat_eq s.ip server_ip ≡ false
        → is_ip_taken_by_other now s.ip mac t ≡ false
        → P (insert mac (candidate now s.ip s.hostname) t, some s.ip))
      → ((s : StaticLease)
          → HashMap.get mac t.static_leases ≡ some s
          → (net.contains s.ip
              && not (nat_eq s.ip server_ip)
              && not (is_ip_taken_by_other now s.ip mac t))
            ≡ false
          → P (t, none))
      → ((ip : Ipv4Addr)
          → HashMap.get mac t.static_leases ≡ none
          → find (usable now server_ip t) net.hosts ≡ some ip
          → P (insert mac (candidate now ip none) (evict_expired now t).0, some ip))
      → (HashMap.get mac t.static_leases ≡ none
          → find (usable now server_ip t) net.hosts ≡ none
          → P ((evict_expired now t).0, none))
      → P (allocate_candidate now mac net server_ip t)
  unfolding allocate_candidate next_available_ip
  allocate_cases reserved refused dynamic exhausted =
      elim (Option-cases (HashMap.get mac t.static_leases)) [
        | inr (s, e) ↦
            elim (Bool-cases (
              net.contains s.ip
              && not (nat_eq s.ip server_ip)
              && not (is_ip_taken_by_other now s.ip mac t))) [
                | inl ok ↦
                    rw (e, allocate_candidate, ok)
                      (reserved s e (ground arith) (ground arith) (ground arith))
                | inr bad ↦ rw (e, allocate_candidate, bad) (refused s e bad)
              ]
        | inl e ↦ elim (Option-cases (find (usable now server_ip t) net.hosts)) [
          | inr (ip, found) ↦ rw (e, allocate_candidate, found) (dynamic ip e found)
          | inl none_left ↦ rw (e, allocate_candidate, none_left) (exhausted e none_left)
        ]
      ]

module _ {ℓ} (P : LeaseTable × Option LeaseConfirmation → Type ℓ) (now : Instant) (mac : MacAddr)
    (requested : Option Ipv4Addr) (server_ip : Ipv4Addr) (net : Ipv4Net) (duration : Duration)
    (name : Option Hostname) (t : LeaseTable) where
  pub validate_cases :
      P (t, none)
      → ((ip : Ipv4Addr)
          → or_else requested (lease_ip (get mac t)) ≡ some ip
          → refuses_ip now mac server_ip net ip t ≡ false
          → refuses_reservation (HashMap.get mac t.static_leases) ip t ≡ false
          → P ((confirm now mac ip duration name t).0, some (confirm now mac ip duration name t).1))
      → P (validate_and_confirm now mac requested server_ip net duration name t)
  unfolding validate_and_confirm
  validate_cases refused confirmed =
      elim (Option-cases (or_else requested (lease_ip (get mac t)))) [
        | inl e ↦ rw (e, validate_and_confirm) refused
        | inr (ip, e) ↦
            elim (Bool-cases (
              refuses_ip now mac server_ip net ip t
              || refuses_reservation (HashMap.get mac t.static_leases) ip t)) [
                | inl bad ↦ rw (e, validate_and_confirm, bad) refused
                | inr good ↦
                    rw (e, validate_and_confirm, good)
                      (confirmed ip e (ground arith) (ground arith))
              ]
      ]
