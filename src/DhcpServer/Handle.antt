-- ===== src/DhcpServer/Handle.antt =====
-- src/services/dhcp_server/lease_table.rs: `LeaseHandle`, by which the tasks of the server ask the
-- actor of the table. Between two asks of a task the others ask too: what they have done to the
-- table by the ask of number `i` is the function `meanwhile i`, and `now i` is the time of this ask.
use trimrouter.Prelude.{ℕ, Bool, false, Option, none}
use trimrouter.Net.{Ipv4Addr, MacAddr, Instant, Duration, Hostname, Ipv4Net, MacLib}
use trimrouter.DhcpServer.LeaseTable.{LeaseTable, LeaseConfirmation}
use trimrouter.DhcpServer.LeaseTable.Actor
use trimrouter.DhcpServer.LeaseTable.Actor.{
  LeaseCommand, Reply, done, maybe_ip, confirmation, conflict, released, expired, active,
  handle_lease_command,
}

pub record Others : Type 0 where
  pub now : ℕ → Instant
  pub meanwhile : ℕ → LeaseTable → LeaseTable

-- What a method makes of the reply; the other cases stand for an actor that is gone.
abbrev pub ip_of : Reply → Option Ipv4Addr
ip_of (maybe_ip ip) = ip
ip_of _ = none

abbrev pub confirmation_of : Reply → Option LeaseConfirmation
confirmation_of (confirmation c) = c
confirmation_of _ = none

abbrev pub conflict_of : Reply → Bool
conflict_of (conflict c) = c
conflict_of _ = false

abbrev pub released_of : Reply → Option (Ipv4Addr × Option Hostname)
released_of (released r) = r
released_of _ = none

module _ (lib : MacLib) (others : Others) (i : ℕ) where
  unfoldable pub ask : LeaseCommand → LeaseTable → LeaseTable × Reply
  unfolding handle_lease_command
  ask c t = handle_lease_command lib (others.now i) c (others.meanwhile i t)

  unfoldable pub get_existing_ip : MacAddr → LeaseTable → LeaseTable × Option Ipv4Addr
  unfolding ask
  get_existing_ip client_mac t =
      let r = ask (Actor.get_existing_ip client_mac) t in (r.0, ip_of r.1)

  unfoldable pub allocate_candidate :
      MacAddr → Ipv4Net → Ipv4Addr → LeaseTable → LeaseTable × Option Ipv4Addr
  unfolding ask
  allocate_candidate client_mac net server_ip t =
      let r = ask (Actor.allocate_candidate_for client_mac net server_ip) t in (r.0, ip_of r.1)

  unfoldable pub confirm_lease :
      MacAddr → Ipv4Addr → Duration → Option Hostname → LeaseTable → LeaseTable
  unfolding ask
  confirm_lease client_mac ip duration hostname t =
      (ask (Actor.confirm_lease client_mac ip duration hostname) t).0

  unfoldable pub validate_and_confirm_request :
      MacAddr
      → Option Ipv4Addr
      → Ipv4Addr
      → Ipv4Net
      → Duration
      → Option Hostname
      → LeaseTable
      → LeaseTable × Option LeaseConfirmation
  unfolding ask
  validate_and_confirm_request client_mac requested_ip server_ip net duration hostname t =
      let r =
        ask
          (Actor.validate_and_confirm_request client_mac requested_ip server_ip net duration
            hostname)
          t in
      (r.0, confirmation_of r.1)

  unfoldable pub check_conflict : Ipv4Addr → MacAddr → LeaseTable → LeaseTable × Bool
  unfolding ask
  check_conflict target_ip client_mac t =
      let r = ask (Actor.check_conflict target_ip client_mac) t in (r.0, conflict_of r.1)

  unfoldable pub record_conflict : Ipv4Addr → Duration → LeaseTable → LeaseTable
  unfolding ask
  record_conflict ip duration t = (ask (Actor.record_conflict_on ip duration) t).0

  unfoldable pub release : MacAddr → LeaseTable → LeaseTable × Option (Ipv4Addr × Option Hostname)
  unfolding ask
  release client_mac t = let r = ask (Actor.release client_mac) t in (r.0, released_of r.1)
