-- ===== src/DhcpServer/Worker/Requests.antt =====
-- src/services/dhcp_server/worker.rs: which packets the server takes, and which requests it acknowledges.
use trimrouter.Prelude.{
  ℕ, ◌≡◌, ◌≢◌, ◌⊎◌, refl, ap, ◌∙◌, ◌++◌, List, inl, inr, Bool, true, false, not, Option, none, some,
  [], ◌∷◌, arith, if◌then◌else◌, nat_eq, Bool-cases, Option-cases, subst,
}
use trimrouter.Net.{Ipv4Addr, MacAddr, Hostname, MacLib}
use trimrouter.DhcpServer.LeaseTable.{LeaseTable, LeaseConfirmation}
use trimrouter.DhcpServer.LeaseTable.Confirmation.{IsConfirmed, Outcome, validate_and_confirm_lem}
use trimrouter.DhcpServer.Handle
use trimrouter.DhcpServer.Handle.{Others}
use trimrouter.DhcpServer.Worker.{
  ServerConfig, Message, Msgs, send_ack, deregister_old, register_new, lan_lease, requested_ip_opt,
  extract_sanitized_hostname, handle_dhcp_request, acknowledge, verify_arp_conflict,
  process_incoming_packet, extract_client_mac, is_spoofed_l2_packet,
  should_process_request_server_id,
}

-- The ACKs of a list of messages: to whom, and of which address.
abbrev pub acks : Msgs → List (MacAddr × Ipv4Addr)
acks [] = []
acks (send_ack mac xid ip broadcast ∷ msgs) = (mac, ip) ∷ acks msgs
acks (_ ∷ msgs) = acks msgs

acks-hostnames :
    (old name : Option Hostname) (ip : Ipv4Addr)
    → acks (deregister_old old ++ register_new name ip) ≡ []
acks-hostnames none none ip = refl
acks-hostnames none (some n) ip = refl
acks-hostnames (some o) none ip = refl
acks-hostnames (some o) (some n) ip = refl

genuine-cases :
    (src_mac client_mac : MacAddr) (giaddr : Ipv4Addr)
    → is_spoofed_l2_packet src_mac client_mac giaddr ≡ false
    → (giaddr ≢ 0) ⊎ (src_mac ≡ client_mac)
genuine-cases src_mac client_mac giaddr h = elim (Bool-cases (nat_eq giaddr 0)) [
  | inl direct ↦ inr (ground (arith, h, direct))
  | inr relayed ↦ inl (λ e. ground (arith, relayed, e))
]

-- A packet that makes the server send something or change its table is a BootRequest from a client with
-- a proper MAC address, which without a relay is the source of the frame.
pub process_incoming_packet-authentic :
    (lib : MacLib) (others : Others) (config : ServerConfig) (fuel : ℕ) (dhcp : Message)
    (src_mac : MacAddr) (t : LeaseTable)
    → process_incoming_packet lib others config fuel (some dhcp) src_mac t ≢ some (t, [])
    → (dhcp.is_boot_request ≡ true)
      × ((client_mac : MacAddr) × (extract_client_mac lib dhcp ≡ some client_mac)
          × ((dhcp.giaddr ≢ 0) ⊎ (src_mac ≡ client_mac)))
unfolding process_incoming_packet
process_incoming_packet-authentic lib others config fuel dhcp src_mac t changes =
    elim (Bool-cases dhcp.is_boot_request) [
      | inr reply ↦ absurd (changes (rw reply refl))
      | inl boot ↦ elim (Option-cases (extract_client_mac lib dhcp)) [
        | inl bad ↦ absurd (changes (rw (boot, bad) refl))
        | inr (mac, good) ↦ elim (Bool-cases (is_spoofed_l2_packet src_mac mac dhcp.giaddr)) [
          | inl spoofed ↦ absurd (changes (rw (boot, good, spoofed) refl))
          | inr genuine ↦ (boot, (mac, good, genuine-cases src_mac mac dhcp.giaddr genuine))
        ]
      ]
    ]

-- What an acknowledged address stands for, in the table that the server asks first.
module _ (lib : MacLib) (others : Others) (config : ServerConfig) (dhcp : Message)
    (client_mac : MacAddr) (t : LeaseTable) where
  abbrev pub validated : LeaseTable × Option LeaseConfirmation
  validated =
      Handle.validate_and_confirm_request lib others 0 client_mac (requested_ip_opt dhcp)
        config.server_ip config.net lan_lease (extract_sanitized_hostname dhcp) t

  abbrev pub no_conflict : Ipv4Addr → Bool
  no_conflict ip = not (Handle.check_conflict lib others 1 ip client_mac validated.0).1

  acks-acknowledge :
      (c : LeaseConfirmation) (t' : LeaseTable)
      → acks (acknowledge lib others config dhcp client_mac c t').1 ≡ (
          if (Handle.check_conflict lib others 1 c.ip client_mac t').1
          then []
          else (client_mac, c.ip) ∷ [])
  unfolding acknowledge verify_arp_conflict
  acks-acknowledge c t' =
      elim (Bool-cases (Handle.check_conflict lib others 1 c.ip client_mac t').1) [
        | inl clash ↦ rw (clash, acknowledge, verify_arp_conflict) refl
        | inr free ↦
            rw (free, acknowledge, verify_arp_conflict)
              (ap (λ l. (client_mac, c.ip) ∷ l)
                (acks-hostnames c.old_hostname_to_deregister c.hostname c.ip))
      ]

  validated-Outcome :
      Outcome
        (others.now 0)
        client_mac
        (requested_ip_opt dhcp)
        config.server_ip
        config.net
        lan_lease
        (others.meanwhile 0 t)
        validated
  unfolding Handle.validate_and_confirm_request
  validated-Outcome =
      validate_and_confirm_lem (others.now 0) client_mac (requested_ip_opt dhcp) config.server_ip
        config.net lan_lease (extract_sanitized_hostname dhcp) (others.meanwhile 0 t)

  Outcome-IsConfirmed :
      (c : LeaseConfirmation) (r : LeaseTable × Option LeaseConfirmation)
      → Outcome
          (others.now 0)
          client_mac
          (requested_ip_opt dhcp)
          config.server_ip
          config.net
          lan_lease
          (others.meanwhile 0 t)
          r
      → r.1 ≡ some c
      → IsConfirmed
          (others.now 0)
          client_mac
          config.server_ip
          config.net
          (others.meanwhile 0 t)
          c.ip
          c.hostname
  Outcome-IsConfirmed c (t', none) o e = absurd (ground arith)
  Outcome-IsConfirmed c (t', some x) o e =
      let same : x ≡ c = ground arith in
      subst
        (λ y.
          IsConfirmed (others.now 0) client_mac config.server_ip config.net (others.meanwhile 0 t)
            y.ip y.hostname)
        same o.0

  -- What makes an ACK of an address right.
  abbrev pub Rightful : Ipv4Addr → Type 0
  Rightful ip =
      (should_process_request_server_id dhcp.server_identifier config.server_ip ≡ true)
      × ((name : Option Hostname) × IsConfirmed (others.now 0) client_mac config.server_ip
            config.net (others.meanwhile 0 t) ip name)
      × (no_conflict ip ≡ true)

  -- Among all that the server sends for a request there is no ACK, or exactly one, which goes to the
  -- client. Then the request is for this server, the address is one that `validate_and_confirm` may
  -- confirm to the client in the table as it is then, and the check that follows the probe sees no
  -- other client on it.
  pub handle_dhcp_request-acknowledged :
      (acks (handle_dhcp_request lib others config dhcp client_mac t).1 ≡ [])
      ⊎ ((ip : Ipv4Addr) × (acks (handle_dhcp_request lib others config dhcp client_mac t).1
            ≡ (client_mac, ip) ∷ [])
          × Rightful ip)
  unfolding handle_dhcp_request
  handle_dhcp_request-acknowledged =
      elim (Bool-cases (should_process_request_server_id dhcp.server_identifier config.server_ip)) [
        | inr other ↦ inl (rw (other, handle_dhcp_request) refl)
        | inl mine ↦ elim (Option-cases validated.1) [
          | inl refused ↦ inl (rw (mine, handle_dhcp_request, refused) refl)
          | inr (c, confirmed) ↦
              let e : acks (handle_dhcp_request lib others config dhcp client_mac t).1
                  ≡ acks (acknowledge lib others config dhcp client_mac c validated.0).1 =
                rw (mine, handle_dhcp_request, confirmed) refl in
              elim (Bool-cases (Handle.check_conflict lib others 1 c.ip client_mac validated.0).1) [
                | inl clash ↦ inl (e ∙ acks-acknowledge c validated.0 ∙ rw clash refl)
                | inr free ↦ inr (
                  c.ip,
                  e ∙ acks-acknowledge c validated.0 ∙ rw free refl,
                  (
                    mine,
                    (c.hostname, Outcome-IsConfirmed c validated validated-Outcome confirmed),
                    rw free refl,
                  ),
                )
              ]
        ]
      ]
