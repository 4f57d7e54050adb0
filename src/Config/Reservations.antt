-- ===== src/Config/Reservations.antt =====
-- src/config.rs: `parse_dhcp_reservations`.
use trimrouter.Prelude.{
  ◌≡◌, refl, ap, subst, Bool, true, false, not, Option, none, some, List, [], ◌∷◌, arith, elem, any,
  bytes_eq,
}
use trimrouter.Prelude.Results.{
  ok, and_then, ok_or, refuse_if, Holds, Holds-ok, Holds-and_then, Holds-after, Holds-refuse_if,
}
use trimrouter.HashSet
use trimrouter.Net.{Ipv4Addr, MacAddr, Ipv4Net, Text, Hostname}
use trimrouter.Net.Hostname.{sanitize_hostname}
use trimrouter.DhcpServer.LeaseTable.{StaticLease}
use trimrouter.LanManager.Runner.{router_hostname}
use trimrouter.Config.{
  reservation_mac_invalid, reservation_mac_not_unicast, reservation_ip_missing,
  reservation_ip_invalid, hostname_invalid, hostname_reserved, duplicate_hostname, duplicate_mac,
  duplicate_ip, ConfigLib, Checked, trim, is_valid_unicast_mac, validate_target_ip,
}

pub record DhcpReservationToml : Type 0 where
  pub mac : Text
  pub ip : Option Text
  pub hostname : Option Text

-- `HashSet<String>`
abbrev pub has_name : Hostname → List Hostname → Bool
has_name name names = any (bytes_eq name) names

-- The sets of what the reservations so far use.
pub record Seen : Type 0 where
  pub macs : List MacAddr
  pub ips : List Ipv4Addr
  pub hostnames : List Hostname

abbrev pub nothing_seen : Seen
nothing_seen = record { macs = []; ips = []; hostnames = [] }

-- A host name, and the names seen then.
unfoldable pub parse_hostname :
    Option Text → List Hostname → Checked (Option Hostname × List Hostname)
parse_hostname none seen_hostnames = ok (none, seen_hostnames)
parse_hostname (some raw_host) seen_hostnames =
    and_then (ok_or (sanitize_hostname raw_host) hostname_invalid) (λ sanitized.
      refuse_if (bytes_eq sanitized router_hostname) hostname_reserved (
        refuse_if (has_name sanitized seen_hostnames) duplicate_hostname
          (ok (some sanitized, sanitized ∷ seen_hostnames))))

module _ (lib : ConfigLib) (lan_net backup_net : Ipv4Net) where
  -- A pass of the loop: its reservation, and what is seen after it.
  unfoldable pub parse_reservation : DhcpReservationToml → Seen → Checked (StaticLease × Seen)
  parse_reservation res seen =
      and_then (ok_or (lib.parse_mac res.mac) reservation_mac_invalid) (λ mac.
        refuse_if (not (is_valid_unicast_mac lib mac)) reservation_mac_not_unicast (
          and_then (ok_or res.ip reservation_ip_missing) (λ ip_str.
            and_then (ok_or (lib.parse_ip (trim ip_str)) reservation_ip_invalid) (λ ip.
              and_then (validate_target_ip ip lan_net backup_net) (λ _.
                and_then (parse_hostname res.hostname seen.hostnames) (λ named.
                  refuse_if (elem mac seen.macs) duplicate_mac (
                    refuse_if (elem ip seen.ips) duplicate_ip (
                      ok (
                        record { mac = mac; ip = ip; hostname = named.0 },
                        record {
                          macs = HashSet.insert mac seen.macs;
                          ips = HashSet.insert ip seen.ips;
                          hostnames = named.1;
                        },
                      )))))))))

  unfoldable pub parse_reservations : List DhcpReservationToml → Seen → Checked (List StaticLease)
  parse_reservations [] seen = ok []
  parse_reservations (res ∷ reservations) seen =
      and_then (parse_reservation res seen)
        (λ r. and_then (parse_reservations reservations r.1) (λ rest. ok (r.0 ∷ rest)))

  unfoldable pub parse_dhcp_reservations :
      Option (Option (List DhcpReservationToml)) → Checked (List StaticLease)
  parse_dhcp_reservations (some (some reservations)) = parse_reservations reservations nothing_seen
  parse_dhcp_reservations _ = ok []

  abbrev pub NameIsNew : Option Hostname → List Hostname → Type 0
  NameIsNew none names = Unit {0}
  NameIsNew (some name) names =
      (has_name name names ≡ false) × (bytes_eq name router_hostname ≡ false)

  abbrev pub with_name : Option Hostname → List Hostname → List Hostname
  with_name none names = names
  with_name (some name) names = name ∷ names

  abbrev pub after : StaticLease → Seen → Seen
  after l seen = record {
    macs = HashSet.insert l.mac seen.macs;
    ips = HashSet.insert l.ip seen.ips;
    hostnames = with_name l.hostname seen.hostnames;
  }

  -- A reservation for the hardware address of one card, which is new, an address of a host on both
  -- networks, which is new, and a name, if any, that is new and not the router's.
  pub record IsNew (l : StaticLease) (seen : Seen) : Type 0 where
    pub unicast : is_valid_unicast_mac lib l.mac ≡ true
    pub on_both : validate_target_ip l.ip lan_net backup_net ≡ ok tt
    pub new_mac : elem l.mac seen.macs ≡ false
    pub new_ip : elem l.ip seen.ips ≡ false
    pub new_name : NameIsNew l.hostname seen.hostnames

  -- Each reservation of the list is new after those before it.
  abbrev pub AllNew : List StaticLease → Seen → Type 0
  AllNew [] seen = Unit {0}
  AllNew (l ∷ ls) seen = IsNew l seen × AllNew ls (after l seen)

  parse_hostname-New :
      (raw : Option Text) (names : List Hostname)
      → Holds (λ r. NameIsNew r.0 names × (r.1 ≡ with_name r.0 names)) (parse_hostname raw names)
  unfolding parse_hostname
  parse_hostname-New none names = (tt, refl)
  parse_hostname-New (some raw) names =
      Holds-and_then _ _ _ λ name _.
        Holds-refuse_if _ _ _ _ λ other. Holds-refuse_if _ _ _ _ λ new. ((new, other), refl)

  parse_reservation-New :
      (res : DhcpReservationToml) (seen : Seen)
      → Holds (λ r. IsNew r.0 seen × (r.1 ≡ after r.0 seen)) (parse_reservation res seen)
  unfolding parse_reservation
  parse_reservation-New res seen = Holds-and_then _ _ _ λ mac _. Holds-refuse_if _ _ _ _ λ unicast.
      Holds-and_then _ _ _ λ ip_str _. Holds-and_then _ _ _ λ ip _. Holds-and_then _ _ _ λ _ valid.
        Holds-after _ _ _ _ (parse_hostname-New res.hostname seen.hostnames) λ named n.
          Holds-refuse_if _ _ _ _ λ new_mac. Holds-refuse_if _ _ _ _ λ new_ip. (
            record {
              unicast = ground (arith, unicast);
              on_both = valid;
              new_mac = new_mac;
              new_ip = new_ip;
              new_name = n.0;
            },
            ap
                (λ (h : List Hostname). record {
                  macs = HashSet.insert mac seen.macs;
                  ips = HashSet.insert ip seen.ips;
                  hostnames = h;
                })
                n.1,
          )

  parse_reservations-New :
      (reservations : List DhcpReservationToml) (seen : Seen)
      → Holds (λ ls. AllNew ls seen) (parse_reservations reservations seen)
  unfolding parse_reservations
  parse_reservations-New [] seen = tt
  parse_reservations-New (res ∷ reservations) seen =
      Holds-after _ _ _ _ (parse_reservation-New res seen) λ r n.
        Holds-after _ _ _ _
          (subst (λ s. Holds (λ ls. AllNew ls s) (parse_reservations reservations r.1)) n.1
            (parse_reservations-New reservations r.1))
          λ rest m. (n.0, m)

  -- The reservations of a configuration that is accepted: no two for one client, for one address or of
  -- one name, each for the hardware address of one card and an address that is a host's on both
  -- networks, and none with the router's name.
  pub parse_dhcp_reservations-AllNew :
      (dhcp : Option (Option (List DhcpReservationToml))) (leases : List StaticLease)
      → parse_dhcp_reservations dhcp ≡ ok leases
      → AllNew leases nothing_seen
  unfolding parse_dhcp_reservations
  parse_dhcp_reservations-AllNew (some (some reservations)) leases h =
      Holds-ok (λ ls. AllNew ls nothing_seen) _ leases h
        (parse_reservations-New reservations nothing_seen)
  parse_dhcp_reservations-AllNew (some none) leases h =
      Holds-ok (λ ls. AllNew ls nothing_seen) (ok []) leases h tt
  parse_dhcp_reservations-AllNew none leases h =
      Holds-ok (λ ls. AllNew ls nothing_seen) (ok []) leases h tt
