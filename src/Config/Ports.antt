-- ===== src/Config/Ports.antt =====
-- src/config.rs: the forwarded ports.
use trimrouter.Prelude.{
  ℕ, ◌≡◌, ◌≢◌, refl, subst, Bool, true, false, ◌&&◌, Option, List, [], ◌∷◌, arith, nat_eq, elem,
  if◌then◌else◌,
}
use trimrouter.Prelude.Results.{
  ok, and_then, ok_or, refuse_if, Holds, Holds-ok, Holds-and_then, Holds-after, Holds-refuse_if,
}
use trimrouter.HashSet
use trimrouter.Net.{Ipv4Net, Text}
use trimrouter.Config.{
  ForwardProtocol, tcp, udp, both, PortForwardRule, external_port_missing, external_port_zero,
  internal_ip_missing, internal_ip_invalid, internal_port_zero, conflicts_with_dhcp_client,
  duplicate_tcp_port, duplicate_udp_port, ConfigLib, Checked, trim, unwrap_or, validate_target_ip,
  protocol_from_str,
}

pub record PortForwardToml : Type 0 where
  pub proto : Option Text
  pub external_port : Option ℕ
  pub internal_ip : Option Text
  pub internal_port : Option ℕ
  pub description : Option Text

abbrev pub binds_tcp : ForwardProtocol → Bool
binds_tcp tcp = true
binds_tcp udp = false
binds_tcp both = true

abbrev pub binds_udp : ForwardProtocol → Bool
binds_udp tcp = false
binds_udp udp = true
binds_udp both = true

-- The sets of bound ports.
pub record Bound : Type 0 where
  pub tcp_ports : List ℕ
  pub udp_ports : List ℕ

abbrev pub nothing_bound : Bound
nothing_bound = record { tcp_ports = []; udp_ports = [] }

abbrev pub bind : Bool → ℕ → List ℕ → List ℕ
bind b port ports = if b then HashSet.insert port ports else ports

abbrev pub bound_after : PortForwardRule → Bound → Bound
bound_after rule bound = record {
  tcp_ports = bind (binds_tcp rule.protocol) rule.external_port bound.tcp_ports;
  udp_ports = bind (binds_udp rule.protocol) rule.external_port bound.udp_ports;
}

-- The ports that are bound after a rule, or the conflict.
unfoldable pub check_port_forward_conflicts : PortForwardRule → Bound → Checked Bound
check_port_forward_conflicts rule bound =
    refuse_if (binds_udp rule.protocol && nat_eq rule.external_port 68) conflicts_with_dhcp_client (
      refuse_if (binds_tcp rule.protocol && elem rule.external_port bound.tcp_ports)
        duplicate_tcp_port
        (refuse_if (binds_udp rule.protocol && elem rule.external_port bound.udp_ports)
          duplicate_udp_port (ok (bound_after rule bound))))

-- tcp
abbrev default_proto : Text
default_proto = 116 ∷ 99 ∷ 112 ∷ []

module _ (lib : ConfigLib) (lan_net backup_net : Ipv4Net) where
  unfoldable pub validate_and_build_port_forward_rule : PortForwardToml → Checked PortForwardRule
  validate_and_build_port_forward_rule raw =
      and_then (protocol_from_str (unwrap_or raw.proto default_proto)) (λ protocol.
        and_then (ok_or raw.external_port external_port_missing) (λ external_port.
          refuse_if (nat_eq external_port 0) external_port_zero (
            and_then (ok_or raw.internal_ip internal_ip_missing) (λ ip_str.
              and_then (ok_or (lib.parse_ip (trim ip_str)) internal_ip_invalid) (λ internal_ip.
                and_then (validate_target_ip internal_ip lan_net backup_net) (λ _.
                  refuse_if (nat_eq (unwrap_or raw.internal_port external_port) 0)
                    internal_port_zero
                    (ok (record {
                      protocol = protocol;
                      external_port = external_port;
                      internal_ip = internal_ip;
                      internal_port = unwrap_or raw.internal_port external_port;
                      description = raw.description;
                    }))))))))

  -- The loop of `parse_port_forward_rules`.
  unfoldable pub parse_rules : List PortForwardToml → Bound → Checked (List PortForwardRule)
  parse_rules [] bound = ok []
  parse_rules (raw ∷ raw_rules) bound = and_then (validate_and_build_port_forward_rule raw) (λ rule.
      and_then (check_port_forward_conflicts rule bound)
        (λ bound'. and_then (parse_rules raw_rules bound') (λ rest. ok (rule ∷ rest))))

  unfoldable pub parse_port_forward_rules :
      Option (List PortForwardToml) → Checked (List PortForwardRule)
  parse_port_forward_rules raw_rules = parse_rules (unwrap_or raw_rules []) nothing_bound

  -- A rule between ports other than 0 and to a host on both networks.
  pub record IsRule (r : PortForwardRule) : Type 0 where
    pub from_port : r.external_port ≢ 0
    pub to_port : r.internal_port ≢ 0
    pub on_both : validate_target_ip r.internal_ip lan_net backup_net ≡ ok tt

  -- Its ports are free, and not that of the DHCP client.
  pub record IsFree (r : PortForwardRule) (bound : Bound) : Type 0 where
    pub not_client : binds_udp r.protocol ≡ true → r.external_port ≢ 68
    pub tcp_free : binds_tcp r.protocol ≡ true → elem r.external_port bound.tcp_ports ≡ false
    pub udp_free : binds_udp r.protocol ≡ true → elem r.external_port bound.udp_ports ≡ false

  abbrev pub AllFree : List PortForwardRule → Bound → Type 0
  AllFree [] bound = Unit {0}
  AllFree (r ∷ rs) bound = IsRule r × IsFree r bound × AllFree rs (bound_after r bound)

  validate_and_build-IsRule :
      (raw : PortForwardToml) → Holds IsRule (validate_and_build_port_forward_rule raw)
  unfolding validate_and_build_port_forward_rule
  validate_and_build-IsRule raw = Holds-and_then _ _ _ λ protocol _.
      Holds-and_then _ _ _ λ external_port _. Holds-refuse_if _ _ _ _ λ from.
        Holds-and_then _ _ _ λ ip_str _. Holds-and_then _ _ _ λ ip _.
          Holds-and_then _ _ _ λ _ valid. Holds-refuse_if _ _ _ _ λ to. record {
            from_port = λ e. ground (arith, e, from);
            to_port = λ e. ground (arith, e, to);
            on_both = valid;
          }

  check_port_forward_conflicts-IsFree :
      (rule : PortForwardRule) (bound : Bound)
      → Holds
          (λ b. IsFree rule bound × (b ≡ bound_after rule bound))
          (check_port_forward_conflicts rule bound)
  unfolding check_port_forward_conflicts
  check_port_forward_conflicts-IsFree rule bound = Holds-refuse_if _ _ _ _ λ client.
      Holds-refuse_if _ _ _ _ λ tcps. Holds-refuse_if _ _ _ _ λ udps. (
        record {
          not_client = λ b e. ground (arith, client, b, e);
          tcp_free = λ b. ground (arith, tcps, b);
          udp_free = λ b. ground (arith, udps, b);
        },
        refl,
      )

  parse_rules-AllFree :
      (raw_rules : List PortForwardToml) (bound : Bound)
      → Holds (λ rs. AllFree rs bound) (parse_rules raw_rules bound)
  unfolding parse_rules
  parse_rules-AllFree [] bound = tt
  parse_rules-AllFree (raw ∷ raw_rules) bound =
      Holds-after _ _ _ _ (validate_and_build-IsRule raw) λ rule is.
        Holds-after _ _ _ _ (check_port_forward_conflicts-IsFree rule bound) λ bound' n.
          Holds-after _ _ _ _
            (subst (λ b. Holds (λ rs. AllFree rs b) (parse_rules raw_rules bound')) n.1
              (parse_rules-AllFree raw_rules bound'))
            λ rest m. (is, n.0, m)

  -- The rules of a configuration that is accepted: no two bind the same port of the same protocol, none
  -- binds UDP port 68, none is from or to port 0, and each goes to a host on both networks.
  pub parse_port_forward_rules-AllFree :
      (raw_rules : Option (List PortForwardToml)) (rules : List PortForwardRule)
      → parse_port_forward_rules raw_rules ≡ ok rules
      → AllFree rules nothing_bound
  unfolding parse_port_forward_rules
  parse_port_forward_rules-AllFree raw_rules rules h =
      Holds-ok (λ rs. AllFree rs nothing_bound) _ rules h
        (parse_rules-AllFree (unwrap_or raw_rules []) nothing_bound)
