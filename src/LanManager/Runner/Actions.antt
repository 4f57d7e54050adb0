-- ===== src/LanManager/Runner/Actions.antt =====
-- src/services/lan/manager.rs: what a list of actions does to the services and the addresses.
use trimrouter.Prelude.{
  ℕ, suc, ◌≡◌, refl, inl, inr, Bool, true, false, Option, none, some, List, [], ◌∷◌, ◌++◌,
  if◌then◌else◌, Bool-cases, Option-cases,
}
use mathlib.Core.List.{append_assoc}
use trimrouter.Net.{NetLib, Text}
use trimrouter.DhcpServer.LeaseTable.{StaticLease}
use trimrouter.LanManager.Runner.{
  Action, stop_dhcp_server, stop_observability, flush_ipv4_addresses, configure_interface_ip,
  start_dhcp_server, start_observability, LanRunner, lease_hosts, notify_static_lease_dns_hosts,
  notify_router_dns_host, shift_lan_subnet,
}

-- Whether the DHCP server and the observability service run after the actions; `none` if one was
-- started while it ran, or the addresses of the interface changed while one ran.
unfoldable pub services_after : List Action → Bool → Bool → Option (Bool × Bool)
services_after [] dhcp obs = some (dhcp, obs)
services_after (stop_dhcp_server ∷ acts) dhcp obs = services_after acts false obs
services_after (stop_observability ∷ acts) dhcp obs = services_after acts dhcp false
services_after (start_dhcp_server t ls ∷ acts) dhcp obs =
    let rest = services_after acts true obs in if dhcp then none else rest
services_after (start_observability t ∷ acts) dhcp obs =
    let rest = services_after acts dhcp true in if obs then none else rest
services_after (flush_ipv4_addresses ∷ acts) dhcp obs =
    let rest = services_after acts dhcp obs in if dhcp then none else if obs then none else rest
services_after (configure_interface_ip t ∷ acts) dhcp obs =
    let rest = services_after acts dhcp obs in if dhcp then none else if obs then none else rest
services_after (_ ∷ acts) dhcp obs = services_after acts dhcp obs

-- How often the interface is given an address.
unfoldable pub configurations : List Action → ℕ
configurations [] = 0
configurations (configure_interface_ip t ∷ acts) = suc (configurations acts)
configurations (_ ∷ acts) = configurations acts

services_after-lease_hosts :
    (ls : List StaticLease) (acts : List Action) (dhcp obs : Bool)
    → services_after (lease_hosts ls ++ acts) dhcp obs ≡ services_after acts dhcp obs
unfolding services_after lease_hosts
services_after-lease_hosts [] acts dhcp obs = refl
services_after-lease_hosts (l ∷ ls) acts dhcp obs = elim (Option-cases l.hostname) [
  | inl n ↦ rw n (services_after-lease_hosts ls acts dhcp obs)
  | inr (name, e) ↦ rw e (services_after-lease_hosts ls acts dhcp obs)
]

configurations-lease_hosts :
    (ls : List StaticLease) (acts : List Action)
    → configurations (lease_hosts ls ++ acts) ≡ configurations acts
unfolding configurations lease_hosts
configurations-lease_hosts [] acts = refl
configurations-lease_hosts (l ∷ ls) acts = elim (Option-cases l.hostname) [
  | inl n ↦ rw n (configurations-lease_hosts ls acts)
  | inr (name, e) ↦ rw e (configurations-lease_hosts ls acts)
]

services_after-notify :
    (r : LanRunner) (ls : List StaticLease) (acts : List Action) (dhcp obs : Bool)
    → services_after (notify_static_lease_dns_hosts r ls ++ acts) dhcp obs
      ≡ services_after acts dhcp obs
unfolding notify_static_lease_dns_hosts
services_after-notify r ls acts dhcp obs = elim (Bool-cases r.has_local_hosts) [
  | inl h ↦ rw h (services_after-lease_hosts ls acts dhcp obs)
  | inr h ↦ rw h refl
]

services_after-router :
    (lib : NetLib) (r : LanRunner) (ip : Text) (acts : List Action) (dhcp obs : Bool)
    → services_after (notify_router_dns_host lib r ip ++ acts) dhcp obs
      ≡ services_after acts dhcp obs
unfolding notify_router_dns_host services_after
services_after-router lib r ip acts dhcp obs = elim (Bool-cases r.has_local_hosts) [
  | inr h ↦ rw h refl
  | inl h ↦ elim (Option-cases (lib.parse ip)) [
    | inl n ↦ rw (h, n) refl
    | inr (net, e) ↦ rw (h, e) refl
  ]
]

configurations-notify :
    (r : LanRunner) (ls : List StaticLease) (acts : List Action)
    → configurations (notify_static_lease_dns_hosts r ls ++ acts) ≡ configurations acts
unfolding notify_static_lease_dns_hosts
configurations-notify r ls acts = elim (Bool-cases r.has_local_hosts) [
  | inl h ↦ rw h (configurations-lease_hosts ls acts)
  | inr h ↦ rw h refl
]

configurations-router :
    (lib : NetLib) (r : LanRunner) (ip : Text) (acts : List Action)
    → configurations (notify_router_dns_host lib r ip ++ acts) ≡ configurations acts
unfolding notify_router_dns_host configurations
configurations-router lib r ip acts = elim (Bool-cases r.has_local_hosts) [
  | inr h ↦ rw h refl
  | inl h ↦ elim (Option-cases (lib.parse ip)) [
    | inl n ↦ rw (h, n) refl
    | inr (net, e) ↦ rw (h, e) refl
  ]
]

module _ (lib : NetLib) where
  pub shift-services :
      (r : LanRunner) (ip : Text) (has_index : Bool) (acts : List Action)
      → services_after ((shift_lan_subnet lib r ip has_index).0 ++ acts) true true
        ≡ services_after acts true true
  unfolding shift_lan_subnet services_after
  shift-services r ip true acts =
      simp (append_assoc, services_after-router lib _ ip, services_after-notify _ _)
  shift-services r ip false acts =
      simp (append_assoc, services_after-router lib _ ip, services_after-notify _ _)

  pub shift-configurations :
      (r : LanRunner) (ip : Text) (has_index : Bool) (acts : List Action)
      → configurations ((shift_lan_subnet lib r ip has_index).0 ++ acts) ≡ suc (configurations acts)
  unfolding shift_lan_subnet configurations
  shift-configurations r ip true acts =
      simp (append_assoc, configurations-router lib _ ip, configurations-notify _ _)
  shift-configurations r ip false acts =
      simp (append_assoc, configurations-router lib _ ip, configurations-notify _ _)
