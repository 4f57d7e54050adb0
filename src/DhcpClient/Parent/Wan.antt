-- ===== src/DhcpClient/Parent/Wan.antt =====
-- src/services/dhcp_client/manager.rs with the worker of src/services/dhcp_client/worker.rs: the lease that the other
-- services see.
use trimrouter.Prelude.{
  ℕ, ◌≡◌, refl, ap, ◌∙◌, inl, inr, Bool, true, Option, none, some, List, ◌++◌, arith, bytes_eq_iff,
  Bool-cases,
}
use trimrouter.Net.{Ipv4Addr, MacAddr, WanLease}
use trimrouter.Net.Subnet.{mask_to_prefix_len, prefix_len_to_mask}
use trimrouter.DhcpClient.{Message, DhcpAck}
use trimrouter.DhcpClient.Client.{
  DhcpClientToParentMsg, Msgs, Env, Arrival, start, run, or_24, or_unspecified,
}
use trimrouter.DhcpClient.Client.Lease.{
  WanState, idle, leased, over, view, Allows, Trace, Heard, run-start-Refines,
}
use trimrouter.DhcpClient.Parent.{
  opt_eq, same_lease, no_lease, apply_parent_lease, clear_parent_lease, handle_client_ipc_msg,
  lease_after,
}

-- The lease that the parent is told with an ACK.
abbrev pub told : DhcpAck → WanLease
told ack = record {
  ip = some ack.ip;
  mask = some (prefix_len_to_mask (or_24 (mask_to_prefix_len ack.mask)));
  gateway = some (or_unspecified ack.gateway);
  dns_servers = ack.dns_servers;
}

-- What the other services see of a state of the WAN.
abbrev pub seen_as : WanState → WanLease
seen_as idle = no_lease
seen_as (leased ack) = told ack
seen_as over = no_lease

opt_eq→eq : (a b : Option ℕ) → opt_eq a b ≡ true → a ≡ b
opt_eq→eq none none h = refl
opt_eq→eq (some a) (some b) h = ground (arith, h)
opt_eq→eq none (some b) h = cc
opt_eq→eq (some a) none h = cc

same_lease→eq : (a b : WanLease) → same_lease a b ≡ true → a ≡ b
unfolding same_lease
same_lease→eq a b h =
    let ip = opt_eq→eq a.ip b.ip (ground (arith, h)) in
    let mask = opt_eq→eq a.mask b.mask (ground (arith, h)) in
    let gateway = opt_eq→eq a.gateway b.gateway (ground (arith, h)) in
    let dns = (bytes_eq_iff a.dns_servers b.dns_servers).0 (ground (arith, h)) in cc

apply_parent_lease-lease :
    (current : WanLease) (ip mask gateway : Ipv4Addr) (dns : List Ipv4Addr)
    → (apply_parent_lease current ip mask gateway dns).1
      ≡ record { ip = some ip; mask = some mask; gateway = some gateway; dns_servers = dns }
unfolding apply_parent_lease
apply_parent_lease-lease current ip mask gateway dns =
    let new_lease : WanLease = record {
      ip = some ip;
      mask = some mask;
      gateway = some gateway;
      dns_servers = dns;
    } in
    elim (Bool-cases (same_lease current new_lease)) [
      | inl same ↦ simp same (same_lease→eq current new_lease same)
      | inr other ↦ simp other refl
    ]

module _ (default_message : Message) (can_send : Message → Bool) (wan_mac : MacAddr) where
  Allows-lease :
      (s t : WanState) (m : DhcpClientToParentMsg)
      → Allows s m t
      → (handle_client_ipc_msg default_message can_send wan_mac m (seen_as s)).1 ≡ seen_as t
  unfolding handle_client_ipc_msg clear_parent_lease
  Allows-lease s t m (Allows.beat) = refl
  Allows-lease s t m (Allows.beat_leased ack) = refl
  Allows-lease s t m (Allows.discover xid) = refl
  Allows-lease s t m (Allows.select xid ip srv) = refl
  Allows-lease s t m (Allows.acquire ack) = apply_parent_lease-lease no_lease _ _ _ _
  Allows-lease s t m (Allows.extend ack xid srv) = refl
  Allows-lease s t m (Allows.replace old ack) = apply_parent_lease-lease (told old) _ _ _ _
  Allows-lease s t m (Allows.release ack) = refl
  Allows-lease s t m Allows.clear = refl

  Trace-lease :
      (s t : WanState) (ms : Msgs)
      → Trace s ms t
      → lease_after default_message can_send wan_mac ms (seen_as s) ≡ seen_as t
  unfolding lease_after
  Trace-lease s t ms (Trace.done _) = refl
  Trace-lease s t ms Trace.halt = refl
  Trace-lease s u ms (Trace.next _ v _ m ks a rest) =
      ap (lease_after default_message can_send wan_mac ks) (Allows-lease s v m a)
      ∙ Trace-lease v u ks rest

  -- The worker and the parent together, as long as `ClearWanLease` can be sent whenever the worker sends
  -- it: from a start without a lease, and whatever ends the awaits of the worker, once the parent has
  -- handled what the worker sent the other services see the lease of the phase that the worker is
  -- in, and no lease when it has none.
  pub lease_after-run :
      (parse_dhcp_payload : List ℕ → ℕ → Option Message) (mac : MacAddr) (env : Env)
      (es : List (Env × Arrival))
      → Heard es
      → lease_after default_message can_send wan_mac
          ((start env).0 ++ (run parse_dhcp_payload mac (start env).1 es).0)
          no_lease
        ≡ seen_as (view (run parse_dhcp_payload mac (start env).1 es).1)
  lease_after-run parse_dhcp_payload mac env es heard =
      Trace-lease idle _ _ (run-start-Refines parse_dhcp_payload mac env es heard)
