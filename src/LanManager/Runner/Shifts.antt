-- ===== src/LanManager/Runner/Shifts.antt =====
-- src/services/lan/manager.rs: the services and the addresses over a whole run of `LanRunner`.
use trimrouter.Prelude.{
  ℕ, ◌+◌, ◌≤◌, ◌≡◌, ◌≢◌, ◌⊎◌, refl, ◌∙◌, inl, inr, Bool, true, false, List, [], ◌∷◌, ◌++◌, arith,
  if◌then◌else◌, Bool-cases, is_some, bytes_eq, bytes_eq_iff, bytes_eq_refl,
}
use trimrouter.Net.{WanLease, NetLib, Text}
use trimrouter.LanManager.Runner.{
  Action, LanRunner, Startup, LanEvent, shutdown, tick, wan_changed, wan_closed, netlink,
  shift_lan_subnet, check_and_resolve, run_loop, run,
}
use trimrouter.LanManager.Runner.Actions.{
  services_after, configurations, shift-services, shift-configurations,
}
use trimrouter.LanManager.Runner.Conflict.{check_cases}

-- Whether the manager can still move.
abbrev moves_left : LanRunner → ℕ
moves_left r = if bytes_eq r.current_ip r.backup_ip then 0 else 1

onward :
    (r q : LanRunner) (end : Text)
    → (q.backup_ip ≡ r.backup_ip) × ((q.current_ip ≡ r.current_ip) ⊎ (q.current_ip ≡ r.backup_ip))
    → (end ≡ q.current_ip) ⊎ (end ≡ q.backup_ip)
    → (end ≡ r.current_ip) ⊎ (end ≡ r.backup_ip)
onward r q end (same, inl c) (inl e) = inl (e ∙ c)
onward r q end (same, inr c) (inl e) = inr (e ∙ c)
onward r q end (same, c) (inr e) = inr (e ∙ same)

module _ (lib : NetLib) where
  module _ (r : LanRunner) (lease : WanLease) (has_index : Bool) where
    check-services :
        (acts : List Action)
        → services_after ((check_and_resolve lib r lease has_index).0 ++ acts) true true
          ≡ services_after acts true true
    check-services acts =
        check_cases lib
          (λ q. services_after (q.0 ++ acts) true true ≡ services_after acts true true) r lease
          has_index refl (λ _. shift-services lib r r.backup_ip has_index acts)

    check-configurations :
        (acts : List Action)
        → let c = check_and_resolve lib r lease has_index in
          configurations (c.0 ++ acts) + moves_left c.1 ≤ moves_left r + configurations acts
    unfolding shift_lan_subnet
    check-configurations acts =
        check_cases lib
          (λ q. configurations (q.0 ++ acts) + moves_left q.1 ≤ moves_left r + configurations acts)
          r lease has_index (omega arith)
          (λ ne.
            let there = bytes_eq_refl r.backup_ip in
            let here : bytes_eq r.current_ip r.backup_ip ≡ false = not_equal ne in
            rw (there, here) (omega (arith, shift-configurations lib r r.backup_ip has_index acts)))
      where
        not_equal : r.current_ip ≢ r.backup_ip → bytes_eq r.current_ip r.backup_ip ≡ false
        not_equal ne = elim (Bool-cases (bytes_eq r.current_ip r.backup_ip)) [
          | inl same ↦ absurd (ne ((bytes_eq_iff r.current_ip r.backup_ip).0 same))
          | inr other ↦ other
        ]

    check-address :
        let c = check_and_resolve lib r lease has_index in
        (c.1.backup_ip ≡ r.backup_ip)
        × ((c.1.current_ip ≡ r.current_ip) ⊎ (c.1.current_ip ≡ r.backup_ip))
    unfolding shift_lan_subnet
    check-address =
        check_cases lib
          (λ q.
            (q.1.backup_ip ≡ r.backup_ip)
            × ((q.1.current_ip ≡ r.current_ip) ⊎ (q.1.current_ip ≡ r.backup_ip)))
          r lease has_index (refl, inl refl) (λ _. (refl, inr refl))

  run_loop-services :
      (r : LanRunner) (es : List LanEvent)
      → is_some (services_after (run_loop lib r es).0 true true) ≡ true
  unfolding run_loop services_after
  run_loop-services r [] = refl
  run_loop-services r (shutdown ∷ es) = refl
  run_loop-services r (tick ∷ es) = run_loop-services r es
  run_loop-services r (wan_changed lease has_index ∷ es) =
      let c = check_and_resolve lib r lease has_index in
      rw (check-services r lease has_index (run_loop lib c.1 es).0) (run_loop-services c.1 es)
  run_loop-services r (wan_closed ∷ es) = refl
  run_loop-services r (netlink true lease has_index ∷ es) =
      let c = check_and_resolve lib r lease has_index in
      rw (check-services r lease has_index (run_loop lib c.1 es).0) (run_loop-services c.1 es)
  run_loop-services r (netlink false lease has_index ∷ es) = run_loop-services r es

  -- Over a run of the manager, however its start goes, whatever the leases of the WAN are and whatever
  -- wakes it: the DHCP server and the observability service are never started while they run, and the
  -- addresses of the interface never change while one of them runs.
  pub run-services :
      (r : LanRunner) (s : Startup) (lease : WanLease) (has_index : Bool) (es : List LanEvent)
      → is_some (services_after (run lib r s lease has_index es).0 false false) ≡ true
  unfolding run services_after
  run-services r s lease has_index es = elim (Bool-cases s.configured) [
    | inr h ↦ rw h refl
    | inl h ↦ elim (Bool-cases s.dhcp_started) [
      | inr d ↦ rw (h, d) refl
      | inl d ↦ elim (Bool-cases s.has_multicast) [
        | inr m ↦ rw (h, d, m) refl
        | inl m ↦
            let c = check_and_resolve lib r lease has_index in
            rw (h, d, m, check-services r lease has_index (run_loop lib c.1 es).0)
              (run_loop-services c.1 es)
      ]
    ]
  ]

  run_loop-configurations :
      (r : LanRunner) (es : List LanEvent) → configurations (run_loop lib r es).0 ≤ moves_left r
  unfolding run_loop configurations
  run_loop-configurations r [] = omega arith
  run_loop-configurations r (shutdown ∷ es) = omega arith
  run_loop-configurations r (tick ∷ es) = run_loop-configurations r es
  run_loop-configurations r (wan_changed lease has_index ∷ es) =
      let c = check_and_resolve lib r lease has_index in
      omega (
        arith,
        check-configurations r lease has_index (run_loop lib c.1 es).0,
        run_loop-configurations c.1 es,
      )
  run_loop-configurations r (wan_closed ∷ es) = omega arith
  run_loop-configurations r (netlink true lease has_index ∷ es) =
      let c = check_and_resolve lib r lease has_index in
      omega (
        arith,
        check-configurations r lease has_index (run_loop lib c.1 es).0,
        run_loop-configurations c.1 es,
      )
  run_loop-configurations r (netlink false lease has_index ∷ es) = run_loop-configurations r es

  run_loop-address :
      (r : LanRunner) (es : List LanEvent)
      → let q = (run_loop lib r es).1 in
        (q.current_ip ≡ r.current_ip) ⊎ (q.current_ip ≡ r.backup_ip)
  unfolding run_loop
  run_loop-address r [] = inl refl
  run_loop-address r (shutdown ∷ es) = inl refl
  run_loop-address r (tick ∷ es) = run_loop-address r es
  run_loop-address r (wan_changed lease has_index ∷ es) =
      onward r (check_and_resolve lib r lease has_index).1 _ (check-address r lease has_index)
        (run_loop-address (check_and_resolve lib r lease has_index).1 es)
  run_loop-address r (wan_closed ∷ es) = inl refl
  run_loop-address r (netlink true lease has_index ∷ es) =
      onward r (check_and_resolve lib r lease has_index).1 _ (check-address r lease has_index)
        (run_loop-address (check_and_resolve lib r lease has_index).1 es)
  run_loop-address r (netlink false lease has_index ∷ es) = run_loop-address r es

  -- In its loop, whatever the leases of the WAN are, the manager gives the interface another address once at
  -- most, and never when it is on the fallback address; it stays on its address or ends on the fallback
  -- address.
  pub run_loop-shifts :
      (r : LanRunner) (es : List LanEvent)
      → (configurations (run_loop lib r es).0 ≤ 1)
        × (r.current_ip ≡ r.backup_ip → configurations (run_loop lib r es).0 ≡ 0)
        × (((run_loop lib r es).1.current_ip ≡ r.current_ip)
            ⊎ ((run_loop lib r es).1.current_ip ≡ r.backup_ip))
  run_loop-shifts r es = (
    ground (arith, run_loop-configurations r es),
    λ e.
        let same : bytes_eq r.current_ip r.backup_ip ≡ true =
          (bytes_eq_iff r.current_ip r.backup_ip).1 e in
        ground (arith, run_loop-configurations r es, same),
    run_loop-address r es,
  )
