-- ===== src/LanManager/Runner/Conflict.antt =====
-- src/services/lan/manager.rs: what is left of a conflict after `check_and_resolve`.
use trimrouter.Prelude.{
  ◌≡◌, ◌≢◌, ◌⊎◌, sym, ◌∙◌, ap, subst, inl, inr, Bool, true, false, none, some, List, [], bytes_eq,
  bytes_eq_iff, Bool-cases, Option-cases,
}
use trimrouter.Net.{WanLease, Ipv4Net, NetLib, Text}
use trimrouter.LanManager.{is_subnet_overlap}
use trimrouter.LanManager.Runner.{
  Action, LanRunner, zip, wan_net_of, resolve, resolve_backup, check_and_resolve, shift_lan_subnet,
}

module _ (lib : NetLib) where
  -- The network that the manager is on conflicts with the one of the WAN.
  abbrev pub Conflicts : Ipv4Net → Text → Type 0
  Conflicts wan_net text =
      (net : Ipv4Net) × (lib.parse text ≡ some net) × (is_subnet_overlap wan_net net ≡ true)

  abbrev pub BackupUseless : Ipv4Net → LanRunner → Type 0
  BackupUseless wan_net r = Conflicts wan_net r.backup_ip ⊎ (lib.parse r.backup_ip ≡ none)

  parsed :
      (text : Text) (net other : Ipv4Net)
      → lib.parse text ≡ some net
      → lib.parse text ≡ some other
      → net ≡ other
  parsed text net other e f = some_injective (sym e ∙ f)
    where
      some_injective : some net ≡ some other → net ≡ other
      some_injective h = cc

  unparsed : (text : Text) (net : Ipv4Net) → lib.parse text ≡ none → lib.parse text ≡ some net → ⊥
  unparsed text net e f = no_net (sym e ∙ f)
    where
      no_net : none ≡ some net → ⊥
      no_net h = cc

  no_conflict :
      (wan_net net : Ipv4Net) (text : Text)
      → lib.parse text ≡ some net
      → is_subnet_overlap wan_net net ≡ false
      → ¬ Conflicts wan_net text
  no_conflict wan_net net text e apart (other, f, overlap) =
      contradiction
        (sym overlap ∙ ap (is_subnet_overlap wan_net) (sym (parsed text net other e f)) ∙ apart)
    where
      contradiction : true ≡ false → ⊥
      contradiction h = cc

  -- The ways through the check once both networks are known.
  resolve_backup_cases :
      (P : List Action × LanRunner → Type 0) (r : LanRunner) (has_index : Bool) (wan_net : Ipv4Net)
      → (BackupUseless wan_net r → P ([], r))
      → (¬ Conflicts wan_net r.backup_ip → P (shift_lan_subnet lib r r.backup_ip has_index))
      → P (resolve_backup lib r has_index wan_net (lib.parse r.backup_ip))
  resolve_backup_cases P r has_index wan_net stay move =
      elim (Option-cases (lib.parse r.backup_ip)) [
        | inl n ↦ rw n (stay (inr n))
        | inr (net, e) ↦ elim (Bool-cases (is_subnet_overlap wan_net net)) [
          | inl overlap ↦ rw (e, overlap) (stay (inl (net, e, overlap)))
          | inr apart ↦ rw (e, apart) (move (no_conflict wan_net net r.backup_ip e apart))
        ]
      ]

  -- The check changes nothing when there is no conflict, or nowhere to go; otherwise it moves.
  resolve_cases :
      (P : List Action × LanRunner → Type 0) (r : LanRunner) (has_index : Bool) (wan_net : Ipv4Net)
      → (¬ Conflicts wan_net r.current_ip → P ([], r))
      → (BackupUseless wan_net r → P ([], r))
      → (Conflicts wan_net r.current_ip
          → r.current_ip ≢ r.backup_ip
          → ¬ Conflicts wan_net r.backup_ip
          → P (shift_lan_subnet lib r r.backup_ip has_index))
      → P (resolve lib r has_index (some wan_net) (lib.parse r.current_ip))
  resolve_cases P r has_index wan_net fine stuck move =
      elim (Option-cases (lib.parse r.current_ip)) [
        | inl n ↦ rw n (fine (λ c. unparsed r.current_ip c.0 n c.1))
        | inr (net, e) ↦ elim (Bool-cases (is_subnet_overlap wan_net net)) [
          | inr apart ↦ rw (e, apart) (fine (no_conflict wan_net net r.current_ip e apart))
          | inl overlap ↦ elim (Bool-cases (bytes_eq r.current_ip r.backup_ip)) [
            | inl same ↦
                let here = (bytes_eq_iff r.current_ip r.backup_ip).0 same in
                rw (e, overlap, same)
                  (stuck (inl (subst (Conflicts wan_net) here (net, e, overlap))))
            | inr other ↦
                rw (e, overlap, other)
                  (resolve_backup_cases P r has_index wan_net stuck (
                    move (net, e, overlap)
                      λ same.
                        no_test (sym ((bytes_eq_iff r.current_ip r.backup_ip).1 same) ∙ other)))
          ]
        ]
      ]
    where
      no_test : true ≡ false → ⊥
      no_test h = cc

  -- Whenever the WAN has a network, a conflict that is left after a check is one that no move could
  -- have resolved: the fallback network conflicts as well, or is no network.
  pub check_and_resolve-Conflicts :
      (r : LanRunner) (lease : WanLease) (has_index : Bool) (wan_net : Ipv4Net)
      → wan_net_of lib (zip lease.ip lease.mask) ≡ some wan_net
      → Conflicts wan_net (check_and_resolve lib r lease has_index).1.current_ip
      → BackupUseless wan_net r
  unfolding check_and_resolve shift_lan_subnet
  check_and_resolve-Conflicts r lease has_index wan_net w = rw w (
      resolve_cases (λ q. Conflicts wan_net q.1.current_ip → BackupUseless wan_net r) r has_index
        wan_net (λ fine c. absurd (fine c)) (λ stuck _. stuck) (λ _ _ free c. absurd (free c)))

  -- Whatever the lease of the WAN is, a check changes nothing, or moves from another address to the
  -- fallback address.
  pub check_cases :
      (P : List Action × LanRunner → Type 0) (r : LanRunner) (lease : WanLease) (has_index : Bool)
      → P ([], r)
      → (r.current_ip ≢ r.backup_ip → P (shift_lan_subnet lib r r.backup_ip has_index))
      → P (check_and_resolve lib r lease has_index)
  unfolding check_and_resolve
  check_cases P r lease has_index stay move =
      elim (Option-cases (wan_net_of lib (zip lease.ip lease.mask))) [
        | inl n ↦ rw n stay
        | inr (wan_net, e) ↦
            rw e (resolve_cases P r has_index wan_net (λ _. stay) (λ _. stay) (λ _ ne _. move ne))
      ]
