-- ===== src/LanManager/Remap.antt =====
-- src/services/lan/manager.rs: the reservations and the forwarded ports of another subnet.
use trimrouter.Prelude.{◌≡◌, inl, inr, none, some, List, [], ◌∷◌, Option-cases, sym, ◌∙◌}
use trimrouter.Net.{Ipv4Addr, Ipv4Net}
use trimrouter.Net.Range.{IsRange}
use trimrouter.DhcpServer.LeaseTable.{StaticLease}
use trimrouter.Config.{PortForwardRule}
use trimrouter.LanManager.{translate_ip_to_subnet, move_leases, move_rules}
use trimrouter.LanManager.Translate.{Lands, translate-Lands, Lands-translate}

-- The reservations of the other subnet: in their order, each with its client and its name, at the address
-- where its own lands; one whose address lands nowhere is left out.
pub data MovesLeases (from_net to_net : Ipv4Net)
    : List StaticLease → List StaticLease → Type 0 where
  none_left : MovesLeases from_net to_net [] []
  moved :
      (l : StaticLease) (ip : Ipv4Addr) (ls ms : List StaticLease)
      → Lands l.ip from_net to_net ip
      → MovesLeases from_net to_net ls ms
      → MovesLeases from_net to_net (l ∷ ls) (record l { ip = ip } ∷ ms)
  dropped :
      (l : StaticLease) (ls ms : List StaticLease)
      → ((ip : Ipv4Addr) → ¬ Lands l.ip from_net to_net ip)
      → MovesLeases from_net to_net ls ms
      → MovesLeases from_net to_net (l ∷ ls) ms

-- The same of the rules: all but the target stays as it is.
pub data MovesRules (from_net to_net : Ipv4Net)
    : List PortForwardRule → List PortForwardRule → Type 0 where
  none_left : MovesRules from_net to_net [] []
  moved :
      (l : PortForwardRule) (ip : Ipv4Addr) (ls ms : List PortForwardRule)
      → Lands l.internal_ip from_net to_net ip
      → MovesRules from_net to_net ls ms
      → MovesRules from_net to_net (l ∷ ls) (record l { internal_ip = ip } ∷ ms)
  dropped :
      (l : PortForwardRule) (ls ms : List PortForwardRule)
      → ((ip : Ipv4Addr) → ¬ Lands l.internal_ip from_net to_net ip)
      → MovesRules from_net to_net ls ms
      → MovesRules from_net to_net (l ∷ ls) ms

module _ (from_net to_net : Ipv4Net) (r : IsRange from_net) (q : IsRange to_net) where
  not_landing :
      (ip : Ipv4Addr)
      → translate_ip_to_subnet ip from_net to_net ≡ none
      → (mapped : Ipv4Addr) → ¬ Lands ip from_net to_net mapped
  not_landing ip h mapped l = no_value (sym h ∙ Lands-translate ip from_net to_net mapped r q l)
    where
      no_value : none ≡ some mapped → ⊥
      no_value e = cc

  -- The reservations of the other network are those whose addresses land there, in their order, each for the
  -- same client and with the same name; the others are left out.
  move_leases-Moves :
      (ls : List StaticLease) → MovesLeases from_net to_net ls (move_leases ls from_net to_net)
  unfolding move_leases
  move_leases-Moves [] = MovesLeases.none_left
  move_leases-Moves (l ∷ ls) = elim (Option-cases (translate_ip_to_subnet l.ip from_net to_net)) [
    | inl n ↦ rw n (MovesLeases.dropped l ls _ (not_landing l.ip n) (move_leases-Moves ls))
    | inr (ip, e) ↦ rw e (
        MovesLeases.moved l ip ls _ (translate-Lands l.ip from_net to_net ip r e)
          (move_leases-Moves ls))
  ]

  pub move_rules-Moves :
      (ls : List PortForwardRule) → MovesRules from_net to_net ls (move_rules ls from_net to_net)
  unfolding move_rules
  move_rules-Moves [] = MovesRules.none_left
  move_rules-Moves (l ∷ ls) =
      elim (Option-cases (translate_ip_to_subnet l.internal_ip from_net to_net)) [
        | inl n ↦
            rw n (MovesRules.dropped l ls _ (not_landing l.internal_ip n) (move_rules-Moves ls))
        | inr (ip, e) ↦ rw e (
            MovesRules.moved l ip ls _ (translate-Lands l.internal_ip from_net to_net ip r e)
              (move_rules-Moves ls))
      ]
