-- ===== src/LanManager/Translate.antt =====
-- src/services/lan/manager.rs: what `translate_ip_to_subnet` and `is_subnet_overlap` decide.
use trimrouter.Prelude.{
  ◌+◌, ◌≡◌, ◌≢◌, ◌↔◌, refl, subst, inl, inr, true, Option, none, some, arith, ltb, Bool-cases,
}
use trimrouter.Net.{Ipv4Addr, Ipv4Net}
use trimrouter.Net.Range.{IsRange, in_range, contains-range}
use trimrouter.LanManager.Offsets.{checked_sub}
use trimrouter.LanManager.{is_subnet_overlap, usable_in, offset_from, translate_ip_to_subnet}

-- The test finds an overlap exactly when some address lies in both networks.
pub is_subnet_overlap_iff :
    (net1 net2 : Ipv4Net)
    → IsRange net1
    → IsRange net2
    → (is_subnet_overlap net1 net2 ≡ true)
      ↔ ((ip : Ipv4Addr) × (net1.contains ip ≡ true) × (net2.contains ip ≡ true))
unfolding is_subnet_overlap
is_subnet_overlap_iff net1 net2 r1 r2 = (
  λ h. elim (Bool-cases (net1.contains net2.network)) [
    | inl inside ↦ (net2.network, inside, contains-range r2 net2.network (omega arith) r2.ordered)
    | inr out ↦ (
      net1.network,
      contains-range r1 net1.network (omega arith) r1.ordered,
      ground (arith, h, out),
    )
  ],
  λ (ip, in1, in2).
      let (l1, u1) = in_range r1 ip in1 in
      let (l2, u2) = in_range r2 ip in2 in
      elim (Bool-cases (ltb net2.network net1.network)) [
        | inl below ↦
            let inside : net2.contains net1.network ≡ true =
              contains-range r2 net1.network (ground (arith, below)) (omega (arith, l1, u2)) in
            ground (arith, inside)
        | inr above ↦
            let inside : net1.contains net2.network ≡ true =
              contains-range r1 net2.network (ground (arith, above)) (omega (arith, l2, u1)) in
            ground (arith, inside)
      ],
)

-- Where an address goes: the same distance from the start of the network, inside the other network, and
-- neither its router's address nor its broadcast address.
pub record Lands (ip : Ipv4Addr) (from_net to_net : Ipv4Net) (mapped : Ipv4Addr) : Type 0 where
  pub from : from_net.contains ip ≡ true
  pub offset : mapped + from_net.network ≡ ip + to_net.network
  pub to : to_net.contains mapped ≡ true
  pub not_router : mapped ≢ to_net.addr
  pub not_broadcast : mapped ≢ to_net.broadcast

usable_in-some :
    (to_net : Ipv4Net) (o : Option Ipv4Addr) (mapped : Ipv4Addr)
    → usable_in to_net o ≡ some mapped
    → (o ≡ some mapped)
      × (to_net.contains mapped ≡ true)
      × (mapped ≢ to_net.addr)
      × (mapped ≢ to_net.broadcast)
usable_in-some to_net none mapped h = cc
usable_in-some to_net (some m) mapped h =
    let same : m ≡ mapped = ground (arith, h) in
    subst
      (λ x.
        (some m ≡ some x) × (to_net.contains x ≡ true) × (x ≢ to_net.addr) × (x ≢ to_net.broadcast))
      same (refl, ground (arith, h), λ e. ground (arith, h, e), λ e. ground (arith, h, e))

usable_in-Lands :
    (to_net : Ipv4Net) (mapped : Ipv4Addr)
    → to_net.contains mapped ≡ true
    → mapped ≢ to_net.addr
    → mapped ≢ to_net.broadcast
    → usable_in to_net (some mapped) ≡ some mapped
usable_in-Lands to_net mapped to r b = ground (arith, to, r, b)

pub translate-Lands :
    (ip : Ipv4Addr) (from_net to_net : Ipv4Net) (mapped : Ipv4Addr)
    → IsRange from_net
    → translate_ip_to_subnet ip from_net to_net ≡ some mapped
    → Lands ip from_net to_net mapped
unfolding translate_ip_to_subnet
translate-Lands ip from_net to_net mapped r h =
    let inside : from_net.contains ip ≡ true = ground arith in
    let above = (in_range r ip inside).0 in
    let (moved, to, no_router, no_broadcast) =
      usable_in-some to_net (offset_from (checked_sub ip from_net.network) to_net.network) mapped
        (rw inside at h) in
    record {
      from = inside;
      offset = ground (arith, moved, above);
      to = to;
      not_router = no_router;
      not_broadcast = no_broadcast;
    }

pub Lands-translate :
    (ip : Ipv4Addr) (from_net to_net : Ipv4Net) (mapped : Ipv4Addr)
    → IsRange from_net
    → IsRange to_net
    → Lands ip from_net to_net mapped
    → translate_ip_to_subnet ip from_net to_net ≡ some mapped
unfolding translate_ip_to_subnet
Lands-translate ip from_net to_net mapped r q l =
    let above = (in_range r ip l.from).0 in
    let within = (in_range q mapped l.to).1 in
    let moved : offset_from (checked_sub ip from_net.network) to_net.network ≡ some mapped =
      ground (arith, above, within, l.offset, q.bounded) in
    rw (l.from, moved) (usable_in-Lands to_net mapped l.to l.not_router l.not_broadcast)

-- An address is translated exactly to the address at the same distance from the start of the other
-- network, if that is inside it and is neither the address of the router nor the broadcast address.
pub translate_ip_to_subnet_iff :
    (ip : Ipv4Addr) (from_net to_net : Ipv4Net) (mapped : Ipv4Addr)
    → IsRange from_net
    → IsRange to_net
    → (translate_ip_to_subnet ip from_net to_net ≡ some mapped) ↔ Lands ip from_net to_net mapped
translate_ip_to_subnet_iff ip from_net to_net mapped r q =
    (translate-Lands ip from_net to_net mapped r, Lands-translate ip from_net to_net mapped r q)

-- A translated address is translated back to where it came from, unless that is the address of the router
-- or the broadcast address of its network.
pub translate-translate :
    (ip mapped : Ipv4Addr) (from_net to_net : Ipv4Net)
    → IsRange from_net
    → IsRange to_net
    → ip ≢ from_net.addr
    → ip ≢ from_net.broadcast
    → translate_ip_to_subnet ip from_net to_net ≡ some mapped
    → translate_ip_to_subnet mapped to_net from_net ≡ some ip
translate-translate ip mapped from_net to_net r q no_router no_broadcast h =
    let l = translate-Lands ip from_net to_net mapped r h in
    Lands-translate mapped to_net from_net ip q r (record {
      from = l.to;
      offset = omega (arith, l.offset);
      to = l.from;
      not_router = no_router;
      not_broadcast = no_broadcast;
    })
