-- ===== src/DnsForwarder/LocalHosts.antt =====
-- src/services/dns_forwarder/worker.rs: the names of the LAN, and the queries that are answered from
-- them. A text is a list of its bytes: a dot is 46, "lan" is 108 97 110, "local" is 108 111 99 97 108.
pub mod Reverse
pub mod Isolation
use trimrouter.Prelude.{
  ℕ, ◌+◌, ◌≡◌, Bool, true, false, ◌&&◌, ◌||◌, not, Option, none, some, List, [], ◌∷◌, ◌++◌, map,
  if◌then◌else◌, nat_eq, elem, bytes_eq, bytes_key, nat_key,
}
use trimrouter.HashMap
use trimrouter.Net.{Ipv4Addr}
use trimrouter.DnsForwarder.Wire.{
  Bytes, DnsLib, Packet, Question, Answer, address, pointer, RecordType, a_record, ptr_record,
  other_record, ResponseCode, no_error, nx_domain,
}
use trimrouter.DnsForwarder.Cache.{to_ascii_lowercase}

pub record LocalDnsTable : Type 0 where
  pub hosts : List (Bytes × Ipv4Addr)
  pub ips : List (Ipv4Addr × Bytes)

abbrev pub local_domain : Bytes
local_domain = 108 ∷ 97 ∷ 110 ∷ []

abbrev pub mdns_domain : Bytes
mdns_domain = 108 ∷ 111 ∷ 99 ∷ 97 ∷ 108 ∷ []

abbrev pub forget_address : Option Ipv4Addr → List (Ipv4Addr × Bytes) → List (Ipv4Addr × Bytes)
forget_address none ips = ips
forget_address (some ip) ips = HashMap.remove ip ips

-- `RegisterLocalHost` in `run_forwarder_loop`.
unfoldable pub register_local_host : Bytes → Ipv4Addr → LocalDnsTable → LocalDnsTable
register_local_host name ip t = record {
  hosts = HashMap.insert name ip t.hosts;
  ips = HashMap.insert ip name (forget_address (HashMap.get name t.hosts) t.ips);
}

-- `DeregisterLocalHost` in `run_forwarder_loop`.
unfoldable pub deregister_local_host : Bytes → LocalDnsTable → LocalDnsTable
deregister_local_host name t = record {
  hosts = HashMap.remove name t.hosts;
  ips = forget_address (HashMap.get name t.hosts) t.ips;
}

-- `trim_end_matches('.')`
abbrev is_dots : Bool → Bytes → Bytes → Bytes
is_dots true [] whole = []
is_dots _ _ whole = whole

unfoldable pub trim_end_dots : Bytes → Bytes
trim_end_dots [] = []
trim_end_dots (c ∷ cs) = let rest = trim_end_dots cs in is_dots (nat_eq c 46) rest (c ∷ rest)

abbrev pub after_first : ℕ → Option Bytes → Option Bytes
after_first c none = none
after_first c (some cs) = some (c ∷ cs)

unfoldable pub strip_suffix : Bytes → Bytes → Option Bytes
strip_suffix suffix [] = if bytes_eq [] suffix then some [] else none
strip_suffix suffix (c ∷ cs) =
    let rest = strip_suffix suffix cs in
    if bytes_eq (c ∷ cs) suffix then some [] else after_first c rest

abbrev pub is_none {ℓ} : {A : Type ℓ} → Option A → Bool
is_none none = true
is_none (some _) = false

abbrev pub is_empty : Bytes → Bool
is_empty [] = true
is_empty (_ ∷ _) = false

-- `.then(|| (prefix, true))` for a prefix without a dot.
abbrev qualified : Option Bytes → Bytes → Option (Bytes × Bool)
qualified (some label) lower = if elem 46 label then none else some (label, true)
qualified none lower = if elem 46 lower then none else some (lower, false)

-- `extract_local_forward_name` from its local `lower` on.
unfoldable pub lower_forward_name : Bytes → Option (Bytes × Bool)
unfolding strip_suffix
lower_forward_name lower =
    if bytes_eq lower local_domain || is_empty lower
    then none
    else qualified (strip_suffix (46 ∷ local_domain) lower) lower

-- The label of a name of the LAN, and whether it is written with the suffix `.lan`.
unfoldable pub extract_local_forward_name : Bytes → Option (Bytes × Bool)
extract_local_forward_name name = lower_forward_name (to_ascii_lowercase (trim_end_dots name))

unfoldable pub is_mdns_local_domain : Bytes → Bool
unfolding trim_end_dots strip_suffix
is_mdns_local_domain name =
    let lower = to_ascii_lowercase (trim_end_dots name) in
    bytes_eq lower mdns_domain || not (is_none (strip_suffix (46 ∷ mdns_domain) lower))

-- A local answer: its response code and its record.
abbrev pub Reply : Type 0
Reply = ResponseCode × Option Answer

module _ (lib : DnsLib) where
  -- The `PTR` branch for the name of a host.
  abbrev pub ptr_reply : Option Bytes → Option Reply
  ptr_reply none = none
  ptr_reply (some hostname) =
      let target = hostname ++ (46 ∷ local_domain) ++ 46 ∷ [] in
      if lib.is_name target then some (no_error, some (pointer target)) else none

  abbrev pub arpa_reply : LocalDnsTable → Option Ipv4Addr → Option Reply
  arpa_reply t none = none
  arpa_reply t (some ip) = ptr_reply (HashMap.get ip t.ips)

  -- What follows the forward names in `try_resolve_local_query`.
  abbrev pub other_reply : LocalDnsTable → Question → RecordType → Option Reply
  other_reply t q ptr_record = arpa_reply t q.arpa_host
  other_reply t q _ = if is_mdns_local_domain q.name_utf8 then some (nx_domain, none) else none

  abbrev pub address_reply : RecordType → Ipv4Addr → Reply
  address_reply a_record ip = (no_error, some (address ip))
  address_reply _ ip = (no_error, none)

  abbrev pub forward_reply : LocalDnsTable → Question → Option (Bytes × Bool) → Option Reply
  forward_reply t q none = other_reply t q q.query_type
  forward_reply t q (some (label, is_lan_qualified)) = elim (HashMap.get label t.hosts) [
    | some ip ↦ some (address_reply q.query_type ip)
    | none ↦ if is_lan_qualified then some (nx_domain, none) else other_reply t q q.query_type
  ]

  -- The answer of `try_resolve_local_query` to the first question of a query.
  unfoldable pub local_reply : LocalDnsTable → Question → Option Reply
  unfolding is_mdns_local_domain extract_local_forward_name
  local_reply t q = forward_reply t q (extract_local_forward_name q.name_utf8)

  abbrev pub reply_to : LocalDnsTable → Packet → Bool → List Question → Option Bytes
  reply_to t packet false _ = none
  reply_to t packet true [] = none
  reply_to t packet true (q ∷ qs) = elim (local_reply t q) [
    | none ↦ none
    | some (code, answer) ↦ some (lib.emit_authoritative packet code answer)
  ]

  unfoldable pub try_resolve_local_query : Bytes → LocalDnsTable → Option Bytes
  try_resolve_local_query query t = elim (lib.from_bytes query) [
    | none ↦ none
    | some packet ↦ reply_to t packet packet.is_query_op packet.queries
  ]
