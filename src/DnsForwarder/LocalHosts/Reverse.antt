-- ===== src/DnsForwarder/LocalHosts/Reverse.antt =====
-- src/services/dns_forwarder/worker.rs: the reverse names against the forward names.
use trimrouter.Prelude.{
  ◌≡◌, ◌≢◌, inl, inr, none, some, List, [], ◌∷◌, arith, nat_eq, bytes_eq_iff, bytes_key, nat_key,
  Option-cases, Bool-cases,
}
use trimrouter.HashMap
use trimrouter.Net.{Ipv4Addr}
use trimrouter.DnsForwarder.Wire.{Bytes}
use trimrouter.DnsForwarder.LocalHosts.{
  LocalDnsTable, register_local_host, deregister_local_host, forget_address,
}

-- A message of the parent about a name.
pub data HostMessage : Type 0 where
  register : Bytes → Ipv4Addr → HostMessage
  deregister : Bytes → HostMessage

unfoldable pub host_step : HostMessage → LocalDnsTable → LocalDnsTable
host_step (register name ip) t = register_local_host name ip t
host_step (deregister name) t = deregister_local_host name t

unfoldable pub host_run : List HostMessage → LocalDnsTable → LocalDnsTable
unfolding host_step
host_run [] t = t
host_run (m ∷ ms) t = host_run ms (host_step m t)

abbrev pub no_hosts : LocalDnsTable
no_hosts = record { hosts = []; ips = [] }

-- Each reverse entry names a host that has the address.
abbrev pub ReverseSound : LocalDnsTable → Type 0
ReverseSound t =
    (ip : Ipv4Addr) (name : Bytes)
    → HashMap.get ip t.ips ≡ some name
    → HashMap.get name t.hosts ≡ some ip

forget_address-kept :
    (t : LocalDnsTable) (name : Bytes) (ip : Ipv4Addr) (other : Bytes)
    → ReverseSound t
    → HashMap.get ip (forget_address (HashMap.get name t.hosts) t.ips) ≡ some other
    → (HashMap.get other t.hosts ≡ some ip) × (name ≢ other)
forget_address-kept t name ip other s g = elim (Option-cases (HashMap.get name t.hosts)) [
  | inl e ↦ (s ip other (ground arith), λ same. ground (arith, s ip other, bytes_eq_iff name other))
  | inr (old, e) ↦ (
    s ip other (ground (arith, HashMap.get-remove old ip t.ips)),
    λ same. ground (arith, HashMap.get-remove old ip t.ips, s ip other),
  )
]

register-ReverseSound :
    (name : Bytes) (ip : Ipv4Addr) (t : LocalDnsTable)
    → ReverseSound t
    → ReverseSound (register_local_host name ip t)
unfolding register_local_host
register-ReverseSound name ip t s at other g = elim (Bool-cases (nat_eq ip at)) [
  | inl same ↦ ground (
    arith,
    HashMap.get-insert ip at name (forget_address (HashMap.get name t.hosts) t.ips),
    HashMap.get-insert name other ip t.hosts,
    bytes_eq_iff name other,
  )
  | inr ne ↦
      let (old, differs) = forget_address-kept t name at other s (
        ground (
          arith,
          HashMap.get-insert ip at name (forget_address (HashMap.get name t.hosts) t.ips),
        )) in
      ground (arith, HashMap.get-insert name other ip t.hosts, bytes_eq_iff name other)
]

deregister-ReverseSound :
    (name : Bytes) (t : LocalDnsTable)
    → ReverseSound t
    → ReverseSound (deregister_local_host name t)
unfolding deregister_local_host
deregister-ReverseSound name t s at other g =
    let (old, differs) = forget_address-kept t name at other s g in
    ground (arith, HashMap.get-remove name other t.hosts, bytes_eq_iff name other)

host_run-keeps :
    (ms : List HostMessage) (t : LocalDnsTable) → ReverseSound t → ReverseSound (host_run ms t)
unfolding host_run
host_run-keeps [] t s = s
host_run-keeps (register name ip ∷ ms) t s = host_run-keeps ms _ (register-ReverseSound name ip t s)
host_run-keeps (deregister name ∷ ms) t s = host_run-keeps ms _ (deregister-ReverseSound name t s)

-- After any messages of the parent, a reverse lookup never names a host that has another address or
-- that is not registered.
pub host_run-ReverseSound : (ms : List HostMessage) → ReverseSound (host_run ms no_hosts)
unfolding HashMap.get
host_run-ReverseSound ms = host_run-keeps ms no_hosts (λ ip name g. cc)

-- Where two names have one address, deregistering the one that was registered first takes the reverse
-- entry of the other, which stays registered.
pub deregister-loses_reverse :
    (t : LocalDnsTable) (name other : Bytes) (ip : Ipv4Addr)
    → name ≢ other
    → HashMap.get name t.hosts ≡ some ip
    → let t' = deregister_local_host name (register_local_host other ip t) in
      (HashMap.get other t'.hosts ≡ some ip) × (HashMap.get ip t'.ips ≡ none)
unfolding deregister_local_host register_local_host
deregister-loses_reverse t name other ip ne g =
    let ips = HashMap.insert ip other (forget_address (HashMap.get other t.hosts) t.ips) in
    ground (
      arith,
      HashMap.get-remove name other (HashMap.insert other ip t.hosts),
      HashMap.get-insert other other ip t.hosts,
      HashMap.get-insert other name ip t.hosts,
      HashMap.get-remove ip ip ips,
      bytes_eq_iff name other,
      bytes_eq_iff other other,
      bytes_eq_iff other name,
    )
