-- ===== src/DnsForwarder/LocalHosts/Isolation.antt =====
-- src/services/dns_forwarder/worker.rs: which queries are answered from the names of the LAN, and so
-- never go to a resolver.
use trimrouter.Prelude.{
  ℕ, ◌<◌, ◌≡◌, ◌≢◌, refl, sym, ap, ap₂, ◌∙◌, inl, inr, Bool, true, false, if◌then◌else◌, ◌+◌, ◌&&◌,
  ◌||◌, none, some, [], ◌∷◌, ◌++◌, arith, nat_eq, leb, length, length-append, elem, bytes_eq,
  bytes_eq_iff, bytes_eq_refl, bytes_key, nat_key, Bool-cases,
}
use trimrouter.HashMap
use trimrouter.Net.{Ipv4Addr}
use trimrouter.Net.Hostname.{IsLabel}
use trimrouter.DnsForwarder.Cache.{to_ascii_lowercase}
use trimrouter.DnsForwarder.Wire.{
  Bytes, DnsLib, Question, address, RecordType, a_record, ptr_record, other_record, no_error,
  nx_domain,
}
use trimrouter.DnsForwarder.LocalHosts.{
  LocalDnsTable, local_domain, is_dots, trim_end_dots, strip_suffix, lower_forward_name,
  extract_local_forward_name, is_mdns_local_domain, local_reply, other_reply, address_reply,
  register_local_host,
}

-- The suffix `.lan` and the dot at the end of a full name.
abbrev pub lan_suffix : Bytes
lan_suffix = 46 ∷ local_domain

not_dot :
    (c : ℕ)
    → ((leb 48 c && leb c 57) || (leb 97 c && leb c 122) || nat_eq c 45) ≡ true
    → nat_eq c 46 ≡ false
not_dot c h = ground arith

-- A dot stays a dot, and nothing else becomes one, so that the dots at the end stay apart.
trim_end_dots-lowercase :
    (name : Bytes)
    → to_ascii_lowercase (trim_end_dots name) ≡ trim_end_dots (to_ascii_lowercase name)
unfolding trim_end_dots
trim_end_dots-lowercase [] = refl
trim_end_dots-lowercase (c ∷ cs) =
    is_dots-lowercase (nat_eq c 46) c (trim_end_dots cs)
    ∙ ap₂ (λ b rest. is_dots b rest (lower c ∷ rest)) (sym (lower-dot c))
        (trim_end_dots-lowercase cs)
  where
    lower : ℕ → ℕ
    lower c = if leb 65 c && leb c 90 then c + 32 else c

    lower-dot : (c : ℕ) → nat_eq (lower c) 46 ≡ nat_eq c 46
    lower-dot c = ground arith

    is_dots-lowercase :
        (b : Bool) (c : ℕ) (rest : Bytes)
        → to_ascii_lowercase (is_dots b rest (c ∷ rest))
          ≡ is_dots b (to_ascii_lowercase rest) (lower c ∷ to_ascii_lowercase rest)
    is_dots-lowercase true c [] = refl
    is_dots-lowercase true c (d ∷ rest) = refl
    is_dots-lowercase false c rest = refl

trim_end_dots-full :
    (label : Bytes)
    → elem 46 label ≡ false
    → trim_end_dots (label ++ (46 ∷ 108 ∷ 97 ∷ 110 ∷ 46 ∷ [])) ≡ label ++ lan_suffix
unfolding trim_end_dots elem
trim_end_dots-full [] h = refl
trim_end_dots-full (c ∷ cs) h =
    let (other, rest) = apart c cs h in rw (trim_end_dots-full cs rest, other)
  where
    apart :
        (c : ℕ) (cs : Bytes)
        → elem 46 (c ∷ cs) ≡ false
        → (nat_eq c 46 ≡ false) × (elem 46 cs ≡ false)
    apart c cs h = ground (arith, h)

no_dot : (label : Bytes) → IsLabel label → elem 46 label ≡ false
unfolding elem
no_dot [] h = refl
no_dot (c ∷ cs) h = ground (arith, no_dot cs h.1)

longer : (xs ys : Bytes) → length xs ≢ length ys → bytes_eq xs ys ≡ false
longer xs ys ne = elim (Bool-cases (bytes_eq xs ys)) [
  | inl same ↦ absurd (ne (ap length ((bytes_eq_iff xs ys).0 same)))
  | inr differ ↦ differ
]

strip_suffix_self : (suffix : Bytes) → strip_suffix suffix suffix ≡ some []
unfolding strip_suffix
strip_suffix_self [] = rw (bytes_eq_refl [])
strip_suffix_self (c ∷ cs) = rw (bytes_eq_refl (c ∷ cs))

strip_suffix-append : (suffix label : Bytes) → strip_suffix suffix (label ++ suffix) ≡ some label
unfolding strip_suffix
strip_suffix-append suffix [] = strip_suffix_self suffix
strip_suffix-append suffix (c ∷ cs) = rw (
  longer (c ∷ (cs ++ suffix)) suffix (omega (arith, length-append cs suffix)),
  strip_suffix-append suffix cs,
)

lower_forward_name-label :
    (label : Bytes)
    → elem 46 label ≡ false
    → 0 < length label
    → lower_forward_name (label ++ lan_suffix) ≡ some (label, true)
unfolding lower_forward_name
lower_forward_name-label [] h pos = absurd (omega arith)
lower_forward_name-label (c ∷ cs) h pos = ground (
  arith,
  longer (c ∷ cs ++ lan_suffix) local_domain (omega (arith, length-append cs lan_suffix)),
  strip_suffix-append lan_suffix (c ∷ cs),
  h,
)

-- In whatever case it is written, a label with the suffix `.lan` and a dot is read as that label.
extract_local_forward_name-label :
    (name label : Bytes)
    → elem 46 label ≡ false
    → 0 < length label
    → to_ascii_lowercase name ≡ label ++ (46 ∷ 108 ∷ 97 ∷ 110 ∷ 46 ∷ [])
    → extract_local_forward_name name ≡ some (label, true)
unfolding extract_local_forward_name
extract_local_forward_name-label name label h pos e =
    rw (trim_end_dots-lowercase name, e, trim_end_dots-full label h)
      (lower_forward_name-label label h pos)

-- A query for a single label under `.lan`, in whatever case it is written, is always answered here, of
-- whatever type: with the address or without a record, if the label in lower case is registered, and
-- with NXDomain if not.
pub local_reply-lan :
    (lib : DnsLib) (t : LocalDnsTable) (q : Question) (label : Bytes)
    → elem 46 label ≡ false
    → 0 < length label
    → to_ascii_lowercase q.name_utf8 ≡ label ++ (46 ∷ 108 ∷ 97 ∷ 110 ∷ 46 ∷ [])
    → local_reply lib t q ≡ elim (HashMap.get label t.hosts) [
      | some ip ↦ some (address_reply lib q.query_type ip)
      | none ↦ some (nx_domain, none)
    ]
unfolding local_reply
local_reply-lan lib t q label h pos e =
    rw (extract_local_forward_name-label q.name_utf8 label h pos e) (ground arith)

-- So a name that was registered is found: a query of type A gets its address.
pub local_reply-register :
    (lib : DnsLib) (t : LocalDnsTable) (q : Question) (label : Bytes) (ip : Ipv4Addr)
    → IsLabel label
    → 0 < length label
    → to_ascii_lowercase q.name_utf8 ≡ label ++ (46 ∷ 108 ∷ 97 ∷ 110 ∷ 46 ∷ [])
    → q.query_type ≡ a_record
    → local_reply lib (register_local_host label ip t) q ≡ some (no_error, some (address ip))
unfolding register_local_host
local_reply-register lib t q label ip h pos e a = rw (
  local_reply-lan lib (register_local_host label ip t) q label (no_dot label h) pos e,
  HashMap.get-insert label label ip t.hosts,
  bytes_eq_refl label,
  a,
)

mdns-other_reply :
    (lib : DnsLib) (t : LocalDnsTable) (q : Question) (type : RecordType)
    → type ≢ ptr_record
    → is_mdns_local_domain q.name_utf8 ≡ true
    → other_reply lib t q type ≡ some (nx_domain, none)
mdns-other_reply lib t q a_record ne h = rw h
mdns-other_reply lib t q ptr_record ne h = absurd (ne refl)
mdns-other_reply lib t q other_record ne h = rw h

-- A query for a name under `.local` that is no host's name is answered here with NXDomain, if its
-- type is not PTR.
pub local_reply-mdns :
    (lib : DnsLib) (t : LocalDnsTable) (q : Question)
    → extract_local_forward_name q.name_utf8 ≡ none
    → is_mdns_local_domain q.name_utf8 ≡ true
    → q.query_type ≢ ptr_record
    → local_reply lib t q ≡ some (nx_domain, none)
unfolding local_reply
local_reply-mdns lib t q e m ne = rw e (mdns-other_reply lib t q q.query_type ne m)

-- A PTR query for a name under `.local` gets no local answer, and so goes on to a resolver, where the
-- specification says that no query for `*.local` does.
pub local_reply-mdns_ptr :
    (lib : DnsLib) (t : LocalDnsTable) (q : Question)
    → extract_local_forward_name q.name_utf8 ≡ none
    → is_mdns_local_domain q.name_utf8 ≡ true
    → q.query_type ≡ ptr_record
    → q.arpa_host ≡ none
    → local_reply lib t q ≡ none
unfolding local_reply
local_reply-mdns_ptr lib t q e m p a = rw (e, p, a)
