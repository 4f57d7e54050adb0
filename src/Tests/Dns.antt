-- ===== src/Tests/Dns.antt =====
-- src/services/dns_forwarder at concrete inputs: messages, the cache, the names of the LAN, and the
-- rate limiter. The library of DNS messages is a small one: a message has an id, a byte of flags, a
-- byte for its code, and the name that it asks for.
use trimrouter.Prelude.{
  ◌+◌, ◌-◌, ◌*◌, ◌≤◌, ◌≡◌, refl, Bool, true, false, Option, none, some, List, [], ◌∷◌, arith, leb,
  ltb, if◌then◌else◌, bytes_key, bytes_eq, nat_key,
}
use trimrouter.HashMap
use trimrouter.Net.{Instant, from_secs}
use trimrouter.DnsForwarder.Wire.{
  Bytes, DnsLib, Packet, Question, a_record, ptr_record, no_error, address,
}
use trimrouter.DnsForwarder.Cache.{
  Cache, CacheEntry, insert_cache, lookup_cache, cacheable, calculate_cache_ttl,
}
use trimrouter.DnsForwarder.Cache.Bounds.{calculate_cache_ttl_bounds, Allows}
use trimrouter.DnsForwarder.Cache.Lookup.{lookup_cache-insert_cache}
use trimrouter.DnsForwarder.LocalHosts.{
  LocalDnsTable, local_reply, register_local_host, deregister_local_host,
}
use trimrouter.DnsForwarder.LocalHosts.Reverse.{
  register, deregister, ReverseSound, host_run, no_hosts, host_run-ReverseSound,
  deregister-loses_reverse,
}
use trimrouter.DnsForwarder.LocalHosts.Isolation.{local_reply-lan}
use trimrouter.DnsForwarder.RateLimiter.{default, one_token}
use trimrouter.DnsForwarder.RateLimiter.History.{
  query, cleanup, LimiterEvent, admissions, admissions-le, last_time, default-Refills,
}

-- "nas"
abbrev nas : Bytes
nas = 110 ∷ 97 ∷ 115 ∷ []

-- "pc"
abbrev pc : Bytes
pc = 112 ∷ 99 ∷ []

abbrev question : Bytes → Question
question name = record {
  name = name;
  name_utf8 = name;
  arpa_host = none;
  query_type = a_record;
  type_text = 65 ∷ [];
  class_text = 73 ∷ 78 ∷ [];
}

abbrev pub packet : Bool → Bytes → Packet
packet is_response name = record {
  is_response = is_response;
  is_query_op = true;
  truncation = false;
  response_code = no_error;
  queries = question name ∷ [];
  answer_ttls = 300 ∷ 60 ∷ [];
  authorities = [];
  edns_max_payload = some 1232;
}

abbrev parse : Bytes → Option Packet
parse (hi ∷ lo ∷ flags ∷ code ∷ name) = some (packet (leb 128 flags) name)
parse _ = none

abbrev pub lib : DnsLib
lib = record {
  from_bytes = parse;
  emit_truncated = λ b. none;
  is_name = λ b. true;
  emit_authoritative = λ p code answer. [];
}

-- "example.org", asked for with id 0x1234, and the response with id 0x4321.
abbrev name : Bytes
name = 101 ∷ 120 ∷ 97 ∷ 109 ∷ 112 ∷ 108 ∷ 101 ∷ 46 ∷ 111 ∷ 114 ∷ 103 ∷ []

abbrev pub asked : Bytes
asked = 0x12 ∷ 0x34 ∷ 0 ∷ 0 ∷ name

abbrev pub answered : Bytes
answered = 0x43 ∷ 0x21 ∷ 128 ∷ 0 ∷ name

abbrev entry : CacheEntry
entry = record { response = answered; expiry = 500 }

abbrev cache : Cache
cache = (pc, entry) ∷ []

calculate_cache_ttl_bounds_example :
    ◌≡◌ {A = Bool} false false
    × ◌≡◌ {A = Bool} true true
    × (from_secs 1 ≤ from_secs 60)
    × (from_secs 60 ≤ from_secs 3600)
    × Allows no_error (300 ∷ 60 ∷ []) (from_secs 60)
unfolding calculate_cache_ttl
calculate_cache_ttl_bounds_example =
    calculate_cache_ttl_bounds (packet true name) (from_secs 60) refl

lookup_cache-insert_cache_example :
    (lookup_cache 7 nas (insert_cache lib 0 nas answered cache)).1
    ≡ (if ltb 7 (0 + from_secs 60) then some answered else none)
unfolding cacheable
lookup_cache-insert_cache_example =
    lookup_cache-insert_cache lib 0 7 nas answered (from_secs 60) cache refl

-- "Nas.LAN." and "printer.local"
abbrev nas_lan : Question
nas_lan = question (78 ∷ 97 ∷ 115 ∷ 46 ∷ 76 ∷ 65 ∷ 78 ∷ 46 ∷ [])

abbrev printer_local : Question
printer_local = question (112 ∷ 46 ∷ 108 ∷ 111 ∷ 99 ∷ 97 ∷ 108 ∷ [])

abbrev printer_ptr : Question
printer_ptr = record printer_local { query_type = ptr_record }

abbrev hosts : LocalDnsTable
hosts = record { hosts = (nas, 77) ∷ []; ips = (77, nas) ∷ [] }

local_reply-lan_example : local_reply lib hosts nas_lan ≡ some (no_error, some (address 77))
unfolding HashMap.get bytes_eq trimrouter.Prelude.elem
local_reply-lan_example = local_reply-lan lib hosts nas_lan nas refl (omega arith) refl

host_run-ReverseSound_example :
    ReverseSound (host_run (register nas 77 ∷ register pc 77 ∷ deregister nas ∷ []) no_hosts)
host_run-ReverseSound_example =
    host_run-ReverseSound (register nas 77 ∷ register pc 77 ∷ deregister nas ∷ [])

deregister-loses_reverse_example :
    let t' = deregister_local_host nas (register_local_host pc 77 hosts) in
    (HashMap.get pc t'.hosts ≡ some 77) × (HashMap.get 77 t'.ips ≡ none)
unfolding HashMap.get bytes_eq
deregister-loses_reverse_example =
    deregister-loses_reverse hosts nas pc 77 (λ e. ground (arith, e)) refl

abbrev asks : List (Instant × LimiterEvent)
asks = (1, query 5) ∷ (2, query 6) ∷ (3, cleanup) ∷ (4, query 5) ∷ []

admissions-le_example :
    one_token * admissions 5 asks default
    ≤ default.max_burst + (last_time 0 asks - 0) * default.rate_per_sec
admissions-le_example =
    admissions-le 0 asks 5 default (omega arith, (omega arith, (omega arith, (omega arith, tt))))
      default-Refills
