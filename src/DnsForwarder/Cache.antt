-- ===== src/DnsForwarder/Cache.antt =====
-- src/services/dns_forwarder/worker.rs: the response cache, a `HashMap` from cache keys to
-- responses with the time at which they run out. `now` is what a call reads from `Instant::now()`.
pub mod Bounds
pub mod Lookup
use trimrouter.Prelude.{
  ℕ, zero, suc, ◌+◌, ◌-◌, ◌≡◌, Bool, true, false, ◌&&◌, ◌||◌, not, Option, none, some, List, [],
  ◌∷◌, ◌++◌, map, min, max, if◌then◌else◌, ltb, leb, length, bytes_key,
}
use trimrouter.HashMap
use trimrouter.HashMap.{contains_key}
use trimrouter.Net.{Instant, Duration, from_secs}
use trimrouter.DnsForwarder.Wire.{
  Bytes, DnsLib, Packet, Question, Authority, ResponseCode, no_error, nx_domain, serv_fail, refused,
  other_code, dns_header_size, clamp,
}

pub record CacheEntry : Type 0 where
  pub response : Bytes
  pub expiry : Instant

abbrev pub Cache : Type 0
Cache = List (Bytes × CacheEntry)

abbrev pub max_ttl_secs : ℕ
max_ttl_secs = 3600

abbrev pub default_negative_ttl_secs : ℕ
default_negative_ttl_secs = 60

abbrev pub min_negative_ttl_secs : ℕ
min_negative_ttl_secs = 5

abbrev pub max_negative_ttl_secs : ℕ
max_negative_ttl_secs = 300

abbrev pub max_cache_entries : ℕ
max_cache_entries = 4096

unfoldable pub evict_expired_cache : Instant → Cache → Cache
evict_expired_cache now cache = HashMap.retain (λ _ entry. ltb now entry.expiry) cache

-- `to_ascii_lowercase`
abbrev pub to_ascii_lowercase : Bytes → Bytes
to_ascii_lowercase = map (λ c. if leb 65 c && leb c 90 then c + 32 else c)

-- `format!("{}:{:?}:{:?}", ..)`; a colon is byte 58.
abbrev pub key_of : Question → Bytes
key_of q = to_ascii_lowercase q.name ++ (58 ∷ q.type_text ++ (58 ∷ q.class_text))

abbrev pub first_key : Bool → List Question → Option Bytes
first_key is_query [] = none
first_key is_query (q ∷ qs) = if is_query then some (key_of q) else none

abbrev packet_key : Option Packet → Option Bytes
packet_key none = none
packet_key (some p) = first_key p.is_query_op p.queries

-- The answer of `lookup_cache` for what the cache has; an entry that has run out is removed.
abbrev pub fresh_response : Instant → Bytes → Cache → Option CacheEntry → Cache × Option Bytes
fresh_response now key cache none = (cache, none)
fresh_response now key cache (some entry) =
    if ltb now entry.expiry then (cache, some entry.response) else (HashMap.remove key cache, none)

unfoldable pub lookup_cache : Instant → Bytes → Cache → Cache × Option Bytes
lookup_cache now key cache = fresh_response now key cache (HashMap.get key cache)

-- The loop of `calculate_negative_ttl` over the authority section.
unfoldable pub negative_ttl_from : List Authority → Duration
negative_ttl_from [] = from_secs default_negative_ttl_secs
negative_ttl_from (r ∷ rs) =
    let rest = negative_ttl_from rs in
    elim r.soa_minimum [
      | some minimum ↦
          from_secs (clamp min_negative_ttl_secs max_negative_ttl_secs (min r.ttl minimum))
      | none ↦ rest
    ]

unfoldable pub calculate_negative_ttl : Packet → Duration
unfolding negative_ttl_from
calculate_negative_ttl packet = negative_ttl_from packet.authorities

-- `iter().map(|ans| ans.ttl).min()`
unfoldable pub min_ttl : ℕ → List ℕ → ℕ
min_ttl ttl [] = ttl
min_ttl ttl (x ∷ xs) = min_ttl (min ttl x) xs

abbrev pub positive_ttl : ℕ → Option Duration
positive_ttl zero = none
positive_ttl (suc n) = some (from_secs (min max_ttl_secs (suc n)))

-- The `match` on the response code.
unfoldable pub ttl_by_code : Packet → ResponseCode → List ℕ → Option Duration
unfolding min_ttl calculate_negative_ttl
ttl_by_code packet no_error (ttl ∷ ttls) = positive_ttl (min_ttl ttl ttls)
ttl_by_code packet no_error [] = some (calculate_negative_ttl packet)
ttl_by_code packet nx_domain _ = some (calculate_negative_ttl packet)
ttl_by_code packet _ _ = none

unfoldable pub calculate_cache_ttl : Packet → Option Duration
unfolding ttl_by_code
calculate_cache_ttl packet =
    if packet.truncation || not packet.is_response
    then none
    else ttl_by_code packet packet.response_code packet.answer_ttls

-- `min_by_key(|(_, entry)| entry.expiry)`: the first of the least.
unfoldable pub oldest_from : Bytes → Instant → Cache → Bytes
oldest_from key expiry [] = key
oldest_from key expiry ((k, entry) ∷ cache) =
    let older = ltb entry.expiry expiry in
    oldest_from (if older then k else key) (if older then entry.expiry else expiry) cache

unfoldable pub remove_oldest : Cache → Cache
unfolding oldest_from
remove_oldest [] = []
remove_oldest ((k, entry) ∷ cache) =
    HashMap.remove (oldest_from k entry.expiry cache) ((k, entry) ∷ cache)

-- What makes room for a new key in a full cache.
unfoldable pub make_room : Instant → Bytes → Cache → Cache
unfolding evict_expired_cache remove_oldest
make_room now key cache =
    if leb max_cache_entries (length cache) && not (contains_key key cache)
    then (let kept = evict_expired_cache now cache in
        if leb max_cache_entries (length kept) then remove_oldest kept else kept)
    else cache

module _ (lib : DnsLib) where
  unfoldable pub get_cache_key : Bytes → Option Bytes
  get_cache_key query = packet_key (lib.from_bytes query)

  -- How long `insert_cache` would keep a response, if it caches it.
  unfoldable pub cacheable : Bytes → Option Duration
  unfolding calculate_cache_ttl
  cacheable response =
      if ltb (length response) dns_header_size
      then none
      else elim (lib.from_bytes response) [ none ↦ none | some packet ↦ calculate_cache_ttl packet ]

  unfoldable pub insert_cache : Instant → Bytes → Bytes → Cache → Cache
  unfolding cacheable make_room
  insert_cache now key response cache = elim (cacheable response) [
    | none ↦ cache
    | some ttl ↦
        HashMap.insert key (record { response = response; expiry = now + ttl })
          (make_room now key cache)
  ]
