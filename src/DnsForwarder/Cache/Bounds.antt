-- ===== src/DnsForwarder/Cache/Bounds.antt =====
-- src/services/dns_forwarder/worker.rs: the size of the cache and the life of its entries.
use trimrouter.Prelude.{
  ℕ, zero, suc, ◌≤◌, ◌<◌, ◌≡◌, ◌≢◌, refl, inl, inr, ◌⊎◌, Bool, true, false, ◌||◌, not, none, some,
  List, [], ◌∷◌, arith, min, if◌then◌else◌, ltb, length, bytes_key, bytes_eq_iff, elem, Bool-cases,
  Option-cases,
}
use trimrouter.HashMap
use trimrouter.HashMap.{contains_key}
use trimrouter.Net.{Instant, Duration, from_secs}
use trimrouter.DnsForwarder.Wire.{
  Bytes, DnsLib, Packet, Authority, ResponseCode, no_error, nx_domain, serv_fail, refused,
  other_code,
}
use trimrouter.DnsForwarder.Cache.{
  Cache, CacheEntry, max_cache_entries, evict_expired_cache, oldest_from, remove_oldest, make_room,
  insert_cache, cacheable, calculate_cache_ttl, ttl_by_code, negative_ttl_from,
  calculate_negative_ttl, min_ttl, positive_ttl,
}

found-cons :
    (key k : Bytes) (entry : CacheEntry) (cache : Cache) (older : Bool) (j : Bytes)
    → (j ≡ (if older then k else key)) ⊎ (contains_key j cache ≡ true)
    → (j ≡ key) ⊎ (contains_key j ((k, entry) ∷ cache) ≡ true)
unfolding HashMap.get
found-cons key k entry cache true j (inl same) = inr (ground (arith, bytes_eq_iff k j))
found-cons key k entry cache false j (inl same) = inl same
found-cons key k entry cache older j (inr found) = inr (ground arith)

-- The key that is found is that of an entry.
oldest_from-found :
    (key : Bytes) (expiry : Instant) (cache : Cache)
    → (oldest_from key expiry cache ≡ key)
      ⊎ (contains_key (oldest_from key expiry cache) cache ≡ true)
unfolding oldest_from
oldest_from-found key expiry [] = inl refl
oldest_from-found key expiry ((k, entry) ∷ cache) =
    let older = ltb entry.expiry expiry in
    found-cons key k entry cache older _
      (oldest_from-found (if older then k else key) (if older then entry.expiry else expiry) cache)

oldest_in :
    (k : Bytes) (entry : CacheEntry) (cache : Cache) (j : Bytes)
    → (j ≡ k) ⊎ (contains_key j cache ≡ true)
    → HashMap.get j ((k, entry) ∷ cache) ≢ none
unfolding HashMap.get
oldest_in k entry cache j (inl same) h = ground (arith, bytes_eq_iff k j)
oldest_in k entry cache j (inr found) h = ground arith

length-remove_oldest :
    (cache : Cache) → 0 < length cache → length (remove_oldest cache) < length cache
unfolding remove_oldest
length-remove_oldest [] h = absurd (omega arith)
length-remove_oldest ((k, entry) ∷ cache) h =
    HashMap.length-remove-lt _ ((k, entry) ∷ cache)
      (oldest_in k entry cache _ (oldest_from-found k entry.expiry cache))

length-make_room :
    (now : Instant) (key : Bytes) (cache : Cache)
    → length cache ≤ max_cache_entries
    → length (HashMap.remove key (make_room now key cache)) < max_cache_entries
unfolding make_room evict_expired_cache
length-make_room now key cache h =
    let kept = HashMap.retain (λ _ entry. ltb now entry.expiry) cache in
    ground (
      arith,
      HashMap.length-retain-le (λ _ entry. ltb now entry.expiry) cache,
      length-remove_oldest kept,
      HashMap.length-remove-le key kept,
      HashMap.length-remove-le key (remove_oldest kept),
      HashMap.length-remove-le key cache,
      HashMap.length-remove-lt key cache,
    )

-- The cache never has more than 4096 entries.
pub length-insert_cache :
    (lib : DnsLib) (now : Instant) (key response : Bytes) (cache : Cache)
    → length cache ≤ max_cache_entries
    → length (insert_cache lib now key response cache) ≤ max_cache_entries
unfolding insert_cache HashMap.insert
length-insert_cache lib now key response cache h = elim (Option-cases (cacheable lib response)) [
  | inl e ↦ rw (e, insert_cache) h
  | inr (ttl, e) ↦ rw (e, insert_cache) (omega (arith, length-make_room now key cache h))
]

negative_ttl_from_bounds :
    (rs : List Authority)
    → (from_secs 5 ≤ negative_ttl_from rs) × (negative_ttl_from rs ≤ from_secs 300)
unfolding negative_ttl_from
negative_ttl_from_bounds [] = omega arith
negative_ttl_from_bounds (r ∷ rs) = ground (arith, negative_ttl_from_bounds rs)

positive_ttl_bounds :
    (n : ℕ) (ttl : Duration)
    → positive_ttl n ≡ some ttl
    → (from_secs 1 ≤ ttl) × (ttl ≤ from_secs 3600) × (ttl ≤ from_secs n)
positive_ttl_bounds zero ttl h = absurd (ground arith)
positive_ttl_bounds (suc n) ttl h = ground arith

min_ttl-le : (ttl : ℕ) (ttls : List ℕ) → min_ttl ttl ttls ≤ ttl
unfolding min_ttl
min_ttl-le ttl [] = omega arith
min_ttl-le ttl (x ∷ xs) = omega (arith, min_ttl-le (min ttl x) xs)

min_ttl-le_elem :
    (ttl : ℕ) (ttls : List ℕ) (x : ℕ) → elem x (ttl ∷ ttls) ≡ true → min_ttl ttl ttls ≤ x
unfolding min_ttl elem
min_ttl-le_elem ttl [] x h = ground arith
min_ttl-le_elem ttl (y ∷ ys) x h = elim (Bool-cases (elem x ys)) [
  | inl later ↦ min_ttl-le_elem (min ttl y) ys x (ground arith)
  | inr now ↦ ground (arith, min_ttl-le (min ttl y) ys)
]

-- How long a response may be kept, by its code and the TTLs of its answers.
abbrev pub Allows : ResponseCode → List ℕ → Duration → Type 0
Allows no_error (t ∷ ts) ttl = (x : ℕ) → elem x (t ∷ ts) ≡ true → ttl ≤ from_secs x
Allows no_error [] ttl = (from_secs 5 ≤ ttl) × (ttl ≤ from_secs 300)
Allows nx_domain _ ttl = (from_secs 5 ≤ ttl) × (ttl ≤ from_secs 300)
Allows _ _ ttl = ⊥

abbrev Kept : ResponseCode → List ℕ → Duration → Type 0
Kept code ttls ttl = (from_secs 1 ≤ ttl) × (ttl ≤ from_secs 3600) × Allows code ttls ttl

negative-Kept :
    (packet : Packet) (ttl : Duration)
    → some (calculate_negative_ttl packet) ≡ some ttl
    → (from_secs 5 ≤ ttl) × (ttl ≤ from_secs 300)
unfolding calculate_negative_ttl
negative-Kept packet ttl h = ground (arith, negative_ttl_from_bounds packet.authorities)

ttl_by_code-Kept :
    (packet : Packet) (code : ResponseCode) (ttls : List ℕ) (ttl : Duration)
    → ttl_by_code packet code ttls ≡ some ttl
    → Kept code ttls ttl
unfolding ttl_by_code
ttl_by_code-Kept packet no_error (t ∷ ts) ttl h =
    let (lo, hi, least) = positive_ttl_bounds (min_ttl t ts) ttl h in
    (lo, hi, λ x e. omega (arith, min_ttl-le_elem t ts x e))
ttl_by_code-Kept packet no_error [] ttl h =
    let b = negative-Kept packet ttl h in (omega arith, omega arith, b)
ttl_by_code-Kept packet nx_domain ts ttl h =
    let b = negative-Kept packet ttl h in (omega arith, omega arith, b)
ttl_by_code-Kept packet serv_fail ts ttl h = absurd (ground arith)
ttl_by_code-Kept packet refused ts ttl h = absurd (ground arith)
ttl_by_code-Kept packet other_code ts ttl h = absurd (ground arith)

-- A message that is cached is a response and not truncated, and is kept for a second at least and an
-- hour at most: a positive answer no longer than any of its TTLs, an empty answer or NXDomain for
-- 5 to 300 seconds, and no other response code at all.
pub calculate_cache_ttl_bounds :
    (packet : Packet) (ttl : Duration)
    → calculate_cache_ttl packet ≡ some ttl
    → (packet.truncation ≡ false)
      × (packet.is_response ≡ true)
      × (from_secs 1 ≤ ttl)
      × (ttl ≤ from_secs 3600)
      × Allows packet.response_code packet.answer_ttls ttl
unfolding calculate_cache_ttl
calculate_cache_ttl_bounds packet ttl h =
    elim (Bool-cases (packet.truncation || not packet.is_response)) [
      | inl bad ↦ absurd (ground arith)
      | inr good ↦
          let (lo, hi, allowed) =
            ttl_by_code-Kept packet packet.response_code packet.answer_ttls ttl (ground arith) in
          (ground arith, ground arith, lo, hi, allowed)
    ]
