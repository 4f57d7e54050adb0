-- ===== src/DnsForwarder/Cache/Lookup.antt =====
-- src/services/dns_forwarder/worker.rs: what a lookup in the cache finds.
use trimrouter.Prelude.{
  ◌+◌, ◌<◌, ◌≡◌, ◌≢◌, inl, inr, none, some, arith, if◌then◌else◌, ltb, length, bytes_key,
  bytes_eq_iff, Option-cases,
}
use trimrouter.HashMap
use trimrouter.HashMap.{contains_key, IsMap}
use trimrouter.Net.{Instant, Duration}
use trimrouter.DnsForwarder.Wire.{Bytes, DnsLib}
use trimrouter.DnsForwarder.Cache.{
  Cache, CacheEntry, max_cache_entries, lookup_cache, make_room, insert_cache, cacheable,
}

-- A response that can be kept for `ttl` is found under its key until then, and not from then on; the
-- cache may be full before.
pub lookup_cache-insert_cache :
    (lib : DnsLib) (now later : Instant) (key response : Bytes) (ttl : Duration) (cache : Cache)
    → cacheable lib response ≡ some ttl
    → (lookup_cache later key (insert_cache lib now key response cache)).1
      ≡ (if ltb later (now + ttl) then some response else none)
unfolding lookup_cache insert_cache
lookup_cache-insert_cache lib now later key response ttl cache e =
    rw
      (
        e,
        insert_cache,
        HashMap.get-insert key key (record { response = response; expiry = now + ttl })
            (make_room now key cache),
      )
      (ground (arith, bytes_eq_iff key key))

-- A lookup finds only what has not run out, and changes nothing then; what has run out is removed.
pub lookup_cache_lem :
    (now : Instant) (key : Bytes) (cache : Cache) (response : Bytes)
    → (lookup_cache now key cache).1 ≡ some response
    → (entry : CacheEntry) × (HashMap.get key cache ≡ some entry)
      × (entry.response ≡ response)
      × (now < entry.expiry)
      × ((lookup_cache now key cache).0 ≡ cache)
unfolding lookup_cache
lookup_cache_lem now key cache response h = elim (Option-cases (HashMap.get key cache)) [
  | inl e ↦ absurd (ground arith)
  | inr (entry, e) ↦ (entry, e, ground arith, ground arith, ground arith)
]

-- While the cache has room, a new response leaves the other entries alone.
pub insert_cache-get_ne :
    (lib : DnsLib) (now : Instant) (key other response : Bytes) (cache : Cache)
    → length cache < max_cache_entries
    → key ≢ other
    → HashMap.get other (insert_cache lib now key response cache) ≡ HashMap.get other cache
unfolding insert_cache make_room
insert_cache-get_ne lib now key other response cache room ne =
    elim (Option-cases (cacheable lib response)) [
      | inl e ↦ rw (e, insert_cache)
      | inr (ttl, e) ↦
          rw
            (
              e,
              insert_cache,
              HashMap.get-insert key other (record { response = response; expiry = now + ttl })
                  (make_room now key cache),
            )
            (ground (arith, bytes_eq_iff key other))
    ]
