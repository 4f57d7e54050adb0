-- ===== src/DnsForwarder/Worker/Sound.antt =====
-- src/services/dns_forwarder/worker.rs: what a reply of a resolver keeps of the state.
use trimrouter.Prelude.{
  ℕ, zero, suc, ◌≤◌, ◌<◌, ◌≡◌, refl, Bool, true, false, ◌&&◌, not, if◌then◌else◌, leb, inl, inr,
  Option, none, some, List, [], ◌∷◌, arith, ltb, length, nat_key, bytes_key, Option-cases,
  Bool-cases,
}
use trimrouter.HashMap
use trimrouter.HashMap.{IsMap, AllValues}
use trimrouter.Net.{Ipv4Addr, Instant}
use trimrouter.DnsForwarder.Wire.{
  Bytes, DnsLib, ResponseCode, is_truncated, message_id, with_id, dns_header_size,
}
use trimrouter.DnsForwarder.Cache.{
  max_cache_entries, Cache, CacheEntry, cacheable, insert_cache, make_room, remove_oldest,
  oldest_from, evict_expired_cache,
}
use trimrouter.DnsForwarder.Cache.Bounds.{length-insert_cache}
use trimrouter.DnsForwarder.Pending.{
  PendingClient, send_reply, fanout_client_replies, PendingTable, PendingQuery, Action, SocketAddr,
  get_elem?, try_failover_upstream_query,
}
use trimrouter.DnsForwarder.Pending.Sound.{QueryIsValid, TableIsValid, try_failover-QueryIsValid}
use trimrouter.DnsForwarder.Worker.{
  Forwarder, handle_upstream_reply, accept_reply, settle_or_failover, settle_query, is_failure,
  is_resolver,
}

-- A cached response has a header.
abbrev pub HasHeader : CacheEntry → Type 0
HasHeader entry = dns_header_size ≤ length entry.response

-- The table of pending queries is valid, the cache within its bound, and each response in it has a header.
pub record IsSound (s : Forwarder) : Type 0 where
  pub table : TableIsValid s.pending
  pub cached : length s.cache ≤ max_cache_entries
  pub texts : AllValues HasHeader s.cache

remove_oldest-HasHeader :
    (cache : Cache) → AllValues HasHeader cache → AllValues HasHeader (remove_oldest cache)
unfolding remove_oldest
remove_oldest-HasHeader [] a = a
remove_oldest-HasHeader ((k, entry) ∷ cache) a =
    HashMap.AllValues-remove HasHeader (oldest_from k entry.expiry cache) ((k, entry) ∷ cache) a

make_room-HasHeader :
    (now : Instant) (key : Bytes) (cache : Cache)
    → AllValues HasHeader cache
    → AllValues HasHeader (make_room now key cache)
unfolding make_room evict_expired_cache
make_room-HasHeader now key cache a =
    let kept = HashMap.AllValues-retain HasHeader (λ _ entry. ltb now entry.expiry) cache a in
    let live = evict_expired_cache now cache in
    let is_full = leb max_cache_entries (length live) in
    if-HasHeader (leb max_cache_entries (length cache) && not (HashMap.contains_key key cache))
      (if is_full then remove_oldest live else live) cache
      (if-HasHeader is_full (remove_oldest live) live (remove_oldest-HasHeader live kept) kept) a
  where
    if-HasHeader :
        (b : Bool) (c d : Cache)
        → AllValues HasHeader c
        → AllValues HasHeader d
        → AllValues HasHeader (if b then c else d)
    if-HasHeader true c d x y = x
    if-HasHeader false c d x y = y

-- What is cached has a header: a shorter response is refused.
pub insert_cache-HasHeader :
    (lib : DnsLib) (now : Instant) (key response : Bytes) (cache : Cache)
    → AllValues HasHeader cache
    → AllValues HasHeader (insert_cache lib now key response cache)
unfolding insert_cache cacheable
insert_cache-HasHeader lib now key response cache a =
    elim (Bool-cases (ltb (length response) dns_header_size)) [
      | inl short ↦ rw (insert_cache, cacheable, short) a
      | inr long ↦ elim (Option-cases (cacheable lib response)) [
        | inl refused ↦ rw (insert_cache, refused) a
        | inr (ttl, e) ↦
            rw (insert_cache, e)
              (HashMap.AllValues-insert HasHeader key _ (make_room now key cache)
                (ground (arith, long)) (make_room-HasHeader now key cache a))
      ]
    ]

-- A reply that has two bytes is sent to all clients.
pub fanout_client_replies-some :
    (lib : DnsLib) (clients : List PendingClient) (reply : Bytes)
    → 2 ≤ length reply
    → (acts : List Action) × (fanout_client_replies lib clients reply ≡ some acts)
unfolding fanout_client_replies
fanout_client_replies-some lib [] reply h = ([], refl)
fanout_client_replies-some lib (c ∷ cs) reply h =
    let (acts, e) = fanout_client_replies-some lib cs reply h in
    let long : ltb (length reply) 2 ≡ false = ground (arith, h) in
    (
      send_reply lib c.origin (with_id c.client_xid reply) (some c.client_max_payload) ∷ acts,
      rw (fanout_client_replies, long, e) refl,
    )

index_in_range {ℓ} : {A : Type ℓ} (xs : List A) (i : ℕ) → i < length xs → get_elem? xs i ≡ none → ⊥
index_in_range [] i h g = omega (arith, h)
index_in_range (x ∷ xs) zero h g = cc
index_in_range (x ∷ xs) (suc i) h g = index_in_range xs i (omega (arith, h)) g

-- What a handler ends in: no panic, and a sound state.
abbrev pub Ends : Option (Forwarder × List Action) → Type 0
Ends none = ⊥
Ends (some r) = IsSound r.0

remove-TableIsValid :
    (xid : ℕ) (pending : PendingTable)
    → TableIsValid pending
    → TableIsValid (HashMap.remove xid pending)
remove-TableIsValid xid pending v = record {
  distinct = HashMap.remove-IsMap xid pending v.distinct;
  bounded = omega (arith, HashMap.length-remove-le xid pending, v.bounded);
  valid = HashMap.AllValues-remove QueryIsValid xid pending v.valid;
}

modify-TableIsValid :
    (xid : ℕ) (q : PendingQuery) (pending : PendingTable)
    → TableIsValid pending
    → QueryIsValid q
    → TableIsValid (HashMap.modify xid (λ _. q) pending)
modify-TableIsValid xid q pending v w = record {
  distinct = HashMap.modify-IsMap xid (λ _. q) pending v.distinct;
  bounded = omega (arith, HashMap.length-modify xid (λ _. q) pending, v.bounded);
  valid = HashMap.AllValues-modify QueryIsValid xid (λ _. q) pending (λ _ _. w) v.valid;
}

module _ (lib : DnsLib) where
  settle_query-IsSound :
      (now : Instant) (xid : ℕ) (q : PendingQuery) (reply : Bytes) (s : Forwarder)
      → dns_header_size ≤ length reply
      → IsSound s
      → Ends (settle_query lib now xid q reply s)
  unfolding settle_query
  settle_query-IsSound now xid q reply s long v =
      let (acts, e) = fanout_client_replies-some lib q.clients reply (omega (arith, long)) in
      rw (settle_query, e)
        (record {
          table = remove-TableIsValid xid s.pending v.table;
          cached = length-insert_cache lib now q.cache_key reply s.cache v.cached;
          texts = insert_cache-HasHeader lib now q.cache_key reply s.cache v.texts;
        })

  settle_or_failover-IsSound :
      (now : Instant) (xid : ℕ) (q : PendingQuery) (reply : Bytes) (code : ResponseCode)
      (s : Forwarder)
      → dns_header_size ≤ length reply
      → IsSound s
      → QueryIsValid q
      → Ends (settle_or_failover lib now xid q reply code s)
  unfolding settle_or_failover
  settle_or_failover-IsSound now xid q reply code s long v w =
      elim (Option-cases (try_failover_upstream_query now xid q)) [
        | inl last ↦ rw (last, settle_or_failover) (settle_query-IsSound now xid q reply s long v)
        | inr ((q', action), next) ↦
            rw (next, settle_or_failover)
              (elim (Bool-cases (is_failure code)) [
                | inl failure ↦ rw failure (record {
                  table =
                      modify-TableIsValid xid q' s.pending v.table
                        (try_failover-QueryIsValid now xid q q' action w next);
                  cached = v.cached;
                  texts = v.texts;
                })
                | inr fine ↦ rw fine (settle_query-IsSound now xid q reply s long v)
              ])
      ]

  accept_reply-IsSound :
      (now : Instant) (xid : ℕ) (q : PendingQuery) (server : Ipv4Addr) (reply : Bytes)
      (s : Forwarder)
      → dns_header_size ≤ length reply
      → IsSound s
      → QueryIsValid q
      → Ends (accept_reply lib now xid q server reply s)
  unfolding accept_reply
  accept_reply-IsSound now xid q server reply s long v w = elim (Bool-cases (is_truncated reply)) [
    | inl cut ↦ rw cut (record {
      table = remove-TableIsValid xid s.pending v.table;
      cached = v.cached;
      texts = v.texts;
    })
    | inr whole ↦ rw whole (elim (Option-cases (lib.from_bytes reply)) [
      | inl bad ↦ rw bad v
      | inr (packet, good) ↦
          rw good (settle_or_failover-IsSound now xid q reply packet.response_code s long v w)
    ])
  ]

  pub handle_upstream_reply-Ends :
      (now : Instant) (reply : Bytes) (from : SocketAddr) (s : Forwarder)
      → IsSound s
      → Ends (handle_upstream_reply lib now reply from s)
  unfolding handle_upstream_reply
  handle_upstream_reply-Ends now reply from s v =
      elim (Bool-cases (ltb (length reply) dns_header_size)) [
        | inl short ↦ rw short v
        | inr long ↦ rw long (elim (Option-cases (HashMap.get (message_id reply) s.pending)) [
          | inl unknown ↦ rw unknown v
          | inr (q, known) ↦
              let w =
                HashMap.AllValues-get QueryIsValid (message_id reply) q s.pending v.table.valid
                  known in
              rw known (elim (Option-cases (get_elem? q.upstream_servers q.current_server_idx)) [
                | inl out ↦
                    absurd (index_in_range q.upstream_servers q.current_server_idx w.asked out)
                | inr (server, at) ↦ rw at (elim (Bool-cases (is_resolver server from)) [
                  | inl right ↦ rw right (
                      accept_reply-IsSound now (message_id reply) q server reply s
                        (ground (arith, long)) v w)
                  | inr wrong ↦ rw wrong v
                ])
              ])
        ])
      ]
