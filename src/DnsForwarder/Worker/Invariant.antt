-- ===== src/DnsForwarder/Worker/Invariant.antt =====
-- src/services/dns_forwarder/worker.rs: what every event keeps of the state of the forwarder.
use trimrouter.Prelude.{
  ◌≤◌, ◌≡◌, refl, false, inl, inr, Option, none, some, List, arith, ltb, length, nat_key, bytes_key,
  Option-cases, Bool-cases,
}
use trimrouter.HashMap
use trimrouter.HashMap.{IsMap, AllValues}
use trimrouter.Net.{Instant}
use trimrouter.DnsForwarder.RateLimiter
use trimrouter.DnsForwarder.Wire.{Bytes, DnsLib, dns_header_size}
use trimrouter.DnsForwarder.Cache.{
  Cache, lookup_cache, get_cache_key, evict_expired_cache, max_cache_entries,
}
use trimrouter.DnsForwarder.Cache.Bounds.{length-insert_cache}
use trimrouter.DnsForwarder.Pending.{
  Action, ClientOrigin, IpAddr, v4, v6, peer_addr, try_join_in_flight_query,
}
use trimrouter.DnsForwarder.Pending.Sound.{
  check_pending_timeouts-TableIsValid, try_join_in_flight_query-TableIsValid,
  forward_new_client_query-TableIsValid,
}
use trimrouter.DnsForwarder.LocalHosts.{try_resolve_local_query}
use trimrouter.DnsForwarder.Worker.Sound.{
  IsSound, Ends, HasHeader, insert_cache-HasHeader, fanout_client_replies-some,
  handle_upstream_reply-Ends,
}
use trimrouter.DnsForwarder.Worker.{
  Forwarder, World, Event, UpstreamTcpEvent, resolved, failed, cleanup_tick, set_upstream_resolvers,
  register_host, deregister_host, client_query, upstream_reply, tcp_event, forwarder_step,
  handle_cleanup, handle_incoming_query, answer_query, count_query, answer_from_cache, rate_limited,
  join_or_forward, by_client, handle_upstream_tcp_event,
}

lookup_cache-length-le :
    (now : Instant) (key : Bytes) (cache : Cache)
    → length (lookup_cache now key cache).0 ≤ length cache
unfolding lookup_cache
lookup_cache-length-le now key cache = elim (Option-cases (HashMap.get key cache)) [
  | inl missing ↦ rw missing (omega arith)
  | inr (entry, found) ↦ rw found (ground (arith, HashMap.length-remove-le key cache))
]

lookup_cache-AllHasHeader :
    (now : Instant) (key : Bytes) (cache : Cache)
    → AllValues HasHeader cache
    → AllValues HasHeader (lookup_cache now key cache).0
unfolding lookup_cache
lookup_cache-AllHasHeader now key cache a = elim (Option-cases (HashMap.get key cache)) [
  | inl missing ↦ rw missing a
  | inr (entry, found) ↦ rw found (elim (Bool-cases (ltb now entry.expiry)) [
    | inl fresh ↦ rw fresh a
    | inr old ↦ rw old (HashMap.AllValues-remove HasHeader key cache a)
  ])
]

lookup_cache-HasHeader :
    (now : Instant) (key response : Bytes) (cache : Cache)
    → AllValues HasHeader cache
    → (lookup_cache now key cache).1 ≡ some response
    → dns_header_size ≤ length response
unfolding lookup_cache
lookup_cache-HasHeader now key response cache a h = elim (Option-cases (HashMap.get key cache)) [
  | inl missing ↦ absurd (ground (arith, missing, h))
  | inr (entry, found) ↦
      ground (arith, found, h, HashMap.AllValues-get HasHeader key entry cache a found)
]

-- The text that a fetch by TCP ends with has a header: `read_tcp_dns_query` refuses a shorter one, and
-- the reply to fall back on is one that `handle_upstream_reply` has let pass.
abbrev pub IsReceived : Event → Type 0
IsReceived (tcp_event (resolved key reply clients)) = dns_header_size ≤ length reply
IsReceived (tcp_event (failed reply clients)) = dns_header_size ≤ length reply
IsReceived _ = Unit {0}

module _ (lib : DnsLib) where
  join_or_forward-IsSound :
      (w : World) (key query : Bytes) (origin : ClientOrigin) (s : Forwarder)
      → IsSound s
      → IsSound (join_or_forward lib w key query origin s).0
  unfolding join_or_forward
  join_or_forward-IsSound w key query origin s v =
      elim (Option-cases (try_join_in_flight_query lib key query origin s.pending)) [
        | inl alone ↦
            rw (alone, join_or_forward)
              (record {
                table =
                    forward_new_client_query-TableIsValid lib key query origin w.now w.fuel w.rng
                      w.sent s.upstream_servers s.pending v.table;
                cached = v.cached;
                texts = v.texts;
              })
        | inr (pending, joined) ↦
            rw (joined, join_or_forward)
              (record {
                table =
                    (try_join_in_flight_query-TableIsValid lib key query origin s.pending pending
                      v.table joined).0;
                cached = v.cached;
                texts = v.texts;
              })
      ]

  by_client-IsSound :
      (w : World) (addr : IpAddr) (key query : Bytes) (origin : ClientOrigin) (s : Forwarder)
      → IsSound s
      → IsSound (by_client lib w addr key query origin s).0
  unfolding rate_limited
  by_client-IsSound w (v6 ip) key query origin s v = v
  by_client-IsSound w (v4 ip) key query origin s v =
      elim (Bool-cases (RateLimiter.check w.now ip s.rate_limiter).1) [
        | inl pass ↦ rw pass (
            join_or_forward-IsSound w key query origin
              (record s { rate_limiter = (RateLimiter.check w.now ip s.rate_limiter).0 })
              (record { table = v.table; cached = v.cached; texts = v.texts }))
        | inr drop ↦ rw drop (record { table = v.table; cached = v.cached; texts = v.texts })
      ]

  answer_from_cache-IsSound :
      (w : World) (key query : Bytes) (origin : ClientOrigin) (s : Forwarder)
      → IsSound s
      → Ends (answer_from_cache lib w key query origin s)
  unfolding answer_from_cache
  answer_from_cache-IsSound w key query origin s v =
      let shorter : length (lookup_cache w.now key s.cache).0 ≤ max_cache_entries =
        omega (arith, lookup_cache-length-le w.now key s.cache, v.cached) in
      let kept = lookup_cache-AllHasHeader w.now key s.cache v.texts in
      elim (Option-cases (lookup_cache w.now key s.cache).1) [
        | inl miss ↦
            rw (miss, answer_from_cache)
              (by_client-IsSound w (peer_addr origin).ip key query origin
                (record s { cache = (lookup_cache w.now key s.cache).0 })
                (record { table = v.table; cached = shorter; texts = kept }))
        | inr (response, hit) ↦
            let long : ltb (length response) 2 ≡ false =
              ground (arith, lookup_cache-HasHeader w.now key response s.cache v.texts hit) in
            rw (hit, answer_from_cache, long)
              (record { table = v.table; cached = shorter; texts = kept })
      ]

  answer_query-IsSound :
      (w : World) (query : Bytes) (origin : ClientOrigin) (s : Forwarder)
      → IsSound s
      → Ends (answer_query lib w query origin s)
  unfolding answer_query
  answer_query-IsSound w query origin s v =
      elim (Option-cases (try_resolve_local_query lib query s.local_table)) [
        | inr (response, local) ↦ rw (local, answer_query) v
        | inl remote ↦
            rw (remote, answer_query)
              (elim (Option-cases (get_cache_key lib query)) [
                | inl bad ↦ rw bad v
                | inr (key, good) ↦ rw good (answer_from_cache-IsSound w key query origin s v)
              ])
      ]

  handle_incoming_query-IsSound :
      (w : World) (query : Bytes) (origin : ClientOrigin) (s : Forwarder)
      → IsSound s
      → Ends (handle_incoming_query lib w query origin s)
  unfolding handle_incoming_query
  handle_incoming_query-IsSound w query origin s v =
      elim (Bool-cases (ltb (length query) dns_header_size)) [
        | inl short ↦ rw short v
        | inr long ↦ rw long (
            answer_query-IsSound w query origin (record s { stats = count_query s.stats })
              (record { table = v.table; cached = v.cached; texts = v.texts }))
      ]

  handle_upstream_tcp_event-IsSound :
      (now : Instant) (ev : UpstreamTcpEvent) (s : Forwarder)
      → IsReceived (tcp_event ev)
      → IsSound s
      → Ends (handle_upstream_tcp_event lib now ev s)
  unfolding handle_upstream_tcp_event
  handle_upstream_tcp_event-IsSound now (resolved key reply clients) s long v =
      let (acts, e) = fanout_client_replies-some lib clients reply (omega (arith, long)) in
      rw (handle_upstream_tcp_event, e)
        (record {
          table = v.table;
          cached = length-insert_cache lib now key reply s.cache v.cached;
          texts = insert_cache-HasHeader lib now key reply s.cache v.texts;
        })
  handle_upstream_tcp_event-IsSound now (failed reply clients) s long v =
      let (acts, e) = fanout_client_replies-some lib clients reply (omega (arith, long)) in
      rw (handle_upstream_tcp_event, e) v

  handle_cleanup-IsSound :
      (now : Instant) (s : Forwarder) → IsSound s → IsSound (handle_cleanup lib now s).0
  unfolding handle_cleanup evict_expired_cache
  handle_cleanup-IsSound now s v = record {
    table = check_pending_timeouts-TableIsValid now s.pending v.table;
    cached =
        omega (arith, HashMap.length-retain-le (λ _ entry. ltb now entry.expiry) s.cache, v.cached);
    texts = HashMap.AllValues-retain HasHeader (λ _ entry. ltb now entry.expiry) s.cache v.texts;
  }

  step-Ends :
      (w : World) (ev : Event) (s : Forwarder)
      → IsReceived ev
      → IsSound s
      → Ends (forwarder_step lib w ev s)
  unfolding forwarder_step
  step-Ends w cleanup_tick s r v = handle_cleanup-IsSound w.now s v
  step-Ends w (set_upstream_resolvers servers) s r v = record {
    table = v.table;
    cached = v.cached;
    texts = v.texts;
  }
  step-Ends w (register_host name ip) s r v = record {
    table = v.table;
    cached = v.cached;
    texts = v.texts;
  }
  step-Ends w (deregister_host name) s r v = record {
    table = v.table;
    cached = v.cached;
    texts = v.texts;
  }
  step-Ends w (client_query query origin) s r v = handle_incoming_query-IsSound w query origin s v
  step-Ends w (upstream_reply reply from) s r v =
      handle_upstream_reply-Ends lib w.now reply from s v
  step-Ends w (tcp_event ev) s r v = handle_upstream_tcp_event-IsSound w.now ev s r v

  Ends-some :
      (o : Option (Forwarder × List Action))
      → Ends o
      → (r : Forwarder × List Action) × (o ≡ some r) × IsSound r.0
  Ends-some none e = absurd e
  Ends-some (some r) e = (r, refl, e)

  -- From a state whose pending queries and cache are in order, where each cached response has a header,
  -- every event of the loop is handled and leaves such a state, when a fetch by TCP ends with a text
  -- that has a header: `upstream_servers[current_server_idx]` of a query that is answered is in range, and
  -- no id is written into a cached response, or into a reply for the clients, that is too short for it.
  pub forwarder_step-IsSound :
      (w : World) (ev : Event) (s : Forwarder)
      → IsReceived ev
      → IsSound s
      → (r : Forwarder × List Action) × (forwarder_step lib w ev s ≡ some r) × IsSound r.0
  forwarder_step-IsSound w ev s h v = Ends-some (forwarder_step lib w ev s) (step-Ends w ev s h v)
