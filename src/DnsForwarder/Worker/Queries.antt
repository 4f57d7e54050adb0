-- ===== src/DnsForwarder/Worker/Queries.antt =====
-- src/services/dns_forwarder/worker.rs: which queries of clients reach a resolver.
use trimrouter.Prelude.{
  ℕ, ◌≡◌, ◌⊎◌, refl, subst, inl, inr, true, Option, none, some, List, [], ◌∷◌, ltb, leb, length,
  Option-cases, Bool-cases,
}
use trimrouter.Net.{Ipv4Addr}
use trimrouter.DnsForwarder.RateLimiter
use trimrouter.DnsForwarder.RateLimiter.{DnsRateLimiter}
use trimrouter.DnsForwarder.Wire.{
  Bytes, DnsLib, dns_header_size, with_id, message_id, extract_client_max_payload,
}
use trimrouter.DnsForwarder.Cache.{lookup_cache, get_cache_key}
use trimrouter.DnsForwarder.LocalHosts.{try_resolve_local_query}
use trimrouter.DnsForwarder.Pending.{
  Action, to_client, to_channel, to_resolver, fetch_by_tcp, ClientOrigin, udp, tcp, IpAddr, v4, v6,
  peer_addr, send_reply, draw_xid, try_join_in_flight_query, forward_new_client_query,
  max_pending_queries,
}
use trimrouter.DnsForwarder.Worker.{
  Forwarder, World, handle_incoming_query, answer_query, answer_from_cache, by_client, rate_limited,
  join_or_forward, count_query,
}

-- What is sent to a resolver, by UDP or TCP.
abbrev pub to_resolvers : List Action → List Action
to_resolvers [] = []
to_resolvers (to_client addr message ∷ acts) = to_resolvers acts
to_resolvers (to_channel reply_tx message ∷ acts) = to_resolvers acts
to_resolvers (fetch_by_tcp server q xid reply ∷ acts) =
    fetch_by_tcp server q xid reply ∷ to_resolvers acts
to_resolvers (to_resolver server message ∷ acts) = to_resolver server message ∷ to_resolvers acts

-- Nothing goes to a resolver; or one datagram and nothing besides, and the rate limiter lets its client
-- pass.
abbrev pub Admitted : World → DnsRateLimiter → IpAddr → List Action → Type 0
Admitted w limiter addr acts =
    (to_resolvers acts ≡ [])
    ⊎ ((server : Ipv4Addr) × (message : Bytes) × (acts ≡ to_resolver server message ∷ [])
        × ((ip : Ipv4Addr) × (addr ≡ v4 ip) × ((RateLimiter.check w.now ip limiter).1 ≡ true)))

-- What is sent is admitted, if nothing panics.
abbrev pub AdmittedIfSent :
    World → DnsRateLimiter → IpAddr → Option (Forwarder × List Action) → Type 0
AdmittedIfSent w limiter addr none = Unit {0}
AdmittedIfSent w limiter addr (some r) = Admitted w limiter addr r.1

send_reply-Admitted :
    (lib : DnsLib) (w : World) (limiter : DnsRateLimiter) (addr : IpAddr) (origin : ClientOrigin)
    (response : Bytes) (cap : Option ℕ)
    → Admitted w limiter addr (send_reply lib origin response cap ∷ [])
unfolding send_reply
send_reply-Admitted lib w limiter addr (udp src) response (some cap) = inl refl
send_reply-Admitted lib w limiter addr (udp src) response none = inl refl
send_reply-Admitted lib w limiter addr (tcp peer reply_tx) response cap = inl refl

module _ (lib : DnsLib) (w : World) (key query : Bytes) (origin : ClientOrigin) where
  join_or_forward-Admitted :
      (limiter : DnsRateLimiter) (ip : Ipv4Addr) (s : Forwarder)
      → (RateLimiter.check w.now ip limiter).1 ≡ true
      → Admitted w limiter (v4 ip) (join_or_forward lib w key query origin s).1
  unfolding join_or_forward forward_new_client_query
  join_or_forward-Admitted limiter ip s pass =
      elim (Option-cases (try_join_in_flight_query lib key query origin s.pending)) [
        | inr (pending, joined) ↦ rw (joined, join_or_forward) (inl refl)
        | inl alone ↦ elim (Bool-cases (leb max_pending_queries (length s.pending))) [
          | inl full ↦ rw (alone, join_or_forward, full) (inl refl)
          | inr room ↦ elim (Option-cases (draw_xid w.fuel w.rng 0 s.pending)) [
            | inl failed ↦ rw (alone, join_or_forward, room, failed) (inl refl)
            | inr (xid, drawn) ↦
                rw (alone, join_or_forward, room, drawn) (inr (_, _, refl, (ip, refl, pass)))
          ]
        ]
      ]

  by_client-Admitted :
      (addr : IpAddr) (s : Forwarder)
      → Admitted w s.rate_limiter addr (by_client lib w addr key query origin s).1
  unfolding rate_limited
  by_client-Admitted (v6 ip) s = inl refl
  by_client-Admitted (v4 ip) s = elim (Bool-cases (RateLimiter.check w.now ip s.rate_limiter).1) [
    | inl pass ↦ rw pass (
        join_or_forward-Admitted s.rate_limiter ip
          (record s { rate_limiter = (RateLimiter.check w.now ip s.rate_limiter).0 }) pass)
    | inr drop ↦ rw drop (inl refl)
  ]

  answer_from_cache-Admitted :
      (s : Forwarder)
      → AdmittedIfSent w s.rate_limiter
          (peer_addr origin).ip
          (answer_from_cache lib w key query origin s)
  unfolding answer_from_cache
  answer_from_cache-Admitted s = elim (Option-cases (lookup_cache w.now key s.cache).1) [
    | inl miss ↦
        rw (miss, answer_from_cache)
          (by_client-Admitted (peer_addr origin).ip
            (record s { cache = (lookup_cache w.now key s.cache).0 }))
    | inr (response, hit) ↦ elim (Bool-cases (ltb (length response) 2)) [
      | inl short ↦ rw (hit, answer_from_cache, short) tt
      | inr long ↦
          rw (hit, answer_from_cache, long)
            (send_reply-Admitted lib w s.rate_limiter (peer_addr origin).ip origin
              (with_id (message_id query) response) (some (extract_client_max_payload lib query)))
    ]
  ]

module _ (lib : DnsLib) (w : World) (query : Bytes) (origin : ClientOrigin) where
  answer_query-Admitted :
      (s : Forwarder)
      → AdmittedIfSent w s.rate_limiter (peer_addr origin).ip (answer_query lib w query origin s)
  unfolding answer_query
  answer_query-Admitted s = elim (Option-cases (try_resolve_local_query lib query s.local_table)) [
    | inr (response, local) ↦
        rw (local, answer_query)
          (send_reply-Admitted lib w s.rate_limiter (peer_addr origin).ip origin response none)
    | inl remote ↦ elim (Option-cases (get_cache_key lib query)) [
      | inl bad ↦ rw (remote, answer_query, bad) (inl refl)
      | inr (key, good) ↦
          rw (remote, answer_query, good) (answer_from_cache-Admitted lib w key query origin s)
    ]
  ]

  answered-Admitted :
      (s : Forwarder)
      → AdmittedIfSent w s.rate_limiter
          (peer_addr origin).ip
          (handle_incoming_query lib w query origin s)
  unfolding handle_incoming_query
  answered-Admitted s = elim (Bool-cases (ltb (length query) dns_header_size)) [
    | inl short ↦ rw short (inl refl)
    | inr long ↦ rw long (answer_query-Admitted (record s { stats = count_query s.stats }))
  ]

  -- A query that is handled brings about no message to a resolver, neither by UDP nor by TCP; or else one
  -- datagram to a resolver and nothing besides, and then it comes from an IPv4 client that the rate
  -- limiter lets pass.
  pub handle_incoming_query-Admitted :
      (s : Forwarder) (r : Forwarder × List Action)
      → handle_incoming_query lib w query origin s ≡ some r
      → Admitted w s.rate_limiter (peer_addr origin).ip r.1
  handle_incoming_query-Admitted s r h =
      subst (AdmittedIfSent w s.rate_limiter (peer_addr origin).ip) h (answered-Admitted s)
