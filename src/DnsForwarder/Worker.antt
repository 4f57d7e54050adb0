-- ===== src/DnsForwarder/Worker.antt =====
-- src/services/dns_forwarder/worker.rs: the handlers of the forwarder and its loop, over the state of
-- `run_forwarder_loop`. A handler returns the new state and what it sends; `none` stands for a panic by
-- an index out of range, of a list of resolvers or of a text that an id is written into.
pub mod Sound
pub mod Invariant
pub mod Replies
pub mod Queries
use trimrouter.Prelude.{
  ℕ, ◌+◌, ◌-◌, ◌≡◌, Bool, true, false, ◌&&◌, ◌||◌, not, Option, none, some, List, [], ◌∷◌, ◌++◌,
  min, if◌then◌else◌, nat_eq, ltb, leb, length, nat_key,
}
use trimrouter.HashMap
use trimrouter.Net.{Ipv4Addr, Instant}
use trimrouter.DnsForwarder.RateLimiter
use trimrouter.DnsForwarder.RateLimiter.{DnsRateLimiter}
use trimrouter.DnsForwarder.Wire.{
  Bytes, DnsLib, Packet, ResponseCode, serv_fail, refused, no_error, nx_domain, other_code,
  dns_header_size, message_id, with_id, is_truncated, extract_client_max_payload,
}
use trimrouter.DnsForwarder.Cache.{
  Cache, lookup_cache, insert_cache, get_cache_key, evict_expired_cache,
}
use trimrouter.DnsForwarder.LocalHosts.{
  LocalDnsTable, register_local_host, deregister_local_host, try_resolve_local_query,
}
use trimrouter.DnsForwarder.Pending.{
  IpAddr, v4, v6, SocketAddr, ClientOrigin, udp, tcp, PendingClient, PendingQuery, PendingTable,
  Action, to_client, to_channel, to_resolver, fetch_by_tcp, dns_port, peer_addr, get_elem?,
  check_pending_timeouts, try_failover_upstream_query, send_reply, fanout_client_replies,
  try_join_in_flight_query, forward_new_client_query,
}

-- src/services/ipc.rs
pub record DnsStatsInfo : Type 0 where
  pub queries_total : ℕ
  pub cache_hits_total : ℕ
  pub cached_entries_count : ℕ
  pub rate_limited_drops_total : ℕ

-- The local variables of `run_forwarder_loop`.
pub record Forwarder : Type 0 where
  pub cache : Cache
  pub pending : PendingTable
  pub upstream_servers : List Ipv4Addr
  pub local_table : LocalDnsTable
  pub rate_limiter : DnsRateLimiter
  pub stats : DnsStatsInfo

-- What a call reads from outside: the clock, the numbers that are drawn (with the fuel for them), and
-- whether a datagram to a resolver is sent.
pub record World : Type 0 where
  pub now : Instant
  pub fuel : ℕ
  pub rng : ℕ → ℕ
  pub sent : Bool

abbrev u64_max : ℕ
u64_max = 18446744073709551615

-- `saturating_add(1)` on a u64.
abbrev pub saturating_inc : ℕ → ℕ
saturating_inc n = min (n + 1) u64_max

abbrev pub count_query : DnsStatsInfo → DnsStatsInfo
count_query s = record s { queries_total = saturating_inc s.queries_total }

abbrev pub count_hit : DnsStatsInfo → DnsStatsInfo
count_hit s = record s { cache_hits_total = saturating_inc s.cache_hits_total }

abbrev pub count_drop : DnsStatsInfo → DnsStatsInfo
count_drop s = record s { rate_limited_drops_total = saturating_inc s.rate_limited_drops_total }

abbrev pub is_v4 : Ipv4Addr → IpAddr → Bool
is_v4 server (v4 ip) = nat_eq ip server
is_v4 server (v6 ip) = false

-- `SocketAddr::new(IpAddr::V4(server), DNS_PORT) == from`
abbrev pub is_resolver : Ipv4Addr → SocketAddr → Bool
is_resolver server from = is_v4 server from.ip && nat_eq from.port dns_port

abbrev pub is_failure : ResponseCode → Bool
is_failure serv_fail = true
is_failure refused = true
is_failure _ = false

-- What the task of `spawn_upstream_tcp_fallback` sends back.
pub data UpstreamTcpEvent : Type 0 where
  resolved : Bytes → Bytes → List PendingClient → UpstreamTcpEvent
  failed : Bytes → List PendingClient → UpstreamTcpEvent

-- What `select!` takes in the loop: the cleanup timer, a message of the parent, a query, a reply of
-- a resolver, or the end of a fetch by TCP.
pub data Event : Type 0 where
  cleanup_tick : Event
  set_upstream_resolvers : List Ipv4Addr → Event
  register_host : Bytes → Ipv4Addr → Event
  deregister_host : Bytes → Event
  client_query : Bytes → ClientOrigin → Event
  upstream_reply : Bytes → SocketAddr → Event
  tcp_event : UpstreamTcpEvent → Event

-- A state and what is sent, if that does not panic.
abbrev pub with_actions : Forwarder → Option (List Action) → Option (Forwarder × List Action)
with_actions s none = none
with_actions s (some acts) = some (s, acts)

module _ (lib : DnsLib) where
  -- What `handle_incoming_query` does with a query that neither the names nor the cache answer, and
  -- that the rate limiter lets pass.
  unfoldable pub join_or_forward :
      World → Bytes → Bytes → ClientOrigin → Forwarder → Forwarder × List Action
  join_or_forward w key query origin s =
      elim (try_join_in_flight_query lib key query origin s.pending) [
        | some pending ↦ (record s { pending = pending }, [])
        | none ↦
            let r =
              forward_new_client_query lib w.now w.fuel w.rng w.sent key query origin
                s.upstream_servers s.pending in
            (record s { pending = r.0 }, r.1)
      ]

  unfoldable pub rate_limited :
      World → Ipv4Addr → Bytes → Bytes → ClientOrigin → Forwarder → Forwarder × List Action
  unfolding join_or_forward
  rate_limited w client_ip key query origin s =
      let r = RateLimiter.check w.now client_ip s.rate_limiter in
      if r.1
      then join_or_forward w key query origin (record s { rate_limiter = r.0 })
      else (record s { rate_limiter = r.0; stats = count_drop s.stats }, [])

  abbrev pub by_client :
      World → IpAddr → Bytes → Bytes → ClientOrigin → Forwarder → Forwarder × List Action
  by_client w (v4 ip) key query origin s = rate_limited w ip key query origin s
  by_client w (v6 ip) key query origin s = (s, [])

  -- What follows the local names in `handle_incoming_query`, for a cache key.
  unfoldable pub answer_from_cache :
      World → Bytes → Bytes → ClientOrigin → Forwarder → Option (Forwarder × List Action)
  unfolding rate_limited
  answer_from_cache w key query origin s =
      let found = lookup_cache w.now key s.cache in
      let s' : Forwarder = record s { cache = found.0 } in
      elim found.1 [
        | some response ↦
            if ltb (length response) 2
            then none
            else some (
              record s' { stats = count_hit s.stats },
              send_reply lib origin (with_id (message_id query) response)
                    (some (extract_client_max_payload lib query))
                  ∷ [],
            )
        | none ↦ some (by_client w (peer_addr origin).ip key query origin s')
      ]

  unfoldable pub answer_query :
      World → Bytes → ClientOrigin → Forwarder → Option (Forwarder × List Action)
  unfolding answer_from_cache
  answer_query w query origin s = elim (try_resolve_local_query lib query s.local_table) [
    | some response ↦ some (s, send_reply lib origin response none ∷ [])
    | none ↦ elim (get_cache_key lib query) [
      | none ↦ some (s, [])
      | some key ↦ answer_from_cache w key query origin s
    ]
  ]

  unfoldable pub handle_incoming_query :
      World → Bytes → ClientOrigin → Forwarder → Option (Forwarder × List Action)
  unfolding answer_query
  handle_incoming_query w query origin s =
      if ltb (length query) dns_header_size
      then some (s, [])
      else answer_query w query origin (record s { stats = count_query s.stats })

  -- A reply that ends its query.
  unfoldable pub settle_query :
      Instant → ℕ → PendingQuery → Bytes → Forwarder → Option (Forwarder × List Action)
  settle_query now xid q reply s =
      with_actions
        (record s {
          pending = HashMap.remove xid s.pending;
          cache = insert_cache lib now q.cache_key reply s.cache;
        })
        (fanout_client_replies lib q.clients reply)

  -- A ServFail or a Refused goes on to the next resolver, if there is one.
  unfoldable pub settle_or_failover :
      Instant
      → ℕ
      → PendingQuery
      → Bytes
      → ResponseCode
      → Forwarder
      → Option (Forwarder × List Action)
  unfolding settle_query
  settle_or_failover now xid q reply code s = elim (try_failover_upstream_query now xid q) [
    | none ↦ settle_query now xid q reply s
    | some (q', action) ↦
        if is_failure code
        then some (record s { pending = HashMap.modify xid (λ _. q') s.pending }, action ∷ [])
        else settle_query now xid q reply s
  ]

  -- A reply from the resolver that was asked.
  unfoldable pub accept_reply :
      Instant → ℕ → PendingQuery → Ipv4Addr → Bytes → Forwarder → Option (Forwarder × List Action)
  unfolding settle_or_failover
  accept_reply now xid q server reply s =
      if is_truncated reply
      then some (
        record s { pending = HashMap.remove xid s.pending },
        fetch_by_tcp server q xid reply ∷ [],
      )
      else elim (lib.from_bytes reply) [
        | none ↦ some (s, [])
        | some packet ↦ settle_or_failover now xid q reply packet.response_code s
      ]

  unfoldable pub handle_upstream_reply :
      Instant → Bytes → SocketAddr → Forwarder → Option (Forwarder × List Action)
  unfolding accept_reply
  handle_upstream_reply now reply from s =
      if ltb (length reply) dns_header_size
      then some (s, [])
      else elim (HashMap.get (message_id reply) s.pending) [
        | none ↦ some (s, [])
        | some q ↦ elim (get_elem? q.upstream_servers q.current_server_idx) [
          | none ↦ none
          | some server ↦
              if is_resolver server from
              then accept_reply now (message_id reply) q server reply s
              else some (s, [])
        ]
      ]

  unfoldable pub handle_upstream_tcp_event :
      Instant → UpstreamTcpEvent → Forwarder → Option (Forwarder × List Action)
  handle_upstream_tcp_event now (resolved cache_key reply clients) s =
      with_actions (record s { cache = insert_cache lib now cache_key reply s.cache })
        (fanout_client_replies lib clients reply)
  handle_upstream_tcp_event now (failed fallback_reply clients) s =
      with_actions s (fanout_client_replies lib clients fallback_reply)

  unfoldable pub handle_cleanup : Instant → Forwarder → Forwarder × List Action
  handle_cleanup now s =
      let r = check_pending_timeouts now s.pending in
      (
        record s {
          stats = record s.stats { cached_entries_count = length s.cache };
          cache = evict_expired_cache now s.cache;
          rate_limiter = RateLimiter.retain_recent now s.rate_limiter;
          pending = r.0;
        },
        r.1,
      )

  unfoldable pub forwarder_step : World → Event → Forwarder → Option (Forwarder × List Action)
  forwarder_step w cleanup_tick s = some (handle_cleanup w.now s)
  forwarder_step w (set_upstream_resolvers servers) s =
      some (record s { upstream_servers = servers }, [])
  forwarder_step w (register_host name ip) s =
      some (record s { local_table = register_local_host name ip s.local_table }, [])
  forwarder_step w (deregister_host name) s =
      some (record s { local_table = deregister_local_host name s.local_table }, [])
  forwarder_step w (client_query query origin) s = handle_incoming_query w query origin s
  forwarder_step w (upstream_reply reply from) s = handle_upstream_reply w.now reply from s
  forwarder_step w (tcp_event ev) s = handle_upstream_tcp_event w.now ev s
