-- ===== src/Tests/Forwarder.antt =====
-- src/services/dns_forwarder/worker.rs at concrete inputs: the pending queries and the loop.
use trimrouter.Prelude.{
  ℕ, ◌+◌, ◌≡◌, refl, ap, keep, true, Option, none, some, List, [], ◌∷◌, arith, length, bytes_eq,
  elem, nat_key,
}
use trimrouter.HashMap
use trimrouter.Net.{Ipv4Addr, is_valid_upstream_resolver}
use trimrouter.DnsForwarder.Wire.{Bytes, message_id, with_id, is_truncated}
use trimrouter.DnsForwarder.Cache.{lookup_cache, get_cache_key}
use trimrouter.DnsForwarder.LocalHosts.{local_reply, try_resolve_local_query, lower_forward_name}
use trimrouter.DnsForwarder.RateLimiter
use trimrouter.DnsForwarder.Pending.{
  PendingQuery, Action, SocketAddr, v4, ClientOrigin, udp, allocate_unique_xid, dns_port, get_elem?,
  check_pending_timeouts, peer_addr, try_join_in_flight_query, try_failover_upstream_query,
  fanout_client_replies, forward_new_client_query, to_resolver,
}
use trimrouter.DnsForwarder.Pending.Xid.{allocate_unique_xid-total}
use trimrouter.DnsForwarder.Pending.Timeouts.{check_pending_timeouts_lem, after_timeout}
use trimrouter.DnsForwarder.Worker.{
  Forwarder, World, client_query, forwarder_step, handle_incoming_query, handle_upstream_reply,
}
use trimrouter.DnsForwarder.Worker.Sound.{IsSound}
use trimrouter.DnsForwarder.Worker.Invariant.{forwarder_step-IsSound}
use trimrouter.DnsForwarder.Worker.Replies.{handle_upstream_reply-authentic}
use trimrouter.DnsForwarder.Worker.Queries.{handle_incoming_query-Admitted, Admitted}
use trimrouter.Tests.Dns.{lib, asked, answered}

-- The resolver 9.9.9.9, and a client.
abbrev quad9 : Ipv4Addr
quad9 = 151587081

abbrev client : ClientOrigin
client = udp (record { ip = v4 3232235530; port = 40000 })

abbrev key : Bytes
key = 1 ∷ []

-- The numbers that are drawn are 0x4321 and its successors.
abbrev world : World
world = record { now = 7; fuel = 3; rng = λ i. 0x4321 + i; sent = true }

abbrev start : Forwarder
start = record {
  cache = [];
  pending = [];
  upstream_servers = quad9 ∷ [];
  local_table = record { hosts = []; ips = [] };
  rate_limiter = record { clients = []; rate_per_sec = 100; max_burst = 150000000000 };
  stats = record {
    queries_total = 0;
    cache_hits_total = 0;
    cached_entries_count = 0;
    rate_limited_drops_total = 0;
  };
}

abbrev waiting : PendingQuery
waiting = record {
  clients = record { origin = client; client_xid = 0x1234; client_max_payload = 1232 } ∷ [];
  cache_key = key;
  query_payload = asked;
  upstream_servers = quad9 ∷ 134744072 ∷ [];
  current_server_idx = 0;
  deadline = 5;
}

abbrev one_pending : Forwarder
one_pending = record start { pending = (0x4321, waiting) ∷ [] }

allocate_unique_xid-total_example :
    (xid : ℕ) × (allocate_unique_xid 4097 (λ i. i) one_pending.pending ≡ some xid)
allocate_unique_xid-total_example =
    allocate_unique_xid-total 4097 (λ i. i) one_pending.pending (omega arith)
      (λ x pos le. (x, omega (arith, le), refl))

check_pending_timeouts_lem_example :
    HashMap.get 0x4321 (check_pending_timeouts 6 one_pending.pending).0
    ≡ after_timeout 6 (HashMap.get 0x4321 one_pending.pending)
unfolding HashMap.get
check_pending_timeouts_lem_example =
    check_pending_timeouts_lem 6 one_pending.pending 0x4321 (refl, tt)

start-IsSound : IsSound start
start-IsSound = record {
  table = record { distinct = tt; bounded = omega arith; valid = tt };
  cached = omega arith;
  texts = tt;
}

forwarder_step-IsSound_example :
    (r : Forwarder × List Action) × (forwarder_step lib world (client_query asked client) start
      ≡ some r)
    × IsSound r.0
forwarder_step-IsSound_example =
    forwarder_step-IsSound lib world (client_query asked client) start tt start-IsSound

abbrev resolver : SocketAddr
resolver = record { ip = v4 quad9; port = 53 }

abbrev messages : Option (Forwarder × List Action) → ℕ
messages none = 0
messages (some r) = length r.1

one_message : messages (handle_upstream_reply lib 7 answered resolver one_pending) ≡ 1
unfolding handle_upstream_reply HashMap.get message_id is_truncated try_failover_upstream_query
    fanout_client_replies
one_message = refl

handle_upstream_reply-authentic_example :
    (q : PendingQuery) × (HashMap.get (message_id answered) one_pending.pending ≡ some q)
    × ((server : Ipv4Addr) × (get_elem? q.upstream_servers q.current_server_idx ≡ some server)
        × ((resolver.ip ≡ v4 server) × (resolver.port ≡ dns_port)))
handle_upstream_reply-authentic_example =
    handle_upstream_reply-authentic lib 7 answered resolver one_pending
      (λ e. omega (arith, one_message, ap messages e))
      (λ e. omega (arith, one_message, ap messages e))

abbrev state_of : Option (Forwarder × List Action) → Forwarder
state_of none = start
state_of (some r) = r.0

handle_incoming_query-Admitted_example :
    Admitted world start.rate_limiter
      (peer_addr client).ip
      (to_resolver quad9 (with_id 0x4321 asked) ∷ [])
unfolding handle_incoming_query HashMap.get try_resolve_local_query local_reply lower_forward_name
    bytes_eq elem get_cache_key lookup_cache RateLimiter.check try_join_in_flight_query
    forward_new_client_query keep is_valid_upstream_resolver
handle_incoming_query-Admitted_example =
    handle_incoming_query-Admitted lib world asked client start
      (
        state_of (handle_incoming_query lib world asked client start),
        to_resolver quad9 (with_id 0x4321 asked) ∷ [],
      )
      refl
