-- ===== src/DnsForwarder/Pending.antt =====
-- src/services/dns_forwarder/worker.rs: the clients that wait for a resolver, and the table of pending
-- queries by transaction id. What the code sends is a list of actions.
pub mod Xid
pub mod Sound
pub mod Timeouts
use trimrouter.Prelude.{
  ℕ, zero, suc, ◌+◌, ◌-◌, ◌≡◌, Bool, true, false, ◌&&◌, ◌||◌, not, Option, none, some, List, [],
  ◌∷◌, ◌++◌, map, if◌then◌else◌, nat_eq, ltb, leb, length, keep, elem, bytes_eq, nat_key,
}
use trimrouter.HashMap
use trimrouter.HashMap.{contains_key}
use trimrouter.Net.{Ipv4Addr, Instant, Duration, from_secs, is_valid_upstream_resolver}
use trimrouter.DnsForwarder.Wire.{
  Bytes, DnsLib, message_id, with_id, extract_client_max_payload, prepare_client_response,
}

pub data IpAddr : Type 0 where
  v4 : Ipv4Addr → IpAddr
  v6 : ℕ → IpAddr

pub record SocketAddr : Type 0 where
  pub ip : IpAddr
  pub port : ℕ

-- A TCP client waits on a one-shot channel, named by a number.
pub data ClientOrigin : Type 0 where
  udp : SocketAddr → ClientOrigin
  tcp : SocketAddr → ℕ → ClientOrigin

pub record PendingClient : Type 0 where
  pub origin : ClientOrigin
  pub client_xid : ℕ
  pub client_max_payload : ℕ

pub record PendingQuery : Type 0 where
  pub clients : List PendingClient
  pub cache_key : Bytes
  pub query_payload : Bytes
  pub upstream_servers : List Ipv4Addr
  pub current_server_idx : ℕ
  pub deadline : Instant

abbrev pub PendingTable : Type 0
PendingTable = List (ℕ × PendingQuery)

-- What goes out: a datagram to a client, a reply to a TCP client, a datagram to a resolver, and the
-- task of `spawn_upstream_tcp_fallback`, with the server, the query and its id, and the reply to
-- fall back on.
pub data Action : Type 0 where
  to_client : SocketAddr → Bytes → Action
  to_channel : ℕ → Bytes → Action
  to_resolver : Ipv4Addr → Bytes → Action
  fetch_by_tcp : Ipv4Addr → PendingQuery → ℕ → Bytes → Action

abbrev pub dns_port : ℕ
dns_port = 53

abbrev pub upstream_timeout : Duration
upstream_timeout = from_secs 3

abbrev pub fallback_dns_server : Ipv4Addr
fallback_dns_server = 134744072

abbrev pub max_pending_queries : ℕ
max_pending_queries = 4096

abbrev pub max_joined_clients_per_query : ℕ
max_joined_clients_per_query = 64

abbrev pub peer_addr : ClientOrigin → SocketAddr
peer_addr (udp addr) = addr
peer_addr (tcp addr reply_tx) = addr

abbrev pub get_elem? {ℓ} : {A : Type ℓ} → List A → ℕ → Option A
get_elem? [] i = none
get_elem? (x ∷ xs) zero = some x
get_elem? (x ∷ xs) (suc i) = get_elem? xs i

-- `servers[i]`, where `i` is in range: 0 of `get_upstream_resolvers`, which is never empty, and the index
-- that `try_failover_upstream_query` has compared with the length before.
abbrev pub server_at : List Ipv4Addr → ℕ → Ipv4Addr
server_at [] i = 0
server_at (x ∷ xs) zero = x
server_at (x ∷ xs) (suc i) = server_at xs i

abbrev pub or_fallback : List Ipv4Addr → List Ipv4Addr
or_fallback [] = fallback_dns_server ∷ []
or_fallback (x ∷ xs) = x ∷ xs

unfoldable pub get_upstream_resolvers : List Ipv4Addr → List Ipv4Addr
get_upstream_resolvers configured = or_fallback (keep is_valid_upstream_resolver configured)

-- The loop of `allocate_unique_xid`, over the numbers that `rand::random::<u16>()` draws; `none`
-- means that the fuel ran out.
unfoldable pub draw_xid : ℕ → (ℕ → ℕ) → ℕ → PendingTable → Option ℕ
draw_xid zero rng i pending = none
draw_xid (suc fuel) rng i pending =
    let again = draw_xid fuel rng (suc i) pending in
    if nat_eq (rng i) 0 || contains_key (rng i) pending then again else some (rng i)

unfoldable pub allocate_unique_xid : ℕ → (ℕ → ℕ) → PendingTable → Option ℕ
unfolding draw_xid
allocate_unique_xid fuel rng pending =
    if leb max_pending_queries (length pending) then none else draw_xid fuel rng 0 pending

-- Whether another resolver is left.
abbrev pub can_failover : PendingQuery → Bool
can_failover q = ltb (q.current_server_idx + 1) (length q.upstream_servers)

-- The query at its next resolver.
abbrev pub failed_over : Instant → PendingQuery → PendingQuery
failed_over now q = record q {
  current_server_idx = q.current_server_idx + 1;
  deadline = now + upstream_timeout;
}

abbrev pub failover_action : ℕ → PendingQuery → Action
failover_action xid q =
    to_resolver (server_at q.upstream_servers (q.current_server_idx + 1))
      (with_id xid q.query_payload)

-- The new query and the datagram, or `none` for the result `false`.
unfoldable pub try_failover_upstream_query :
    Instant → ℕ → PendingQuery → Option (PendingQuery × Action)
try_failover_upstream_query now xid q =
    if leb (length q.upstream_servers) (q.current_server_idx + 1)
    then none
    else some (failed_over now q, failover_action xid q)

-- The closure of `retain` in `check_pending_timeouts`: what stays, and what is tried again.
unfoldable pub stays : Instant → PendingQuery → Bool
stays now q = ltb now q.deadline || can_failover q

unfoldable pub retry_list : Instant → PendingTable → List ℕ
retry_list now [] = []
retry_list now ((xid, q) ∷ m) =
    let rest = retry_list now m in
    if not (ltb now q.deadline) && can_failover q then xid ∷ rest else rest

abbrev pub after_failover : Instant → ℕ → PendingQuery → PendingQuery
after_failover now xid q = elim (try_failover_upstream_query now xid q) [
  | none ↦ q
  | some (q', action) ↦ q'
]

abbrev actions_of : Option (PendingQuery × Action) → List Action
actions_of none = []
actions_of (some (q, action)) = action ∷ []

abbrev failover_actions : Instant → ℕ → Option PendingQuery → List Action
failover_actions now xid none = []
failover_actions now xid (some q) = actions_of (try_failover_upstream_query now xid q)

-- The loop of `check_pending_timeouts` over its `retry_list`.
unfoldable pub retry_all : Instant → List ℕ → PendingTable → PendingTable × List Action
unfolding try_failover_upstream_query
retry_all now [] pending = (pending, [])
retry_all now (xid ∷ xids) pending =
    let rest = retry_all now xids (HashMap.modify xid (after_failover now xid) pending) in
    (rest.0, failover_actions now xid (HashMap.get xid pending) ++ rest.1)

unfoldable pub check_pending_timeouts : Instant → PendingTable → PendingTable × List Action
unfolding stays retry_list retry_all
check_pending_timeouts now pending =
    retry_all now (retry_list now pending) (HashMap.retain (λ _ q. stays now q) pending)

module _ (lib : DnsLib) where
  -- `ClientOrigin::send_reply`
  unfoldable pub send_reply : ClientOrigin → Bytes → Option ℕ → Action
  send_reply (udp src) response (some cap) =
      to_client src (prepare_client_response lib response cap)
  send_reply (udp src) response none = to_client src response
  send_reply (tcp peer reply_tx) response max_payload = to_channel reply_tx response

  abbrev pub and_action : Action → Option (List Action) → Option (List Action)
  and_action act none = none
  and_action act (some acts) = some (act ∷ acts)

  -- `none` stands for a panic: an id is written into a reply that is too short for it.
  unfoldable pub fanout_client_replies : List PendingClient → Bytes → Option (List Action)
  unfolding send_reply
  fanout_client_replies [] reply = some []
  fanout_client_replies (c ∷ cs) reply =
      let rest = fanout_client_replies cs reply in
      if ltb (length reply) 2
      then none
      else and_action (send_reply c.origin (with_id c.client_xid reply) (some c.client_max_payload))
          rest

  abbrev pub new_client : Bytes → ClientOrigin → PendingClient
  new_client query origin = record {
    origin = origin;
    client_xid = message_id query;
    client_max_payload = extract_client_max_payload lib query;
  }

  -- `try_join_in_flight_query`: the first query for the key takes the client, unless it is full.
  unfoldable pub try_join_in_flight_query :
      Bytes → Bytes → ClientOrigin → PendingTable → Option PendingTable
  try_join_in_flight_query key query origin [] = none
  try_join_in_flight_query key query origin ((xid, q) ∷ m) =
      let rest = try_join_in_flight_query key query origin m in
      if bytes_eq q.cache_key key
      then (if leb max_joined_clients_per_query (length q.clients)
          then none
          else some ((xid, record q { clients = q.clients ++ new_client query origin ∷ [] }) ∷ m))
      else elim rest [ none ↦ none | some m' ↦ some ((xid, q) ∷ m') ]

  abbrev pub new_query : Instant → Bytes → Bytes → ClientOrigin → List Ipv4Addr → PendingQuery
  new_query now key query origin configured = record {
    clients = new_client query origin ∷ [];
    cache_key = key;
    query_payload = query;
    upstream_servers = get_upstream_resolvers configured;
    current_server_idx = 0;
    deadline = now + upstream_timeout;
  }

  -- `forward_new_client_query`, by the numbers that are drawn and by whether the datagram is sent. With
  -- fuel for too few draws the query is dropped, where the code goes on drawing: enough fuel is that
  -- of `allocate_unique_xid-total`. The query has 12 bytes or more, as `handle_incoming_query` checks.
  unfoldable pub forward_new_client_query :
      Instant
      → ℕ
      → (ℕ → ℕ)
      → Bool
      → Bytes
      → Bytes
      → ClientOrigin
      → List Ipv4Addr
      → PendingTable
      → PendingTable × List Action
  unfolding allocate_unique_xid get_upstream_resolvers
  forward_new_client_query now fuel rng sent key query origin configured pending =
      if leb max_pending_queries (length pending)
      then (pending, [])
      else elim (allocate_unique_xid fuel rng pending) [
        | none ↦ (pending, [])
        | some xid ↦ (
          if sent
              then HashMap.insert xid (new_query now key query origin configured) pending
              else pending,
          to_resolver (server_at (get_upstream_resolvers configured) 0) (with_id xid query) ∷ [],
        )
      ]
