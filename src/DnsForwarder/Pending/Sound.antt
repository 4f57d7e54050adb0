-- ===== src/DnsForwarder/Pending/Sound.antt =====
-- src/services/dns_forwarder/worker.rs: what holds of every pending query, and of their table.
use trimrouter.Prelude.{
  ℕ, ◌≤◌, ◌<◌, ◌≡◌, refl, inl, inr, Bool, true, false, Option, none, some, List, [], ◌∷◌, ◌++◌,
  arith, if◌then◌else◌, leb, length, length-append, bytes_eq, nat_key, subst, keep, Bool-cases,
}
use trimrouter.HashMap
use trimrouter.HashMap.{IsMap, AllValues}
use trimrouter.Net.{Ipv4Addr, Instant, is_valid_upstream_resolver}
use trimrouter.DnsForwarder.Wire.{Bytes, DnsLib, with_id}
use trimrouter.DnsForwarder.Pending.{
  PendingTable, PendingQuery, PendingClient, ClientOrigin, Action, max_pending_queries,
  max_joined_clients_per_query, new_client, after_failover, stays, retry_list, retry_all,
  check_pending_timeouts, try_failover_upstream_query, get_upstream_resolvers,
  try_join_in_flight_query, forward_new_client_query, draw_xid, new_query, or_fallback, to_resolver,
  server_at,
}

-- A pending query asks a resolver of its list, and 1 to 64 clients wait for it.
pub record QueryIsValid (q : PendingQuery) : Type 0 where
  pub asked : q.current_server_idx < length q.upstream_servers
  pub waited : 0 < length q.clients
  pub joined : length q.clients ≤ max_joined_clients_per_query

pub record TableIsValid (pending : PendingTable) : Type 0 where
  pub distinct : IsMap pending
  pub bounded : length pending ≤ max_pending_queries
  pub valid : AllValues QueryIsValid pending

pub after_failover-QueryIsValid :
    (now : Instant) (xid : ℕ) (q : PendingQuery)
    → QueryIsValid q
    → QueryIsValid (after_failover now xid q)
unfolding try_failover_upstream_query
after_failover-QueryIsValid now xid q v = ground arith

pub try_failover-QueryIsValid :
    (now : Instant) (xid : ℕ) (q q' : PendingQuery) (action : Action)
    → QueryIsValid q
    → try_failover_upstream_query now xid q ≡ some (q', action)
    → QueryIsValid q'
unfolding try_failover_upstream_query
try_failover-QueryIsValid now xid q q' action v h = ground arith

retry_all-TableIsValid :
    (now : Instant) (xids : List ℕ) (pending : PendingTable)
    → TableIsValid pending
    → TableIsValid (retry_all now xids pending).0
unfolding retry_all
retry_all-TableIsValid now [] pending v = v
retry_all-TableIsValid now (xid ∷ xids) pending v =
    retry_all-TableIsValid now xids (HashMap.modify xid (after_failover now xid) pending) (record {
      distinct = HashMap.modify-IsMap xid (after_failover now xid) pending v.distinct;
      bounded =
          omega (arith, HashMap.length-modify xid (after_failover now xid) pending, v.bounded);
      valid =
          HashMap.AllValues-modify QueryIsValid xid (after_failover now xid) pending
            (after_failover-QueryIsValid now xid) v.valid;
    })

pub check_pending_timeouts-TableIsValid :
    (now : Instant) (pending : PendingTable)
    → TableIsValid pending
    → TableIsValid (check_pending_timeouts now pending).0
unfolding check_pending_timeouts
check_pending_timeouts-TableIsValid now pending v =
    retry_all-TableIsValid now (retry_list now pending) _ (record {
      distinct = HashMap.retain-IsMap (λ _ q. stays now q) pending v.distinct;
      bounded = omega (arith, HashMap.length-retain-le (λ _ q. stays now q) pending, v.bounded);
      valid = HashMap.AllValues-retain QueryIsValid (λ _ q. stays now q) pending v.valid;
    })

-- What a table keeps when a client joins one of its queries.
abbrev Joined : PendingTable → PendingTable → Type 0
Joined pending after =
    ((xid : ℕ) → HashMap.get xid pending ≡ none → HashMap.get xid after ≡ none)
    × (IsMap pending → IsMap after)
    × (length after ≡ length pending)
    × (AllValues QueryIsValid pending → AllValues QueryIsValid after)

abbrev IfJoined : PendingTable → Option PendingTable → Type 0
IfJoined pending none = Unit {0}
IfJoined pending (some after) = Joined pending after

head-Joined :
    (xid : ℕ) (q : PendingQuery) (c : PendingClient) (m : PendingTable)
    → leb max_joined_clients_per_query (length q.clients) ≡ false
    → Joined ((xid, q) ∷ m) ((xid, record q { clients = q.clients ++ c ∷ [] }) ∷ m)
unfolding HashMap.get
head-Joined xid q c m room = (
  λ j h. ground (arith, h),
  λ u. u,
  refl,
  λ a. (
    record {
      asked = a.0.asked;
      waited = ground (arith, length-append q.clients (c ∷ []));
      joined = ground (arith, length-append q.clients (c ∷ []), room);
    },
    a.1,
  ),
)

tail-Joined :
    (xid : ℕ) (q : PendingQuery) (m m' : PendingTable)
    → Joined m m'
    → Joined ((xid, q) ∷ m) ((xid, q) ∷ m')
unfolding HashMap.get
tail-Joined xid q m m' j = (
  λ i h. ground (arith, j.0 i, h),
  λ u. (j.0 xid u.0, j.1 u.1),
  ground (arith, j.2),
  λ a. (a.0, j.3 a.1),
)

rest-IfJoined :
    (xid : ℕ) (q : PendingQuery) (m : PendingTable) (o : Option PendingTable)
    → IfJoined m o
    → IfJoined ((xid, q) ∷ m) (elim o [ none ↦ none | some m' ↦ some ((xid, q) ∷ m') ])
rest-IfJoined xid q m none j = tt
rest-IfJoined xid q m (some m') j = tail-Joined xid q m m' j

or_fallback_some : (servers : List Ipv4Addr) → 0 < length (or_fallback servers)
or_fallback_some [] = omega arith
or_fallback_some (x ∷ xs) = omega arith

pub resolvers_some : (configured : List Ipv4Addr) → 0 < length (get_upstream_resolvers configured)
unfolding get_upstream_resolvers
resolvers_some configured = or_fallback_some (keep is_valid_upstream_resolver configured)

module _ (lib : DnsLib) (key query : Bytes) (origin : ClientOrigin) where
  try_join-IfJoined :
      (pending : PendingTable)
      → IfJoined pending (try_join_in_flight_query lib key query origin pending)
  unfolding try_join_in_flight_query
  try_join-IfJoined [] = tt
  try_join-IfJoined ((xid, q) ∷ m) = elim (Bool-cases (bytes_eq q.cache_key key)) [
    | inl same ↦ rw same (elim (Bool-cases (leb max_joined_clients_per_query (length q.clients))) [
      | inl full ↦ rw full tt
      | inr room ↦ rw room (head-Joined xid q (new_client lib query origin) m room)
    ])
    | inr other ↦ rw other (
        rest-IfJoined xid q m (try_join_in_flight_query lib key query origin m)
          (try_join-IfJoined m))
  ]

  -- A client that joins a query leaves the table valid, and of the same size.
  pub try_join_in_flight_query-TableIsValid :
      (pending after : PendingTable)
      → TableIsValid pending
      → try_join_in_flight_query lib key query origin pending ≡ some after
      → TableIsValid after × (length after ≡ length pending)
  try_join_in_flight_query-TableIsValid pending after v h =
      let j : IfJoined pending (some after) =
        subst (IfJoined pending) h (try_join-IfJoined pending) in
      (
        record {
          distinct = j.1 v.distinct;
          bounded = omega (arith, j.2, v.bounded);
          valid = j.3 v.valid;
        },
        j.2,
      )

  new_query-QueryIsValid :
      (now : Instant) (configured : List Ipv4Addr)
      → QueryIsValid (new_query lib now key query origin configured)
  new_query-QueryIsValid now configured = record {
    asked = resolvers_some configured;
    waited = omega arith;
    joined = omega arith;
  }

  insert-TableIsValid :
      (xid : ℕ) (q : PendingQuery) (pending : PendingTable)
      → TableIsValid pending
      → QueryIsValid q
      → length pending < max_pending_queries
      → TableIsValid (HashMap.insert xid q pending)
  unfolding HashMap.insert
  insert-TableIsValid xid q pending v w room = record {
    distinct = HashMap.insert-IsMap xid q pending v.distinct;
    bounded = omega (arith, HashMap.length-remove-le xid pending, room);
    valid = HashMap.AllValues-insert QueryIsValid xid q pending w v.valid;
  }

  forwarded-TableIsValid :
      (q : PendingQuery) (sent : Bool) (action : ℕ → List Action) (o : Option ℕ)
      (pending : PendingTable)
      → TableIsValid pending
      → QueryIsValid q
      → length pending < max_pending_queries
      → TableIsValid
          (elim o as (λ _. PendingTable × List Action) [
            | none ↦ (pending, [])
            | some xid ↦ (if sent then HashMap.insert xid q pending else pending, action xid)
          ]).0
  forwarded-TableIsValid q sent action none pending v w room = v
  forwarded-TableIsValid q true action (some xid) pending v w room =
      insert-TableIsValid xid q pending v w room
  forwarded-TableIsValid q false action (some xid) pending v w room = v

  -- `forward_new_client_query` leaves the table valid.
  pub forward_new_client_query-TableIsValid :
      (now : Instant) (fuel : ℕ) (rng : ℕ → ℕ) (sent : Bool) (configured : List Ipv4Addr)
      (pending : PendingTable)
      → TableIsValid pending
      → TableIsValid
          (forward_new_client_query lib now fuel rng sent key query origin configured pending).0
  unfolding forward_new_client_query
  forward_new_client_query-TableIsValid now fuel rng sent configured pending v =
      elim (Bool-cases (leb max_pending_queries (length pending))) [
        | inl full ↦ rw full v
        | inr room ↦ rw room (
            forwarded-TableIsValid (new_query lib now key query origin configured) sent
              (λ xid.
                to_resolver (server_at (get_upstream_resolvers configured) 0) (with_id xid query)
                ∷ [])
              (draw_xid fuel rng 0 pending) pending v (new_query-QueryIsValid now configured)
              (ground (arith, room)))
      ]
