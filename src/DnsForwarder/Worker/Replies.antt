-- ===== src/DnsForwarder/Worker/Replies.antt =====
-- src/services/dns_forwarder/worker.rs: what a reply of a resolver brings about.
use trimrouter.Prelude.{
  ℕ, ◌≡◌, ◌≢◌, refl, inl, inr, true, false, none, some, [], arith, ltb, length, nat_key,
  Option-cases, Bool-cases,
}
use trimrouter.HashMap
use trimrouter.Net.{Ipv4Addr, Instant}
use trimrouter.DnsForwarder.Wire.{
  Bytes, DnsLib, Packet, ResponseCode, is_truncated, message_id, dns_header_size,
}
use trimrouter.DnsForwarder.Pending.{
  PendingQuery, SocketAddr, IpAddr, v4, v6, dns_port, get_elem?, try_failover_upstream_query,
}
use trimrouter.DnsForwarder.Worker.{
  Forwarder, is_failure, is_v4, is_resolver, handle_upstream_reply, settle_or_failover,
  settle_query,
}

is_v4-true : (server : Ipv4Addr) (ip : IpAddr) → is_v4 server ip ≡ true → ip ≡ v4 server
is_v4-true server (v4 ip) h = ground arith
is_v4-true server (v6 ip) h = cc

is_resolver-true :
    (server : Ipv4Addr) (from : SocketAddr)
    → is_resolver server from ≡ true
    → (from.ip ≡ v4 server) × (from.port ≡ dns_port)
is_resolver-true server from h = (is_v4-true server from.ip (ground arith), ground arith)

-- A reply that changes the state or makes the forwarder send something has the id of a pending query,
-- and comes from port 53 of the resolver that this query was last sent to.
pub handle_upstream_reply-authentic :
    (lib : DnsLib) (now : Instant) (reply : Bytes) (from : SocketAddr) (s : Forwarder)
    → handle_upstream_reply lib now reply from s ≢ some (s, [])
    → handle_upstream_reply lib now reply from s ≢ none
    → (q : PendingQuery) × (HashMap.get (message_id reply) s.pending ≡ some q)
      × ((server : Ipv4Addr) × (get_elem? q.upstream_servers q.current_server_idx ≡ some server)
          × ((from.ip ≡ v4 server) × (from.port ≡ dns_port)))
unfolding handle_upstream_reply
handle_upstream_reply-authentic lib now reply from s changes runs =
    elim (Bool-cases (ltb (length reply) dns_header_size)) [
      | inl short ↦ absurd (changes (rw short refl))
      | inr long ↦ elim (Option-cases (HashMap.get (message_id reply) s.pending)) [
        | inl unknown ↦ absurd (changes (rw (long, unknown) refl))
        | inr (q, known) ↦ elim (Option-cases (get_elem? q.upstream_servers q.current_server_idx)) [
          | inl out ↦ absurd (runs (rw (long, known, out) refl))
          | inr (server, at) ↦ elim (Bool-cases (is_resolver server from)) [
            | inr wrong ↦ absurd (changes (rw (long, known, at, wrong) refl))
            | inl right ↦ (q, known, (server, at, is_resolver-true server from right))
          ]
        ]
      ]
    ]

-- The reply that ends a query, as the resolver that was asked sends it.
pub record Settles (lib : DnsLib) (reply : Bytes) (from : SocketAddr) (xid : ℕ) (server : Ipv4Addr)
    (packet : Packet) : Type 0 where
  pub long : ltb (length reply) dns_header_size ≡ false
  pub id : message_id reply ≡ xid
  pub sender : is_resolver server from ≡ true
  pub whole : is_truncated reply ≡ false
  pub parsed : lib.from_bytes reply ≡ some packet
  pub fine : is_failure packet.response_code ≡ false

fine-settles :
    (lib : DnsLib) (now : Instant) (xid : ℕ) (q : PendingQuery) (reply : Bytes)
    (code : ResponseCode) (s : Forwarder)
    → is_failure code ≡ false
    → settle_or_failover lib now xid q reply code s ≡ settle_query lib now xid q reply s
unfolding settle_or_failover
fine-settles lib now xid q reply code s fine =
    elim (Option-cases (try_failover_upstream_query now xid q)) [
      | inl last ↦ rw (last, settle_or_failover) refl
      | inr ((q', action), next) ↦ rw (next, settle_or_failover, fine) refl
    ]

module _ (lib : DnsLib) (reply : Bytes) (from : SocketAddr) (xid : ℕ) (server : Ipv4Addr)
    (packet : Packet) (r : Settles lib reply from xid server packet) (now : Instant)
    (q : PendingQuery) (s : Forwarder) where
  pub handle_upstream_reply-settles :
      HashMap.get xid s.pending ≡ some q
      → get_elem? q.upstream_servers q.current_server_idx ≡ some server
      → handle_upstream_reply lib now reply from s ≡ settle_query lib now xid q reply s
  unfolding handle_upstream_reply
  handle_upstream_reply-settles known at =
      rw
        (
          r.long,
          r.id,
          known,
          at,
          r.sender,
          r.whole,
          r.parsed,
          r.id,
          fine-settles lib now xid q reply packet.response_code s r.fine,
        )
        refl
