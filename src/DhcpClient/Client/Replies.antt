-- ===== src/DhcpClient/Client/Replies.antt =====
-- src/services/dhcp_client/worker.rs: the replies that the worker takes a lease from, and the requests that
-- bring them about.
use trimrouter.Prelude.{
  ℕ, ◌≡◌, ◌⊎◌, refl, sym, ap, subst, ◌∙◌, inl, inr, Bool, true, false, Option, none, some, List,
  arith, if◌then◌else◌, ltb, leb, Bool-cases, Option-cases,
}
use trimrouter.Net.{Instant, MacAddr}
use trimrouter.DhcpClient.{
  Message, ack, DhcpAck, DhcpOffer, ParseAckResult, acked, naked, ignored, ack_of, parse_ack_nak,
  octets, starts_with,
}
use trimrouter.DhcpClient.Client.{
  Msgs, Phase, discovering, requesting, holding, renewing, failing, pausing, stopped, Arrival,
  timer, raw_packet, closed, io_error, Env, elapsed_secs, t1_secs, should_send, to_me, reply_in,
  recv_dhcp_packet, handle_phase_failure, discover_round, discover_phase, request_round,
  renew_round, bound_round, bound_phase, wait_for_offer, handle_ack_result, renew_lease, step,
}
use trimrouter.DhcpClient.Client.Lease.{idle, leased, view}

-- The transaction that a phase waits for an ACK of.
abbrev pub awaited : Phase → Option ℕ
awaited (requesting xid offer delay deadline) = some xid
awaited (renewing lease bound_at xid sent deadline) = some xid
awaited _ = none

-- A lease of the result is the one given.
abbrev Only : DhcpAck → Msgs × Phase → Type 0
Only lease r = (new : DhcpAck) → view r.1 ≡ leased new → new ≡ lease

if-Only :
    (lease : DhcpAck) (b : Bool) (r q : Msgs × Phase)
    → Only lease r
    → Only lease q
    → Only lease (if b then r else q)
if-Only lease true r q t u = t
if-Only lease false r q t u = u

renew_round-Only :
    (env : Env) (lease : DhcpAck) (bound_at : Instant) (xid : ℕ) (sent : Option Instant)
    → Only lease (renew_round env lease bound_at xid sent)
unfolding renew_round handle_phase_failure
renew_round-Only env lease bound_at xid sent =
    if-Only lease (leb lease.lease_secs (elapsed_secs env.now bound_at)) _ _ (λ new e. cc)
      (if-Only lease (should_send env.now sent _) _ _ (λ new e. cc) (λ new e. cc))

bound_round-Only :
    (env : Env) (lease : DhcpAck) (bound_at : Instant) → Only lease (bound_round env lease bound_at)
unfolding bound_round handle_phase_failure
bound_round-Only env lease bound_at =
    if-Only lease (leb lease.lease_secs (elapsed_secs env.now bound_at)) _ _ (λ new e. cc)
      (if-Only lease (ltb (elapsed_secs env.now bound_at) (t1_secs lease)) _ _ (λ new e. cc)
        (renew_round-Only env lease bound_at env.random_xid none))

bound_phase-Only : (env : Env) (lease : DhcpAck) → Only lease (bound_phase env lease)
unfolding bound_phase handle_phase_failure
bound_phase-Only env lease =
    if-Only lease env.apply_sent _ _ (bound_round-Only env lease env.now) (λ new e. cc)

module _ (parse_dhcp_payload : List ℕ → ℕ → Option Message) (mac : MacAddr) where
  -- A frame that grants a lease to the client, in the transaction given.
  pub record Grants (frame : List ℕ) (xid : ℕ) (lease : DhcpAck) : Type 0 where
    pub dhcp : Message
    pub decoded : parse_dhcp_payload frame 68 ≡ some dhcp
    pub for_me : starts_with dhcp.chaddr (octets mac) ≡ true
    pub same_xid : dhcp.xid ≡ xid
    pub is_ack : dhcp.message_type ≡ some ack
    pub terms : lease ≡ ack_of dhcp

  filtered :
      (b : Bool) (m d : Message) → (if b then some m else none) ≡ some d → (b ≡ true) × (m ≡ d)
  filtered true m d h = (refl, ground (arith, h))
  filtered false m d h = cc

  to_me-some :
      (o : Option Message) (d : Message)
      → to_me parse_dhcp_payload mac o ≡ some d
      → (o ≡ some d) × (starts_with d.chaddr (octets mac) ≡ true)
  to_me-some none d h = cc
  to_me-some (some m) d h =
      let (mine, same) = filtered (starts_with m.chaddr (octets mac)) m d h in
      (ap some same, subst (λ x. starts_with x.chaddr (octets mac) ≡ true) same mine)

  parse_ack_nak-acked :
      (d : Message) (xid : ℕ) (lease : DhcpAck)
      → parse_ack_nak d xid ≡ acked lease
      → (d.xid ≡ xid) × (d.message_type ≡ some ack) × (lease ≡ ack_of d)
  unfolding parse_ack_nak
  parse_ack_nak-acked d xid lease h = ground arith

  reply_in-acked :
      (frame : List ℕ) (xid : ℕ) (lease : DhcpAck)
      → reply_in parse_dhcp_payload mac (recv_dhcp_packet parse_dhcp_payload mac frame) xid
        ≡ acked lease
      → Grants frame xid lease
  unfolding recv_dhcp_packet
  reply_in-acked frame xid lease h =
      elim (Option-cases (to_me parse_dhcp_payload mac (parse_dhcp_payload frame 68))) [
        | inl n ↦ absurd (no_reply (rw n at h))
        | inr (d, e) ↦
            let (decoded, mine) = to_me-some (parse_dhcp_payload frame 68) d e in
            let (same, is, terms) = parse_ack_nak-acked d xid lease (rw e at h) in
            record {
              dhcp = d;
              decoded = decoded;
              for_me = mine;
              same_xid = same;
              is_ack = is;
              terms = terms;
            }
      ]
    where
      no_reply : ignored ≡ acked lease → ⊥
      no_reply n = cc

  -- How a lease can come about: the client has it already, or is granted it by a frame in the
  -- transaction that it awaits.
  abbrev pub Earned : Phase → Arrival → DhcpAck → Type 0
  Earned p a lease =
      (view p ≡ leased lease)
      ⊎ ((frame : List ℕ) × (xid : ℕ) × (a ≡ raw_packet frame)
          × (awaited p ≡ some xid)
          × Grants frame xid lease)

  kept :
      (p : Phase) (a : Arrival) (old : DhcpAck) (r : Msgs × Phase)
      → view p ≡ leased old
      → Only old r
      → (lease : DhcpAck) → view r.1 ≡ leased lease
      → Earned p a lease
  kept p a old r e only lease h = inl (e ∙ ap leased (sym (only lease h)))

  granted :
      (p : Phase) (frame : List ℕ) (xid : ℕ) (env : Env) (new : DhcpAck)
      → awaited p ≡ some xid
      → reply_in parse_dhcp_payload mac (recv_dhcp_packet parse_dhcp_payload mac frame) xid
        ≡ acked new
      → (lease : DhcpAck) → view (bound_phase env new).1 ≡ leased lease
      → Earned p (raw_packet frame) lease
  granted p frame xid env new w h lease e = inr (
    frame,
    xid,
    refl,
    w,
    reply_in-acked frame xid lease (h ∙ ap acked (sym (bound_phase-Only env new lease e))),
  )

  idle_view : (lease : DhcpAck) → idle ≡ leased lease → ⊥
  idle_view lease n = cc

  answered-Earned :
      (env : Env) (xid : ℕ) (offer : DhcpOffer) (delay : ℕ) (deadline : Instant) (f : List ℕ)
      (r : ParseAckResult)
      → reply_in parse_dhcp_payload mac (recv_dhcp_packet parse_dhcp_payload mac f) xid ≡ r
      → (lease : DhcpAck)
      → view (handle_ack_result parse_dhcp_payload mac env xid offer delay deadline r).1
        ≡ leased lease
      → Earned (requesting xid offer delay deadline) (raw_packet f) lease
  unfolding handle_ack_result request_round handle_phase_failure
  answered-Earned env xid offer delay deadline f (acked new) h lease e =
      granted (requesting xid offer delay deadline) f xid env new refl h lease e
  answered-Earned env xid offer delay deadline f naked h lease e = cc
  answered-Earned env xid offer delay deadline f ignored h lease e =
      elim (Bool-cases (ltb env.now deadline)) [
        | inl early ↦ absurd (idle_view lease (rw early at e))
        | inr late ↦ absurd (idle_view lease (rw late at e))
      ]

  renewed-Earned :
      (env : Env) (old : DhcpAck) (bound_at : Instant) (xid : ℕ) (sent : Option Instant)
      (deadline : Instant) (f : List ℕ) (r : ParseAckResult)
      → reply_in parse_dhcp_payload mac (recv_dhcp_packet parse_dhcp_payload mac f) xid ≡ r
      → (lease : DhcpAck)
      → view (renew_lease parse_dhcp_payload mac env old bound_at xid sent deadline r).1
        ≡ leased lease
      → Earned (renewing old bound_at xid sent deadline) (raw_packet f) lease
  unfolding renew_lease handle_phase_failure
  renewed-Earned env old bound_at xid sent deadline f (acked new) h lease e =
      granted (renewing old bound_at xid sent deadline) f xid env new refl h lease e
  renewed-Earned env old bound_at xid sent deadline f naked h lease e = cc
  renewed-Earned env old bound_at xid sent deadline f ignored h lease e =
      kept (renewing old bound_at xid sent deadline) (raw_packet f) old
        (renew_lease parse_dhcp_payload mac env old bound_at xid sent deadline ignored) refl
        (if-Only old (ltb env.now deadline) _ _ (λ new i. cc)
          (renew_round-Only env old bound_at xid sent))
        lease e

  no_offer_view :
      (env : Env) (xid delay : ℕ) (deadline : Instant) (o : Option DhcpOffer) (lease : DhcpAck)
      → view (wait_for_offer parse_dhcp_payload mac env xid delay deadline o).1 ≡ leased lease
      → ⊥
  unfolding wait_for_offer request_round discover_round
  no_offer_view env xid delay deadline (some offer) lease e = cc
  no_offer_view env xid delay deadline none lease e = elim (Bool-cases (ltb env.now deadline)) [
    | inl early ↦ idle_view lease (rw early at e)
    | inr late ↦ idle_view lease (rw late at e)
  ]

  -- A client never has a lease but the one that it had, or one that a frame granted: a frame that
  -- decodes as a DHCP message to port 68 for the client's own hardware address, an ACK, in the
  -- transaction of the request that the client awaits the answer of; and the lease is what it says.
  pub step-Earned :
      (p : Phase) (env : Env) (a : Arrival) (lease : DhcpAck)
      → view (step parse_dhcp_payload mac p env a).1 ≡ leased lease
      → Earned p a lease
  unfolding step discover_phase discover_round request_round handle_phase_failure
  step-Earned (discovering xid delay deadline) env timer lease e = cc
  step-Earned (discovering xid delay deadline) env (raw_packet f) lease e =
      absurd (no_offer_view env xid delay deadline _ lease e)
  step-Earned (discovering xid delay deadline) env closed lease e = cc
  step-Earned (discovering xid delay deadline) env io_error lease e = cc
  step-Earned (requesting xid offer delay deadline) env timer lease e = cc
  step-Earned (requesting xid offer delay deadline) env (raw_packet f) lease e =
      answered-Earned env xid offer delay deadline f _ refl lease e
  step-Earned (requesting xid offer delay deadline) env closed lease e = cc
  step-Earned (requesting xid offer delay deadline) env io_error lease e = cc
  step-Earned (holding old bound_at wake) env timer lease e =
      kept (holding old bound_at wake) timer old (bound_round env old bound_at) refl
        (bound_round-Only env old bound_at) lease e
  step-Earned (holding old bound_at wake) env (raw_packet f) lease e =
      kept (holding old bound_at wake) (raw_packet f) old (bound_round env old bound_at) refl
        (bound_round-Only env old bound_at) lease e
  step-Earned (holding old bound_at wake) env closed lease e = cc
  step-Earned (holding old bound_at wake) env io_error lease e = cc
  step-Earned (renewing old bound_at xid sent deadline) env timer lease e =
      kept (renewing old bound_at xid sent deadline) timer old
        (renew_round env old bound_at xid sent) refl (renew_round-Only env old bound_at xid sent)
        lease e
  step-Earned (renewing old bound_at xid sent deadline) env (raw_packet f) lease e =
      renewed-Earned env old bound_at xid sent deadline f _ refl lease e
  step-Earned (renewing old bound_at xid sent deadline) env closed lease e = cc
  step-Earned (renewing old bound_at xid sent deadline) env io_error lease e = cc
  step-Earned (failing deadline) env timer lease e = cc
  step-Earned (failing deadline) env (raw_packet f) lease e = cc
  step-Earned (failing deadline) env closed lease e = cc
  step-Earned (failing deadline) env io_error lease e = cc
  step-Earned (pausing deadline) env timer lease e = cc
  step-Earned (pausing deadline) env (raw_packet f) lease e = cc
  step-Earned (pausing deadline) env closed lease e = cc
  step-Earned (pausing deadline) env io_error lease e = cc
  step-Earned stopped env a lease e = cc
