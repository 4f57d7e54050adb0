-- ===== src/DnsForwarder/Pending/Xid.antt =====
-- src/services/dns_forwarder/worker.rs: `allocate_unique_xid` ends, and the id is new.
use trimrouter.Prelude.{
  ℕ, zero, suc, ◌+◌, ◌≤◌, ◌<◌, ◌≡◌, ◌≢◌, ap, subst, ◌∙◌, inl, inr, ◌||◌, none, some, arith, nat_eq,
  length, nat_key, Option-cases, Bool-cases,
}
use trimrouter.HashMap
use trimrouter.HashMap.{contains_key}
use trimrouter.DnsForwarder.Pending.{
  PendingTable, draw_xid, allocate_unique_xid, max_pending_queries,
}

-- Among the ids from 1 to a number above the size of the table one is free.
free_xid :
    (n : ℕ) (pending : PendingTable)
    → length pending < n
    → (xid : ℕ) × (0 < xid) × (xid ≤ n) × (HashMap.get xid pending ≡ none)
free_xid zero pending h = elim h [ ]
free_xid (suc n) pending h = elim (Option-cases (HashMap.get (suc n) pending)) [
  | inl free ↦ (suc n, omega arith, omega arith, free)
  | inr (q, taken) ↦
      let fewer = HashMap.length-remove-lt (suc n) pending (λ e. ground arith) in
      let (xid, pos, le, free) =
        free_xid n (HashMap.remove (suc n) pending) (omega (arith, fewer)) in
      (xid, pos, omega arith, ground (arith, HashMap.get-remove (suc n) xid pending))
]

-- A draw that hits a free id ends the loop, within the fuel that reaches it.
draw_xid-total :
    (fuel : ℕ) (rng : ℕ → ℕ) (i k : ℕ) (pending : PendingTable)
    → k < fuel
    → 0 < rng (i + k)
    → HashMap.get (rng (i + k)) pending ≡ none
    → (xid : ℕ) × (draw_xid fuel rng i pending ≡ some xid)
unfolding draw_xid
draw_xid-total zero rng i k pending h pos free = elim h [ ]
draw_xid-total (suc fuel) rng i zero pending h pos free =
    let e : rng (i + 0) ≡ rng i = ap rng (omega arith) in (rng i, ground (arith, e))
draw_xid-total (suc fuel) rng i (suc k) pending h pos free =
    elim (Bool-cases (nat_eq (rng i) 0 || contains_key (rng i) pending)) [
      | inr good ↦ (rng i, rw good)
      | inl bad ↦
          let e : i + suc k ≡ suc i + k = omega arith in
          rw bad (
            draw_xid-total fuel rng (suc i) k pending (omega arith) (subst (λ n. 0 < rng n) e pos)
              (subst (λ n. HashMap.get (rng n) pending ≡ none) e free))
    ]

draw_xid-new :
    (fuel : ℕ) (rng : ℕ → ℕ) (i : ℕ) (pending : PendingTable) (xid : ℕ)
    → draw_xid fuel rng i pending ≡ some xid
    → (xid ≢ 0) × (HashMap.get xid pending ≡ none) × ((k : ℕ) × (rng k ≡ xid))
unfolding draw_xid
draw_xid-new zero rng i pending xid h = absurd (ground arith)
draw_xid-new (suc fuel) rng i pending xid h =
    elim (Bool-cases (nat_eq (rng i) 0 || contains_key (rng i) pending)) [
      | inr good ↦ (ground arith, ground arith, (i, ground arith))
      | inl bad ↦ draw_xid-new fuel rng (suc i) pending xid (ground arith)
    ]

-- An id that is allocated is drawn, not 0, and not that of a pending query.
pub allocate_unique_xid-new :
    (fuel : ℕ) (rng : ℕ → ℕ) (pending : PendingTable) (xid : ℕ)
    → allocate_unique_xid fuel rng pending ≡ some xid
    → (xid ≢ 0)
      × (HashMap.get xid pending ≡ none)
      × ((k : ℕ) × (rng k ≡ xid))
      × (length pending < max_pending_queries)
unfolding allocate_unique_xid
allocate_unique_xid-new fuel rng pending xid h =
    let (pos, free, drawn) = draw_xid-new fuel rng 0 pending xid (ground arith) in
    (pos, free, drawn, ground arith)

-- With fewer than 4096 pending queries the loop finds an id, within any fuel in which the draws hit
-- every id from 1 to 4096.
pub allocate_unique_xid-total :
    (fuel : ℕ) (rng : ℕ → ℕ) (pending : PendingTable)
    → length pending < max_pending_queries
    → ((x : ℕ) → 0 < x → x ≤ max_pending_queries → (k : ℕ) × (k < fuel) × (rng k ≡ x))
    → (xid : ℕ) × (allocate_unique_xid fuel rng pending ≡ some xid)
unfolding allocate_unique_xid
allocate_unique_xid-total fuel rng pending room covers =
    let (x, pos, le, free) = free_xid max_pending_queries pending room in
    let (k, lt, hit) = covers x pos le in
    let at : rng (0 + k) ≡ x = ap rng (omega arith) ∙ hit in
    let (xid, e) = draw_xid-total fuel rng 0 k pending lt (rw at pos) (rw at free) in
    (xid, ground arith)
