-- ===== src/DnsForwarder/Pending/Timeouts.antt =====
-- src/services/dns_forwarder/worker.rs: what `check_pending_timeouts` does with each pending query.
use trimrouter.Prelude.{
  ℕ, ◌≡◌, refl, inl, inr, Bool, false, ◌&&◌, ◌||◌, not, Option, none, some, List, [], ◌∷◌, arith,
  if◌then◌else◌, nat_eq, ltb, elem, nat_key, Bool-cases,
}
use trimrouter.HashMap
use trimrouter.HashMap.{IsMap}
use trimrouter.Net.{Instant}
use trimrouter.DnsForwarder.Pending.{
  PendingTable, PendingQuery, can_failover, failed_over, after_failover, stays, retry_list,
  retry_all, check_pending_timeouts, try_failover_upstream_query,
}

-- Ids in a list, each once.
abbrev Distinct : List ℕ → Type 0
Distinct [] = Unit {0}
Distinct (x ∷ xs) = (elem x xs ≡ false) × Distinct xs

abbrev map_query : (PendingQuery → PendingQuery) → Option PendingQuery → Option PendingQuery
map_query f none = none
map_query f (some q) = some (f q)

branch :
    (x xid : ℕ) (o : Option PendingQuery) (later : Bool) (f : ℕ → PendingQuery → PendingQuery)
    → (x ≡ xid → later ≡ false)
    → (if later
        then map_query (f xid) (if nat_eq x xid then map_query (f x) o else o)
        else (if nat_eq x xid then map_query (f x) o else o))
      ≡ (if nat_eq xid x || later then map_query (f xid) o else o)
branch x xid o later f once = elim (Bool-cases (nat_eq x xid)) [
  | inl same ↦ let e : x ≡ xid = ground arith in rw (once e, e) (ground arith)
  | inr ne ↦ ground arith
]

get-retry_all :
    (now : Instant) (xids : List ℕ) (pending : PendingTable) (xid : ℕ)
    → Distinct xids
    → HashMap.get xid (retry_all now xids pending).0 ≡ (
        if elem xid xids
        then map_query (after_failover now xid) (HashMap.get xid pending)
        else HashMap.get xid pending)
unfolding retry_all elem
get-retry_all now [] pending xid d = refl
get-retry_all now (x ∷ xs) pending xid d =
    rw
      (
        get-retry_all now xs (HashMap.modify x (after_failover now x) pending) xid d.1,
        HashMap.get-modify x xid (after_failover now x) pending,
      )
      (branch x xid (HashMap.get xid pending) (elem xid xs) (after_failover now)
        (λ e. rw (← e) d.0))

elem-retry_list :
    (now : Instant) (pending : PendingTable) (xid : ℕ)
    → IsMap pending
    → elem xid (retry_list now pending) ≡ elim (HashMap.get xid pending) [
      | none ↦ false
      | some q ↦ not (ltb now q.deadline) && can_failover q
    ]
unfolding retry_list HashMap.get elem
elem-retry_list now [] xid u = refl
elem-retry_list now ((x, q) ∷ m) xid u = ground (arith, elem-retry_list now m xid u.1)

retry_list-Distinct :
    (now : Instant) (pending : PendingTable) → IsMap pending → Distinct (retry_list now pending)
unfolding retry_list
retry_list-Distinct now [] u = tt
retry_list-Distinct now ((x, q) ∷ m) u =
    ground (arith, retry_list-Distinct now m u.1, elem-retry_list now m x u.1)

-- The query after a check of its deadline.
abbrev pub after_timeout : Instant → Option PendingQuery → Option PendingQuery
after_timeout now none = none
after_timeout now (some q) =
    if ltb now q.deadline then some q else if can_failover q then some (failed_over now q) else none

abbrev kept_if : Instant → Option PendingQuery → Option PendingQuery
kept_if now none = none
kept_if now (some q) = if stays now q then some q else none

settle :
    (now : Instant) (xid : ℕ) (o : Option PendingQuery)
    → (if elim o [ none ↦ false | some q ↦ not (ltb now q.deadline) && can_failover q ]
        then map_query (after_failover now xid) (kept_if now o)
        else kept_if now o)
      ≡ after_timeout now o
unfolding stays try_failover_upstream_query
settle now xid none = refl
settle now xid (some q) = ground arith

-- After a check of the timeouts, what has become of each pending query: one whose time is not up is as
-- it was; another is at its next resolver, with a new deadline, or gone if none is left. The ids
-- of the table are distinct.
pub check_pending_timeouts_lem :
    (now : Instant) (pending : PendingTable) (xid : ℕ)
    → IsMap pending
    → HashMap.get xid (check_pending_timeouts now pending).0
      ≡ after_timeout now (HashMap.get xid pending)
unfolding check_pending_timeouts
check_pending_timeouts_lem now pending xid u =
    rw
      (
        get-retry_all now (retry_list now pending) (HashMap.retain (λ _ q. stays now q) pending) xid
            (retry_list-Distinct now pending u),
        elem-retry_list now pending xid u,
        HashMap.get-retain (λ _ q. stays now q) xid pending u,
      )
      (settle now xid (HashMap.get xid pending))
