-- ===== src/Stats/Sums.antt =====
-- The totals of the shares against those of the pools and the workers (internal/stats/stats.go).
use simple_mining_proxy.Base.{
  ℕ, ◌+◌, ◌≤◌, ◌≡◌, refl, Bool, true, false, ◌&&◌, not, Option, none, some, [], ◌∷◌, Text, Map, txt,
  length, length-insert-le, length-insert_old, lookup-insert_self, is_some-insert, ◌⊎◌, arith, leb,
  if◌then◌else◌, is_some, ◌||◌, ltb, same, lookup, lookup-insert, sum_values, figure,
  sum_values-insert,
}
use simple_mining_proxy.Stats.{
  Collector, PoolShares, Counters, max_workers, max_reasons, counter, add_reason, shown_reason,
  pool_shares, counters, count_share, share_worker, share, new_collector,
}

-- The table of reasons holds fifty and, once it was full, "other".
abbrev pub FewReasons : Map ℕ → Type 0
FewReasons m =
    (length m ≤ max_reasons)
    ⊎ ((length m ≤ max_reasons + 1) × (is_some (lookup (txt "other") m) ≡ true))

-- Every share counts once in the total and once with its pool, every rejected one with a reason, and
-- those of a worker never twice; the tables of workers and reasons are bounded.
pub record IsBalanced (c : Collector) : Type 0 where
  pub accepted_by_pool : sum_values (λ s. s.accepted) c.by_pool ≡ c.accepted
  pub rejected_by_pool : sum_values (λ s. s.rejected) c.by_pool ≡ c.rejected
  pub diff_by_pool : sum_values (λ d. d) c.pool_diff ≡ c.diff
  pub reasons_named : sum_values (λ n. n) c.reasons ≡ c.rejected
  pub accepted_by_worker : sum_values (λ w. w.accepted) c.workers ≤ c.accepted
  pub rejected_by_worker : sum_values (λ w. w.rejected) c.workers ≤ c.rejected
  pub diff_by_worker : sum_values (λ w. w.diff) c.workers ≤ c.diff
  pub workers_bounded : length c.workers ≤ max_workers
  pub reasons_bounded : FewReasons c.reasons

add_reason-FewReasons :
    (reason : Text) (m : Map ℕ) → FewReasons m → FewReasons (add_reason reason m)
unfolding add_reason
add_reason-FewReasons reason m h =
    let named = shown_reason reason in
    let other = txt "other" in
    let c = λ (k : Text). counter (lookup k m) + 1 in
    ground (
      arith,
      length-insert-le named (c named) m,
      length-insert-le other (c other) m,
      length-insert_old named (c named) m,
      length-insert_old other (c other) m,
      is_some-insert named other (c named) m,
      lookup-insert_self other (c other) m,
    )

counter-figure : (o : Option ℕ) → counter o ≡ figure (λ n. n) o
counter-figure none = refl
counter-figure (some n) = refl

sum-add_reason :
    (reason : Text) (m : Map ℕ)
    → sum_values (λ n. n) (add_reason reason m) ≡ sum_values (λ n. n) m + 1
unfolding add_reason
sum-add_reason reason m =
    let named = shown_reason reason in
    let key =
      if not (is_some (lookup named m)) && leb max_reasons (length m) then txt "other" else named in
    omega (
      arith,
      sum_values-insert (λ n. n) key (counter (lookup key m) + 1) m,
      counter-figure (lookup key m),
    )

share_worker-sums :
    (name : Text) (accepted : Bool) (diff : ℕ) (m : Map Counters)
    → let next = share_worker name accepted diff m in
      (sum_values (λ w. w.accepted) next
        ≤ sum_values (λ w. w.accepted) m + (if accepted then 1 else 0))
      × ((sum_values (λ w. w.rejected) next
            ≤ sum_values (λ w. w.rejected) m + (if accepted then 0 else 1))
          × (sum_values (λ w. w.diff) next
              ≤ sum_values (λ w. w.diff) m + (if accepted then diff else 0)))
unfolding share_worker
share_worker-sums [] accepted diff m = ground arith
share_worker-sums (c ∷ t) accepted diff m =
    let v = count_share accepted diff (counters (lookup (c ∷ t) m)) in
    ground (
      arith,
      sum_values-insert (λ w. w.accepted) (c ∷ t) v m,
      sum_values-insert (λ w. w.rejected) (c ∷ t) v m,
      sum_values-insert (λ w. w.diff) (c ∷ t) v m,
    )

length-share_worker :
    (name : Text) (accepted : Bool) (diff : ℕ) (m : Map Counters)
    → length m ≤ max_workers
    → length (share_worker name accepted diff m) ≤ max_workers
unfolding share_worker
length-share_worker [] accepted diff m h = h
length-share_worker (c ∷ t) accepted diff m h =
    let v = count_share accepted diff (counters (lookup (c ∷ t) m)) in
    ground (arith, length-insert-le (c ∷ t) v m, length-insert_old (c ∷ t) v m)

pool_figure :
    (f : PoolShares → ℕ) (o : Option PoolShares)
    → f (pool_shares none) ≡ 0
    → f (pool_shares o) ≡ figure f o
pool_figure f none h = h
pool_figure f (some s) h = refl

-- The shares and the difficulty of a pool, 0 for one that has none.
abbrev pub pool_counts : Text → Collector → PoolShares
pool_counts pool c = pool_shares (lookup pool c.by_pool)

abbrev pub worker_counts : Text → Collector → Counters
worker_counts worker c = counters (lookup worker c.workers)

-- A login that has its counters, or for which there is room.
abbrev pub is_tracked : Text → Collector → Bool
is_tracked [] c = false
is_tracked (x ∷ t) c = is_some (lookup (x ∷ t) c.workers) || ltb (length c.workers) max_workers

-- 1 for an accepted share, 0 for another one.
abbrev pub once : Bool → ℕ
once true = 1
once false = 0

-- A share counts exactly once: in the total, with its pool and with its worker, and nowhere else.
pub record IsCounted (pool worker : Text) (accepted : Bool) (diff : ℕ) (c next : Collector)
    : Type 0 where
  pub total_accepted : next.accepted ≡ c.accepted + once accepted
  pub total_rejected : next.rejected ≡ c.rejected + once (not accepted)
  pub total_diff : next.diff ≡ c.diff + (if accepted then diff else 0)
  pub pool_accepted :
      (pool_counts pool next).accepted ≡ (pool_counts pool c).accepted + once accepted
  pub pool_rejected :
      (pool_counts pool next).rejected ≡ (pool_counts pool c).rejected + once (not accepted)
  pub pool_diff :
      counter (lookup pool next.pool_diff)
      ≡ counter (lookup pool c.pool_diff) + (if accepted then diff else 0)
  pub worker_accepted :
      (worker_counts worker next).accepted
      ≡ (worker_counts worker c).accepted + once (accepted && is_tracked worker c)
  pub worker_rejected :
      (worker_counts worker next).rejected
      ≡ (worker_counts worker c).rejected + once (not accepted && is_tracked worker c)
  pub other_pools :
      (id : Text)
      → same pool id ≡ false
      → (lookup id next.by_pool ≡ lookup id c.by_pool)
        × (lookup id next.pool_diff ≡ lookup id c.pool_diff)
  pub other_workers :
      (name : Text) → same worker name ≡ false → lookup name next.workers ≡ lookup name c.workers

share_worker-counts :
    (worker : Text) (accepted : Bool) (diff : ℕ) (c : Collector)
    → let m = share_worker worker accepted diff c.workers in
      ((counters (lookup worker m)).accepted
        ≡ (worker_counts worker c).accepted + once (accepted && is_tracked worker c))
      × (((counters (lookup worker m)).rejected
            ≡ (worker_counts worker c).rejected + once (not accepted && is_tracked worker c))
          × ((name : Text) → same worker name ≡ false → lookup name m ≡ lookup name c.workers))
unfolding share_worker
share_worker-counts [] true diff c = (omega arith, (omega arith, λ name e. refl))
share_worker-counts [] false diff c = (omega arith, (omega arith, λ name e. refl))
share_worker-counts (x ∷ t) accepted diff c =
    let v = count_share accepted diff (counters (lookup (x ∷ t) c.workers)) in
    (
      ground (arith, lookup-insert_self (x ∷ t) v c.workers),
      (
        ground (arith, lookup-insert_self (x ∷ t) v c.workers),
        λ name e. ground (arith, lookup-insert (x ∷ t) name v c.workers, e),
      ),
    )

share-IsCounted :
    (pool worker : Text) (accepted : Bool) (diff : ℕ) (reason : Text) (now : ℕ) (c : Collector)
    → IsCounted pool worker accepted diff c (share pool worker accepted diff reason now c)
unfolding share
share-IsCounted pool worker true diff reason now c =
    let ps = pool_shares (lookup pool c.by_pool) in
    let next = record ps { accepted = ps.accepted + 1 } in
    let d = counter (lookup pool c.pool_diff) + diff in
    let w = share_worker-counts worker true diff c in
    record {
      total_accepted = refl;
      total_rejected = omega arith;
      total_diff = refl;
      pool_accepted = ground (arith, lookup-insert_self pool next c.by_pool);
      pool_rejected = ground (arith, lookup-insert_self pool next c.by_pool);
      pool_diff = ground (arith, lookup-insert_self pool d c.pool_diff);
      worker_accepted = w.0;
      worker_rejected = w.1.0;
      other_pools = λ id e. (
        ground (arith, lookup-insert pool id next c.by_pool, e),
        ground (arith, lookup-insert pool id d c.pool_diff, e),
      );
      other_workers = w.1.1;
    }
share-IsCounted pool worker false diff reason now c =
    let ps = pool_shares (lookup pool c.by_pool) in
    let next = record ps { rejected = ps.rejected + 1; reasons = add_reason reason ps.reasons } in
    let w = share_worker-counts worker false diff c in
    record {
      total_accepted = omega arith;
      total_rejected = refl;
      total_diff = omega arith;
      pool_accepted = ground (arith, lookup-insert_self pool next c.by_pool);
      pool_rejected = ground (arith, lookup-insert_self pool next c.by_pool);
      pool_diff = omega arith;
      worker_accepted = w.0;
      worker_rejected = w.1.0;
      other_pools = λ id e. (ground (arith, lookup-insert pool id next c.by_pool, e), refl);
      other_workers = w.1.1;
    }

share_balances :
    (pool worker : Text) (accepted : Bool) (diff : ℕ) (reason : Text) (now : ℕ) (c : Collector)
    → IsBalanced c
    → IsBalanced (share pool worker accepted diff reason now c)
unfolding share
share_balances pool worker true diff reason now c v =
    let ps = pool_shares (lookup pool c.by_pool) in
    let next = record ps { accepted = ps.accepted + 1 } in
    let by_accepted = sum_values-insert (λ s. s.accepted) pool next c.by_pool in
    let by_rejected = sum_values-insert (λ s. s.rejected) pool next c.by_pool in
    let by_diff =
      sum_values-insert (λ d. d) pool (counter (lookup pool c.pool_diff) + diff) c.pool_diff in
    let old_accepted = pool_figure (λ s. s.accepted) (lookup pool c.by_pool) refl in
    let old_rejected = pool_figure (λ s. s.rejected) (lookup pool c.by_pool) refl in
    let workers = share_worker-sums worker true diff c.workers in
    record {
      accepted_by_pool = omega (arith, by_accepted, old_accepted, v.accepted_by_pool);
      rejected_by_pool = omega (arith, by_rejected, old_rejected, v.rejected_by_pool);
      diff_by_pool =
          omega (arith, by_diff, counter-figure (lookup pool c.pool_diff), v.diff_by_pool);
      reasons_named = v.reasons_named;
      accepted_by_worker = omega (arith, workers.0, v.accepted_by_worker);
      rejected_by_worker = omega (arith, workers.1.0, v.rejected_by_worker);
      diff_by_worker = omega (arith, workers.1.1, v.diff_by_worker);
      workers_bounded = length-share_worker worker true diff c.workers v.workers_bounded;
      reasons_bounded = v.reasons_bounded;
    }
share_balances pool worker false diff reason now c v =
    let ps = pool_shares (lookup pool c.by_pool) in
    let next = record ps { rejected = ps.rejected + 1; reasons = add_reason reason ps.reasons } in
    let by_accepted = sum_values-insert (λ s. s.accepted) pool next c.by_pool in
    let by_rejected = sum_values-insert (λ s. s.rejected) pool next c.by_pool in
    let old_accepted = pool_figure (λ s. s.accepted) (lookup pool c.by_pool) refl in
    let old_rejected = pool_figure (λ s. s.rejected) (lookup pool c.by_pool) refl in
    let workers = share_worker-sums worker false diff c.workers in
    record {
      accepted_by_pool = omega (arith, by_accepted, old_accepted, v.accepted_by_pool);
      rejected_by_pool = omega (arith, by_rejected, old_rejected, v.rejected_by_pool);
      diff_by_pool = v.diff_by_pool;
      reasons_named = omega (arith, sum-add_reason reason c.reasons, v.reasons_named);
      accepted_by_worker = omega (arith, workers.0, v.accepted_by_worker);
      rejected_by_worker = omega (arith, workers.1.0, v.rejected_by_worker);
      diff_by_worker = omega (arith, workers.1.1, v.diff_by_worker);
      workers_bounded = length-share_worker worker false diff c.workers v.workers_bounded;
      reasons_bounded = add_reason-FewReasons reason c.reasons v.reasons_bounded;
    }

-- A share is counted exactly once in the total, once with its pool and, if that has counters or there
-- is room for them, once with its worker, and with no other pool or worker. So the counters keep the
-- balance: those of the pools add up to the total, every rejected share has a reason, those of the
-- workers are never more than the total, and the tables of workers and reasons keep their limits.
pub share-IsBalanced :
    (pool worker : Text) (accepted : Bool) (diff : ℕ) (reason : Text) (now : ℕ) (c : Collector)
    → IsBalanced c
    → IsCounted pool worker accepted diff c (share pool worker accepted diff reason now c)
      × IsBalanced (share pool worker accepted diff reason now c)
share-IsBalanced pool worker accepted diff reason now c v = (
  share-IsCounted pool worker accepted diff reason now c,
  share_balances pool worker accepted diff reason now c v,
)

pub new_collector-IsBalanced : (now : ℕ) → IsBalanced (new_collector now)
unfolding new_collector
new_collector-IsBalanced now = ground arith
