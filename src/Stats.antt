-- ===== src/Stats.antt =====
-- internal/stats/stats.go: the sliding window of accepted difficulty, and the share counters.
-- Difficulties are whole numbers; times are nanoseconds since Go's zero time, which lies a multiple
-- of ten minutes before the Unix epoch.
pub mod Window
pub mod Sums
mod Tests
use simple_mining_proxy.Base.{
  ℕ, zero, suc, ◌+◌, ◌-◌, ◌*◌, ◌/◌, ◌%◌, ◌^◌, max, Bool, true, false, ◌&&◌, ◌||◌, not, Option, none,
  some, List, [], ◌∷◌, Text, Map, txt, length, ltb, leb, ◌==◌, if◌then◌else◌, is_some, same, lookup,
  insert,
}

abbrev pub bucket_len : ℕ
bucket_len = 60000000000

abbrev pub n_buckets : ℕ
n_buckets = 10

-- `sums[i]` and `stamps[i]`
pub record Bucket : Type 0 where
  pub stamp : ℕ
  pub sum : ℕ

pub record Rate : Type 0 where
  pub start : ℕ
  pub buckets : List Bucket

abbrev pub blank_buckets : ℕ → List Bucket
blank_buckets zero = []
blank_buckets (suc n) = record { stamp = 0; sum = 0 } ∷ blank_buckets n

-- `NewRate`
unfoldable pub new_rate : ℕ → Rate
new_rate start = record { start = start; buckets = blank_buckets n_buckets }

-- What `Add` does to the bucket at the index of the minute `m`.
unfoldable pub add_bucket : ℕ → ℕ → ℕ → List Bucket → List Bucket
add_bucket diff m i [] = []
add_bucket diff m zero (b ∷ bs) =
    (if b.stamp == m then record b { sum = b.sum + diff } else record { stamp = m; sum = diff })
    ∷ bs
add_bucket diff m (suc i) (b ∷ bs) = b ∷ add_bucket diff m i bs

-- `Rate.Add`
unfoldable pub add_rate : ℕ → ℕ → Rate → Rate
unfolding add_bucket
add_rate diff now r =
    let m = now / bucket_len in record r { buckets = add_bucket diff m (m % n_buckets) r.buckets }

-- The loop of `Hashrate` at the minute `m`: `stamp > m-nBuckets && stamp <= m`.
unfoldable pub window_sum : ℕ → List Bucket → ℕ
window_sum m [] = 0
window_sum m (b ∷ bs) =
    (if ltb m (b.stamp + n_buckets) && leb b.stamp m then b.sum else 0) + window_sum m bs

-- The time that the window covers, at least a minute.
unfoldable pub window_span : ℕ → Rate → ℕ
window_span now r =
    let window_start = (now / bucket_len + 1 - n_buckets) * bucket_len in
    max (now - max r.start window_start) bucket_len

-- `Hashrate`, in whole hashes per second.
unfoldable pub hashrate : ℕ → Rate → ℕ
unfolding window_sum window_span
hashrate now r = window_sum (now / bucket_len) r.buckets * 2 ^ 32 * 1000000000 / window_span now r

pub record PoolShares : Type 0 where
  pub accepted : ℕ
  pub rejected : ℕ
  pub reasons : Map ℕ

pub record Counters : Type 0 where
  pub accepted : ℕ
  pub rejected : ℕ
  pub diff : ℕ

pub record Collector : Type 0 where
  pub accepted : ℕ
  pub rejected : ℕ
  pub reasons : Map ℕ
  pub by_pool : Map PoolShares
  pub rate : Rate
  pub pool_rate : Map Rate
  pub diff : ℕ
  pub pool_diff : Map ℕ
  pub workers : Map Counters
  pub upstream_junk : ℕ
  pub tls_handshakes : ℕ

-- `NewCollector`
unfoldable pub new_collector : ℕ → Collector
unfolding new_rate
new_collector now = record {
  accepted = 0;
  rejected = 0;
  reasons = [];
  by_pool = [];
  rate = new_rate now;
  pool_rate = [];
  diff = 0;
  pool_diff = [];
  workers = [];
  upstream_junk = 0;
  tls_handshakes = 0;
}

abbrev pub max_workers : ℕ
max_workers = 10000

abbrev pub max_reasons : ℕ
max_reasons = 50

-- `m[k]` of a counter
abbrev pub counter : Option ℕ → ℕ
counter none = 0
counter (some n) = n

abbrev pub shown_reason : Text → Text
shown_reason [] = txt "unknown"
shown_reason (c ∷ t) = c ∷ t

-- `addReason`
unfoldable pub add_reason : Text → Map ℕ → Map ℕ
add_reason reason m =
    let named = shown_reason reason in
    let key =
      if not (is_some (lookup named m)) && leb max_reasons (length m) then txt "other" else named in
    insert key (counter (lookup key m) + 1) m

abbrev pub pool_shares : Option PoolShares → PoolShares
pool_shares none = record { accepted = 0; rejected = 0; reasons = [] }
pool_shares (some s) = s

abbrev pub counters : Option Counters → Counters
counters none = record { accepted = 0; rejected = 0; diff = 0 }
counters (some c) = c

abbrev pub rate_or : ℕ → Option Rate → Rate
rate_or now none = record { start = now; buckets = blank_buckets n_buckets }
rate_or now (some r) = r

abbrev pub count_share : Bool → ℕ → Counters → Counters
count_share accepted diff w =
    if accepted
    then record w { accepted = w.accepted + 1; diff = w.diff + diff }
    else record w { rejected = w.rejected + 1 }

-- `workerLocked` and the counters of the worker.
unfoldable pub share_worker : Text → Bool → ℕ → Map Counters → Map Counters
share_worker [] accepted diff m = m
share_worker (c ∷ t) accepted diff m =
    if is_some (lookup (c ∷ t) m) || ltb (length m) max_workers
    then insert (c ∷ t) (count_share accepted diff (counters (lookup (c ∷ t) m))) m
    else m

-- `Share`
unfoldable pub share : Text → Text → Bool → ℕ → Text → ℕ → Collector → Collector
unfolding share_worker add_rate add_reason
share pool worker accepted diff reason now c =
    let ps = pool_shares (lookup pool c.by_pool) in
    let workers = share_worker worker accepted diff c.workers in
    if accepted
    then record c {
      accepted = c.accepted + 1;
      diff = c.diff + diff;
      by_pool = insert pool (record ps { accepted = ps.accepted + 1 }) c.by_pool;
      pool_diff = insert pool (counter (lookup pool c.pool_diff) + diff) c.pool_diff;
      rate = add_rate diff now c.rate;
      pool_rate =
          insert pool (add_rate diff now (rate_or now (lookup pool c.pool_rate))) c.pool_rate;
      workers = workers;
    }
    else record c {
      rejected = c.rejected + 1;
      reasons = add_reason reason c.reasons;
      by_pool =
          insert pool
            (record ps { rejected = ps.rejected + 1; reasons = add_reason reason ps.reasons })
            c.by_pool;
      workers = workers;
    }

-- `Totals`
pub record Totals : Type 0 where
  pub total : Counters
  pub pools : Map Counters
  pub workers : Map Counters

unfoldable pub pool_totals : Map ℕ → Map PoolShares → Map Counters
pool_totals diffs [] = []
pool_totals diffs ((id, ps) ∷ m) =
    (
      id,
      record { accepted = ps.accepted; rejected = ps.rejected; diff = counter (lookup id diffs) },
    )
    ∷ pool_totals diffs m

unfoldable pub totals : Collector → Totals
unfolding pool_totals
totals c = record {
  total = record { accepted = c.accepted; rejected = c.rejected; diff = c.diff };
  pools = pool_totals c.pool_diff c.by_pool;
  workers = c.workers;
}
