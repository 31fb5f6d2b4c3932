-- ===== src/History.antt =====
-- internal/history/point.go and history.go: the points of the charts, and how minutes become longer
-- intervals. A point carries the miners times its seconds, which the code divides by the seconds;
-- difficulties are whole numbers. Times of points are seconds and those of the recorder nanoseconds,
-- both since Go's zero time, which lies whole days before the Unix epoch.
pub mod Recorder
pub mod Kept
pub mod Buckets
pub mod Merged
mod Tests
use simple_mining_proxy.Base.{
  ℕ, ◌+◌, ◌-◌, ◌*◌, ◌%◌, Bool, true, false, ◌&&◌, ◌||◌, not, Option, none, some, List, [], ◌∷◌,
  ◌++◌, map, Text, Map, ltb, leb, ◌==◌, if◌then◌else◌, is_some, lookup, insert, filter,
}
use simple_mining_proxy.Stats.{Counters, Totals, counters, counter}

-- `miner_seconds` is `M` times the seconds of the point.
pub record PoolPart : Type 0 where
  pub diff : ℕ
  pub accepted : ℕ
  pub rejected : ℕ
  pub miner_seconds : ℕ

pub record WorkerPart : Type 0 where
  pub diff : ℕ
  pub accepted : ℕ
  pub rejected : ℕ
  pub online : ℕ

pub record Point : Type 0 where
  pub start : ℕ
  pub seconds : ℕ
  pub diff : ℕ
  pub accepted : ℕ
  pub rejected : ℕ
  pub miner_seconds : ℕ
  pub pools : Map PoolPart
  pub workers : Map WorkerPart

abbrev pub blank_point : ℕ → Point
blank_point t = record {
  start = t;
  seconds = 0;
  diff = 0;
  accepted = 0;
  rejected = 0;
  miner_seconds = 0;
  pools = [];
  workers = [];
}

abbrev pub pool_part : Option PoolPart → PoolPart
pool_part none = record { diff = 0; accepted = 0; rejected = 0; miner_seconds = 0 }
pool_part (some x) = x

abbrev pub worker_part : Option WorkerPart → WorkerPart
worker_part none = record { diff = 0; accepted = 0; rejected = 0; online = 0 }
worker_part (some x) = x

abbrev pub add_pool : PoolPart → PoolPart → PoolPart
add_pool x y = record {
  diff = x.diff + y.diff;
  accepted = x.accepted + y.accepted;
  rejected = x.rejected + y.rejected;
  miner_seconds = x.miner_seconds + y.miner_seconds;
}

abbrev pub add_worker : WorkerPart → WorkerPart → WorkerPart
add_worker x y = record {
  diff = x.diff + y.diff;
  accepted = x.accepted + y.accepted;
  rejected = x.rejected + y.rejected;
  online = x.online + y.online;
}

-- The second loops of `add`.
unfoldable pub merge_pools : Map PoolPart → Map PoolPart → Map PoolPart
merge_pools merged [] = merged
merge_pools merged ((id, y) ∷ q) =
    merge_pools (insert id (add_pool (pool_part (lookup id merged)) y) merged) q

unfoldable pub merge_workers : Map WorkerPart → Map WorkerPart → Map WorkerPart
merge_workers merged [] = merged
merge_workers merged ((name, y) ∷ q) =
    merge_workers (insert name (add_worker (worker_part (lookup name merged)) y) merged) q

-- `Point.add`
unfoldable pub add_point : Point → Point → Point
unfolding merge_pools merge_workers
add_point p q = record {
  start = p.start;
  seconds = p.seconds + q.seconds;
  diff = p.diff + q.diff;
  accepted = p.accepted + q.accepted;
  rejected = p.rejected + q.rejected;
  miner_seconds = p.miner_seconds + q.miner_seconds;
  pools = merge_pools p.pools q.pools;
  workers = merge_workers p.workers q.workers;
}

pub record Sample : Type 0 where
  pub totals : Totals
  pub miners : Map ℕ
  pub online : Map ℕ

-- The keys of two maps, each once.
abbrev pub names {ℓ} : {V : Type ℓ} → Map V → List Text
names m = map (λ e. e.0) m

abbrev pub keys_of {ℓ} : {V W : Type ℓ} → Map V → Map W → List Text
keys_of m n = names m ++ filter (λ k. not (is_some (lookup k m))) (names n)

abbrev pub sum_counts : Map ℕ → ℕ
sum_counts [] = 0
sum_counts ((k, n) ∷ m) = n + sum_counts m

-- A part of `delta`; `sub` and `nonNeg` stop at 0, as `-` does.
abbrev pub pool_delta : ℕ → Sample → Sample → Text → PoolPart
pool_delta seconds prev cur id =
    let c = counters (lookup id cur.totals.pools) in
    let o = counters (lookup id prev.totals.pools) in
    record {
      diff = c.diff - o.diff;
      accepted = c.accepted - o.accepted;
      rejected = c.rejected - o.rejected;
      miner_seconds = counter (lookup id cur.miners) * seconds;
    }

abbrev pub no_pool_part : PoolPart → Bool
no_pool_part x =
    (x.diff == 0) && ((x.accepted == 0) && ((x.rejected == 0) && (x.miner_seconds == 0)))

unfoldable pub pool_deltas : ℕ → Sample → Sample → List Text → Map PoolPart
pool_deltas seconds prev cur [] = []
pool_deltas seconds prev cur (id ∷ ids) =
    let rest = pool_deltas seconds prev cur ids in
    let part = pool_delta seconds prev cur id in
    if no_pool_part part then rest else (id, part) ∷ rest

-- `delta`, with the start and the seconds that `recordLocked` sets.
unfoldable pub delta : ℕ → ℕ → Sample → Sample → Point
unfolding pool_deltas
delta t seconds prev cur = record {
  start = t;
  seconds = seconds;
  diff = cur.totals.total.diff - prev.totals.total.diff;
  accepted = cur.totals.total.accepted - prev.totals.total.accepted;
  rejected = cur.totals.total.rejected - prev.totals.total.rejected;
  miner_seconds = sum_counts cur.miners * seconds;
  pools = pool_deltas seconds prev cur (keys_of cur.totals.pools cur.miners);
  workers = [];
}

abbrev pub part_delta : ℕ → Sample → Sample → Text → WorkerPart
part_delta seconds prev cur name =
    let c = counters (lookup name cur.totals.workers) in
    let o = counters (lookup name prev.totals.workers) in
    record {
      diff = c.diff - o.diff;
      accepted = c.accepted - o.accepted;
      rejected = c.rejected - o.rejected;
      online = if ltb 0 (counter (lookup name cur.online)) then seconds else 0;
    }

abbrev pub no_worker_part : WorkerPart → Bool
no_worker_part x = (x.diff == 0) && ((x.accepted == 0) && ((x.rejected == 0) && (x.online == 0)))

unfoldable pub part_deltas : ℕ → Sample → Sample → List Text → Map WorkerPart
part_deltas seconds prev cur [] = []
part_deltas seconds prev cur (name ∷ names) =
    let rest = part_deltas seconds prev cur names in
    let part = part_delta seconds prev cur name in
    if no_worker_part part then rest else (name, part) ∷ rest

-- `workerDelta`, likewise.
unfoldable pub worker_delta : ℕ → ℕ → Sample → Sample → Point
unfolding part_deltas
worker_delta t seconds prev cur = record (blank_point t) {
  seconds = seconds;
  workers = part_deltas seconds prev cur (keys_of cur.totals.workers cur.online);
}
