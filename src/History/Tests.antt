-- ===== src/History/Tests.antt =====
-- Runs of internal/history/history.go on concrete samples.
use simple_mining_proxy.Base.{
  true, false, Bool, ℕ, ◌+◌, ◌*◌, ◌≡◌, refl, List, [], ◌∷◌, txt, text_eq, lookup, insert, arith,
  Option, none, some, map,
}
use simple_mining_proxy.Stats.{Counters}
use simple_mining_proxy.History.{
  Point, Sample, blank_point, pool_deltas, part_deltas, merge_pools, merge_workers, add_point,
  delta, worker_delta,
}
use simple_mining_proxy.History.Recorder.{
  second, fine_tier, coarse_tier, Minute, new_series, Series, Recorder, record_minute, add_to,
  flush,
}
use simple_mining_proxy.History.Buckets.{
  Chart, chart, choose_step, empty_steps, fill, add_at, Files, unix_epoch,
}
use simple_mining_proxy.History.Kept.{
  of_accepted, held, IsKept, accepted_of, record_all, record_all_keeps,
}

abbrev counted : ℕ → ℕ → Counters
counted a r = record { accepted = a; rejected = r; diff = 8 * a }

abbrev sample : ℕ → ℕ → Sample
sample a r = record {
  totals = record {
    total = counted a r;
    pools = (txt "a", counted a r) ∷ [];
    workers = (txt "rig", counted a r) ∷ [];
  };
  miners = (txt "a", 2) ∷ [];
  online = (txt "rig", 1) ∷ [];
}

abbrev fresh : Recorder
fresh = record {
  last = sample 5 1;
  last_at = 3000 * second;
  totals = new_series 60;
  workers = new_series 600;
}

-- The disk is full while the second minute is written.
abbrev minute_at : ℕ → Bool → Sample → Minute
minute_at t written cur = record {
  now = t * second;
  sample = cur;
  disk = λ tier p. written;
  worker_disk = λ tier p. true;
}

abbrev minutes : List Minute
minutes =
    minute_at 3060 true (sample 9 1)
    ∷ minute_at 3120 false (sample 9 2)
    ∷ minute_at 3150 true (sample 14 2)
    ∷ []

record_all_keeps_example :
    IsKept of_accepted (record_all minutes fresh).totals
    × (held of_accepted (record_all minutes fresh).totals + 5
        ≡ held of_accepted fresh.totals + accepted_of (record_all minutes fresh).last)
record_all_keeps_example =
    record_all_keeps minutes fresh (ground arith)
      (record { cur_empty = λ e. refl; acc_empty = λ e. refl; rolled = refl })

two_minutes : (record_all minutes fresh).totals.cur.accepted ≡ 5
unfolding record_minute add_to flush delta worker_delta pool_deltas part_deltas merge_pools
    merge_workers add_point lookup insert text_eq
two_minutes = refl

abbrev epoch_at : ℕ → ℕ
epoch_at t = unix_epoch + t

abbrev point_at : ℕ → ℕ → ℕ → Point
point_at t seconds accepted = record (blank_point (epoch_at t)) {
  seconds = seconds;
  accepted = accepted;
}

abbrev filled : Series
filled = record (new_series 60) { cur = point_at 3120 20 2 }

abbrev written : Files
written fine_tier = some (point_at 3000 60 3 ∷ (point_at 3060 60 4 ∷ []))
written coarse_tier = none

abbrev shown : Option Chart
shown =
    chart (epoch_at 3010 * second) (epoch_at 3140 * second) (epoch_at 3140 * second)
      (86400 * second) 100 written filled

abbrev step_values : Option Chart → List ℕ
step_values none = []
step_values (some c) = map (λ p. p.accepted) c.steps

three_steps : step_values shown ≡ 3 ∷ (4 ∷ (2 ∷ []))
unfolding chart choose_step empty_steps fill add_at add_point merge_pools merge_workers
three_steps = refl
