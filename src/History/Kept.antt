-- ===== src/History/Kept.antt =====
-- What the points of a series hold together (internal/history/point.go and history.go).
use simple_mining_proxy.Base.{
  ℕ, ◌+◌, ◌-◌, ◌*◌, ◌/◌, ◌≤◌, ◌<◌, ◌≡◌, refl, ap, Bool, true, false, ◌&&◌, not, Option, none, some,
  List, [], ◌∷◌, Map, sum_values, figure, sum_values-insert, lookup, insert, arith, ltb, leb, ◌==◌,
  if◌then◌else◌,
}
use simple_mining_proxy.History.{
  PoolPart, WorkerPart, Point, blank_point, pool_part, worker_part, add_pool, add_worker,
  merge_pools, merge_workers, add_point, Sample, delta,
}
use simple_mining_proxy.History.Recorder.{
  second, minute, Disk, Minute, fine_tier, coarse_tier, Series, aligned, close_coarse, open_coarse,
  roll_up, flush, open_fine, take_point, add_to, Recorder, rounded_seconds, record_minute,
}

-- What a point counts: in all, over its pools and over its workers.
pub data Figure : Type 0 where
  of_diff of_accepted of_rejected of_pools of_workers : Figure

abbrev pub value : Figure → Point → ℕ
value of_diff p = p.diff
value of_accepted p = p.accepted
value of_rejected p = p.rejected
value of_pools p = sum_values (λ x. x.accepted) p.pools
value of_workers p = sum_values (λ x. x.accepted) p.workers

pool_part-figure : (o : Option PoolPart) → (pool_part o).accepted ≡ figure (λ x. x.accepted) o
pool_part-figure none = refl
pool_part-figure (some x) = refl

worker_part-figure : (o : Option WorkerPart) → (worker_part o).accepted ≡ figure (λ x. x.accepted) o
worker_part-figure none = refl
worker_part-figure (some x) = refl

sum-merge_pools :
    (p q : Map PoolPart)
    → sum_values (λ x. x.accepted) (merge_pools p q)
      ≡ sum_values (λ x. x.accepted) p + sum_values (λ x. x.accepted) q
unfolding merge_pools
sum-merge_pools p [] = omega arith
sum-merge_pools p ((id, y) ∷ q) =
    let next = add_pool (pool_part (lookup id p)) y in
    omega (
      arith,
      sum-merge_pools (insert id next p) q,
      sum_values-insert (λ x. x.accepted) id next p,
      pool_part-figure (lookup id p),
    )

sum-merge_workers :
    (p q : Map WorkerPart)
    → sum_values (λ x. x.accepted) (merge_workers p q)
      ≡ sum_values (λ x. x.accepted) p + sum_values (λ x. x.accepted) q
unfolding merge_workers
sum-merge_workers p [] = omega arith
sum-merge_workers p ((name, y) ∷ q) =
    let next = add_worker (worker_part (lookup name p)) y in
    omega (
      arith,
      sum-merge_workers (insert name next p) q,
      sum_values-insert (λ x. x.accepted) name next p,
      worker_part-figure (lookup name p),
    )

pub value-add_point : (v : Figure) (p q : Point) → value v (add_point p q) ≡ value v p + value v q
unfolding add_point
value-add_point of_diff p q = refl
value-add_point of_accepted p q = refl
value-add_point of_rejected p q = refl
value-add_point of_pools p q = sum-merge_pools p.pools q.pools
value-add_point of_workers p q = sum-merge_workers p.workers q.workers

seconds-add_point : (p q : Point) → (add_point p q).seconds ≡ p.seconds + q.seconds
unfolding add_point
seconds-add_point p q = refl

pub value_blank : (v : Figure) (t : ℕ) → value v (blank_point t) ≡ 0
value_blank of_diff t = refl
value_blank of_accepted t = refl
value_blank of_rejected t = refl
value_blank of_pools t = refl
value_blank of_workers t = refl

abbrev pub sum_points : Figure → List Point → ℕ
sum_points v [] = 0
sum_points v (p ∷ ps) = value v p + sum_points v ps

-- What the fine tier holds: its file, the points whose write failed, and the interval that is open.
abbrev pub held : Figure → Series → ℕ
held v s = sum_points v s.fine + sum_points v s.lost_fine + value v s.cur

-- An interval without seconds holds nothing, and the coarse tier, with its open interval, holds what
-- the fine tier has closed; in both, the points whose write failed count.
pub record IsKept (v : Figure) (s : Series) : Type 0 where
  pub cur_empty : s.cur.seconds ≡ 0 → value v s.cur ≡ 0
  pub acc_empty : s.acc.seconds ≡ 0 → value v s.acc ≡ 0
  pub rolled :
      sum_points v s.coarse + sum_points v s.lost_coarse + value v s.acc
      ≡ sum_points v s.fine + sum_points v s.lost_fine

module _ (v : Figure) where
  close_coarse-IsKept : (disk : Disk) (s : Series) → IsKept v s → IsKept v (close_coarse disk s)
  close_coarse-IsKept disk s h =
      elim (disk coarse_tier s.acc)
        as (λ b.
          IsKept v
            (record (if b
              then record s { coarse = s.acc ∷ s.coarse }
              else record s { lost_coarse = s.acc ∷ s.lost_coarse }) { acc = blank_point 0 })) [
                | true ↦ record {
                  cur_empty = h.cur_empty;
                  acc_empty = λ e. value_blank v 0;
                  rolled = omega (arith, h.rolled, value_blank v 0);
                }
                | false ↦ record {
                  cur_empty = h.cur_empty;
                  acc_empty = λ e. value_blank v 0;
                  rolled = omega (arith, h.rolled, value_blank v 0);
                }
              ]

  open_coarse-IsKept : (t : ℕ) (s : Series) → IsKept v s → IsKept v (open_coarse t s)
  open_coarse-IsKept t s h = ground (arith, h, value_blank v t)

  roll_up-IsKept :
      (disk : Disk) (s : Series) → 0 < s.cur.seconds → IsKept v s → IsKept v (roll_up disk s)
  roll_up-IsKept disk s p h =
      let acc = add_point s.acc s.cur in
      let full : acc.seconds ≡ 0 → value v acc ≡ 0 =
        λ e. ground (arith, seconds-add_point s.acc s.cur, e) in
      elim (disk fine_tier s.cur)
        as (λ b.
          IsKept v
            (record (if b
              then record s { fine = s.cur ∷ s.fine }
              else record s { lost_fine = s.cur ∷ s.lost_fine }) {
                acc = acc;
                cur = blank_point 0;
              })) [
                | true ↦ record {
                  cur_empty = λ e. value_blank v 0;
                  acc_empty = full;
                  rolled = omega (arith, h.rolled, value-add_point v s.acc s.cur);
                }
                | false ↦ record {
                  cur_empty = λ e. value_blank v 0;
                  acc_empty = full;
                  rolled = omega (arith, h.rolled, value-add_point v s.acc s.cur);
                }
              ]

  flush-IsKept :
      (disk : Disk) (end : ℕ) (s : Series)
      → 0 < s.cur.seconds
      → IsKept v s
      → IsKept v (flush disk end s).0 × (held v (flush disk end s).0 ≡ held v s)
  unfolding flush
  flush-IsKept disk end s p h =
      let ct = aligned s.coarse_step s.cur.start in
      let s₁ = if ltb 0 s.acc.seconds && not (s.acc.start == ct) then close_coarse disk s else s in
      let h₁ : IsKept v s₁ = ground (arith, close_coarse-IsKept disk s h, h) in
      let s₂ = open_coarse ct s₁ in
      let h₂ = open_coarse-IsKept ct s₁ h₁ in
      let p₂ : 0 < s₂.cur.seconds = ground arith in
      let h₃ = roll_up-IsKept disk s₂ p₂ h₂ in
      (
        ground (arith, close_coarse-IsKept disk (roll_up disk s₂) h₃, h₃),
        ground (arith, value_blank v 0),
      )

  abbrev AddsTo : Point → Series → Series → Type 0
  AddsTo p s t = IsKept v t × (held v t ≡ held v s + value v p)

  open_if-IsKept :
      (b : Bool) (t : ℕ) (s : Series)
      → (b ≡ true → value v s.cur ≡ 0)
      → IsKept v s
      → let opened : Series = if b then record s { cur = blank_point t } else s in
        IsKept v opened × (held v opened ≡ held v s)
  open_if-IsKept false t s z h = (h, refl)
  open_if-IsKept true t s z h = (
    record { cur_empty = λ e. value_blank v t; acc_empty = h.acc_empty; rolled = h.rolled },
    omega (arith, value_blank v t, z refl),
  )

  take_point-IsKept :
      (p : Point) (s : Series)
      → 0 < p.seconds
      → IsKept v s
      → (0 < (take_point p s).cur.seconds) × AddsTo p s (take_point p s)
  take_point-IsKept p s q h =
      let some_seconds : 0 < (add_point s.cur p).seconds =
        omega (arith, seconds-add_point s.cur p, q) in
      (
        some_seconds,
        (
          record {
            cur_empty = λ e. ground (arith, some_seconds, e);
            acc_empty = h.acc_empty;
            rolled = h.rolled;
          },
          omega (arith, value-add_point v s.cur p),
        ),
      )

  flush_if-IsKept :
      (b : Bool) (disk : Disk) (end : ℕ) (s : Series)
      → (b ≡ true → 0 < s.cur.seconds)
      → IsKept v s
      → let x : Series × Bool = if b then flush disk end s else (s, false) in
        IsKept v x.0 × (held v x.0 ≡ held v s)
  flush_if-IsKept false disk end s p h = (h, refl)
  flush_if-IsKept true disk end s p h = flush-IsKept disk end s (p refl) h

  -- A minute is added once to what the fine tier holds, whether its interval goes on, ends with it
  -- or lies after a gap; and every interval of that file is in the coarse tier once.
  pub add_to-IsKept :
      (disk : Disk) (p : Point) (end : ℕ) (s : Series)
      → 0 < p.seconds
      → IsKept v s
      → IsKept v (add_to disk p end s).0 × (held v (add_to disk p end s).0 ≡ held v s + value v p)
  unfolding add_to
  add_to-IsKept disk p end s q h =
      let ft = aligned s.fine_step p.start in
      let moved = ltb 0 s.cur.seconds && not (s.cur.start == ft) in
      let gap : Series × Bool = if moved then flush disk end s else (s, false) in
      let g = flush_if-IsKept moved disk end s (λ e. ground (arith, e)) h in
      let o =
        open_if-IsKept (gap.0.cur.seconds == 0) ft gap.0 (λ e. g.0.cur_empty (ground (arith, e)))
          g.0 in
      let taken = take_point p (open_fine ft gap.0) in
      let t = take_point-IsKept p (open_fine ft gap.0) q o.0 in
      let l =
        flush_if-IsKept (leb (taken.cur.start + taken.fine_step) end) disk end taken (λ e. t.0)
          t.1.0 in
      (l.0, omega (arith, l.1, t.1.1, o.1, g.1))

-- The minutes that a recorder gets: when, and the sample of the counters then.
abbrev pub accepted_of : Sample → ℕ
accepted_of s = s.totals.total.accepted

abbrev pub record_all : List Minute → Recorder → Recorder
record_all [] r = r
record_all (m ∷ ms) r = record_all ms (record_minute m r).0

-- No minute is shorter than half a second, and the counters do not go back.
abbrev pub IsSteady : ℕ → ℕ → List Minute → Type 0
IsSteady at n [] = Unit
IsSteady at n (m ∷ ms) =
    (at + 500000000 ≤ m.now)
    × ((n ≤ accepted_of m.sample) × IsSteady m.now (accepted_of m.sample) ms)

half_second : (d : ℕ) → 500000000 ≤ d → 0 < rounded_seconds d
half_second d h = omega (arith, h)

record_minute-held :
    (m : Minute) (r : Recorder)
    → r.last_at + 500000000 ≤ m.now
    → accepted_of r.last ≤ accepted_of m.sample
    → IsKept of_accepted r.totals
    → let next = (record_minute m r).0 in
      ((next.last_at ≡ m.now) × (next.last ≡ m.sample))
      × (IsKept of_accepted next.totals
          × (held of_accepted next.totals + accepted_of r.last
              ≡ held of_accepted r.totals + accepted_of m.sample))
unfolding record_minute delta
record_minute-held m r l g h =
    let seconds = rounded_seconds (m.now - r.last_at) in
    let some_seconds = half_second (m.now - r.last_at) (omega (arith, l)) in
    let later : leb m.now r.last_at ≡ false = ground (arith, l) in
    let counted : (seconds == 0) ≡ false = ground (arith, some_seconds) in
    let p = delta (r.last_at / minute * 60) seconds r.last m.sample in
    let a = add_to-IsKept of_accepted m.disk p (m.now / second) r.totals some_seconds h in
    rw (later, counted) ((refl, refl), (a.0, omega (arith, a.1, g)))

-- No accepted share is counted twice on its way into the charts, and none is lost without a word:
-- after any minutes, of at least half a second each, the file of the minutes, the points whose write
-- failed and was logged, and the open minute hold together exactly what the counter has grown by since
-- the start, and the same is true of the hours, less the open minute.
pub record_all_keeps :
    (ms : List Minute) (r : Recorder)
    → IsSteady r.last_at (accepted_of r.last) ms
    → IsKept of_accepted r.totals
    → let next = record_all ms r in
      IsKept of_accepted next.totals
      × (held of_accepted next.totals + accepted_of r.last
          ≡ held of_accepted r.totals + accepted_of next.last)
record_all_keeps [] r w h = (h, refl)
record_all_keeps (m ∷ ms) r w h =
    let x = record_minute-held m r w.0 w.1.0 h in
    let next = (record_minute m r).0 in
    let rest = record_all_keeps ms next (rw (x.0.0, x.0.1) w.1.1) x.1.0 in
    (rest.0, omega (arith, rest.1, x.1.1, ap accepted_of x.0.1))
