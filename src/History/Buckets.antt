-- ===== src/History/Buckets.antt =====
-- internal/history/query.go: the points of a range, merged into steps of equal length.
use simple_mining_proxy.Base.{
  ℕ, zero, suc, ◌+◌, ◌-◌, ◌*◌, ◌/◌, ◌%◌, max, Bool, ◌&&◌, Option, none, some, List, [], ◌∷◌, ◌++◌,
  filter, ltb, leb, if◌then◌else◌,
}
use simple_mining_proxy.History.{Point, blank_point, add_point}
use simple_mining_proxy.History.Recorder.{second, Tier, fine_tier, coarse_tier, Series}

abbrev pub detail_span : ℕ
detail_span = 3 * (86400 * second)

-- The steps that a chart can use.
abbrev pub chart_steps : List ℕ
chart_steps =
    60 ∷ 120 ∷ 300 ∷ 600 ∷ 900 ∷ 1800 ∷ 3600 ∷ 7200 ∷ 10800 ∷ 21600 ∷ 43200 ∷ 86400 ∷ 172800
    ∷ 345600 ∷ 604800 ∷ 1209600 ∷ 2592000 ∷ []

-- The first step that is long enough, else the longest.
unfoldable pub choose_step : ℕ → List ℕ → ℕ
choose_step need [] = 2592000
choose_step need (x ∷ xs) = let rest = choose_step need xs in if leb need x then x else rest

-- `p.T >= start && p.T < end`
abbrev pub in_range : ℕ → ℕ → Point → Bool
in_range start end p = leb start p.start && ltb p.start end

unfoldable pub empty_steps : ℕ → List Point
empty_steps zero = []
empty_steps (suc n) = blank_point 0 ∷ empty_steps n

-- `out[i].add(p)`, if there is such an `i`.
unfoldable pub add_at : ℕ → Point → List Point → List Point
add_at i p [] = []
add_at zero p (b ∷ bs) = add_point b p ∷ bs
add_at (suc i) p (b ∷ bs) = b ∷ add_at i p bs

-- The loop over the points.
unfoldable pub fill : ℕ → ℕ → List Point → List Point → List Point
unfolding add_at
fill start step [] out = out
fill start step (p ∷ ps) out = fill start step ps (add_at ((p.start - start) / step) p out)

pub record Chart : Type 0 where
  pub steps : List Point
  pub start : ℕ
  pub step : ℕ

-- The loop over the intervals in memory, which it leaves out while they are empty.
abbrev pub live_points : Bool → ℕ → ℕ → Series → List Point
live_points fine start end s =
    filter (λ p. ltb 0 p.seconds && in_range start end p)
      (if fine then s.cur ∷ [] else s.cur ∷ (s.acc ∷ []))

-- What the files of the tiers hold when they are read; `none` is an error.
abbrev pub Files : Type 0
Files = Tier → Option (List Point)

-- `read`
abbrev pub read_points : ℕ → ℕ → Option (List Point) → Option (List Point)
read_points start end none = none
read_points start end (some ps) = some (filter (in_range start end) ps)

abbrev pub is_fine : ℕ → ℕ → ℕ → ℕ → Bool
is_fine from to now keep = leb to (from + detail_span) && leb now (from + keep)

abbrev pub step_for : Bool → ℕ → ℕ → ℕ → Series → ℕ
step_for fine from to points s =
    let least = if fine then s.fine_step else s.coarse_step in
    choose_step (max least (((to - from) / second + points - 1) / points)) chart_steps

-- The Unix epoch, in seconds since Go's zero time.
abbrev pub unix_epoch : ℕ
unix_epoch = 719162 * 86400

-- `from.Unix() - from.Unix()%step`, for times since the epoch.
abbrev pub chart_start : ℕ → ℕ → ℕ
chart_start step t = t - (t - unix_epoch) % step

abbrev pub merge : ℕ → ℕ → ℕ → List Point → Option (List Point) → Option Chart
merge start end step live none = none
merge start end step live (some ps) = some (record {
  steps = fill start step (ps ++ live) (empty_steps ((end - start + step - 1) / step));
  start = start;
  step = step;
})

-- `buckets`, for the retention of the fine tier. The files are read before the lock is taken: `files`
-- is what they held then, and the series is that of the lock.
unfoldable pub chart : ℕ → ℕ → ℕ → ℕ → ℕ → Files → Series → Option Chart
unfolding choose_step empty_steps fill
chart from to now keep max_points files s =
    let points = max max_points 10 in
    let fine = is_fine from to now keep in
    let step = step_for fine from to points s in
    let start = chart_start step (from / second) in
    let end = to / second in
    let read = read_points start end (if fine then files fine_tier else files coarse_tier) in
    if leb to from then none else merge start end step (live_points fine start end s) read
