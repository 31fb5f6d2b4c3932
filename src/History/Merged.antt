-- ===== src/History/Merged.antt =====
-- What the steps of a chart hold (internal/history/query.go).
use simple_mining_proxy.Base.{
  ℕ, zero, suc, ◌+◌, ◌*◌, ◌≤◌, ◌<◌, ◌≡◌, Bool, ◌&&◌, Option, none, some, List, [], ◌∷◌, ◌++◌,
  length, filter, ltb, leb,
}
use simple_mining_proxy.History.{Point}
use simple_mining_proxy.History.Buckets.{in_range, Chart}
use simple_mining_proxy.History.Kept.{Figure, value, sum_points}

-- What the step with a number holds.
abbrev pub value_at : Figure → ℕ → List Point → ℕ
value_at v i [] = 0
value_at v zero (b ∷ bs) = value v b
value_at v (suc i) (b ∷ bs) = value_at v i bs

-- A point lies in the interval of a step.
abbrev pub in_step : ℕ → ℕ → ℕ → Point → Bool
in_step start step i p = leb (start + i * step) p.start && ltb p.start (start + i * step + step)

-- A chart of the points: it starts no later than its range; a step holds exactly what the points of its
-- interval hold together; and the steps together hold what all the points of the range hold.
pub record IsMerged (v : Figure) (from end : ℕ) (ps : List Point) (c : Chart) : Type 0 where
  pub starts : c.start ≤ from
  pub each :
      (i : ℕ)
      → i < length c.steps
      → value_at v i c.steps
        ≡ sum_points v (filter (in_step c.start c.step i) (filter (in_range c.start end) ps))
  pub total : sum_points v c.steps ≡ sum_points v (filter (in_range c.start end) ps)

-- A chart for what a read of the files gave: an error without a read, and without one the points.
abbrev pub Charts : Figure → ℕ → ℕ → Option (List Point) → List Point → Option Chart → Type 0
Charts v from end none live c = c ≡ none
Charts v from end (some file) live none = ⊥
Charts v from end (some file) live (some c) = IsMerged v from end (file ++ live) c

-- The intervals that are not empty.
abbrev pub open_points : List Point → List Point
open_points = filter (λ p. ltb 0 p.seconds)
