-- ===== src/Drain.antt =====
-- internal/session/registry.go: drains as steps that interleave. A session is its number; `closed`
-- holds those on which `Close` was called. The goroutine of a drain is an entry of `running`.
pub mod Replaced
pub mod Turns
pub mod Ends
mod Tests
use simple_mining_proxy.Base.{
  ℕ, suc, ◌+◌, Bool, true, false, ◌||◌, not, List, [], ◌∷◌, ◌++◌, length, filter, ltb, ◌==◌,
  if◌then◌else◌,
}

pub record Drain : Type 0 where
  pub gen : ℕ
  pub targets : List ℕ

-- `cancelled` says whether the context of the latest drain is.
pub record Registry : Type 0 where
  pub sessions : List ℕ
  pub closed : List ℕ
  pub drain_gen : ℕ
  pub cancelled : Bool
  pub draining : Bool
  pub running : List Drain

abbrev pub empty : Registry
empty = record {
  sessions = [];
  closed = [];
  drain_gen = 0;
  cancelled = false;
  draining = false;
  running = [];
}

-- The registry at work. `start` is `Drain` for the sessions that its filter and the shuffle give;
-- `round` is what the goroutine of a drain does under the lock: a round of its loop, or its end.
pub data Step : Type 0 where
  add remove : ℕ → Step
  start : List ℕ → Step
  round : ℕ → Step
  close_all : Step

abbrev pub is_empty : List ℕ → Bool
is_empty [] = true
is_empty (x ∷ xs) = false

unfoldable pub start_drain : List ℕ → Registry → Registry
start_drain targets r =
    let gen = r.drain_gen + 1 in
    record r {
      drain_gen = gen;
      cancelled = false;
      draining = not (is_empty targets);
      running =
          if is_empty targets
          then r.running
          else record { gen = gen; targets = targets } ∷ r.running;
    }

-- The end of the goroutine.
abbrev pub finish : ℕ → Registry → Registry
finish gen r = record r {
  draining = if r.drain_gen == gen then false else r.draining;
  running = filter (λ d. not (d.gen == gen)) r.running;
}

abbrev pub set_targets : ℕ → List ℕ → List Drain → List Drain
set_targets gen rest [] = []
set_targets gen rest (d ∷ ds) =
    if d.gen == gen
    then record d { targets = rest } ∷ set_targets gen rest ds
    else d ∷ set_targets gen rest ds

unfoldable pub advance : ℕ → List ℕ → Registry → Registry
advance gen [] r = finish gen r
advance gen (s ∷ rest) r =
    if r.cancelled || not (r.drain_gen == gen)
    then finish gen r
    else record r { closed = s ∷ r.closed; running = set_targets gen rest r.running }

unfoldable pub run_round : ℕ → List Drain → Registry → Registry
unfolding advance
run_round gen [] r = r
run_round gen (d ∷ ds) r = if d.gen == gen then advance gen d.targets r else run_round gen ds r

unfoldable pub close_sessions : Registry → Registry
close_sessions r = record r { cancelled = true; closed = r.sessions ++ r.closed }

unfoldable pub apply_step : Step → Registry → Registry
unfolding start_drain run_round close_sessions
apply_step (add s) r = record r { sessions = s ∷ r.sessions }
apply_step (remove s) r = record r { sessions = filter (λ x. not (x == s)) r.sessions }
apply_step (start targets) r = start_drain targets r
apply_step (round gen) r = run_round gen r.running r
apply_step close_all r = close_sessions r

unfoldable pub apply_steps : List Step → Registry → Registry
unfolding apply_step
apply_steps [] r = r
apply_steps (s ∷ ss) r = apply_steps ss (apply_step s r)
