-- ===== src/Drain/Tests.antt =====
-- Two drains, the second of which replaces the first (internal/session/registry.go).
use simple_mining_proxy.Base.{◌≡◌, refl, true, false, All, List, [], ◌∷◌, ltb, arith}
use simple_mining_proxy.Drain.{
  Step, add, start, round, empty, start_drain, apply_steps, apply_step, run_round, advance,
}
use simple_mining_proxy.Drain.Replaced.{was_closed, drain_replaces}
use simple_mining_proxy.Drain.Ends.{drain_ends}

-- A drain of the sessions 1, 2 and 3 that has closed the first.
abbrev before : List Step
before = add 1 ∷ add 2 ∷ add 3 ∷ start (1 ∷ 2 ∷ 3 ∷ []) ∷ round 1 ∷ []

-- The drain of session 3 alone: the old goroutine takes turns as well.
abbrev turns : List Step
turns = round 1 ∷ round 2 ∷ round 1 ∷ round 2 ∷ []

both_ran : (apply_steps turns (start_drain (3 ∷ []) (apply_steps before empty))).closed ≡ 3 ∷ 1 ∷ []
unfolding apply_steps apply_step start_drain run_round advance
both_ran = refl

drain_replaces_example :
    was_closed 2 (apply_steps turns (start_drain (3 ∷ []) (apply_steps before empty))).closed
    ≡ was_closed 2 (start_drain (3 ∷ []) (apply_steps before empty)).closed
drain_replaces_example =
    drain_replaces before turns (3 ∷ []) (λ s. ltb 2 s) (ground arith) tt 2 refl

drain_ends_example :
    let r = start_drain (3 ∷ []) (apply_steps before empty) in
    ((apply_steps turns r).draining ≡ false)
    × All (λ s. was_closed s (apply_steps turns r).closed ≡ true) (3 ∷ [])
unfolding apply_steps apply_step start_drain run_round advance
drain_ends_example = drain_ends before turns (3 ∷ []) tt (omega arith)
