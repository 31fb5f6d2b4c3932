-- ===== src/Drain/Turns.antt =====
-- internal/session/registry.go: what the turns of the goroutines leave of the latest drain.
use simple_mining_proxy.Base.{
  ℕ, suc, ◌≡◌, refl, true, false, not, Option, none, some, List, [], ◌∷◌, filter, arith, ◌==◌,
  if◌then◌else◌,
}
use simple_mining_proxy.Drain.{
  Drain, Registry, Step, add, remove, start, round, close_all, set_targets, advance, run_round,
  apply_step, apply_steps,
}
use simple_mining_proxy.Drain.Replaced.{was_closed, Quiet}

-- What the goroutine of a drain has still to close; none where it has ended.
abbrev pub left_of : ℕ → List Drain → Option (List ℕ)
left_of gen [] = none
left_of gen (d ∷ ds) = if d.gen == gen then some d.targets else left_of gen ds

-- The turns that the goroutine of a drain gets.
abbrev pub rounds : ℕ → List Step → ℕ
rounds gen [] = 0
rounds gen (round g ∷ ss) = if g == gen then suc (rounds gen ss) else rounds gen ss
rounds gen (add s ∷ ss) = rounds gen ss
rounds gen (remove s ∷ ss) = rounds gen ss
rounds gen (start targets ∷ ss) = rounds gen ss
rounds gen (close_all ∷ ss) = rounds gen ss

left_of-filter :
    (gen g : ℕ) (ds : List Drain)
    → (g == gen) ≡ false
    → left_of gen (filter (λ d. not (d.gen == g)) ds) ≡ left_of gen ds
left_of-filter gen g [] e = refl
left_of-filter gen g (d ∷ ds) e = ground (arith, left_of-filter gen g ds e)

pub left_of-finished :
    (gen : ℕ) (ds : List Drain) → left_of gen (filter (λ d. not (d.gen == gen)) ds) ≡ none
left_of-finished gen [] = refl
left_of-finished gen (d ∷ ds) = ground (arith, left_of-finished gen ds)

left_of-set_targets :
    (gen g : ℕ) (rest : List ℕ) (ds : List Drain)
    → (g == gen) ≡ false
    → left_of gen (set_targets g rest ds) ≡ left_of gen ds
left_of-set_targets gen g rest [] e = refl
left_of-set_targets gen g rest (d ∷ ds) e = ground (arith, left_of-set_targets gen g rest ds e)

pub left_of-set_own :
    (gen : ℕ) (rest left : List ℕ) (ds : List Drain)
    → left_of gen ds ≡ some left
    → left_of gen (set_targets gen rest ds) ≡ some rest
left_of-set_own gen rest left [] e = cc
left_of-set_own gen rest left (d ∷ ds) e = ground (arith, left_of-set_own gen rest left ds)

-- The turn of a goroutine, by what it has to close.
unfoldable pub turn : ℕ → Option (List ℕ) → Registry → Registry
turn gen none r = r
turn gen (some left) r = advance gen left r

pub run_round_lem :
    (gen : ℕ) (ds : List Drain) (r : Registry) → run_round gen ds r ≡ turn gen (left_of gen ds) r
unfolding run_round turn
run_round_lem gen [] r = refl
run_round_lem gen (d ∷ ds) r = ground (arith, run_round_lem gen ds r)

-- A turn of another drain changes nothing for the latest one, which it may not close for.
pub other_turn :
    (gen g : ℕ) (o : Option (List ℕ)) (r : Registry)
    → r.drain_gen ≡ gen
    → (g == gen) ≡ false
    → let next = turn g o r in
      (next.drain_gen ≡ gen)
      × ((next.cancelled ≡ r.cancelled)
          × ((next.draining ≡ r.draining)
              × ((left_of gen next.running ≡ left_of gen r.running) × (next.closed ≡ r.closed))))
unfolding turn advance
other_turn gen g none r h e = ground arith
other_turn gen g (some []) r h e = ground (arith, left_of-filter gen g r.running e)
other_turn gen g (some (s ∷ left)) r h e = ground (arith, left_of-filter gen g r.running e)

turn_closed :
    (g : ℕ) (o : Option (List ℕ)) (r : Registry) (s : ℕ)
    → was_closed s r.closed ≡ true
    → was_closed s (turn g o r).closed ≡ true
unfolding turn advance
turn_closed g none r s h = h
turn_closed g (some []) r s h = h
turn_closed g (some (t ∷ left)) r s h = ground arith

pub stays_closed :
    (ss : List Step) (r : Registry) (s : ℕ)
    → Quiet ss
    → was_closed s r.closed ≡ true
    → was_closed s (apply_steps ss r).closed ≡ true
unfolding apply_steps apply_step
stays_closed [] r s q h = h
stays_closed (add t ∷ ss) r s q h = stays_closed ss (apply_step (add t) r) s q h
stays_closed (remove t ∷ ss) r s q h = stays_closed ss (apply_step (remove t) r) s q h
stays_closed (start targets ∷ ss) r s q h = absurd q
stays_closed (close_all ∷ ss) r s q h = absurd q
stays_closed (round g ∷ ss) r s q h =
    stays_closed ss (run_round g r.running r) s q
      (rw (run_round_lem g r.running r) (turn_closed g (left_of g r.running) r s h))
