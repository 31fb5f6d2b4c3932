-- ===== src/Drain/Ends.antt =====
-- A drain that no other one replaces (internal/session/registry.go).
use simple_mining_proxy.Base.{
  ℕ, ◌+◌, ◌≤◌, ◌<◌, ◌≡◌, refl, sym, subst, ◌∙◌, inl, inr, Bool, true, false, ◌||◌, not, Bool-cases,
  none, some, List, [], ◌∷◌, All, length, arith, ◌==◌,
}
use simple_mining_proxy.Drain.{
  Drain, Registry, Step, add, remove, start, round, close_all, empty, start_drain, advance,
  run_round, apply_step, apply_steps,
}
use simple_mining_proxy.Drain.Replaced.{was_closed, Wanted, any_session, reached-Wanted, Quiet}
use simple_mining_proxy.Drain.Turns.{
  left_of, rounds, left_of-finished, left_of-set_own, turn, run_round_lem, other_turn, stays_closed,
}

-- The latest drain has ended.
record IsEnded (gen : ℕ) (r : Registry) : Type 0 where
  latest : r.drain_gen ≡ gen
  over : r.draining ≡ false
  gone : left_of gen r.running ≡ none

same_gen : (a b : ℕ) → (a == b) ≡ true → a ≡ b
same_gen a b e = ground arith

turn-IsEnded :
    (gen g : ℕ) (r : Registry) → IsEnded gen r → IsEnded gen (turn g (left_of g r.running) r)
unfolding turn
turn-IsEnded gen g r e = elim (Bool-cases (g == gen)) [
  | inl h ↦
      subst (λ x. IsEnded gen (turn x (left_of x r.running) r)) (sym (same_gen g gen h))
        (subst (λ o. IsEnded gen (turn gen o r)) (sym e.gone) e)
  | inr h ↦
      let o = other_turn gen g (left_of g r.running) r e.latest h in
      record { latest = o.0; over = o.1.1.0 ∙ e.over; gone = o.1.1.1.0 ∙ e.gone }
]

ended_stays :
    (gen : ℕ) (ss : List Step) (r : Registry)
    → Quiet ss
    → IsEnded gen r
    → (apply_steps ss r).draining ≡ false
unfolding apply_steps apply_step
ended_stays gen [] r q e = e.over
ended_stays gen (add t ∷ ss) r q e =
    ended_stays gen ss (apply_step (add t) r) q
      (record { latest = e.latest; over = e.over; gone = e.gone })
ended_stays gen (remove t ∷ ss) r q e =
    ended_stays gen ss (apply_step (remove t) r) q
      (record { latest = e.latest; over = e.over; gone = e.gone })
ended_stays gen (start targets ∷ ss) r q e = absurd q
ended_stays gen (close_all ∷ ss) r q e = absurd q
ended_stays gen (round g ∷ ss) r q e =
    ended_stays gen ss (run_round g r.running r) q
      (rw (run_round_lem g r.running r) (turn-IsEnded gen g r e))

-- The latest drain has `left` to close.
record IsLeft (gen : ℕ) (left : List ℕ) (r : Registry) : Type 0 where
  latest : r.drain_gen ≡ gen
  wanted : r.cancelled ≡ false
  still : left_of gen r.running ≡ some left

last_turn : (gen : ℕ) (r : Registry) → IsLeft gen [] r → IsEnded gen (advance gen [] r)
unfolding advance
last_turn gen r l = record {
  latest = l.latest;
  over = ground (arith, l.latest);
  gone = left_of-finished gen r.running;
}

next_turn :
    (gen s : ℕ) (left : List ℕ) (r : Registry)
    → IsLeft gen (s ∷ left) r
    → IsLeft gen left (advance gen (s ∷ left) r)
      × (was_closed s (advance gen (s ∷ left) r).closed ≡ true)
unfolding advance
next_turn gen s left r l =
    let t : (r.cancelled || not (r.drain_gen == gen)) ≡ false =
      ground (arith, l.wanted, l.latest) in
    rw t (
      record {
        latest = l.latest;
        wanted = l.wanted;
        still = left_of-set_own gen left (s ∷ left) r.running l.still;
      },
      ground arith,
    )

-- The steps end the drain, and close what it had left.
abbrev Closes : List Step → List ℕ → Registry → Type 0
Closes ss left r =
    ((apply_steps ss r).draining ≡ false)
    × All (λ s. was_closed s (apply_steps ss r).closed ≡ true) left

own_turn :
    (gen g : ℕ) (ss : List Step) (left : List ℕ) (r : Registry)
    → (g == gen) ≡ true
    → left_of gen r.running ≡ some left
    → Closes ss left (advance gen left r)
    → Closes ss left (run_round g r.running r)
unfolding turn
own_turn gen g ss left r h e c =
    subst (λ x. Closes ss left (run_round x r.running r)) (sym (same_gen g gen h))
      (subst (Closes ss left) (sym (run_round_lem gen r.running r))
        (subst (λ o. Closes ss left (turn gen o r)) (sym e) c))

drain_runs :
    (gen : ℕ) (ss : List Step) (left : List ℕ) (r : Registry)
    → Quiet ss
    → IsLeft gen left r
    → length left < rounds gen ss
    → Closes ss left r
unfolding apply_steps apply_step
drain_runs gen [] left r q l n = ground arith
drain_runs gen (add t ∷ ss) left r q l n =
    drain_runs gen ss left (apply_step (add t) r) q
      (record { latest = l.latest; wanted = l.wanted; still = l.still }) n
drain_runs gen (remove t ∷ ss) left r q l n =
    drain_runs gen ss left (apply_step (remove t) r) q
      (record { latest = l.latest; wanted = l.wanted; still = l.still }) n
drain_runs gen (start targets ∷ ss) left r q l n = absurd q
drain_runs gen (close_all ∷ ss) left r q l n = absurd q
drain_runs gen (round g ∷ ss) left r q l n = elim (Bool-cases (g == gen)) [
  | inr h ↦
      let o = other_turn gen g (left_of g r.running) r l.latest h in
      subst (Closes ss left) (sym (run_round_lem g r.running r)) (
        drain_runs gen ss left (turn g (left_of g r.running) r) q
          (record { latest = o.0; wanted = o.1.0 ∙ l.wanted; still = o.1.1.1.0 ∙ l.still })
          (ground arith))
  | inl h ↦ own_turn gen g ss left r h l.still (by_left (drain_runs gen ss) left l (ground arith))
]
  where
    by_left :
        ((rest : List ℕ) (x : Registry)
          → Quiet ss
          → IsLeft gen rest x
          → length rest < rounds gen ss
          → Closes ss rest x)
        → (rest : List ℕ) → IsLeft gen rest r
        → length rest ≤ rounds gen ss
        → Closes ss rest (advance gen rest r)
    by_left later [] m k = (ended_stays gen ss (advance gen [] r) q (last_turn gen r m), tt)
    by_left later (s ∷ rest) m k =
        let next = next_turn gen s rest r m in
        let c = later rest (advance gen (s ∷ rest) r) q next.0 (omega (arith, k)) in
        (c.0, (stays_closed ss (advance gen (s ∷ rest) r) s q next.1, c.1))

newer_absent :
    (p : ℕ → Bool) (top : ℕ) (ds : List Drain) → Wanted p top ds → left_of (top + 1) ds ≡ none
newer_absent p top [] h = refl
newer_absent p top (d ∷ ds) h = ground (arith, newer_absent p top ds h.1, h.0.0)

-- A drain that no other one replaces comes to its end: once its goroutine has had a turn for each
-- of its sessions and one more, whatever the others do in between, each of the sessions was closed
-- and no drain is in progress.
pub drain_ends :
    (before after : List Step) (targets : List ℕ)
    → Quiet after
    → let r = start_drain targets (apply_steps before empty) in
      length targets < rounds r.drain_gen after
      → ((apply_steps after r).draining ≡ false)
        × All (λ s. was_closed s (apply_steps after r).closed ≡ true) targets
unfolding start_drain
drain_ends before after [] q n =
    let r = apply_steps before empty in
    (
      ended_stays (r.drain_gen + 1) after (start_drain [] r) q (record {
        latest = refl;
        over = refl;
        gone = newer_absent any_session r.drain_gen r.running (reached-Wanted before empty tt);
      }),
      tt,
    )
drain_ends before after (t ∷ ts) q n =
    let r = apply_steps before empty in
    drain_runs (r.drain_gen + 1) after (t ∷ ts) (start_drain (t ∷ ts) r) q
      (record { latest = refl; wanted = refl; still = ground arith }) n
