-- ===== src/Drain/Replaced.antt =====
-- A drain that another one has replaced (internal/session/registry.go).
use simple_mining_proxy.Base.{
  ℕ, ◌+◌, ◌≤◌, ◌≡◌, refl, ◌∙◌, inl, inr, Bool, true, false, ◌||◌, not, Bool-cases, List, [], ◌∷◌,
  All, filter, arith, ◌==◌, if◌then◌else◌,
}
use simple_mining_proxy.Drain.{
  Drain, Registry, Step, add, remove, start, round, close_all, empty, start_drain, finish,
  set_targets, advance, run_round, close_sessions, apply_step, apply_steps,
}

-- `Close` was called on the session.
abbrev pub was_closed : ℕ → List ℕ → Bool
was_closed s [] = false
was_closed s (x ∷ xs) = if x == s then true else was_closed s xs

-- No drain that runs is newer than the latest one, and the latest wants only what passes `p`.
abbrev pub Wanted : (ℕ → Bool) → ℕ → List Drain → Type 0
Wanted p top [] = Unit
Wanted p top (d ∷ ds) =
    ((d.gen ≤ top) × (d.gen ≡ top → All (λ s. p s ≡ true) d.targets)) × Wanted p top ds

module _ (p : ℕ → Bool) (top : ℕ) where
  filter-Wanted :
      (q : Drain → Bool) (ds : List Drain) → Wanted p top ds → Wanted p top (filter q ds)
  filter-Wanted q [] h = tt
  filter-Wanted q (d ∷ ds) h = ground (arith, filter-Wanted q ds h.1)

  set_targets-Wanted :
      (gen : ℕ) (rest : List ℕ) (ds : List Drain)
      → (gen ≡ top → All (λ s. p s ≡ true) rest)
      → Wanted p top ds
      → Wanted p top (set_targets gen rest ds)
  set_targets-Wanted gen rest [] k h = tt
  set_targets-Wanted gen rest (d ∷ ds) k h =
      let later = set_targets-Wanted gen rest ds k h.1 in
      elim (Bool-cases (d.gen == gen)) [
        | inl e ↦ rw e ((h.0.0, λ t. k (omega (arith, same_gen d.gen gen e, t))), later)
        | inr e ↦ rw e (h.0, later)
      ]
    where
      same_gen : (a b : ℕ) → (a == b) ≡ true → a ≡ b
      same_gen a b e = ground arith

-- What a round keeps: the latest drain stays the latest, wants what it wanted, and a session that
-- does not pass `p` is not closed.
abbrev Keeps : (ℕ → Bool) → Registry → Registry → Type 0
Keeps p r next =
    (next.drain_gen ≡ r.drain_gen)
    × (Wanted p r.drain_gen next.running
        × ((s : ℕ) → p s ≡ false → was_closed s next.closed ≡ was_closed s r.closed))

module _ (p : ℕ → Bool) (r : Registry) (h : Wanted p r.drain_gen r.running) where
  finish-Keeps : (gen : ℕ) → Keeps p r (finish gen r)
  finish-Keeps gen =
      (refl, (filter-Wanted p r.drain_gen (λ d. not (d.gen == gen)) r.running h, λ s e. refl))

  advance-Keeps :
      (gen : ℕ) (targets : List ℕ)
      → (gen ≡ r.drain_gen → All (λ s. p s ≡ true) targets)
      → Keeps p r (advance gen targets r)
  unfolding advance
  advance-Keeps gen [] k = finish-Keeps gen
  advance-Keeps gen (s ∷ rest) k = elim (Bool-cases (r.cancelled || not (r.drain_gen == gen))) [
    | inl e ↦ rw e (finish-Keeps gen)
    | inr e ↦
        let latest : gen ≡ r.drain_gen = ground arith in
        rw e (
          refl,
          (
            set_targets-Wanted p r.drain_gen gen rest r.running (λ t. (k t).1) h,
            λ x n. ground (arith, (k latest).0),
          ),
        )
  ]

  run_round-Keeps :
      (gen : ℕ) (ds : List Drain) → Wanted p r.drain_gen ds → Keeps p r (run_round gen ds r)
  unfolding run_round
  run_round-Keeps gen [] w = (refl, (h, λ s e. refl))
  run_round-Keeps gen (d ∷ ds) w = elim (Bool-cases (d.gen == gen)) [
    | inl e ↦
        rw e (advance-Keeps gen d.targets (λ t. w.0.1 (omega (arith, same_gen d.gen gen e, t))))
    | inr e ↦ rw e (run_round-Keeps gen ds w.1)
  ]
    where
      same_gen : (a b : ℕ) → (a == b) ≡ true → a ≡ b
      same_gen a b e = ground arith

abbrev pub any_session : ℕ → Bool
any_session s = true

-- To a newer drain, those that run want nothing.
older-Wanted :
    (p q : ℕ → Bool) (gen : ℕ) (ds : List Drain) → Wanted q gen ds → Wanted p (gen + 1) ds
older-Wanted p q gen [] h = tt
older-Wanted p q gen (d ∷ ds) h =
    ((omega (arith, h.0.0), λ e. absurd (omega (arith, h.0.0, e))), older-Wanted p q gen ds h.1)

start-Wanted :
    (p q : ℕ → Bool) (targets : List ℕ) (r : Registry)
    → All (λ s. p s ≡ true) targets
    → Wanted q r.drain_gen r.running
    → Wanted p (start_drain targets r).drain_gen (start_drain targets r).running
unfolding start_drain
start-Wanted p q [] r a h = older-Wanted p q r.drain_gen r.running h
start-Wanted p q (t ∷ ts) r a h = ((omega arith, λ e. a), older-Wanted p q r.drain_gen r.running h)

-- Steps that start no drain and do not shut the registry down.
abbrev pub Quiet : List Step → Type 0
Quiet [] = Unit
Quiet (start targets ∷ ss) = ⊥
Quiet (close_all ∷ ss) = ⊥
Quiet (add s ∷ ss) = Quiet ss
Quiet (remove s ∷ ss) = Quiet ss
Quiet (round gen ∷ ss) = Quiet ss

unwanted_kept :
    (p : ℕ → Bool) (ss : List Step) (r : Registry)
    → Quiet ss
    → Wanted p r.drain_gen r.running
    → (s : ℕ) → p s ≡ false
    → was_closed s (apply_steps ss r).closed ≡ was_closed s r.closed
unfolding apply_steps apply_step
unwanted_kept p [] r q h s e = refl
unwanted_kept p (start targets ∷ ss) r q h s e = absurd q
unwanted_kept p (close_all ∷ ss) r q h s e = absurd q
unwanted_kept p (add t ∷ ss) r q h s e = unwanted_kept p ss (apply_step (add t) r) q h s e
unwanted_kept p (remove t ∷ ss) r q h s e = unwanted_kept p ss (apply_step (remove t) r) q h s e
unwanted_kept p (round gen ∷ ss) r q h s e =
    let k = run_round-Keeps p r h gen r.running h in
    unwanted_kept p ss (run_round gen r.running r) q (rw k.0 k.1.0) s e ∙ k.1.1 s e

pub reached-Wanted :
    (ss : List Step) (r : Registry)
    → Wanted any_session r.drain_gen r.running
    → Wanted any_session (apply_steps ss r).drain_gen (apply_steps ss r).running
unfolding apply_steps apply_step close_sessions
reached-Wanted [] r h = h
reached-Wanted (add s ∷ ss) r h = reached-Wanted ss (apply_step (add s) r) h
reached-Wanted (remove s ∷ ss) r h = reached-Wanted ss (apply_step (remove s) r) h
reached-Wanted (close_all ∷ ss) r h = reached-Wanted ss (close_sessions r) h
reached-Wanted (start targets ∷ ss) r h =
    reached-Wanted ss (start_drain targets r)
      (start-Wanted any_session any_session targets r (all_sessions targets) h)
  where
    all_sessions : (ts : List ℕ) → All (λ s. any_session s ≡ true) ts
    all_sessions [] = tt
    all_sessions (t ∷ ts) = (refl, all_sessions ts)
reached-Wanted (round gen ∷ ss) r h =
    let k = run_round-Keeps any_session r h gen r.running h in
    reached-Wanted ss (run_round gen r.running r) (rw k.0 k.1.0)

-- A new drain replaces the ones in progress: whatever went before, and however the goroutines of all
-- drains then take their turns until the next drain or the shutdown, no session is closed that the
-- filter of the new one keeps.
pub drain_replaces :
    (before after : List Step) (targets : List ℕ) (p : ℕ → Bool)
    → All (λ s. p s ≡ true) targets
    → Quiet after
    → (s : ℕ) → p s ≡ false
    → let r = start_drain targets (apply_steps before empty) in
      was_closed s (apply_steps after r).closed ≡ was_closed s r.closed
drain_replaces before after targets p a q =
    let r = apply_steps before empty in
    unwanted_kept p after (start_drain targets r) q
      (start-Wanted p any_session targets r a (reached-Wanted before empty tt))
