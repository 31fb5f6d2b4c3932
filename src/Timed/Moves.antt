-- ===== src/Timed/Moves.antt =====
-- When a step of the switcher moves the farm, and what it does after the operator has chosen another
-- pool by hand (internal/timed).
use simple_mining_proxy.Base.{
  ℕ, ◌≤◌, ◌≡◌, refl, sym, ap, subst, ◌∙◌, ◌≢◌, ◌⊎◌, inl, inr, Bool, true, false, Option, none, some,
  Option-cases, List, [], Text, leb, arith,
}
use simple_mining_proxy.State.{Pool, File}
use simple_mining_proxy.State.Store.{Store, mutate}
use simple_mining_proxy.State.Atomic.{mutate_atomic}
use simple_mining_proxy.Pools.Edit.{activate_file, switched}
use simple_mining_proxy.Pools.Switching.{activate_file-ok}
use simple_mining_proxy.Timed.{
  resume_below, timer, hunt, Away, Switcher, Farm, View, timer_target, id_of,
}
use simple_mining_proxy.Timed.Hunt.{hunt_target, HuntView, wants, record_stint}
use simple_mining_proxy.Timed.Stints.{save, ended, begin_step}
use simple_mining_proxy.Timed.Steps.{
  activate_for, restore, leave, back, maybe_hunt, step_hunt, step_away, step_home, act, step,
  Locals, locals,
}

switched_active :
    (id : Text) (fallback : Option (List Text)) (f : File)
    → (switched id fallback f).active_pool ≡ id
unfolding switched
switched_active id none f = refl
switched_active id (some given) f = refl

module _ (parse_ip : Text → Bool) (v : View) where
  switch_active :
      (id : Text) (force : Bool) (fallback : Option (List Text)) (st : Store)
      → let done = mutate parse_ip v.state_written (activate_file id force false fallback) st in
        (done.0 ≡ st) ⊎ (done.0.cur.active_pool ≡ id)
  switch_active id force fallback st =
      elim (mutate_atomic parse_ip v.state_written (activate_file id force false fallback) st) [
        | inl (n, e) ↦ inl e
        | inr (g, f, i, p, e) ↦
            let ok = activate_file-ok id force false fallback st.cur f in
            inr (
              ap (λ d. d.0.cur.active_pool) e
              ∙ sym (ap (λ x. x.active_pool) ok.1)
              ∙ switched_active id fallback st.cur)
      ]

  leave_active :
      (a : Away) (w : Farm)
      → ((leave parse_ip v a w).pools ≡ w.pools)
        ⊎ ((leave parse_ip v a w).pools.cur.active_pool ≡ a.target)
  unfolding leave activate_for
  leave_active a w = ground (arith, switch_active a.target false none w.pools)

  back_active :
      (a : Away) (final : Bool) (w : Farm)
      → ((back parse_ip v a final w).pools ≡ w.pools)
        ⊎ ((w.pools.cur.active_pool ≡ a.target)
            × ((back parse_ip v a final w).pools.cur.active_pool ≡ a.home))
  unfolding back restore
  back_active a final w =
      let kept = switch_active a.home true (some a.fallback) w.pools in
      let newer = switch_active a.home true (some w.pools.cur.fallback_pools) w.pools in
      ground (arith, kept, newer)

  -- The pool that the timer or hunting may move the farm to: a block is easy enough on it.
  abbrev pub Goes : Farm → Text → Type 0
  Goes w id =
      (p : Pool) × ((timer_target w.pools.cur.pools ≡ some p)
        ⊎ (hunt_target w.pools.cur.pools ≡ some p))
      × (p.id ≡ id)
      × (v.hardness p ≤ resume_below)

  timer_easy :
      (w : Farm)
      → (locals v w).due ≡ true
      → leb (locals v w).hard resume_below ≡ true
      → Goes w (locals v w).tp
  unfolding locals
  timer_easy w d e = elim (Option-cases (timer_target w.pools.cur.pools)) [
    | inl n ↦ absurd (ground (arith, n))
    | inr (p, t) ↦ (p, inl t, ground (arith, t), ground (arith, t))
  ]

  hunt_easy : (w : Farm) → wants (locals v w).h v.now ≡ true → Goes w (id_of (locals v w).h.target)
  unfolding locals
  hunt_easy w e = elim (Option-cases (hunt_target w.pools.cur.pools)) [
    | inl n ↦ absurd (ground (arith, n))
    | inr (p, t) ↦ (p, inr t, ground (arith, t), ground (arith, t))
  ]

  maybe_hunt_active :
      (h : HuntView) (w : Farm)
      → ((maybe_hunt parse_ip v h w).pools ≡ w.pools)
        ⊎ ((wants h v.now ≡ true)
            × ((maybe_hunt parse_ip v h w).pools.cur.active_pool ≡ id_of h.target))
  unfolding maybe_hunt
  maybe_hunt_active h w =
      let gone =
        leave_active
          (record {
            reason = hunt;
            period = 0;
            since = v.now;
            target = id_of h.target;
            home = [];
            fallback = [];
            set = [];
          })
          w in
      ground (arith, gone)

  step_home_active :
      (h : HuntView) (due : Bool) (tp : Text) (hard period : ℕ) (w : Farm)
      → ((step_home parse_ip v h due tp hard period w).pools ≡ w.pools)
        ⊎ (((due ≡ true)
              × (leb hard resume_below ≡ true)
              × ((step_home parse_ip v h due tp hard period w).pools.cur.active_pool ≡ tp))
            ⊎ ((wants h v.now ≡ true)
                × ((step_home parse_ip v h due tp hard period w).pools.cur.active_pool
                    ≡ id_of h.target)))
  unfolding step_home
  step_home_active h due tp hard period w =
      let gone =
        leave_active
          (record {
            reason = timer;
            period = period;
            since = v.now;
            target = tp;
            home = [];
            fallback = [];
            set = [];
          })
          w in
      let hunts =
        maybe_hunt_active h (record w { switcher = record w.switcher { waiting = due } }) in
      ground (arith, gone, hunts)

  away_active :
      (l : Locals) (a : Away) (w : Farm)
      → ((act parse_ip v l (some a) w).pools ≡ w.pools)
        ⊎ ((w.pools.cur.active_pool ≡ a.target)
            × ((act parse_ip v l (some a) w).pools.cur.active_pool ≡ a.home))
  unfolding act step_hunt step_away
  away_active l a w = ground (arith, back_active a true w, back_active a false w)

  begin_step_cur : (period : ℕ) (h : HuntView) (s : Switcher) → (begin_step period h s).cur ≡ s.cur
  unfolding begin_step
  begin_step_cur period h s = ground arith

  -- How the pools come out of a step: as they were, or with the farm gone to a pool where a block
  -- is easy enough, or back from the pool of a stint to where it came from.
  abbrev pub Moved : Farm → Option Away → Store → Type 0
  Moved w cur st =
      (st ≡ w.pools)
      ⊎ (((cur ≡ none) × Goes w st.cur.active_pool)
          ⊎ ((a : Away) × (cur ≡ some a)
              × (w.pools.cur.active_pool ≡ a.target)
              × (st.cur.active_pool ≡ a.home)))

  act_moves :
      (w : Farm) (cur : Option Away) (s : Switcher)
      → Moved w cur (act parse_ip v (locals v w) cur (record w { switcher = s })).pools
  unfolding act
  act_moves w none s =
      let l = locals v w in
      let home = step_home_active l.h l.due l.tp l.hard l.period (record w { switcher = s }) in
      elim home [
        | inl e ↦ inl e
        | inr (inl (d, e, t)) ↦ inr (inl (refl, subst (Goes w) (sym t) (timer_easy w d e)))
        | inr (inr (e, t)) ↦ inr (inl (refl, subst (Goes w) (sym t) (hunt_easy w e)))
      ]
  act_moves w (some a) s = elim (away_active (locals v w) a (record w { switcher = s })) [
    | inl e ↦ inl e
    | inr (e, t) ↦ inr (inr (a, refl, e, t))
  ]

  -- A step leaves the pools as they are, or moves the farm: from home to the pool of the timer or
  -- of hunting, where a block is at most 1.2 times harder than its header says, or from the pool
  -- of a stint, if it is still the active one, back to the pool it came from.
  pub step_moves : (w : Farm) → Moved w w.switcher.cur (step parse_ip v w).pools
  unfolding step
  step_moves w =
      let l = locals v w in
      let s = begin_step l.period l.h w.switcher in
      subst (λ cur. Moved w cur (act parse_ip v l s.cur (record w { switcher = s })).pools)
        (begin_step_cur l.period l.h w.switcher) (act_moves w s.cur s)

  back_override :
      (a : Away) (final : Bool) (w : Farm)
      → w.pools.cur.active_pool ≢ a.target
      → let after = back parse_ip v a final w in
        (after.pools ≡ w.pools)
        × ((after.switcher.cur ≡ none) × (after.switcher.hunter.hold ≡ true))
  unfolding back save ended record_stint
  back_override a final w n = ground arith

  act_override :
      (l : Locals) (a : Away) (w : Farm)
      → w.pools.cur.active_pool ≢ a.target
      → let after = act parse_ip v l (some a) w in
        (after.pools ≡ w.pools)
        × ((after.switcher.cur ≡ none) × (after.switcher.hunter.hold ≡ true))
  unfolding act step_hunt step_away
  act_override l a w n = ground (arith, back_override a true w n)

  -- The operator's own choice wins: when the active pool is not the one that the farm was moved to,
  -- the step leaves the pools as they are, forgets the way back and holds hunting off.
  pub step_override :
      (w : Farm) (a : Away)
      → w.switcher.cur ≡ some a
      → w.pools.cur.active_pool ≢ a.target
      → let after = step parse_ip v w in
        (after.pools ≡ w.pools)
        × ((after.switcher.cur ≡ none) × (after.switcher.hunter.hold ≡ true))
  unfolding step
  step_override w a e n =
      let l = locals v w in
      let s = begin_step l.period l.h w.switcher in
      subst
        (λ cur.
          let after = act parse_ip v l cur (record w { switcher = s }) in
          (after.pools ≡ w.pools)
          × ((after.switcher.cur ≡ none) × (after.switcher.hunter.hold ≡ true)))
        (sym (begin_step_cur l.period l.h w.switcher ∙ e))
        (act_override l a (record w { switcher = s }) n)
