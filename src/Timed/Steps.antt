-- ===== src/Timed/Steps.antt =====
-- internal/timed/timed.go and hunt.go: a step of the switcher.
use simple_mining_proxy.Base.{
  ℕ, ◌+◌, ◌-◌, Bool, true, false, ◌&&◌, ◌||◌, not, Option, none, some, List, [], Text, ltb, leb,
  ◌==◌, if◌then◌else◌, is_some, same,
}
use simple_mining_proxy.State.{find_pool}
use simple_mining_proxy.State.Store.{Store, mutate}
use simple_mining_proxy.Pools.Edit.{activate_file}
use simple_mining_proxy.Timed.{
  min_stint, pause_above, resume_below, timer, hunt, Away, Farm, View, period_start, timer_target,
  id_of, hardness_of,
}
use simple_mining_proxy.Timed.Hunt.{HuntView, hunt_view, wants, keeps}
use simple_mining_proxy.Timed.Stints.{
  is_hunt, same_order, save, ended, hand_over, finish, switch_failed, switch_done, begin_step,
  time_left,
}

-- The local variables of `step`: what hunting sees, whether the timer is on and whether time on its
-- target is due, the target, how much harder a block on it is, the period and the time left in it.
pub record Locals : Type 0 where
  pub h : HuntView
  pub on : Bool
  pub due : Bool
  pub tp : Text
  pub hard : ℕ
  pub period : ℕ
  pub left : ℕ

unfoldable pub locals : View → Farm → Locals
unfolding time_left begin_step
locals v w =
    let f = w.pools.cur in
    let tp = timer_target f.pools in
    let period = period_start v.now w.switcher.anchor v.timed_period in
    let on = v.timed_on && is_some tp in
    let h = hunt_view v f w.switcher.hunter in
    let s = begin_step period h w.switcher in
    let left = time_left v period s in
    record {
      h = h;
      on = on;
      due =
          on
          && (not s.done
              && (leb min_stint left && leb min_stint (period + v.timed_period - v.now)));
      tp = id_of tp;
      hard = hardness_of v on tp;
      period = period;
      left = left;
    }

module _ (parse_ip : Text → Bool) where
  -- `ActivateFor`, whether it succeeds; a check that fails leaves the pools.
  unfoldable pub activate_for : View → Text → Store → Store × Bool
  activate_for v id st =
      let done = mutate parse_ip v.state_written (activate_file id false false none) st in
      if v.accepted then (done.0, not (is_some done.1)) else (st, false)

  -- `Restore`, likewise.
  unfoldable pub restore : View → Text → List Text → Store → Store × Bool
  restore v id order st =
      let done = mutate parse_ip v.state_written (activate_file id true false (some order)) st in
      (done.0, not (is_some done.1))

  -- `leave`, for a record whose `home`, `fallback` and `set` are still to be filled in.
  unfoldable pub leave : View → Away → Farm → Farm
  unfolding save
  leave v a w =
      let f = w.pools.cur in
      let a = record a { home = f.active_pool; fallback = f.fallback_pools } in
      let s = save v (some a) w.switcher in
      let (pools, good) = activate_for v a.target w.pools in
      record {
        pools = pools;
        switcher =
            if good
            then save v (some (record a { set = pools.cur.fallback_pools }))
                (switch_done a.reason s)
            else save v none (switch_failed v a.reason s);
      }

  -- `back`
  unfoldable pub back : View → Away → Bool → Farm → Farm
  unfolding ended save
  back v a final w =
      let f = w.pools.cur in
      let s = w.switcher in
      if not (same f.active_pool a.target)
      then record w {
        switcher =
            save v none (ended v a true (record s { hunter = record s.hunter { hold = true } }));
      }
      else if not (is_some (find_pool f.pools a.home))
      then record w { switcher = save v none (ended v a true s) }
      else let order = if same_order f.fallback_pools a.set then a.fallback else f.fallback_pools in
        let (pools, good) = restore v a.home order w.pools in
        if good
        then record { pools = pools; switcher = save v none (ended v a final s) }
        else record { pools = pools; switcher = s }

  -- `maybeHunt`
  unfoldable pub maybe_hunt : View → HuntView → Farm → Farm
  unfolding leave
  maybe_hunt v h w =
      let f = w.pools.cur in
      if not (wants h v.now) || (same f.active_pool [] || same f.active_pool (id_of h.target))
      then w
      else leave v
          (record {
            reason = hunt;
            period = 0;
            since = v.now;
            target = id_of h.target;
            home = [];
            fallback = [];
            set = [];
          })
          w

  -- `stepHunt`
  unfoldable pub step_hunt : View → Away → HuntView → Bool → Text → ℕ → Farm → Farm
  unfolding back hand_over
  step_hunt v a h timer_due tp period w =
      if not (same w.pools.cur.active_pool a.target)
      then back v a true w
      else if timer_due && same tp a.target
      then record w { switcher = hand_over v a timer period w.switcher }
      else if timer_due
      then back v a true w
      else if not h.on || not (same a.target (id_of h.target))
      then back v a true w
      else if not h.live
      then back v a true w
      else if leb pause_above h.hard
      then back v a true w
      else w

  -- `step` while the farm is away on the timer.
  unfoldable pub step_away : View → Away → HuntView → Bool → Text → ℕ → ℕ → ℕ → Farm → Farm
  unfolding back hand_over save
  step_away v a h on tp hard period left w =
      let s = w.switcher in
      if not (same w.pools.cur.active_pool a.target)
      then back v a true w
      else if not (a.period == period) && (on && same a.target tp)
      then (if ltb hard pause_above
          then record w { switcher = save v (some (record a { period = period; since = v.now })) s }
          else back v a false w)
      else if not on || (not (same a.target tp) || (left == 0))
      then (if keeps h a then record w { switcher = hand_over v a hunt 0 s } else back v a true w)
      else if leb pause_above hard && leb min_stint left
      then back v a false w
      else w

  -- `step` while the farm is home; `due` says whether time on the target is left.
  unfoldable pub step_home : View → HuntView → Bool → Text → ℕ → ℕ → Farm → Farm
  unfolding finish leave maybe_hunt
  step_home v h due tp hard period w =
      let f = w.pools.cur in
      if due && leb hard resume_below
      then (if same f.active_pool [] || same f.active_pool tp
          then record w { switcher = finish v w.switcher }
          else leave v
              (record {
                reason = timer;
                period = period;
                since = v.now;
                target = tp;
                home = [];
                fallback = [];
                set = [];
              })
              w)
      else maybe_hunt v h (record w { switcher = record w.switcher { waiting = due } })

  -- The rest of `step`, for what the farm is away for.
  unfoldable pub act : View → Locals → Option Away → Farm → Farm
  unfolding step_away step_home step_hunt
  act v l none w = step_home v l.h l.due l.tp l.hard l.period w
  act v l (some a) w =
      if is_hunt a.reason
      then step_hunt v a l.h (l.due && leb l.hard resume_below) l.tp l.period w
      else step_away v a l.h l.on l.tp l.hard l.period l.left w

  -- `step`
  unfoldable pub step : View → Farm → Farm
  unfolding locals act
  step v w =
      let l = locals v w in
      let s = begin_step l.period l.h w.switcher in act v l s.cur (record w { switcher = s })
