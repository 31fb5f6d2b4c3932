-- ===== src/Timed/Restart.antt =====
-- What the file of the switcher holds after a step (internal/timed).
use simple_mining_proxy.Base.{
  ℕ, ◌≡◌, Bool, true, false, ◌&&◌, Option, none, some, [], Text, leb, arith,
}
use simple_mining_proxy.Timed.{
  resume_below, Reason, timer, hunt, Away, Saved, Switcher, Farm, View, id_of,
}
use simple_mining_proxy.Timed.Hunt.{HuntView}
use simple_mining_proxy.Timed.Stints.{save, ended, hand_over, finish, begin_step}
use simple_mining_proxy.Timed.Steps.{
  leave, back, maybe_hunt, step_hunt, step_away, step_home, act, step, Locals, locals,
}

-- What the file says of the farm.
abbrev pub saved_away : Option Saved → Option Away
saved_away none = none
saved_away (some st) = st.away

abbrev pub IsSaved : Switcher → Type 0
IsSaved s = saved_away s.file ≡ s.cur

save-IsSaved :
    (v : View) (a : Option Away) (s : Switcher) → v.file_written ≡ true → IsSaved (save v a s)
unfolding save
save-IsSaved v a s w = ground arith

ended-IsSaved :
    (v : View) (a : Away) (final : Bool) (s : Switcher) → IsSaved s → IsSaved (ended v a final s)
unfolding ended
ended-IsSaved v a final s h = ground arith

module _ (parse_ip : Text → Bool) (v : View) (w : v.file_written ≡ true) where
  leave-IsSaved : (a : Away) (farm : Farm) → IsSaved (leave parse_ip v a farm).switcher
  unfolding leave save
  leave-IsSaved a farm = ground arith

  back-IsSaved :
      (a : Away) (final : Bool) (farm : Farm)
      → IsSaved farm.switcher
      → IsSaved (back parse_ip v a final farm).switcher
  unfolding back save
  back-IsSaved a final farm h = ground arith

  hand_over-IsSaved :
      (a : Away) (r : Reason) (period : ℕ) (s : Switcher) → IsSaved (hand_over v a r period s)
  unfolding hand_over save
  hand_over-IsSaved a r period s = ground arith

  renew-IsSaved : (a : Option Away) (s : Switcher) → IsSaved (save v a s)
  renew-IsSaved a s = save-IsSaved v a s w

  maybe_hunt-IsSaved :
      (h : HuntView) (farm : Farm)
      → IsSaved farm.switcher
      → IsSaved (maybe_hunt parse_ip v h farm).switcher
  unfolding maybe_hunt
  maybe_hunt-IsSaved h farm k =
      let gone =
        leave-IsSaved
          (record {
            reason = hunt;
            period = 0;
            since = v.now;
            target = id_of h.target;
            home = [];
            fallback = [];
            set = [];
          })
          farm in
      ground (arith, gone)

  step_hunt-IsSaved :
      (a : Away) (h : HuntView) (due : Bool) (tp : Text) (period : ℕ) (farm : Farm)
      → IsSaved farm.switcher
      → IsSaved (step_hunt parse_ip v a h due tp period farm).switcher
  unfolding step_hunt
  step_hunt-IsSaved a h due tp period farm k =
      let home = back-IsSaved a true farm k in
      let stays = hand_over-IsSaved a timer period farm.switcher in ground (arith, home, stays)

  step_away-IsSaved :
      (a : Away) (h : HuntView) (on : Bool) (tp : Text) (hard period left : ℕ) (farm : Farm)
      → IsSaved farm.switcher
      → IsSaved (step_away parse_ip v a h on tp hard period left farm).switcher
  unfolding step_away
  step_away-IsSaved a h on tp hard period left farm k =
      let home = back-IsSaved a true farm k in
      let pause = back-IsSaved a false farm k in
      let stays = hand_over-IsSaved a hunt 0 farm.switcher in
      let renewed =
        renew-IsSaved (some (record a { period = period; since = v.now })) farm.switcher in
      ground (arith, home, pause, stays, renewed)

  step_home-IsSaved :
      (h : HuntView) (due : Bool) (tp : Text) (hard period : ℕ) (farm : Farm)
      → IsSaved farm.switcher
      → IsSaved (step_home parse_ip v h due tp hard period farm).switcher
  unfolding step_home finish save
  step_home-IsSaved h due tp hard period farm k =
      let gone =
        leave-IsSaved
          (record {
            reason = timer;
            period = period;
            since = v.now;
            target = tp;
            home = [];
            fallback = [];
            set = [];
          })
          farm in
      let hunts =
        maybe_hunt-IsSaved h (record farm { switcher = record farm.switcher { waiting = due } })
          k in
      ground (arith, gone, hunts)

  begin_step-IsSaved :
      (period : ℕ) (h : HuntView) (s : Switcher) → IsSaved s → IsSaved (begin_step period h s)
  unfolding begin_step
  begin_step-IsSaved period h s k = ground arith

  act-IsSaved :
      (l : Locals) (cur : Option Away) (farm : Farm)
      → IsSaved farm.switcher
      → IsSaved (act parse_ip v l cur farm).switcher
  unfolding act
  act-IsSaved l none farm k = step_home-IsSaved l.h l.due l.tp l.hard l.period farm k
  act-IsSaved l (some a) farm k =
      let hunts = step_hunt-IsSaved a l.h (l.due && leb l.hard resume_below) l.tp l.period farm k in
      let times = step_away-IsSaved a l.h l.on l.tp l.hard l.period l.left farm k in
      ground (arith, hunts, times)

  -- When its file can be written, the file tells after every step where the farm has to return to,
  -- if it did before: a restart finds the way home.
  pub step-IsSaved : (farm : Farm) → IsSaved farm.switcher → IsSaved (step parse_ip v farm).switcher
  unfolding step
  step-IsSaved farm k =
      let l = locals v farm in
      let s = begin_step l.period l.h farm.switcher in
      act-IsSaved l s.cur (record farm { switcher = s })
        (begin_step-IsSaved l.period l.h farm.switcher k)
