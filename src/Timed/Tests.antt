-- ===== src/Timed/Tests.antt =====
-- A farm that goes to the pool b for the timer, and back to a (internal/timed).
use simple_mining_proxy.Base.{
  ◌*◌, ◌≤◌, ◌≡◌, refl, true, none, some, [], ◌∷◌, txt, text_eq, length, arith, to_lower, without,
}
use simple_mining_proxy.State.{addr_string, digits_from, find_pool}
use simple_mining_proxy.State.Fields.{
  valid_pool_id, rune_count, host_error, addresses_loop, addresses_error, pool_field_errors,
}
use simple_mining_proxy.State.Store.{
  mutate, check, check_pools, pool_error, active_error, check_fallback, fallback_error,
}
use simple_mining_proxy.State.Tests.{no_ip, sample, sample-IsValid}
use simple_mining_proxy.Pools.Edit.{activate_file, switched, rotated}
use simple_mining_proxy.Timed.{
  minute, timer, Away, Farm, View, no_hunter, new_switcher, period_start, timer_target,
}
use simple_mining_proxy.Timed.Hunt.{
  record_stint, max_stints, record_stint_bounded, hunt_target, hunt_target_from,
}
use simple_mining_proxy.Timed.Stints.{save, begin_step, time_left}
use simple_mining_proxy.Timed.Steps.{step, act, locals, step_home, leave, back, activate_for}
use simple_mining_proxy.Timed.Moves.{Moved, step_moves, step_override}
use simple_mining_proxy.Timed.Return.{back-leave}

abbrev view : View
view = record {
  timed_on = true;
  hunt_on = true;
  timed_period = 30 * minute;
  timed_duration = 10 * minute;
  now = 60 * minute;
  later = 60 * minute;
  hardness = λ p. 1000;
  live = λ p. true;
  accepted = true;
  state_written = true;
  file_written = true;
}

abbrev home : Farm
home = record { pools = record { disk = some sample; cur = sample }; switcher = new_switcher none }

abbrev stint : Away
stint = record {
  reason = timer;
  period = 60 * minute;
  since = 60 * minute;
  target = txt "b";
  home = txt "a";
  fallback = txt "b" ∷ [];
  set = txt "a" ∷ [];
}

-- The timer is due on the pool b.
goes : (step no_ip view home).switcher.cur ≡ some stint
unfolding step act locals step_home leave activate_for new_switcher begin_step time_left
    period_start timer_target hunt_target hunt_target_from save mutate check check_pools pool_error
    active_error check_fallback fallback_error activate_file switched rotated find_pool text_eq
    valid_pool_id rune_count host_error addresses_loop addresses_error pool_field_errors addr_string
    to_lower digits_from without
goes = refl

step_moves_example : Moved no_ip view home home.switcher.cur (step no_ip view home).pools
step_moves_example = step_moves no_ip view home

-- The farm is thought to be on b, and the operator has gone back to a.
abbrev overridden : Farm
overridden = record home { switcher = record home.switcher { cur = some stint } }

step_override_example :
    ((step no_ip view overridden).pools ≡ overridden.pools)
    × (((step no_ip view overridden).switcher.cur ≡ none)
        × ((step no_ip view overridden).switcher.hunter.hold ≡ true))
step_override_example = step_override no_ip view overridden stint refl (ground arith)

abbrev going : Away
going = record stint { home = []; fallback = []; set = [] }

left : (leave no_ip view going home).switcher.cur ≡ some stint
unfolding leave activate_for new_switcher save mutate check check_pools pool_error active_error
    check_fallback fallback_error activate_file switched rotated find_pool text_eq valid_pool_id
    rune_count host_error addresses_loop addresses_error pool_field_errors addr_string to_lower
    digits_from without
left = refl

back-leave_example :
    ((back no_ip view stint true (leave no_ip view going home)).pools.cur ≡ sample)
    × ((back no_ip view stint true (leave no_ip view going home)).switcher.cur ≡ none)
back-leave_example =
    back-leave no_ip view view going stint true home sample-IsValid (ground arith) refl left

record_stint_bounded_example : length (record_stint 1 2 no_hunter).stints ≤ max_stints
record_stint_bounded_example = record_stint_bounded 1 2 no_hunter
