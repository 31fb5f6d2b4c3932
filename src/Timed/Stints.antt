-- ===== src/Timed/Stints.antt =====
-- internal/timed/timed.go: the bookkeeping of the stints, and `StartNow`.
use simple_mining_proxy.Base.{
  ℕ, ◌+◌, ◌-◌, Bool, true, false, ◌&&◌, ◌||◌, not, Option, none, some, List, [], ◌∷◌, Text, leb,
  ◌==◌, if◌then◌else◌, is_some, same,
}
use simple_mining_proxy.Timed.{
  pause_above, Reason, timer, hunt, Away, since_of, Switcher, Farm, View, timer_target, id_of,
}
use simple_mining_proxy.Timed.Hunt.{hunt_retry, record_stint, HuntView}

abbrev pub is_hunt : Reason → Bool
is_hunt timer = false
is_hunt hunt = true

-- `slices.Equal`
unfoldable pub same_order : List Text → List Text → Bool
same_order [] [] = true
same_order [] (y ∷ ys) = false
same_order (x ∷ xs) [] = false
same_order (x ∷ xs) (y ∷ ys) = same x y && same_order xs ys

-- `save`; a failed write leaves the file.
unfoldable pub save : View → Option Away → Switcher → Switcher
save v a s = record s {
  cur = a;
  file =
      if v.file_written
      then some (record {
        away = a;
        period = s.period;
        spent = s.spent;
        done = s.done;
        anchor = s.anchor;
      })
      else s.file;
}

-- `ended`
unfoldable pub ended : View → Away → Bool → Switcher → Switcher
ended v a final s =
    if is_hunt a.reason
    then record s { hunter = record_stint (since_of a) v.later s.hunter }
    else if a.period == s.period
    then record s { spent = s.spent + (v.later - since_of a); done = final || s.done }
    else s

-- `handOver`
unfoldable pub hand_over : View → Away → Reason → ℕ → Switcher → Switcher
unfolding ended save
hand_over v a reason period s =
    save v (some (record a { reason = reason; period = period; since = v.now })) (ended v a true s)

-- `finish`
unfoldable pub finish : View → Switcher → Switcher
unfolding save
finish v s = save v s.cur (record s { done = true })

-- What a failed switch leaves behind.
abbrev pub switch_failed : View → Reason → Switcher → Switcher
switch_failed v hunt s = record s {
  hunter = record s.hunter { failed = true; retry = v.later + hunt_retry };
}
switch_failed v timer s = record s { failed = true; done = true }

abbrev pub switch_done : Reason → Switcher → Switcher
switch_done hunt s = record s { hunter = record s.hunter { failed = false } }
switch_done timer s = s

-- The start of a step: a new period, and the end of a wait.
unfoldable pub begin_step : ℕ → HuntView → Switcher → Switcher
begin_step period h s =
    let s =
      if period == s.period
      then s
      else record s { period = period; spent = 0; done = false; failed = false } in
    record s {
      waiting = false;
      hunter = record s.hunter {
        hold = if not h.on || leb pause_above h.hard then false else s.hunter.hold;
      };
    }

-- The time on the target that is left in the period, 0 when it is used up.
unfoldable pub time_left : View → ℕ → Switcher → ℕ
time_left v period s = elim s.cur [
  | none ↦ v.timed_duration - s.spent
  | some a ↦
      if not (is_hunt a.reason) && (a.period == period)
      then v.timed_duration - s.spent - (v.now - since_of a)
      else v.timed_duration - s.spent
]

-- `StartNow` with the answer whether timed switching is on and has a pool.
unfoldable pub start_now : View → Farm → Farm × Bool
unfolding save ended
start_now v w =
    let tp = timer_target w.pools.cur.pools in
    let s = record w.switcher {
      anchor = v.now;
      period = v.now;
      spent = 0;
      done = false;
      failed = false;
    } in
    if not (v.timed_on && is_some tp) then (w, false) else (
      record w {
        switcher = elim s.cur [
          | none ↦ save v none s
          | some a ↦
              if not (is_hunt a.reason)
              then save v (some (record a { period = v.now; since = v.now })) s
              else if same a.target (id_of tp)
              then save v (some (record a { reason = timer; period = v.now; since = v.now }))
                  (ended v a true s)
              else save v (some a) s
        ];
      },
      true,
    )
