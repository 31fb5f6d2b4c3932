-- ===== src/Timed/Hunt.antt =====
-- internal/timed/hunt.go: the finished hunts, the pool to hunt on, and when hunting wants the farm.
use simple_mining_proxy.Base.{
  ℕ, ◌+◌, ◌*◌, ◌≤◌, Bool, false, ◌&&◌, ◌||◌, not, Option, none, some, List, [], ◌∷◌, ◌++◌, Text,
  txt, length, arith, ltb, leb, if◌then◌else◌, is_some, same,
}
use simple_mining_proxy.State.{Pool, File}
use simple_mining_proxy.Timed.{
  minute, pause_above, resume_below, Away, Stint, Hunter, View, id_of, hardness_of,
}

abbrev pub hunt_retry : ℕ
hunt_retry = 5 * minute

abbrev pub hunt_day : ℕ
hunt_day = 1440 * minute

abbrev pub max_stints : ℕ
max_stints = 1440

-- The coin of package rtt.
abbrev pub rtt_coin : Text
rtt_coin = txt "XEC"

-- `prune`
unfoldable pub prune_stints : ℕ → List Stint → List Stint
prune_stints now [] = []
prune_stints now (s ∷ ss) =
    if ltb (s.to + hunt_day) now || ltb max_stints (length (s ∷ ss))
    then prune_stints now ss
    else s ∷ ss

-- `record`
unfoldable pub record_stint : ℕ → ℕ → Hunter → Hunter
unfolding prune_stints
record_stint from to h = record h {
  stints = prune_stints to (h.stints ++ record { from = from; to = to } ∷ []);
}

abbrev pub can_hunt : Pool → Bool
can_hunt p = same p.coin rtt_coin && p.solo

-- `huntTarget`, from the pool that stands as `first`.
unfoldable pub hunt_target_from : Option Pool → List Pool → Option Pool
hunt_target_from first [] = first
hunt_target_from first (p ∷ ps) =
    if not (can_hunt p)
    then hunt_target_from first ps
    else if p.timed_target
    then some p
    else hunt_target_from (if is_some first then first else some p) ps

unfoldable pub hunt_target : List Pool → Option Pool
unfolding hunt_target_from
hunt_target ps = hunt_target_from none ps

pub record HuntView : Type 0 where
  pub on : Bool
  pub target : Option Pool
  pub hard : ℕ
  pub live : Bool
  pub hold : Bool
  pub retry : ℕ

abbrev pub live_of : View → Bool → Option Pool → Bool
live_of v on none = false
live_of v on (some p) = on && v.live p

-- `huntView`
abbrev pub hunt_view : View → File → Hunter → HuntView
hunt_view v f h =
    let p = hunt_target f.pools in
    let on = v.hunt_on && is_some p in
    record {
      on = on;
      target = p;
      hard = hardness_of v on p;
      live = live_of v on p;
      hold = h.hold;
      retry = h.retry;
    }

abbrev pub wants : HuntView → ℕ → Bool
wants h now = h.on && (h.live && (not h.hold && (leb h.retry now && leb h.hard resume_below)))

abbrev pub keeps : HuntView → Away → Bool
keeps h a =
    h.on && (h.live && (not h.hold && (same a.target (id_of h.target) && ltb h.hard pause_above)))

length-prune_stints : (now : ℕ) (ss : List Stint) → length (prune_stints now ss) ≤ max_stints
unfolding prune_stints
length-prune_stints now [] = omega arith
length-prune_stints now (s ∷ ss) = ground (arith, length-prune_stints now ss)

-- At most one finished hunt a minute of a day is kept.
pub record_stint_bounded :
    (from to : ℕ) (h : Hunter) → length (record_stint from to h).stints ≤ max_stints
unfolding record_stint
record_stint_bounded from to h =
    length-prune_stints to (h.stints ++ record { from = from; to = to } ∷ [])
