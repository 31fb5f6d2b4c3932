-- ===== src/Timed.antt =====
-- internal/timed: the state of timed switching and block hunting. Times are nanoseconds, 0 is Go's
-- zero time and the clock does not go back; how much harder a block is counts in thousandths.
pub mod Hunt
pub mod Stints
pub mod Steps
pub mod Return
pub mod Restart
pub mod Moves
mod Tests
use simple_mining_proxy.Base.{
  ℕ, ◌+◌, ◌-◌, ◌*◌, ◌%◌, Bool, true, false, ◌&&◌, ◌||◌, not, Option, none, some, List, [], ◌∷◌,
  Text, txt, ltb, leb, ◌==◌, if◌then◌else◌, same,
}
use simple_mining_proxy.State.{Pool, File}
use simple_mining_proxy.State.Store.{Store}

abbrev pub minute : ℕ
minute = 60000000000

abbrev pub min_stint : ℕ
min_stint = minute

abbrev pub pause_above : ℕ
pause_above = 2000

abbrev pub resume_below : ℕ
resume_below = 1200

pub data Reason : Type 0 where
  timer hunt : Reason

-- A switch that is to be undone; `set` is the fallback order right after it, empty before.
pub record Away : Type 0 where
  pub reason : Reason
  pub period : ℕ
  pub since : ℕ
  pub target : Text
  pub home : Text
  pub fallback : List Text
  pub set : List Text

-- `since`
abbrev pub since_of : Away → ℕ
since_of a = if a.since == 0 then a.period else a.since

pub record Stint : Type 0 where
  pub from : ℕ
  pub to : ℕ

pub record Hunter : Type 0 where
  pub hold : Bool
  pub retry : ℕ
  pub failed : Bool
  pub stints : List Stint

-- The file; `spent` is in nanoseconds here.
pub record Saved : Type 0 where
  pub away : Option Away
  pub period : ℕ
  pub spent : ℕ
  pub done : Bool
  pub anchor : ℕ

-- The switcher; `failed` says whether `lastErr` is set, and `file` is what was last written.
pub record Switcher : Type 0 where
  pub anchor : ℕ
  pub cur : Option Away
  pub period : ℕ
  pub spent : ℕ
  pub done : Bool
  pub waiting : Bool
  pub failed : Bool
  pub hunter : Hunter
  pub file : Option Saved

abbrev pub no_hunter : Hunter
no_hunter = record { hold = false; retry = 0; failed = false; stints = [] }

abbrev pub period_or : ℕ → Option Away → ℕ
period_or p none = p
period_or p (some a) = if p == 0 then a.period else p

-- `New`: what it could read and decode.
unfoldable pub new_switcher : Option Saved → Switcher
new_switcher none = record {
  anchor = 0;
  cur = none;
  period = 0;
  spent = 0;
  done = false;
  waiting = false;
  failed = false;
  hunter = no_hunter;
  file = none;
}
new_switcher (some st) = record {
  anchor = st.anchor;
  cur = st.away;
  period = period_or st.period st.away;
  spent = st.spent;
  done = st.done;
  waiting = false;
  failed = false;
  hunter = no_hunter;
  file = some st;
}

-- The farm: the pools and the switcher.
pub record Farm : Type 0 where
  pub pools : Store
  pub switcher : Switcher

-- What a step sees of its surroundings: the settings, the clock at its start and at its end, what
-- `Deps` tells of a pool's chain, whether the pool check of `ActivateFor` passes, and whether
-- state.json and the switcher's file can be written. Nothing else happens during a step.
pub record View : Type 0 where
  pub timed_on : Bool
  pub hunt_on : Bool
  pub timed_period : ℕ
  pub timed_duration : ℕ
  pub now : ℕ
  pub later : ℕ
  pub hardness : Pool → ℕ
  pub live : Pool → Bool
  pub accepted : Bool
  pub state_written : Bool
  pub file_written : Bool

-- `Truncate`
abbrev pub truncate : ℕ → ℕ → ℕ
truncate t d = if d == 0 then t else t - t % d

-- `periodStart`
unfoldable pub period_start : ℕ → ℕ → ℕ → ℕ
period_start now anchor period =
    if (anchor == 0) || ltb now anchor
    then truncate now period
    else anchor + truncate (now - anchor) period

-- `target`
unfoldable pub timer_target : List Pool → Option Pool
timer_target [] = none
timer_target (p ∷ ps) = if p.timed_target then some p else timer_target ps

abbrev pub id_of : Option Pool → Text
id_of none = []
id_of (some p) = p.id

abbrev pub hardness_of : View → Bool → Option Pool → ℕ
hardness_of v on none = 1000
hardness_of v on (some p) = if on then v.hardness p else 1000
