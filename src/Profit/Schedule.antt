-- ===== src/Profit/Schedule.antt =====
-- internal/profit/switcher.go: when a check runs, and what it changes.
use simple_mining_proxy.Base.{
  ℕ, ◌+◌, ◌*◌, ◌≤◌, ◌<◌, ◌≡◌, refl, Bool, true, false, ◌&&◌, ◌||◌, not, ◌⊎◌, Option, none, some, [],
  Text, same, arith, ltb, leb, ◌==◌, if◌then◌else◌,
}
use simple_mining_proxy.Health.{Health}
use simple_mining_proxy.Routing.{Snapshot}
use simple_mining_proxy.Profit.{
  Market, Decision, no_data, recommend, switched, switch_failed, return_home, returned, Report,
  decide,
}

abbrev pub second : ℕ
second = 1000000000

abbrev pub cache_for : ℕ
cache_for = 600 * second

abbrev pub start_delay : ℕ
start_delay = 120 * second

-- The modes of the setting `profit_switch`.
pub data ProfitMode : Type 0 where
  mode_off mode_advise mode_auto : ProfitMode

-- What the code reads of the settings.
pub record Values : Type 0 where
  pub mode : ProfitMode
  pub interval : ℕ
  pub margin : ℕ
  pub return_margin : ℕ

-- The schedule and the data of a `Switcher`; 0 is the zero time.
pub record Switcher : Type 0 where
  pub started : ℕ
  pub last_run : ℕ
  pub report : Option Report
  pub market : Option Market

-- `nextRunLocked`
unfoldable pub next_run : Values → Switcher → ℕ
next_run v s =
    let next = if s.last_run == 0 then 0 else s.last_run + v.interval in
    if not (s.started == 0) && ltb next (s.started + start_delay)
    then s.started + start_delay
    else next

abbrev pub is_off : ProfitMode → Bool
is_off mode_off = true
is_off m = false

abbrev pub is_auto : ProfitMode → Bool
is_auto mode_auto = true
is_auto m = false

-- `due`; the text is the pool that timed switching returns to.
unfoldable pub due : Values → Text → ℕ → Switcher → Bool
unfolding next_run
due v timed_home now s =
    if is_off v.mode || not (same timed_home []) then false else leb (next_run v s) now

-- `marketData`: the cached market while it is fresh, else what the fetch gives.
abbrev pub fetch_market : Option Market → Option Market → Option Market × Option Market
fetch_market old none = (none, old)
fetch_market old (some m) = (some m, some m)

unfoldable pub market_data : ℕ → Option Market → Option Market → Option Market × Option Market
market_data now fetched none = fetch_market none fetched
market_data now fetched (some m) =
    if ltb now (m.fetched + cache_for) then (some m, some m) else fetch_market (some m) fetched

abbrev pub moves : Decision → Bool
moves recommend = true
moves return_home = true
moves d = false

abbrev pub done : Decision → Decision
done return_home = returned
done d = switched

-- The switch, if the check makes it; the Boolean says whether `ActivateFor` works.
abbrev pub after_switch : Bool → Report → Report
after_switch activated r =
    if activated
    then record r { decision = done r.decision }
    else record r { decision = switch_failed }

abbrev pub fresh_report : Values → Bool → ℕ → Report
fresh_report v scheduled now = record {
  at = now;
  scheduled = scheduled;
  margin = v.margin;
  return_margin = v.return_margin;
  active = [];
  active_coin = [];
  best = [];
  decision = no_data;
  target = [];
  home = [];
  home_coin = [];
}

-- The report of a check, and the pool that it asks the manager to activate, if any.
abbrev pub examine :
    Values → Bool → Bool → Health → Snapshot → Text → Option Market → Report → Report × Option Text
examine v scheduled activated h s timed_home none r = (r, none)
examine v scheduled activated h s timed_home (some m) r =
    let d = decide h s m timed_home r in
    if scheduled && (moves d.decision && is_auto v.mode)
    then (after_switch activated d, some d.target)
    else (d, none)

-- `Check`, with what the fetch gives and whether an activation works.
unfoldable pub check_profit :
    Values
    → Bool
    → Bool
    → ℕ
    → Health
    → Snapshot
    → Text
    → Option Market
    → Switcher
    → (Switcher × Report) × Option Text
unfolding market_data
check_profit v scheduled activated now h s timed_home fetched w =
    let (market, cache) = market_data now fetched w.market in
    let (rep, asked) =
      examine v scheduled activated h s timed_home market (fresh_report v scheduled now) in
    (
      (
        record w {
          market = cache;
          report = some rep;
          last_run = if scheduled then now else w.last_run;
        },
        rep,
      ),
      asked,
    )

-- A scheduled check runs at least the interval of the settings after the last one, and never in the
-- two minutes after a start; a check by hand changes neither.
pub due_spaced :
    (v v' : Values) (activated : Bool) (now later : ℕ) (h : Health) (s : Snapshot)
    (timed_home timed_home' : Text) (fetched : Option Market) (w : Switcher)
    → 0 < now
    → let after = (check_profit v true activated now h s timed_home fetched w).0.0 in
      let by_hand = (check_profit v false activated now h s timed_home fetched w).0.0 in
      (due v' timed_home' later after ≡ true
        → (now + v'.interval ≤ later) × (0 < w.started → w.started + start_delay ≤ later))
      × (due v' timed_home' later by_hand ≡ due v' timed_home' later w)
unfolding check_profit due next_run market_data
due_spaced v v' activated now later h s timed_home timed_home' fetched w p =
    (λ e. (ground arith, λ q. ground arith), ground arith)

examine_quiet :
    (v : Values) (scheduled activated : Bool) (h : Health) (s : Snapshot) (timed_home : Text)
    (m : Option Market) (r : Report)
    → (scheduled ≡ false) ⊎ (is_auto v.mode ≡ false)
    → (examine v scheduled activated h s timed_home m r).1 ≡ none
examine_quiet v scheduled activated h s timed_home none r q = refl
examine_quiet v scheduled activated h s timed_home (some m) r q = ground (arith, q)

-- Only a scheduled check in auto mode asks for a switch: a check by hand, and any check in advise
-- mode, leaves the pools alone.
pub check_profit_quiet :
    (v : Values) (scheduled activated : Bool) (now : ℕ) (h : Health) (s : Snapshot)
    (timed_home : Text) (fetched : Option Market) (w : Switcher)
    → (scheduled ≡ false) ⊎ (is_auto v.mode ≡ false)
    → (check_profit v scheduled activated now h s timed_home fetched w).1 ≡ none
unfolding check_profit
check_profit_quiet v scheduled activated now h s timed_home fetched w q =
    examine_quiet v scheduled activated h s timed_home (market_data now fetched w.market).0
      (fresh_report v scheduled now) q
