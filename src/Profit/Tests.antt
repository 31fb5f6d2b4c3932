-- ===== src/Profit/Tests.antt =====
-- Runs of internal/profit/switcher.go on a concrete market.
use simple_mining_proxy.Base.{
  ◌*◌, ◌≡◌, refl, ap, true, false, Option, none, some, [], ◌∷◌, Text, txt, text_eq, lookup, insert,
  arith,
}
use simple_mining_proxy.State.{Pool, find_pool}
use simple_mining_proxy.State.Tests.{pool_a}
use simple_mining_proxy.Health.{Health}
use simple_mining_proxy.Routing.{Snapshot, pool_is_down}
use simple_mining_proxy.Profit.{
  Coin, Market, best, away_stay, no_data, Report, decide, conclude, best_coin, by_coin, main_pool,
  pick_pool, first_up,
}
use simple_mining_proxy.Settings.{amount}
use simple_mining_proxy.Settings.Registry.{defs, find_def, defaults}
use simple_mining_proxy.Settings.Tests.{defaults-IsAgreed}
use simple_mining_proxy.Profit.Away.{decide_stays_away}
use simple_mining_proxy.Profit.Choice.{IsTagged}
use simple_mining_proxy.Profit.Steady.{IsSound, decide-IsSound}
use simple_mining_proxy.Profit.Rest.{decide_rests}
use simple_mining_proxy.Profit.Schedule.{mode_auto, Values, Switcher, second}

abbrev bch_pool : Pool
bch_pool = record pool_a { id = txt "b"; coin = txt "BCH" }

abbrev farm : Snapshot
farm = record { active = txt "a"; fallback = []; pools = pool_a ∷ bch_pool ∷ [] }

abbrev quiet : Health
quiet = record { addrs = []; pools = []; versions = [] }

abbrev market : Market
market = record {
  coins =
      (txt "BTC", record { tag = txt "BTC"; revenue = 100; stale = false })
      ∷ (txt "BCH", record { tag = txt "BCH"; revenue = 120; stale = false })
      ∷ [];
  fetched = 0;
}

some-injective : {x y : Coin} → some x ≡ some y → x.tag ≡ y.tag
some-injective e = ap (λ o. tag_of o) e
  where
    tag_of : Option Coin → Text
    tag_of none = []
    tag_of (some c) = c.tag

market-IsTagged : IsTagged market
unfolding lookup
market-IsTagged tag c e = elim (text_eq (txt "BTC") tag) [
  | yes y ↦ ground (arith, y, e)
  | no n ↦ elim (text_eq (txt "BCH") tag) [
    | yes y ↦ ground (arith, n, y, e)
    | no k ↦ ground (arith, n, k, e)
  ]
]

abbrev blank_report : Report
blank_report = record {
  at = 900;
  scheduled = true;
  margin = 10;
  return_margin = 5;
  active = [];
  active_coin = [];
  best = [];
  decision = no_data;
  target = [];
  home = [];
  home_coin = [];
}

decide-IsSound_example : IsSound quiet farm market (decide quiet farm market [] blank_report)
unfolding decide conclude best_coin by_coin main_pool pick_pool first_up find_pool pool_is_down
    lookup insert text_eq
decide-IsSound_example = decide-IsSound quiet farm market [] blank_report market-IsTagged refl

decide_rests_example :
    let next = record farm { active = (decide quiet farm market [] blank_report).target } in
    (decide quiet next market [] (record blank_report { margin = 1 })).decision ≡ best
unfolding decide conclude best_coin by_coin main_pool pick_pool first_up find_pool pool_is_down
    lookup insert text_eq
decide_rests_example =
    decide_rests quiet farm market blank_report (record blank_report { margin = 1 }) market-IsTagged
      (refl, (refl, tt)) refl refl

abbrev hourly : Values
hourly = record { mode = mode_auto; interval = 3600 * second; margin = 10; return_margin = 5 }

abbrev idle : Switcher
idle = record { started = 100; last_run = 0; report = none; market = none }

-- The farm with its first pool as the main one.
abbrev main_pool_a : Pool
main_pool_a = record pool_a { profit_home = true; profit_switch = true }

abbrev home_farm : Snapshot
home_farm = record { active = txt "a"; fallback = []; pools = main_pool_a ∷ bch_pool ∷ [] }

-- The defaults of the settings.
abbrev usual_report : Report
usual_report = record blank_report { margin = 5; return_margin = 1 }

decide_stays_away_example :
    let next = record home_farm {
      active = (decide quiet home_farm market [] usual_report).target;
    } in
    (decide quiet next market [] usual_report).decision ≡ away_stay
unfolding decide conclude best_coin by_coin main_pool pick_pool first_up find_pool pool_is_down
    lookup insert text_eq amount defaults find_def defs
decide_stays_away_example =
    decide_stays_away quiet home_farm market main_pool_a defaults usual_report usual_report
      market-IsTagged (refl, (refl, tt)) defaults-IsAgreed refl refl refl refl refl
