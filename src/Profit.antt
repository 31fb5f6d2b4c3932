-- ===== src/Profit.antt =====
-- internal/profit/switcher.go: which coin to mine, and when to check. The revenue of a coin is a whole
-- number of some small unit, 0 where the code has none; percentages are compared as fractions. Times
-- are nanoseconds since Go's zero time.
pub mod Schedule
pub mod Choice
pub mod Steady
pub mod Away
pub mod Rest
mod Tests
use simple_mining_proxy.Base.{
  ℕ, ◌+◌, ◌*◌, max, Bool, true, false, ◌&&◌, ◌||◌, not, Option, none, some, List, [], ◌∷◌, ◌++◌,
  Text, Map, ltb, leb, ◌==◌, if◌then◌else◌, same, lookup, insert,
}
use simple_mining_proxy.State.{Pool, find_pool}
use simple_mining_proxy.Health.{Health, Status, up}
use simple_mining_proxy.Health.Updates.{is_up, is_down}
use simple_mining_proxy.Routing.{Snapshot, known_health, pool_is_down}

pub record Coin : Type 0 where
  pub tag : Text
  pub revenue : ℕ
  pub stale : Bool

pub record Market : Type 0 where
  pub coins : Map Coin
  pub fetched : ℕ

pub data Decision : Type 0 where
  no_data no_candidates manual best below_margin recommend switched switch_failed : Decision
  away_stay return_home returned : Decision

pub record Report : Type 0 where
  pub at : ℕ
  pub scheduled : Bool
  pub margin : ℕ
  pub return_margin : ℕ
  pub active : Text
  pub active_coin : Text
  pub best : Text
  pub decision : Decision
  pub target : Text
  pub home : Text
  pub home_coin : Text

abbrev pub listed : Option (List Pool) → List Pool
listed none = []
listed (some ps) = ps

-- A pool takes part.
abbrev pub takes_part : Health → Pool → Bool
takes_part h p = p.profit_switch && not (pool_is_down h p.id)

-- `byCoin` of the first loop of `decide`.
unfoldable pub by_coin : Health → List Pool → Map (List Pool) → Map (List Pool)
by_coin h [] m = m
by_coin h (p ∷ ps) m =
    by_coin h ps
      (if takes_part h p then insert p.coin (listed (lookup p.coin m) ++ p ∷ []) m else m)

abbrev pub better : Option Coin → Coin → Coin
better none top = top
better (some c) top = if not c.stale && ltb top.revenue c.revenue then c else top

-- The loop over `byCoin`.
unfoldable pub best_coin : Market → Map (List Pool) → Coin → Coin
best_coin m [] top = top
best_coin m ((tag, ps) ∷ pools) top = best_coin m pools (better (lookup tag m.coins) top)

-- `(a/b - 1) * 100 >= percent`
abbrev pub earns_more_by : ℕ → ℕ → ℕ → Bool
earns_more_by percent a b = leb (b * (100 + percent)) (100 * a)

-- The last pool that is the main pool and takes part in profit switching.
unfoldable pub main_pool : List Pool → Option Pool → Option Pool
main_pool [] found = found
main_pool (p ∷ ps) found = main_pool ps (if p.profit_home && p.profit_switch then some p else found)

abbrev pub usable : Option Coin → Option Coin
usable none = none
usable (some c) = if c.stale || (c.revenue == 0) then none else some c

pub record Home : Type 0 where
  pub pool : Pool
  pub coin : Coin

abbrev pub away_from : Pool → Option Coin → Pool → Option Home
away_from home none active = none
away_from home (some c) active =
    if same active.id home.id then none else some (record { pool = home; coin = c })

-- `homePool`: the main pool and its coin while the farm is away from it.
abbrev pub home_pool : Market → Option Pool → Pool → Option Home
home_pool m none active = none
home_pool m (some home) active = away_from home (usable (lookup home.coin m.coins)) active

-- `pickPool`
unfoldable pub first_up : Health → List Pool → Option Text
first_up h [] = none
first_up h (p ∷ ps) =
    if is_up (known_health (lookup p.id h.pools)).0 then some p.id else first_up h ps

abbrev pub first_id : List Pool → Text
first_id [] = []
first_id (p ∷ ps) = p.id

abbrev pub picked : Option Text → List Pool → Text
picked (some id) ps = id
picked none ps = first_id ps

unfoldable pub pick_pool : Health → List Pool → Text
unfolding first_up
pick_pool h ps = picked (first_up h ps) ps

-- The end of `decide`: by the market of the current and the best coin, and the main pool if the farm
-- is away from it.
abbrev pub named_home : Option Pool → Report → Report
named_home none r = r
named_home (some home) r = record r { home = home.id; home_coin = home.coin }

module _ (h : Health) (pools : Map (List Pool)) (cur top : Coin) where
  abbrev pub gains : Option Home → Report → Bool
  gains none r = earns_more_by r.margin top.revenue cur.revenue
  gains (some home) r =
      earns_more_by r.margin top.revenue cur.revenue && not (same top.tag home.coin.tag)

  abbrev pub settle_away : Option Home → Report → Report
  settle_away none r = record r { decision = below_margin }
  settle_away (some home) r =
      if earns_more_by r.return_margin cur.revenue home.coin.revenue || pool_is_down h home.pool.id
      then record r { decision = away_stay }
      else record r { decision = return_home; target = home.pool.id }

  abbrev pub is_home : Option Home → Bool
  is_home none = true
  is_home (some home) = false

  unfoldable pub conclude : Option Home → Report → Report
  unfolding pick_pool
  conclude away r =
      if same top.tag cur.tag && is_home away
      then record r { decision = best }
      else if not (same top.tag cur.tag) && gains away r
      then record r { decision = recommend; target = pick_pool h (listed (lookup top.tag pools)) }
      else settle_away away r

-- `decide` for the coin of the active pool.
abbrev pub compare : Health → Snapshot → Market → Pool → Option Coin → Report → Report
compare h s m active none r = record r { decision = no_data }
compare h s m active (some cur) r =
    let pools = by_coin h s.pools [] in
    let top = best_coin m pools cur in
    let home = main_pool s.pools none in
    conclude h pools cur top (home_pool m home active)
      (named_home home (record r { best = top.tag }))

abbrev pub for_pool : Health → Snapshot → Market → Option Pool → Report → Report
for_pool h s m none r = record r { decision = no_candidates }
for_pool h s m (some active) r =
    let r = record r { active = active.id; active_coin = active.coin } in
    if not active.profit_switch
    then record r { decision = manual }
    else compare h s m active (usable (lookup active.coin m.coins)) r

-- `decide`; the text is the pool that timed switching returns to, if it is away.
unfoldable pub decide : Health → Snapshot → Market → Text → Report → Report
unfolding conclude best_coin by_coin main_pool
decide h s m timed_home r =
    for_pool h s m (find_pool s.pools (if same timed_home [] then s.active else timed_home)) r
