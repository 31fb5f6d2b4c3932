-- ===== src/Profit/Rest.antt =====
-- internal/profit/switcher.go: what follows a recommendation where there is no main pool.
use simple_mining_proxy.Base.{
  ◌<◌, ◌≡◌, refl, sym, subst, Bool, true, false, ◌&&◌, not, Option, none, some, List, [], Text, Map,
  Distinct, same, text_eq, lookup, arith, if◌then◌else◌,
}
use simple_mining_proxy.State.{Pool, find_pool, ids}
use simple_mining_proxy.Health.{Health}
use simple_mining_proxy.Routing.{Snapshot}
use simple_mining_proxy.Profit.{
  Coin, Market, manual, recommend, best, Report, takes_part, by_coin, best_coin, main_pool, usable,
  conclude, compare, for_pool, decide,
}
use simple_mining_proxy.Profit.Choice.{keys, offer, Dominates, best_coin_dominated, IsTagged}
use simple_mining_proxy.Profit.Steady.{passes, find_pool-filter, decide-IsSound}
use simple_mining_proxy.Profit.Away.{offer-usable}

conclude_best :
    (h : Health) (pools : Map (List Pool)) (cur : Coin) (r : Report)
    → (conclude h pools cur cur none r).decision ≡ best
unfolding conclude
conclude_best h pools cur r = ground (arith, text_eq cur.tag cur.tag)

module _ (h : Health) (s : Snapshot) (m : Market) (homeless : main_pool s.pools none ≡ none) where
  compare_rests :
      (next : Snapshot) (p : Pool) (cur : Coin) (r : Report)
      → next.pools ≡ s.pools
      → best_coin m (by_coin h s.pools []) cur ≡ cur
      → (compare h next m p (some cur) r).decision ≡ best
  compare_rests next p cur r q b =
      rw (q, b, homeless) (conclude_best h (by_coin h s.pools []) cur (record r { best = cur.tag }))

  for_pool_rests :
      (next : Snapshot) (o : Option Pool) (tag : Text) (r : Report)
      → next.pools ≡ s.pools
      → passes (λ p. takes_part h p && same p.coin tag) o ≡ true
      → Dominates m (keys (by_coin h s.pools [])) (offer (lookup tag m.coins))
      → 0 < offer (lookup tag m.coins)
      → (for_pool h next m o r).decision ≡ best
  for_pool_rests next none tag r q t d z = ground arith
  for_pool_rests next (some p) tag r q t d z =
      let named : p.coin ≡ tag = ground arith in
      let part : p.profit_switch ≡ true = ground arith in
      let c = offer-usable (lookup p.coin m.coins) (rw named z) in
      let least : Dominates m (keys (by_coin h s.pools [])) c.0.revenue = rw (c.1.1, named) d in
      let stays = best_coin_dominated m (by_coin h s.pools []) c.0 least in
      let r' : Report = record r { active = p.id; active_coin = p.coin } in
      by_part p.profit_switch part (compare h next m p (usable (lookup p.coin m.coins)) r') (
        subst (λ o. (compare h next m p o r').decision ≡ best) (sym c.1.0)
          (compare_rests next p c.0 r' q stays))
    where
      by_part :
          (b : Bool)
          → b ≡ true
          → (rest : Report) → rest.decision ≡ best
          → (if not b
              then record r { active = p.id; active_coin = p.coin; decision = manual }
              else rest).decision
            ≡ best
      by_part true e rest f = f
      by_part false e rest f = cc

-- Where no pool is the main one, a switch that was recommended does not lead to another one: with its
-- target active, the same market and the same health of the pools, the farm has the best coin, whatever
-- the margins. The ids of the pools are distinct, the coins of the market stand under their tags, and
-- no timed switch is on.
pub decide_rests :
    (h : Health) (s : Snapshot) (m : Market) (r r' : Report)
    → IsTagged m
    → Distinct (ids s.pools)
    → main_pool s.pools none ≡ none
    → (decide h s m [] r).decision ≡ recommend
    → let next = record s { active = (decide h s m [] r).target } in
      (decide h next m [] r').decision ≡ best
unfolding decide text_eq
decide_rests h s m r r' w d i e =
    let out = decide h s m [] r in
    let x = decide-IsSound h s m [] r w e in
    let next : Snapshot = record s { active = out.target } in
    let target =
      find_pool-filter (λ p. takes_part h p && same p.coin out.best) out.target s.pools d
        x.target in
    for_pool_rests h s m i next (find_pool s.pools out.target) out.best r' refl target x.best_of
      (omega (arith, x.more))
