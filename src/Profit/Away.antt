-- ===== src/Profit/Away.antt =====
-- internal/profit/switcher.go: the farm leaves its main pool for a better coin, and stays away.
use simple_mining_proxy.Base.{
  ℕ, ◌+◌, ◌*◌, ◌-◌, ◌≤◌, ◌<◌, ◌≡◌, refl, sym, ap, subst, ◌∙◌, Bool, true, false, ◌&&◌, not, Option,
  none, some, List, [], ◌∷◌, Text, txt, Map, Distinct, same, text_eq, lookup, arith, if◌then◌else◌,
}
use simple_mining_proxy.State.{Pool, find_pool, ids}
use simple_mining_proxy.Health.{Health}
use simple_mining_proxy.Routing.{Snapshot}
use simple_mining_proxy.Settings.{Values, amount}
use simple_mining_proxy.Settings.Agreed.{IsAgreed}
use simple_mining_proxy.Profit.{
  Coin, Market, manual, recommend, away_stay, Report, takes_part, by_coin, best_coin, earns_more_by,
  main_pool, usable, Home, home_pool, named_home, conclude, compare, for_pool, decide,
}
use simple_mining_proxy.Profit.Choice.{keys, offer, Dominates, best_coin_dominated, IsTagged}
use simple_mining_proxy.Profit.Steady.{passes, find_pool-filter, decide-IsSound}

find_pool-id : (ps : List Pool) (id : Text) (p : Pool) → find_pool ps id ≡ some p → p.id ≡ id
unfolding find_pool
find_pool-id [] id p h = ground arith
find_pool-id (x ∷ ps) id p h = ground (arith, text_eq x.id id, find_pool-id ps id p)

-- A coin with a revenue is usable.
pub offer-usable :
    (o : Option Coin) → 0 < offer o → (c : Coin) × ((usable o ≡ some c) × (c.revenue ≡ offer o))
offer-usable none h = ground arith
offer-usable (some c) h = (c, ground arith)

earns_less : (p q a b : ℕ) → q ≤ p → earns_more_by p a b ≡ true → earns_more_by q a b ≡ true
earns_less p q a b l h =
    let e : p ≡ q + (p - q) = omega arith in
    let d : b * (100 + p) ≡ b * (100 + q) + b * (p - q) =
      omega (arith, ap (λ (t : ℕ). b * (100 + t)) e) in
    ground (arith, d)

-- A farm that is away from home, with the best coin and enough above the main pool's, stays.
conclude_away :
    (h : Health) (pools : Map (List Pool)) (cur : Coin) (home : Home) (r : Report)
    → earns_more_by r.return_margin cur.revenue home.coin.revenue ≡ true
    → (conclude h pools cur cur (some home) r).decision ≡ away_stay
unfolding conclude
conclude_away h pools cur home r e = ground (arith, text_eq cur.tag cur.tag)

-- What a comparison does not change in the report.
abbrev Kept : Report → Report → Type 0
Kept r out = (out.active_coin ≡ r.active_coin) × (out.margin ≡ r.margin)

conclude_keeps :
    (h : Health) (pools : Map (List Pool)) (cur top : Coin) (away : Option Home) (r : Report)
    → Kept r (conclude h pools cur top away r)
unfolding conclude
conclude_keeps h pools cur top none r = ground arith
conclude_keeps h pools cur top (some home) r = ground arith

compare_keeps :
    (h : Health) (s : Snapshot) (m : Market) (active : Pool) (o : Option Coin) (r : Report)
    → Kept r (compare h s m active o r)
compare_keeps h s m active none r = (refl, refl)
compare_keeps h s m active (some cur) r = by_home (main_pool s.pools none)
  where
    top : Coin
    top = best_coin m (by_coin h s.pools []) cur

    by_home :
        (o : Option Pool)
        → Kept r (
            conclude h
              (by_coin h s.pools [])
              cur
              top
              (home_pool m o active)
              (named_home o (record r { best = top.tag })))
    by_home none =
        conclude_keeps h (by_coin h s.pools []) cur top none (record r { best = top.tag })
    by_home (some p) =
        conclude_keeps h (by_coin h s.pools []) cur top (home_pool m (some p) active)
          (named_home (some p) (record r { best = top.tag }))

decide_keeps :
    (h : Health) (s : Snapshot) (m : Market) (home : Pool) (r : Report)
    → find_pool s.pools s.active ≡ some home
    → ((decide h s m [] r).active_coin ≡ home.coin) × ((decide h s m [] r).margin ≡ r.margin)
unfolding decide text_eq
decide_keeps h s m home r a =
    subst
      (λ o.
        ((for_pool h s m o r).active_coin ≡ home.coin) × ((for_pool h s m o r).margin ≡ r.margin))
      (sym a)
      (ground (
        arith,
        compare_keeps h s m home (usable (lookup home.coin m.coins))
            (record r { active = home.id; active_coin = home.coin }),
      ))

module _ (h : Health) (s : Snapshot) (m : Market) (home : Pool)
    (main : main_pool s.pools none ≡ some home) where
  away_compared :
      (next : Snapshot) (p : Pool) (cur coin : Coin) (r : Report)
      → next.pools ≡ s.pools
      → usable (lookup home.coin m.coins) ≡ some coin
      → same p.id home.id ≡ false
      → best_coin m (by_coin h s.pools []) cur ≡ cur
      → earns_more_by r.return_margin cur.revenue coin.revenue ≡ true
      → (compare h next m p (some cur) r).decision ≡ away_stay
  away_compared next p cur coin r q u n b e =
      rw (q, b, main, u, n)
        (conclude_away h (by_coin h s.pools []) cur (record { pool = home; coin = coin })
          (named_home (some home) (record r { best = cur.tag })) e)

  away_for_pool :
      (next : Snapshot) (o : Option Pool) (tag : Text) (coin : Coin) (r : Report)
      → next.pools ≡ s.pools
      → passes (λ p. takes_part h p && same p.coin tag) o ≡ true
      → usable (lookup home.coin m.coins) ≡ some coin
      → ((p : Pool) → o ≡ some p → same p.id home.id ≡ false)
      → Dominates m (keys (by_coin h s.pools [])) (offer (lookup tag m.coins))
      → 0 < offer (lookup tag m.coins)
      → earns_more_by r.return_margin (offer (lookup tag m.coins)) coin.revenue ≡ true
      → (for_pool h next m o r).decision ≡ away_stay
  away_for_pool next none tag coin r q t u n d z e = ground arith
  away_for_pool next (some p) tag coin r q t u n d z e =
      let named : p.coin ≡ tag = ground arith in
      let part : p.profit_switch ≡ true = ground arith in
      let c = offer-usable (lookup p.coin m.coins) (rw named z) in
      let least : Dominates m (keys (by_coin h s.pools [])) c.0.revenue = rw (c.1.1, named) d in
      let stays = best_coin_dominated m (by_coin h s.pools []) c.0 least in
      let gain : earns_more_by r.return_margin c.0.revenue coin.revenue ≡ true =
        rw (c.1.1, named) e in
      let r' : Report = record r { active = p.id; active_coin = p.coin } in
      by_part p.profit_switch part (compare h next m p (usable (lookup p.coin m.coins)) r') (
        subst (λ o. (compare h next m p o r').decision ≡ away_stay) (sym c.1.0)
          (away_compared next p c.0 coin r' q u (n p refl) stays gain))
    where
      by_part :
          (b : Bool)
          → b ≡ true
          → (rest : Report) → rest.decision ≡ away_stay
          → (if not b
              then record r { active = p.id; active_coin = p.coin; decision = manual }
              else rest).decision
            ≡ away_stay
      by_part true e rest f = f
      by_part false e rest f = cc

module _ (h : Health) (s : Snapshot) (m : Market) (home : Pool) where
  target_elsewhere :
      (target : Text) (tag : Text) (p : Pool)
      → find_pool s.pools s.active ≡ some home
      → offer (lookup home.coin m.coins) < offer (lookup tag m.coins)
      → find_pool s.pools target ≡ some p
      → same p.coin tag ≡ true
      → same p.id home.id ≡ false
  target_elsewhere target tag p a l f c = ground (
    arith,
    text_eq p.id home.id,
    text_eq p.coin tag,
    find_pool-id s.pools target p,
    find_pool-id s.pools s.active home,
  )

-- The farm does not bounce around the margin: with settings that agree, a switch away from the main
-- pool that was recommended with `profit_margin` is not taken back with `profit_return_margin` in
-- the same market and the same health of the pools; the farm stays away. The ids of the pools are
-- distinct, the coins of the market stand under their tags, and no timed switch is on.
pub decide_stays_away :
    (h : Health) (s : Snapshot) (m : Market) (home : Pool) (v : Values) (r r' : Report)
    → IsTagged m
    → Distinct (ids s.pools)
    → IsAgreed v
    → r.margin ≡ amount (v (txt "profit_margin"))
    → r'.return_margin ≡ amount (v (txt "profit_return_margin"))
    → find_pool s.pools s.active ≡ some home
    → main_pool s.pools none ≡ some home
    → (decide h s m [] r).decision ≡ recommend
    → let next = record s { active = (decide h s m [] r).target } in
      (decide h next m [] r').decision ≡ away_stay
unfolding decide text_eq
decide_stays_away h s m home v r r' w d g e e' a i f =
    let out = decide h s m [] r in
    let x = decide-IsSound h s m [] r w f in
    let k = decide_keeps h s m home r a in
    let next : Snapshot = record s { active = out.target } in
    let target =
      find_pool-filter (λ p. takes_part h p && same p.coin out.best) out.target s.pools d
        x.target in
    let main_offer : offer (lookup out.active_coin m.coins) ≡ offer (lookup home.coin m.coins) =
      ap (λ t. offer (lookup t m.coins)) k.0 in
    let u = offer-usable (lookup home.coin m.coins) (subst (λ n. 0 < n) main_offer x.positive) in
    let gain : earns_more_by r'.return_margin (offer (lookup out.best m.coins)) u.0.revenue ≡ true =
      earns_less out.margin r'.return_margin (offer (lookup out.best m.coins)) u.0.revenue
        (omega (arith, e, e', k.1, g.margin))
        (subst (λ n. earns_more_by out.margin (offer (lookup out.best m.coins)) n ≡ true)
          (main_offer ∙ sym u.1.1) x.gain) in
    let more : offer (lookup home.coin m.coins) < offer (lookup out.best m.coins) =
      subst (λ n. n < offer (lookup out.best m.coins)) main_offer x.more in
    away_for_pool h s m home i next (find_pool s.pools out.target) out.best u.0 r' refl target u.1.0
      (λ p q. target_elsewhere h s m home out.target out.best p a more q (
        named out.best p
          (subst (λ o. passes (λ x. takes_part h x && same x.coin out.best) o ≡ true) q target)))
      x.best_of (omega (arith, more)) gain
  where
    named :
        (tag : Text) (p : Pool)
        → (takes_part h p && same p.coin tag) ≡ true
        → same p.coin tag ≡ true
    named tag p t = ground arith
