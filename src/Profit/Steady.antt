-- ===== src/Profit/Steady.antt =====
-- What a recommendation rests on, and what follows it (internal/profit/switcher.go).
use simple_mining_proxy.Base.{
  ℕ, ◌<◌, ◌≡◌, ◌≢◌, refl, sym, ap, subst, ◌∙◌, Bool, true, false, ◌&&◌, not, inl, inr, Option, none,
  some, List, [], ◌∷◌, Text, Map, Distinct, mem, filter, same, text_eq, lookup, arith,
  if◌then◌else◌,
}
use simple_mining_proxy.State.{Pool, find_pool, ids}
use simple_mining_proxy.Health.{Health}
use simple_mining_proxy.Routing.{Snapshot}
use simple_mining_proxy.Profit.{
  Coin, Market, Decision, manual, recommend, Report, listed, takes_part, by_coin, best_coin,
  earns_more_by, main_pool, usable, Home, home_pool, pick_pool, named_home, conclude, compare,
  for_pool, decide,
}
use simple_mining_proxy.Profit.Choice.{
  taking_part, by_coin-filter, keys, by_coin-keys, offer, Dominates, best_coin-Dominates,
  best_coin_dominated, IsTagged, IsFound, best_coin-IsFound, pick_pool-mem,
}

-- `Recommend`
abbrev pub advises : Decision → Bool
advises recommend = true
advises d = false

conclude_same :
    (h : Health) (pools : Map (List Pool)) (cur : Coin) (away : Option Home) (r : Report)
    → advises (conclude h pools cur cur away r).decision ≡ false
unfolding conclude
conclude_same h pools cur none r = ground (arith, text_eq cur.tag cur.tag)
conclude_same h pools cur (some home) r = ground (arith, text_eq cur.tag cur.tag)

-- What `conclude` recommends.
abbrev IsGain : (h : Health) (pools : Map (List Pool)) (cur top : Coin) → Report → Report → Type 0
IsGain h pools cur top r out =
    (same top.tag cur.tag ≡ false)
    × ((earns_more_by r.margin top.revenue cur.revenue ≡ true)
        × ((out.target ≡ pick_pool h (listed (lookup top.tag pools)))
            × ((out.best ≡ r.best)
                × ((out.active_coin ≡ r.active_coin) × (out.margin ≡ r.margin)))))

conclude-IsGain :
    (h : Health) (pools : Map (List Pool)) (cur top : Coin) (away : Option Home) (r : Report)
    → advises (conclude h pools cur top away r).decision ≡ true
    → IsGain h pools cur top r (conclude h pools cur top away r)
unfolding conclude
conclude-IsGain h pools cur top none r e = ground arith
conclude-IsGain h pools cur top (some home) r e = ground arith

-- A recommendation: its target is a pool that takes part and is not DOWN, with the best coin; the
-- market has fresh data of that coin, which earns at least the margin more than the coin of the
-- active pool, and at least as much as the coin of any pool that takes part.
pub record IsSound (h : Health) (s : Snapshot) (m : Market) (out : Report) : Type 0 where
  pub target : mem out.target (ids (taking_part h out.best s.pools)) ≡ true
  pub gain :
      earns_more_by out.margin
        (offer (lookup out.best m.coins))
        (offer (lookup out.active_coin m.coins))
      ≡ true
  pub positive : 0 < offer (lookup out.active_coin m.coins)
  pub more : offer (lookup out.active_coin m.coins) < offer (lookup out.best m.coins)
  pub best_of : Dominates m (keys (by_coin h s.pools [])) (offer (lookup out.best m.coins))

pub usable-offer :
    (o : Option Coin) (c : Coin)
    → usable o ≡ some c
    → (o ≡ some c) × ((offer o ≡ c.revenue) × ((c.stale ≡ false) × (0 < c.revenue)))
usable-offer none c e = ground arith
usable-offer (some d) c e = ground arith

module _ (h : Health) (s : Snapshot) (m : Market) (w : IsTagged m) where
  conclude-IsSound :
      (cur top : Coin) (away : Option Home) (r : Report)
      → top ≡ best_coin m (by_coin h s.pools []) cur
      → r.best ≡ top.tag
      → offer (lookup r.active_coin m.coins) ≡ cur.revenue
      → 0 < cur.revenue
      → advises (conclude h (by_coin h s.pools []) cur top away r).decision ≡ true
      → IsSound h s m (conclude h (by_coin h s.pools []) cur top away r)
  unfolding lookup
  conclude-IsSound cur top away r is_best b o p e =
      let pools = by_coin h s.pools [] in
      let g = conclude-IsGain h pools cur top away r e in
      let out = conclude h pools cur top away r in
      let most = best_coin-Dominates m pools cur in
      elim (best_coin-IsFound m pools cur w) [
        | inl q ↦ cc_absurd cur top g.0 (is_best ∙ q)
        | inr q ↦
            let f = subst (IsFound m (keys pools) cur) (sym is_best) q in
            let fresh : offer (lookup top.tag m.coins) ≡ top.revenue =
              rw f.1.0 (ground (arith, f.1.1.0)) in
            let named : out.best ≡ top.tag = g.1.1.1.0 ∙ b in
            let current : offer (lookup out.active_coin m.coins) ≡ cur.revenue =
              ap (λ t. offer (lookup t m.coins)) g.1.1.1.1.0 ∙ o in
            let best_offer : offer (lookup out.best m.coins) ≡ top.revenue =
              ap (λ t. offer (lookup t m.coins)) named ∙ fresh in
            record {
              target =
                  rw (g.1.1.0, named, by_coin-filter h top.tag s.pools [])
                    (pick_pool-mem h (taking_part h top.tag s.pools)
                      (sym (by_coin-keys h top.tag s.pools []) ∙ f.0));
              gain = rw (g.1.1.1.1.1, best_offer, current) g.1.0;
              positive = rw current p;
              more = rw (current, best_offer) f.1.1.1;
              best_of =
                  rw best_offer
                    (subst (λ (c : Coin). Dominates m (keys pools) c.revenue) (sym is_best) most.0);
            }
      ]
    where
      cc_absurd : {P : Type 0} (c t : Coin) → same t.tag c.tag ≡ false → t ≡ c → P
      cc_absurd c t n e = ground (arith, ap (λ (x : Coin). x.tag) e, text_eq c.tag c.tag)

  named_offer :
      (o : Option Pool) (r : Report) (n : ℕ)
      → offer (lookup r.active_coin m.coins) ≡ n
      → offer (lookup (named_home o r).active_coin m.coins) ≡ n
  named_offer none r n e = e
  named_offer (some p) r n e = e

  named_best : (o : Option Pool) (r : Report) → (named_home o r).best ≡ r.best
  named_best none r = refl
  named_best (some p) r = refl

  compare-IsSound :
      (active : Pool) (o : Option Coin) (r : Report)
      → usable (lookup active.coin m.coins) ≡ o
      → r.active_coin ≡ active.coin
      → advises (compare h s m active o r).decision ≡ true
      → IsSound h s m (compare h s m active o r)
  compare-IsSound active none r u a e = ground arith
  compare-IsSound active (some cur) r u a e =
      let v = usable-offer (lookup active.coin m.coins) cur u in
      let top = best_coin m (by_coin h s.pools []) cur in
      let main = main_pool s.pools none in
      let r' : Report = record r { best = top.tag } in
      conclude-IsSound cur top (home_pool m main active) (named_home main r') refl
        (named_best main r')
        (named_offer main r' cur.revenue (ap (λ t. offer (lookup t m.coins)) a ∙ v.1.0)) v.1.1.1 e

  for_pool-IsSound :
      (o : Option Pool) (r : Report)
      → advises (for_pool h s m o r).decision ≡ true
      → IsSound h s m (for_pool h s m o r)
  for_pool-IsSound none r e = ground arith
  for_pool-IsSound (some active) r e = by_part active.profit_switch e
    where
      r' : Report
      r' = record r { active = active.id; active_coin = active.coin }

      compared : Report
      compared = compare h s m active (usable (lookup active.coin m.coins)) r'

      by_part :
          (b : Bool)
          → advises (if not b then record r' { decision = manual } else compared).decision ≡ true
          → IsSound h s m (if not b then record r' { decision = manual } else compared)
      by_part false e = ground arith
      by_part true e = compare-IsSound active (usable (lookup active.coin m.coins)) r' refl refl e

-- A recommended switch is sound: its target is a pool that takes part and is not DOWN, with the best
-- coin; the market has fresh data of that coin and of the active one; it earns at least the margin
-- more than the active one, and at least as much as the coin of any pool that takes part.
pub decide-IsSound :
    (h : Health) (s : Snapshot) (m : Market) (timed_home : Text) (r : Report)
    → IsTagged m
    → (decide h s m timed_home r).decision ≡ recommend
    → IsSound h s m (decide h s m timed_home r)
unfolding decide
decide-IsSound h s m timed_home r w e =
    for_pool-IsSound h s m w
      (find_pool s.pools (if same timed_home [] then s.active else timed_home)) r (ap advises e)

abbrev pub passes : (Pool → Bool) → Option Pool → Bool
passes q none = false
passes q (some p) = q p

mem-filter-ids :
    (q : Pool → Bool) (id : Text) (ps : List Pool)
    → mem id (ids (filter q ps)) ≡ true
    → mem id (ids ps) ≡ true
mem-filter-ids q id [] e = e
mem-filter-ids q id (p ∷ ps) e = ground (arith, mem-filter-ids q id ps)

-- With distinct ids, a pool of a filtered list is the one that its id names.
pub find_pool-filter :
    (q : Pool → Bool) (id : Text) (ps : List Pool)
    → Distinct (ids ps)
    → mem id (ids (filter q ps)) ≡ true
    → passes q (find_pool ps id) ≡ true
unfolding find_pool
find_pool-filter q id [] d e = ground arith
find_pool-filter q id (p ∷ ps) d e = elim (text_eq p.id id) [
  | yes y ↦ ground (arith, y, mem-filter-ids q id ps)
  | no n ↦ ground (arith, n, find_pool-filter q id ps d.1)
]

module _ (h : Health) (s : Snapshot) (m : Market) where
  -- A pool with the best coin active, nothing else is recommended.
  compare_settled :
      (s' : Snapshot) (active : Pool) (o : Option Coin) (r : Report)
      → s'.pools ≡ s.pools
      → usable (lookup active.coin m.coins) ≡ o
      → Dominates m (keys (by_coin h s.pools [])) (offer (lookup active.coin m.coins))
      → advises (compare h s' m active o r).decision ≡ false
  compare_settled s' active none r q u d = refl
  compare_settled s' active (some cur) r q u d =
      let v = usable-offer (lookup active.coin m.coins) cur u in
      let stays : best_coin m (by_coin h s'.pools []) cur ≡ cur = rw q (
        best_coin_dominated m (by_coin h s.pools []) cur
          (subst (Dominates m (keys (by_coin h s.pools []))) v.1.0 d)) in
      rw stays (
        conclude_same h (by_coin h s'.pools []) cur (home_pool m (main_pool s'.pools none) active)
          (named_home (main_pool s'.pools none) (record r { best = cur.tag })))

  for_pool_settled :
      (s' : Snapshot) (o : Option Pool) (tag : Text) (r : Report)
      → s'.pools ≡ s.pools
      → passes (λ p. takes_part h p && same p.coin tag) o ≡ true
      → Dominates m (keys (by_coin h s.pools [])) (offer (lookup tag m.coins))
      → advises (for_pool h s' m o r).decision ≡ false
  for_pool_settled s' none tag r q e d = refl
  for_pool_settled s' (some p) tag r q e d =
      let coin : p.coin ≡ tag = ground arith in
      let part : p.profit_switch ≡ true = ground arith in
      let r' : Report = record r { active = p.id; active_coin = p.coin } in
      let settled = compare_settled s' p (usable (lookup p.coin m.coins)) r' q refl (rw coin d) in
      by_part p.profit_switch settled
    where
      compared : Report
      compared =
          compare h s' m p (usable (lookup p.coin m.coins))
            (record r { active = p.id; active_coin = p.coin })

      by_part :
          (b : Bool)
          → advises compared.decision ≡ false
          → advises
              (if not b
                then record r { active = p.id; active_coin = p.coin; decision = manual }
                else compared).decision
            ≡ false
      by_part false e = refl
      by_part true e = e

-- With the target of a recommended switch active, the same market and the same health of the pools
-- recommend no other coin, whatever the margins. With a main pool, they may recommend the return.
pub decide_settles :
    (h : Health) (s : Snapshot) (m : Market) (r r' : Report)
    → IsTagged m
    → Distinct (ids s.pools)
    → (decide h s m [] r).decision ≡ recommend
    → let next = record s { active = (decide h s m [] r).target } in
      (decide h next m [] r').decision ≢ recommend
unfolding decide text_eq
decide_settles h s m r r' w d e f =
    let out = decide h s m [] r in
    let a = decide-IsSound h s m [] r w e in
    let next : Snapshot = record s { active = out.target } in
    let target =
      find_pool-filter (λ p. takes_part h p && same p.coin out.best) out.target s.pools d
        a.target in
    let settled =
      for_pool_settled h s m next (find_pool s.pools out.target) out.best r' refl target
        a.best_of in
    absurd_advice (decide_at h next m r') settled f
  where
    decide_at :
        (h : Health) (s : Snapshot) (m : Market) (r : Report)
        → decide h s m [] r ≡ for_pool h s m (find_pool s.pools s.active) r
    decide_at h s m r = refl

    absurd_advice : {x y : Report} → x ≡ y → advises y.decision ≡ false → x.decision ≡ recommend → ⊥
    absurd_advice q n e = ground (arith, ap (λ (z : Report). advises z.decision) q, ap advises e)
