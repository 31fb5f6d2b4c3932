-- ===== src/Profit/Choice.antt =====
-- The pools and the coin that a decision compares (internal/profit/switcher.go).
use mathlib.Core.List.{append_assoc, append-nil}
use simple_mining_proxy.Base.{
  ℕ, ◌≤◌, ◌<◌, ◌≡◌, refl, sym, ap, subst, ◌∙◌, Bool, true, false, ◌&&◌, ◌||◌, not, Bool-cases, ◌⊎◌,
  inl, inr, Option, none, some, List, [], ◌∷◌, ◌++◌, Text, Map, All, mem, filter, same, text_eq,
  lookup, insert, lookup-insert, arith, ltb, if◌then◌else◌,
}
use simple_mining_proxy.State.{Pool, ids}
use simple_mining_proxy.Health.{Health}
use simple_mining_proxy.Profit.{
  Coin, Market, listed, takes_part, by_coin, better, best_coin, first_up, picked, pick_pool,
}

-- The pools with the coin that take part.
abbrev pub taking_part : Health → Text → List Pool → List Pool
taking_part h tag = filter (λ p. takes_part h p && same p.coin tag)

-- The loop collects, for every coin, the pools that take part, in their order.
pub by_coin-filter :
    (h : Health) (tag : Text) (ps : List Pool) (m : Map (List Pool))
    → listed (lookup tag (by_coin h ps m)) ≡ listed (lookup tag m) ++ taking_part h tag ps
unfolding by_coin
by_coin-filter h tag [] m = sym (append-nil (listed (lookup tag m)))
by_coin-filter h tag (p ∷ ps) m = elim (Bool-cases (takes_part h p)) [
  | inr n ↦ rw n (by_coin-filter h tag ps m)
  | inl t ↦
      let grown = listed (lookup p.coin m) ++ p ∷ [] in
      let rest = by_coin-filter h tag ps (insert p.coin grown m) in
      elim (text_eq p.coin tag) [
        | yes e ↦
            let s : same p.coin tag ≡ true = ground (arith, e) in
            let found : listed (lookup tag (insert p.coin grown m))
                ≡ listed (lookup tag m) ++ p ∷ [] =
              rw (lookup-insert p.coin tag grown m, s, e) refl in
            rw (t, s)
              (rest
                ∙ ap (λ xs. xs ++ taking_part h tag ps) found
                ∙ append_assoc (listed (lookup tag m)) (p ∷ []) (taking_part h tag ps))
        | no n ↦
            let s : same p.coin tag ≡ false = ground (arith, n) in
            let found : listed (lookup tag (insert p.coin grown m)) ≡ listed (lookup tag m) =
              rw (lookup-insert p.coin tag grown m, s) refl in
            rw (t, s) (rest ∙ ap (λ xs. xs ++ taking_part h tag ps) found)
      ]
]

abbrev pub keys {ℓ} : {V : Type ℓ} → Map V → List Text
keys [] = []
keys ((k, v) ∷ m) = k ∷ keys m

keys-insert {ℓ} :
    {V : Type ℓ} (k j : Text) (v : V) (m : Map V)
    → mem j (keys (insert k v m)) ≡ (same k j || mem j (keys m))
unfolding insert
keys-insert k j v [] = ground arith
keys-insert k j v ((i, w) ∷ m) = elim (text_eq i k) [
  | yes e ↦ ground (arith, e)
  | no n ↦ ground (arith, n, keys-insert k j v m)
]

abbrev pub has_any {ℓ} : {A : Type ℓ} → List A → Bool
has_any [] = false
has_any (x ∷ xs) = true

or_true : (b : Bool) → (b || true) ≡ true
or_true b = ground arith

-- A coin is a key exactly when a pool with it takes part.
pub by_coin-keys :
    (h : Health) (tag : Text) (ps : List Pool) (m : Map (List Pool))
    → mem tag (keys (by_coin h ps m)) ≡ (mem tag (keys m) || has_any (taking_part h tag ps))
unfolding by_coin
by_coin-keys h tag [] m = ground arith
by_coin-keys h tag (p ∷ ps) m = elim (Bool-cases (takes_part h p)) [
  | inr n ↦ rw n (by_coin-keys h tag ps m)
  | inl t ↦
      let grown = listed (lookup p.coin m) ++ p ∷ [] in
      let rest = by_coin-keys h tag ps (insert p.coin grown m) in
      rw (t, rest, keys-insert p.coin tag grown m) (ground arith)
]

-- What the market says of a tag, as the loop reads it.
abbrev pub offer : Option Coin → ℕ
offer none = 0
offer (some c) = if c.stale then 0 else c.revenue

-- No coin of the keys earns more.
abbrev pub Dominates : Market → List Text → ℕ → Type 0
Dominates m tags n = All (λ tag. offer (lookup tag m.coins) ≤ n) tags

pub better-offer :
    (o : Option Coin) (top : Coin)
    → (offer o ≤ (better o top).revenue) × (top.revenue ≤ (better o top).revenue)
better-offer none top = ground arith
better-offer (some c) top = ground arith

-- The best coin earns at least as much as the current one and every other that is compared.
pub best_coin-Dominates :
    (m : Market) (pools : Map (List Pool)) (top : Coin)
    → Dominates m (keys pools) (best_coin m pools top).revenue
      × (top.revenue ≤ (best_coin m pools top).revenue)
unfolding best_coin
best_coin-Dominates m [] top = ground arith
best_coin-Dominates m ((tag, ps) ∷ pools) top =
    let next = better (lookup tag m.coins) top in
    ground (arith, best_coin-Dominates m pools next, better-offer (lookup tag m.coins) top)

better_dominated : (o : Option Coin) (top : Coin) → offer o ≤ top.revenue → better o top ≡ top
better_dominated none top h = refl
better_dominated (some c) top h = ground arith

-- A coin that nothing beats stays the best.
pub best_coin_dominated :
    (m : Market) (pools : Map (List Pool)) (top : Coin)
    → Dominates m (keys pools) top.revenue
    → best_coin m pools top ≡ top
unfolding best_coin
best_coin_dominated m [] top h = refl
best_coin_dominated m ((tag, ps) ∷ pools) top h =
    rw (better_dominated (lookup tag m.coins) top h.0) (best_coin_dominated m pools top h.1)

-- The coins of the market stand under their tags.
abbrev pub IsTagged : Market → Type 0
IsTagged m = (tag : Text) (c : Coin) → lookup tag m.coins ≡ some c → c.tag ≡ tag

-- Where the best coin comes from: it is the one at the start, or a fresh one of the market for which
-- a key stands, and then it earns more.
abbrev pub IsFound : Market → List Text → Coin → Coin → Type 0
IsFound m tags start c =
    (mem c.tag tags ≡ true)
    × ((lookup c.tag m.coins ≡ some c) × ((c.stale ≡ false) × (start.revenue < c.revenue)))

better-IsFound :
    (m : Market) (tag : Text) (tags : List Text) (o : Option Coin) (top : Coin)
    → IsTagged m
    → lookup tag m.coins ≡ o
    → (better o top ≡ top) ⊎ IsFound m (tag ∷ tags) top (better o top)
better-IsFound m tag tags none top w e = inl refl
better-IsFound m tag tags (some c) top w e =
    let t = w tag c e in
    elim (Bool-cases (not c.stale && ltb top.revenue c.revenue)) [
      | inr n ↦ inl (rw n refl)
      | inl y ↦ inr (
          rw y (
            ground (arith, t, text_eq tag c.tag),
            (ap (λ k. lookup k m.coins) t ∙ e, (ground arith, ground arith)),
          ))
    ]

pub best_coin-IsFound :
    (m : Market) (pools : Map (List Pool)) (top : Coin)
    → IsTagged m
    → (best_coin m pools top ≡ top) ⊎ IsFound m (keys pools) top (best_coin m pools top)
unfolding best_coin
best_coin-IsFound m [] top w = inl refl
best_coin-IsFound m ((tag, ps) ∷ pools) top w =
    let next = better (lookup tag m.coins) top in
    let more = better-offer (lookup tag m.coins) top in
    elim (best_coin-IsFound m pools next w) [
      | inl e ↦ elim (better-IsFound m tag (keys pools) (lookup tag m.coins) top w refl) [
        | inl s ↦ inl (e ∙ s)
        | inr f ↦ inr (subst (IsFound m (tag ∷ keys pools) top) (sym e) f)
      ]
      | inr f ↦ inr (ground (arith, f), (f.1.0, (f.1.1.0, omega (arith, f.1.1.1, more.1))))
    ]

first_up-mem :
    (h : Health) (ps qs : List Pool)
    → (first_up h ps ≡ none) ⊎ (mem (picked (first_up h ps) qs) (ids ps) ≡ true)
unfolding first_up
first_up-mem h [] qs = inl refl
first_up-mem h (p ∷ ps) qs = ground (arith, text_eq p.id p.id, first_up-mem h ps qs)

-- The pool that is picked stands in the list.
pub pick_pool-mem :
    (h : Health) (ps : List Pool) → has_any ps ≡ true → mem (pick_pool h ps) (ids ps) ≡ true
unfolding pick_pool
pick_pool-mem h [] e = ground arith
pick_pool-mem h (p ∷ ps) e = elim (first_up-mem h (p ∷ ps) (p ∷ ps)) [
  | inl n ↦ rw n (ground (arith, text_eq p.id p.id))
  | inr y ↦ y
]
