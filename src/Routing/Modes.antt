-- ===== src/Routing/Modes.antt =====
-- What the status page calls the state of the proxy, against where sessions go
-- (internal/pool/manager.go).
use simple_mining_proxy.Base.{
  ◌≡◌, refl, ◌∙◌, Bool, true, false, not, Bool-cases, ◌⊎◌, inl, inr, Option, none, some, List, [],
  ◌∷◌, Text, All, any, mem, same, text_eq, is_some, arith,
}
use simple_mining_proxy.State.{Pool, find_pool}
use simple_mining_proxy.Health.{Health}
use simple_mining_proxy.Routing.{
  Snapshot, pool_is_down, candidates_of, candidates, effective, Mode, switching, stopped, normal,
  degraded, mode,
}
use simple_mining_proxy.Routing.Pick.{find_pool_id}

-- Every id that has a role names a pool, as in a file that the validation accepts.
abbrev pub AreKnown : Snapshot → List Text → Type 0
AreKnown s ids = All (λ id. (same id [] ≡ false) × (is_some (find_pool s.pools id) ≡ true)) ids

abbrev pub head_id : List Pool → Text
head_id [] = []
head_id (p ∷ ps) = p.id

head_candidate :
    (h : Health) (s : Snapshot) (ids : List Text)
    → AreKnown s ids
    → ((any (λ id. not (pool_is_down h id)) ids ≡ false) × (candidates_of h s ids ≡ []))
      ⊎ ((any (λ id. not (pool_is_down h id)) ids ≡ true)
          × ((mem (head_id (candidates_of h s ids)) ids ≡ true)
              × (pool_is_down h (head_id (candidates_of h s ids)) ≡ false)))
unfolding candidates_of
head_candidate h s [] k = inl (refl, refl)
head_candidate h s (id ∷ ids) k =
    let rest = head_candidate h s ids k.1 in
    elim (Bool-cases (pool_is_down h id)) [
      | inl d ↦ ground (arith, d, rest, k.0)
      | inr u ↦ here (find_pool s.pools id) refl u
    ]
  where
    here :
        (found : Option Pool)
        → find_pool s.pools id ≡ found
        → pool_is_down h id ≡ false
        → ((any (λ id. not (pool_is_down h id)) (id ∷ ids) ≡ false)
            × (candidates_of h s (id ∷ ids) ≡ []))
          ⊎ ((any (λ id. not (pool_is_down h id)) (id ∷ ids) ≡ true)
              × ((mem (head_id (candidates_of h s (id ∷ ids))) (id ∷ ids) ≡ true)
                  × (pool_is_down h (head_id (candidates_of h s (id ∷ ids))) ≡ false)))
    here none e u = ground arith
    here (some p) e u =
        let i = find_pool_id s.pools id p e in
        let n : same id [] ≡ false = k.0.0 in
        inr (rw (e, u, n) (refl, (rw i (ground (arith, text_eq id id)), rw i u)))

-- Where new sessions go in each state.
abbrev pub Serves : Health → Snapshot → Mode → Type 0
Serves h s normal = effective h s ≡ s.active
Serves h s degraded =
    (pool_is_down h s.active ≡ true)
    × ((mem (effective h s) s.fallback ≡ true) × (pool_is_down h (effective h s) ≡ false))
Serves h s stopped = candidates h s ≡ []
Serves h s switching = ⊥

pub effective_head : (h : Health) (s : Snapshot) → effective h s ≡ head_id (candidates h s)
unfolding effective
effective_head h s =
    elim (candidates h s) as (λ ps. elim ps [ [] ↦ [] | p ∷ qs ↦ p.id ] ≡ head_id ps) [
      | [] ↦ refl
      | p ∷ ps ↦ refl
    ]

-- While no drain runs and the active pool is known, the state says where new sessions go: NORMAL, to
-- the active pool; DEGRADED, to a fallback that is not DOWN, as the active pool is; DOWN, nowhere.
pub mode-Serves :
    (h : Health) (s : Snapshot) → AreKnown s (s.active ∷ s.fallback) → Serves h s (mode false h s)
unfolding mode candidates candidates_of
mode-Serves h s k = by_status (pool_is_down h s.active) refl (find_pool s.pools s.active) refl
  where
    by_status :
        (d : Bool)
        → pool_is_down h s.active ≡ d
        → (found : Option Pool) → find_pool s.pools s.active ≡ found
        → Serves h s (mode false h s)
    by_status d e none f = ground arith
    by_status false e (some p) f =
        let n : same s.active [] ≡ false = k.0.0 in
        let i = find_pool_id s.pools s.active p f in rw (n, e) (effective_head h s ∙ rw (f, n, e) i)
    by_status true e (some p) f =
        let n : same s.active [] ≡ false = k.0.0 in
        elim (head_candidate h s s.fallback k.1) [
          | inl z ↦ rw (n, e, z.0) (rw (f, n, e) z.1)
          | inr z ↦
              let same_head : effective h s ≡ head_id (candidates_of h s s.fallback) =
                effective_head h s ∙ rw (f, n, e) refl in
              rw (n, e, z.0) (e, (rw same_head z.1.0, rw same_head z.1.1))
        ]
