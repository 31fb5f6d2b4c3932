-- ===== src/Pools/Marks.antt =====
-- The marks of the pools (internal/pool/manager.go): the timed target, and the home of profit
-- switching.
use simple_mining_proxy.Base.{
  ℕ, suc, ◌+◌, ◌≤◌, ◌≡◌, refl, inl, inr, Bool, true, false, not, ◌&&◌, ◌||◌, Bool-cases, some, List,
  [], ◌∷◌, ◌++◌, map, Text, All, mem, Distinct, if◌then◌else◌, arith,
}
use simple_mining_proxy.State.{Pool, File, find_pool, ids}
use simple_mining_proxy.Pools.Edit.{clear_target, only_timed_target, mark_home, remove_pool}
use simple_mining_proxy.Pools.Change.{add_pool, replace_pool}

-- How many pools are timed targets, and how many are homes of profit switching.
abbrev pub targets : List Pool → ℕ
targets [] = 0
targets (p ∷ ps) = if p.timed_target then suc (targets ps) else targets ps

abbrev pub homes : List Pool → ℕ
homes [] = 0
homes (p ∷ ps) = if p.profit_home then suc (homes ps) else homes ps

targets-clear_absent :
    (id : Text) (ps : List Pool) → mem id (ids ps) ≡ false → targets (map (clear_target id) ps) ≡ 0
targets-clear_absent id [] h = refl
targets-clear_absent id (p ∷ ps) h = ground (arith, targets-clear_absent id ps)

pub targets-clear :
    (id : Text) (ps : List Pool) → Distinct (ids ps) → targets (map (clear_target id) ps) ≤ 1
targets-clear id [] d = omega arith
targets-clear id (p ∷ ps) d = ground (arith, targets-clear id ps d.1, targets-clear_absent id ps)

targets-append : (ps qs : List Pool) → targets (ps ++ qs) ≡ targets ps + targets qs
targets-append [] qs = omega arith
targets-append (p ∷ ps) qs = ground (arith, targets-append ps qs)

-- Adding a pool keeps the timed target unique, be the new pool the target or not.
pub targets-add_pool :
    (p : Pool) (f : File)
    → mem p.id (ids f.pools) ≡ false
    → targets f.pools ≤ 1
    → targets (add_pool p f).pools ≤ 1
unfolding only_timed_target
targets-add_pool p f m h = ground (
  arith,
  targets-append (only_timed_target p f.pools) (p ∷ []),
  targets-clear_absent p.id f.pools,
)

pub targets-replace_pool :
    (next : Pool) (ps : List Pool)
    → next.timed_target ≡ false
    → targets (replace_pool next ps) ≤ targets ps
unfolding replace_pool
targets-replace_pool next [] e = omega arith
targets-replace_pool next (p ∷ ps) e = ground (arith, targets-replace_pool next ps e)

pub targets-remove_pool : (id : Text) (ps : List Pool) → targets (remove_pool id ps) ≤ targets ps
unfolding remove_pool
targets-remove_pool id [] = omega arith
targets-remove_pool id (p ∷ ps) = ground (arith, targets-remove_pool id ps)

pub homes-remove_pool : (id : Text) (ps : List Pool) → homes (remove_pool id ps) ≤ homes ps
unfolding remove_pool
homes-remove_pool id [] = omega arith
homes-remove_pool id (p ∷ ps) = ground (arith, homes-remove_pool id ps)

pub targets-mark_home : (id : Text) (ps : List Pool) → targets (map (mark_home id) ps) ≡ targets ps
targets-mark_home id [] = refl
targets-mark_home id (p ∷ ps) = ground (arith, targets-mark_home id ps)

-- A change of the main pool marks that pool alone.
homes-mark_absent :
    (id : Text) (ps : List Pool) → mem id (ids ps) ≡ false → homes (map (mark_home id) ps) ≡ 0
homes-mark_absent id [] h = refl
homes-mark_absent id (p ∷ ps) h = ground (arith, homes-mark_absent id ps)

pub homes-mark :
    (id : Text) (ps : List Pool) → Distinct (ids ps) → homes (map (mark_home id) ps) ≤ 1
homes-mark id [] d = omega arith
homes-mark id (p ∷ ps) d = ground (arith, homes-mark id ps d.1, homes-mark_absent id ps)

homes-clear_target : (id : Text) (ps : List Pool) → homes (map (clear_target id) ps) ≡ homes ps
homes-clear_target id [] = refl
homes-clear_target id (p ∷ ps) = ground (arith, homes-clear_target id ps)

pub homes-only_timed_target :
    (p : Pool) (ps : List Pool) → homes (only_timed_target p ps) ≡ homes ps
unfolding only_timed_target
homes-only_timed_target p ps = ground (arith, homes-clear_target p.id ps)

pub homes-append : (ps qs : List Pool) → homes (ps ++ qs) ≡ homes ps + homes qs
homes-append [] qs = omega arith
homes-append (p ∷ ps) qs = ground (arith, homes-append ps qs)

pub homes-replace_pool :
    (next p : Pool) (ps : List Pool)
    → find_pool ps next.id ≡ some p
    → (next.profit_home ≡ true → p.profit_home ≡ true)
    → homes (replace_pool next ps) ≤ homes ps
unfolding replace_pool find_pool
homes-replace_pool next p [] e h = omega arith
homes-replace_pool next p (q ∷ ps) e h = ground (arith, homes-replace_pool next p ps)

-- The home of profit switching takes part in it.
abbrev pub home_takes_part : Pool → Bool
home_takes_part p = not p.profit_home || (p.profit_switch && not p.solo)

abbrev pub HomesTakePart : List Pool → Type 0
HomesTakePart = All (λ p. home_takes_part p ≡ true)

HomesTakePart-clear :
    (id : Text) (ps : List Pool) → HomesTakePart ps → HomesTakePart (map (clear_target id) ps)
HomesTakePart-clear id [] h = tt
HomesTakePart-clear id (p ∷ ps) h = (h.0, HomesTakePart-clear id ps h.1)

pub HomesTakePart-only :
    (p : Pool) (ps : List Pool) → HomesTakePart ps → HomesTakePart (only_timed_target p ps)
unfolding only_timed_target
HomesTakePart-only p ps h = elim (Bool-cases p.timed_target) [
  | inl e ↦ rw e (HomesTakePart-clear p.id ps h)
  | inr e ↦ rw e h
]

pub HomesTakePart-replace :
    (next : Pool) (ps : List Pool)
    → home_takes_part next ≡ true
    → HomesTakePart ps
    → HomesTakePart (replace_pool next ps)
unfolding replace_pool
HomesTakePart-replace next [] n h = tt
HomesTakePart-replace next (p ∷ ps) n h = ground (arith, HomesTakePart-replace next ps n h.1)

pub HomesTakePart-absent :
    (id : Text) (ps : List Pool) → mem id (ids ps) ≡ false → HomesTakePart (map (mark_home id) ps)
HomesTakePart-absent id [] m = tt
HomesTakePart-absent id (p ∷ ps) m = (ground arith, HomesTakePart-absent id ps (ground arith))

pub HomesTakePart-mark :
    (id : Text) (p : Pool) (ps : List Pool)
    → Distinct (ids ps)
    → find_pool ps id ≡ some p
    → p.profit_switch ≡ true
    → p.solo ≡ false
    → HomesTakePart (map (mark_home id) ps)
unfolding find_pool
HomesTakePart-mark id p [] d e s n = tt
HomesTakePart-mark id p (q ∷ ps) d e s n =
    ground (arith, HomesTakePart-mark id p ps d.1, HomesTakePart-absent id ps)
