-- ===== src/Pools/Edit.antt =====
-- internal/pool/manager.go: the closures that `activate`, `SetProfitHome`, `Create`, `Update`,
-- `Delete` and `SetFallback` hand to `Mutate`. Names are compared and trimmed as ASCII text.
use simple_mining_proxy.Base.{
  ◌≡◌, refl, Bool, true, false, ◌&&◌, ◌||◌, not, Option, none, some, List, [], ◌∷◌, ◌++◌, map, Text,
  if◌then◌else◌, same, mem, is_some, without,
}
use simple_mining_proxy.State.{Pool, File, find_pool}
use simple_mining_proxy.State.Fields.{FieldError}
use simple_mining_proxy.State.Store.{Result, ok, err}

pub data EditError : Type 0 where
  not_found fallback_not_found fallback_is_active fallback_duplicate id_taken : Text → EditError
  check_stale home_not_taking_part name_taken id_malformed delete_active : EditError
  fields : List FieldError → EditError

infixl 5 ◌>>=◌ ◌>>◌
abbrev pub ◌>>=◌ :
    {A B : Type 0} → Result EditError A → (A → Result EditError B) → Result EditError B
ok a >>= k = k a
err e >>= k = err e

abbrev pub ◌>>◌ :
    {B : Type 0} → Result EditError (Unit {0}) → Result EditError B → Result EditError B
m >> k = m >>= λ _. k

pub >>=-eq-ok :
    {A B : Type 0} (m : Result EditError A) (k : A → Result EditError B) {b : B}
    → (m >>= k) ≡ ok b
    → (a : A) × (m ≡ ok a) × (k a ≡ ok b)
>>=-eq-ok (ok a) k h = (a, refl, h)
>>=-eq-ok (err e) k h = cc

-- `if bad { return e }`
abbrev pub reject_if : Bool → EditError → Result EditError (Unit {0})
reject_if true e = err e
reject_if false e = ok tt

abbrev pub get_pool : File → Text → EditError → Result EditError Pool
get_pool f id e = elim (find_pool f.pools id) [ none ↦ err e | some p ↦ ok p ]

abbrev pub has_pool : File → Text → Bool
has_pool f id = is_some (find_pool f.pools id)

-- The test of `existingOnce`.
abbrev pub keeps : File → Text → List Text → Text → Bool
keeps f skip out id = has_pool f id && (not (same id skip) && not (mem id out))

-- `existingOnce`; `out` is what the loop has appended so far.
unfoldable pub existing_from : File → Text → List Text → List Text → List Text
existing_from f skip out [] = out
existing_from f skip out (id ∷ rest) =
    existing_from f skip (if keeps f skip out id then out ++ id ∷ [] else out) rest

unfoldable pub existing_once : File → List Text → Text → List Text
existing_once f given skip = existing_from f skip [] given

-- The switch leaves another pool behind.
abbrev pub moves : Text → Text → Bool
moves from id = not (same from []) && not (same from id)

-- The order after a manual switch: the pool that was active comes first.
unfoldable pub rotated : Text → Text → List Text → List Text
rotated from id fallback =
    if moves from id then from ∷ without (without fallback id) from else without fallback id

-- The roles that a switch to `id` assigns; a nil `fallback` is `none`.
unfoldable pub switched : Text → Option (List Text) → File → File
unfolding rotated existing_once
switched id none f = record f {
  active_pool = id;
  fallback_pools = rotated f.active_pool id f.fallback_pools;
}
switched id (some given) f = record f {
  active_pool = id;
  fallback_pools = existing_once (record f { active_pool = id }) given id;
}

-- The closure of `activate`; `stale` is what its second look at version and test worker finds,
-- which counts only without `force`.
unfoldable pub activate_file :
    Text → Bool → Bool → Option (List Text) → File → Result EditError File
activate_file id force stale fallback f = do
  reject_if (not (has_pool f id)) (not_found id)
  reject_if (not force && stale) check_stale
  ok (switched id fallback f)

abbrev pub mark_home : Text → Pool → Pool
mark_home id p = record p { profit_home = same p.id id }

-- The closure of `SetProfitHome`.
unfoldable pub set_profit_home_file : Text → File → Result EditError File
set_profit_home_file id f =
    let marked = record f { pools = map (mark_home id) f.pools } in
    if same id [] then ok marked else do
      p ← get_pool f id (not_found id)
      reject_if (not p.profit_switch || p.solo) home_not_taking_part
      ok marked

abbrev pub clear_target : Text → Pool → Pool
clear_target id p = record p { timed_target = if same p.id id then p.timed_target else false }

-- `onlyTimedTarget`
unfoldable pub only_timed_target : Pool → List Pool → List Pool
only_timed_target p ps = if not p.timed_target then ps else map (clear_target p.id) ps

-- The closure of `Delete`.
unfoldable pub remove_pool : Text → List Pool → List Pool
remove_pool id [] = []
remove_pool id (p ∷ ps) = if same p.id id then remove_pool id ps else p ∷ remove_pool id ps

unfoldable pub delete_file : Text → File → Result EditError File
unfolding remove_pool
delete_file id f = do
  reject_if (not (has_pool f id)) (not_found id)
  reject_if (same f.active_pool id) delete_active
  ok (record f { pools = remove_pool id f.pools; fallback_pools = without f.fallback_pools id })

-- The loop of `SetFallback`: what is wrong with the list, given the ids before.
unfoldable pub fallback_refused : File → List Text → List Text → Option EditError
fallback_refused f seen [] = none
fallback_refused f seen (id ∷ rest) =
    let later = fallback_refused f (id ∷ seen) rest in
    if not (has_pool f id)
    then some (fallback_not_found id)
    else if same id f.active_pool
    then some (fallback_is_active id)
    else if mem id seen
    then some (fallback_duplicate id)
    else later

unfoldable pub set_fallback_file : List Text → File → Result EditError File
unfolding fallback_refused
set_fallback_file given f = elim (fallback_refused f [] given) [
  | some e ↦ err e
  | none ↦ ok (record f { fallback_pools = given })
]
