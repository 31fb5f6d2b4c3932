-- ===== src/Pools/Switching.antt =====
-- The active pool and the fallback order under a switch and a return (internal/pool/manager.go).
use mathlib.Core.List.{append_assoc, append-nil}
use simple_mining_proxy.Base.{
  Bool, true, false, ◌≡◌, refl, sym, subst, ◌∙◌, ◌≢◌, ◌⊎◌, inl, inr, ◌↔◌, Option, none, some, List,
  [], ◌∷◌, ◌++◌, Text, Bool-cases, All, All-append, mem, Distinct, Fresh, Fresh-nil,
  Fresh-append_one, Distinct-append_one, mem-append_one, All-without, without-Distinct, mem-without,
  without, is_some, arith,
}
use simple_mining_proxy.State.{Pool, File, find_pool, ids}
use simple_mining_proxy.State.Store.{ok}
use simple_mining_proxy.State.Valid.{IsValid}
use simple_mining_proxy.Pools.Edit.{
  existing_from, existing_once, keeps, moves, rotated, switched, activate_file,
}

-- `File.Pool` finds exactly the ids of the file.
pub find_pool-mem : (ps : List Pool) (id : Text) → is_some (find_pool ps id) ≡ mem id (ids ps)
unfolding find_pool
find_pool-mem [] id = refl
find_pool-mem (p ∷ ps) id = ground (arith, find_pool-mem ps id)

-- A fallback order that the validation accepts beside the active pool `id`.
pub record IsOrder (f : File) (id : Text) (order : List Text) : Type 0 where
  pub known : All (λ x. mem x (ids f.pools) ≡ true) order
  pub inactive : mem id order ≡ false
  pub distinct : Distinct order

append_one-IsOrder :
    (f : File) (id x : Text) (out : List Text)
    → IsOrder f id out
    → keeps f id out x ≡ true
    → IsOrder f id (out ++ x ∷ [])
append_one-IsOrder f id x out h e = record {
  known =
      All-append (λ y. mem y (ids f.pools) ≡ true) out (x ∷ []) h.known
        (ground (arith, find_pool-mem f.pools x), tt);
  inactive = ground (arith, mem-append_one x id out, h.inactive);
  distinct = Distinct-append_one x out h.distinct (ground arith);
}

existing_from-IsOrder :
    (f : File) (id : Text) (out rest : List Text)
    → IsOrder f id out
    → IsOrder f id (existing_from f id out rest)
unfolding existing_from
existing_from-IsOrder f id out [] h = h
existing_from-IsOrder f id out (x ∷ rest) h = elim (Bool-cases (keeps f id out x)) [
  | inl e ↦ rw e (existing_from-IsOrder f id _ rest (append_one-IsOrder f id x out h e))
  | inr e ↦ rw e (existing_from-IsOrder f id out rest h)
]

pub existing_once-IsOrder :
    (f : File) (id : Text) (given : List Text) → IsOrder f id (existing_once f given id)
unfolding existing_once
existing_once-IsOrder f id given =
    existing_from-IsOrder f id [] given (record { known = tt; inactive = refl; distinct = tt })

-- On an order that is in order already, `existingOnce` changes nothing.
existing_from_id :
    (f : File) (id : Text) (out rest : List Text)
    → IsOrder f id rest
    → Fresh out rest
    → existing_from f id out rest ≡ out ++ rest
unfolding existing_from
existing_from_id f id out [] h fr = sym (append-nil out)
existing_from_id f id out (x ∷ rest) h fr =
    let kept : keeps f id out x ≡ true = ground (arith, find_pool-mem f.pools x) in
    rw kept (
      existing_from_id f id (out ++ x ∷ []) rest
        (record {
          known = h.known.1;
          inactive = ground (arith, h.inactive);
          distinct = h.distinct.1;
        })
        (Fresh-append_one x out rest fr.1 h.distinct.0)
      ∙ append_assoc out (x ∷ []) rest)

without-IsOrder :
    (f : File) (id : Text) (order : List Text)
    → All (λ x. mem x (ids f.pools) ≡ true) order
    → Distinct order
    → IsOrder f id (without order id)
without-IsOrder f id order k d = record {
  known = All-without _ id order k;
  inactive = ground (arith, mem-without id id order);
  distinct = without-Distinct id order d;
}

rotated-IsOrder :
    (f : File) (from id : Text) (order : List Text)
    → All (λ x. mem x (ids f.pools) ≡ true) order
    → Distinct order
    → (mem from (ids f.pools) ≡ true) ⊎ (from ≡ [])
    → IsOrder f id (rotated from id order)
unfolding rotated
rotated-IsOrder f from id order k d known = elim (Bool-cases (moves from id)) [
  | inr e ↦ rw e (without-IsOrder f id order k d)
  | inl e ↦ rw e (record {
    known = (
      ground arith,
      All-without _ from (without order id) (without-IsOrder f id order k d).known,
    );
    inactive = ground (arith, mem-without from id (without order id), mem-without id id order);
    distinct = (
      ground (arith, mem-without from from (without order id)),
      without-Distinct from _ (without-Distinct id order d),
    );
  })
]

active_known_or_empty :
    (parse_ip : Text → Bool) (f : File)
    → IsValid parse_ip f
    → (mem f.active_pool (ids f.pools) ≡ true) ⊎ (f.active_pool ≡ [])
active_known_or_empty parse_ip f v = ground (arith, v.active_known)

pub switched_pools :
    (id : Text) (fallback : Option (List Text)) (f : File)
    → (switched id fallback f).pools ≡ f.pools
unfolding switched
switched_pools id none f = refl
switched_pools id (some given) f = refl

switched-IsValid :
    (parse_ip : Text → Bool) (id : Text) (fallback : Option (List Text)) (f : File)
    → IsValid parse_ip f
    → mem id (ids f.pools) ≡ true
    → IsValid parse_ip (switched id fallback f)
unfolding switched
switched-IsValid parse_ip id none f v m =
    let o =
      rotated-IsOrder f f.active_pool id f.fallback_pools v.fallback_known v.fallback_distinct
        (active_known_or_empty parse_ip f v) in
    record {
      pools_valid = v.pools_valid;
      ids_distinct = v.ids_distinct;
      active_known = inl m;
      fallback_known = o.known;
      fallback_inactive = o.inactive;
      fallback_distinct = o.distinct;
    }
switched-IsValid parse_ip id (some given) f v m =
    let o = existing_once-IsOrder (record f { active_pool = id }) id given in
    record {
      pools_valid = v.pools_valid;
      ids_distinct = v.ids_distinct;
      active_known = inl m;
      fallback_known = o.known;
      fallback_inactive = o.inactive;
      fallback_distinct = o.distinct;
    }

module _ (id : Text) (force stale : Bool) (fallback : Option (List Text)) (f : File) where
  pub activate_file-ok :
      {g : File}
      → activate_file id force stale fallback f ≡ ok g
      → (mem id (ids f.pools) ≡ true) × (switched id fallback f ≡ g)
  unfolding activate_file
  activate_file-ok h = ground (arith, find_pool-mem f.pools id)

  -- A switch goes through exactly for a configured pool whose check is still fresh, or overridden;
  -- it assigns the roles of `switched` then.
  pub activate_file_iff :
      (activate_file id force stale fallback f ≡ ok (switched id fallback f))
      ↔ ((mem id (ids f.pools) ≡ true) × ((force ≡ true) ⊎ (stale ≡ false)))
  unfolding activate_file
  activate_file_iff = (
    λ h. (ground (arith, find_pool-mem f.pools id), ground arith),
    λ h. ground (arith, find_pool-mem f.pools id),
  )

  -- A switch that is not refused leaves a file that the validation accepts, so only a failed write
  -- can still stop it.
  pub activate_file-IsValid :
      (parse_ip : Text → Bool) {g : File}
      → IsValid parse_ip f
      → activate_file id force stale fallback f ≡ ok g
      → IsValid parse_ip g
  activate_file-IsValid parse_ip v h =
      let (m, e) = activate_file-ok h in
      subst (IsValid parse_ip) e (switched-IsValid parse_ip id fallback f v m)

restore-switched :
    (parse_ip : Text → Bool) (target : Text) (f : File)
    → IsValid parse_ip f
    → switched f.active_pool (some f.fallback_pools) (switched target none f) ≡ f
unfolding switched existing_once
restore-switched parse_ip target f v = rw (
    existing_from_id (record f { fallback_pools = rotated f.active_pool target f.fallback_pools })
      f.active_pool [] f.fallback_pools
      (record {
        known = v.fallback_known;
        inactive = v.fallback_inactive;
        distinct = v.fallback_distinct;
      })
      (Fresh-nil f.fallback_pools))

-- The way back: to switch to another pool and to return with the fallback order from before gives
-- back the very file.
pub restore-activate :
    (parse_ip : Text → Bool) (target : Text) (force stale stale' : Bool) (f : File) {g : File}
    → IsValid parse_ip f
    → f.active_pool ≢ []
    → activate_file target force stale none f ≡ ok g
    → activate_file f.active_pool true stale' (some f.fallback_pools) g ≡ ok f
unfolding activate_file
restore-activate parse_ip target force stale stale' f {g} v a h =
    let (m, e) = activate_file-ok target force stale none f h in
    subst (λ g. activate_file f.active_pool true stale' (some f.fallback_pools) g ≡ ok f) e
      (ground (
        arith,
        restore-switched parse_ip target f v,
        find_pool-mem f.pools f.active_pool,
        active_known_or_empty parse_ip f v,
        switched_pools target none f,
      ))
