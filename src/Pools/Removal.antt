-- ===== src/Pools/Removal.antt =====
-- `Delete` and `SetFallback` (internal/pool/manager.go): what they accept, and what they keep.
use simple_mining_proxy.Base.{
  Bool, true, false, ◌≡◌, refl, sym, subst, ◌≢◌, ◌↔◌, inl, none, List, [], ◌∷◌, Text, All, mem,
  same, Fresh, Fresh-nil, Fresh-cons, Fresh-tail, All-without, without-Distinct, mem-without,
  without, if◌then◌else◌, arith,
}
use simple_mining_proxy.State.{Pool, File, find_pool, ids}
use simple_mining_proxy.State.Store.{ok}
use simple_mining_proxy.State.Valid.{IsValid}
use simple_mining_proxy.Pools.Edit.{remove_pool, delete_file, fallback_refused, set_fallback_file}
use simple_mining_proxy.Pools.Switching.{find_pool-mem, IsOrder}

ids-remove_pool : (id : Text) (ps : List Pool) → ids (remove_pool id ps) ≡ without (ids ps) id
unfolding remove_pool without
ids-remove_pool id [] = refl
ids-remove_pool id (p ∷ ps) = ground (arith, ids-remove_pool id ps)

pub All-remove_pool {ℓ} :
    (P : Pool → Type ℓ) (id : Text) (ps : List Pool) → All P ps → All P (remove_pool id ps)
unfolding remove_pool
All-remove_pool P id [] h = tt
All-remove_pool P id (p ∷ ps) h = ground (arith, All-remove_pool P id ps h.1)

find_pool-remove_pool :
    (id x : Text) (ps : List Pool)
    → find_pool (remove_pool id ps) x ≡ (if same id x then none else find_pool ps x)
unfolding remove_pool find_pool
find_pool-remove_pool id x [] = ground arith
find_pool-remove_pool id x (p ∷ ps) = ground (arith, find_pool-remove_pool id x ps)

All-known-without :
    (id : Text) (xs fs : List Text)
    → mem id fs ≡ false
    → All (λ x. mem x xs ≡ true) fs
    → All (λ x. mem x (without xs id) ≡ true) fs
All-known-without id xs [] m k = tt
All-known-without id xs (x ∷ fs) m k =
    ground (arith, mem-without id x xs, All-known-without id xs fs)

module _ (id : Text) (f : File) {g : File} (deleted : delete_file id f ≡ ok g) where
  delete_file-ok :
      (mem id (ids f.pools) ≡ true)
      × (f.active_pool ≢ id)
      × (g ≡ record f {
        pools = remove_pool id f.pools;
        fallback_pools = without f.fallback_pools id;
      })
  unfolding delete_file
  delete_file-ok = ground (arith, find_pool-mem f.pools id)

  pub delete_file-pools : g.pools ≡ remove_pool id f.pools
  delete_file-pools = cc (delete_file-ok.2)

  -- A deletion that goes through leaves a valid file: the id is gone from the pools and from the
  -- fallback order, and the active pool stays.
  pub delete_file-IsValid : (parse_ip : Text → Bool) → IsValid parse_ip f → IsValid parse_ip g
  delete_file-IsValid parse_ip v = subst (IsValid parse_ip) (sym delete_file-ok.2) (record {
    pools_valid = All-remove_pool _ id f.pools v.pools_valid;
    ids_distinct = rw (ids-remove_pool id f.pools) (without-Distinct id _ v.ids_distinct);
    active_known = inl (
        rw (ids-remove_pool id f.pools) (
          ground
            (arith, delete_file-ok, v.active_known, mem-without id f.active_pool (ids f.pools))));
    fallback_known = rw (ids-remove_pool id f.pools) (
        All-known-without id (ids f.pools) _ (ground (arith, mem-without id id f.fallback_pools))
          (All-without _ id f.fallback_pools v.fallback_known));
    fallback_inactive =
        ground (arith, mem-without id f.active_pool f.fallback_pools, v.fallback_inactive);
    fallback_distinct = without-Distinct id f.fallback_pools v.fallback_distinct;
  })

  -- A deletion removes the pool with the id and keeps every other one as it was.
  pub find_pool-delete_file :
      (x : Text) → find_pool g.pools x ≡ (if same id x then none else find_pool f.pools x)
  find_pool-delete_file x = rw delete_file-pools (find_pool-remove_pool id x f.pools)

-- `SetFallback` goes over the list as the validation of the file does.
fallback_refused-none :
    (f : File) (seen given : List Text)
    → (fallback_refused f seen given ≡ none) ↔ (IsOrder f f.active_pool given × Fresh seen given)
unfolding fallback_refused
fallback_refused-none f seen [] =
    (λ _. (record { known = tt; inactive = refl; distinct = tt }, tt), λ _. refl)
fallback_refused-none f seen (x ∷ given) =
    let rest = fallback_refused-none f (x ∷ seen) given in
    (
      λ h. ground (arith, rest, find_pool-mem f.pools x, Fresh-tail x seen given),
      λ h. ground (arith, rest, find_pool-mem f.pools x, Fresh-cons x seen given),
    )

pub set_fallback_file-ok :
    (given : List Text) (f : File) {g : File}
    → set_fallback_file given f ≡ ok g
    → g ≡ record f { fallback_pools = given }
unfolding set_fallback_file
set_fallback_file-ok given f h = ground arith

-- `SetFallback` accepts a list exactly if it is a fallback order for the file: configured pools,
-- none twice, not the active one.
pub set_fallback_file_iff :
    (f : File) (given : List Text)
    → (set_fallback_file given f ≡ ok (record f { fallback_pools = given }))
      ↔ IsOrder f f.active_pool given
unfolding set_fallback_file
set_fallback_file_iff f given =
    let loop = fallback_refused-none f [] given in
    (λ h. ground (arith, loop), λ h. ground (arith, loop, Fresh-nil given))
