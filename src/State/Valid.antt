-- ===== src/State/Valid.antt =====
-- What a well-formed state.json is, apart from how the validation of internal/state/state.go works.
use simple_mining_proxy.Base.{
  Bool, true, false, ◌≡◌, refl, ◌≢◌, ◌↔◌, ◌⊎◌, none, List, [], ◌∷◌, Text, All, mem, Distinct, Fresh,
  Fresh-tail, Fresh-cons, Fresh-nil, arith,
}
use simple_mining_proxy.State.{Pool, File, ids}
use simple_mining_proxy.State.Fields.{valid_pool_id, pool_field_errors}
use simple_mining_proxy.State.Store.{
  pool_error, check_pools, fallback_error, check_fallback, active_error, check,
}

module _ (parse_ip : Text → Bool) where
  abbrev pub IsValidPool : Pool → Type 0
  IsValidPool p = (valid_pool_id p.id ≡ true) × (pool_field_errors parse_ip p ≡ [])

  -- The documented shape of the file: pools with distinct ids; an active pool among them, or no
  -- pools at all; fallback pools among them, each once, and none of them active.
  pub record IsValid (f : File) : Type 0 where
    pub pools_valid : All IsValidPool f.pools
    pub ids_distinct : Distinct (ids f.pools)
    pub active_known :
        (mem f.active_pool (ids f.pools) ≡ true) ⊎ ((f.active_pool ≡ []) × (f.pools ≡ []))
    pub fallback_known : All (λ id. mem id (ids f.pools) ≡ true) f.fallback_pools
    pub fallback_inactive : mem f.active_pool f.fallback_pools ≡ false
    pub fallback_distinct : Distinct f.fallback_pools

  pub id_nonempty : (p : Pool) → IsValidPool p → p.id ≢ []
  unfolding valid_pool_id
  id_nonempty p h e = ground arith

  pool_error-none :
      (seen : List Text) (p : Pool)
      → pool_error parse_ip seen p ≡ none
      → IsValidPool p × (mem p.id seen ≡ false)
  unfolding pool_error
  pool_error-none seen p h = ground arith

  none-pool_error :
      (seen : List Text) (p : Pool)
      → IsValidPool p
      → mem p.id seen ≡ false
      → pool_error parse_ip seen p ≡ none
  unfolding pool_error
  none-pool_error seen p h m = ground (arith, id_nonempty p)

  check_pools-none :
      (seen : List Text) (ps : List Pool)
      → check_pools parse_ip seen ps ≡ none
      → All IsValidPool ps × Distinct (ids ps) × Fresh seen (ids ps)
  unfolding check_pools
  check_pools-none seen [] h = (tt, tt, tt)
  check_pools-none seen (p ∷ ps) h = ground (
    arith,
    pool_error-none seen p,
    check_pools-none (p.id ∷ seen) ps,
    Fresh-tail p.id seen (ids ps),
  )

  none-check_pools :
      (seen : List Text) (ps : List Pool)
      → All IsValidPool ps
      → Distinct (ids ps)
      → Fresh seen (ids ps)
      → check_pools parse_ip seen ps ≡ none
  unfolding check_pools
  none-check_pools seen [] v d fr = refl
  none-check_pools seen (p ∷ ps) v d fr = ground (
    arith,
    none-pool_error seen p v.0 fr.0,
    none-check_pools (p.id ∷ seen) ps v.1 d.1 (Fresh-cons p.id seen (ids ps) d.0 fr.1),
  )

  check_fallback-none :
      (f : File) (seen fs : List Text)
      → check_fallback parse_ip f seen fs ≡ none
      → All (λ id. mem id (ids f.pools) ≡ true) fs
        × (mem f.active_pool fs ≡ false)
        × Distinct fs
        × Fresh seen fs
  unfolding check_fallback fallback_error
  check_fallback-none f seen [] h = (tt, refl, tt, tt)
  check_fallback-none f seen (id ∷ fs) h =
      ground (arith, check_fallback-none f (id ∷ seen) fs, Fresh-tail id seen fs)

  none-check_fallback :
      (f : File) (seen fs : List Text)
      → All (λ id. mem id (ids f.pools) ≡ true) fs
      → mem f.active_pool fs ≡ false
      → Distinct fs
      → Fresh seen fs
      → check_fallback parse_ip f seen fs ≡ none
  unfolding check_fallback fallback_error
  none-check_fallback f seen [] k a d fr = refl
  none-check_fallback f seen (id ∷ fs) k a d fr =
      ground (arith, none-check_fallback f (id ∷ seen) fs k.1, Fresh-cons id seen fs d.0 fr.1)

  active_error-none :
      (f : File)
      → active_error parse_ip f ≡ none
      → (mem f.active_pool (ids f.pools) ≡ true) ⊎ ((f.active_pool ≡ []) × (f.pools ≡ []))
  unfolding active_error
  active_error-none f h = ground arith

  pub mem_nonempty : (ps : List Pool) → All IsValidPool ps → mem [] (ids ps) ≡ false
  mem_nonempty [] v = refl
  mem_nonempty (p ∷ ps) v = ground (arith, id_nonempty p v.0, mem_nonempty ps v.1)

  none-active_error :
      (f : File)
      → All IsValidPool f.pools
      → (mem f.active_pool (ids f.pools) ≡ true) ⊎ ((f.active_pool ≡ []) × (f.pools ≡ []))
      → active_error parse_ip f ≡ none
  unfolding active_error
  none-active_error f v h = ground (arith, mem_nonempty f.pools v)

  check-none : (f : File) → check parse_ip f ≡ none → IsValid f
  unfolding check
  check-none f h = ground (
    arith,
    check_pools-none [] f.pools,
    active_error-none f,
    check_fallback-none f [] f.fallback_pools,
  )

  pub none-check : (f : File) → IsValid f → check parse_ip f ≡ none
  unfolding check
  none-check f v = ground (
    arith,
    none-check_pools [] f.pools v.pools_valid v.ids_distinct (Fresh-nil _),
    none-active_error f v.pools_valid v.active_known,
    none-check_fallback f [] f.fallback_pools v.fallback_known v.fallback_inactive
        v.fallback_distinct (Fresh-nil _),
  )

  -- The validation of the configuration file accepts exactly the well-formed files.
  pub check-IsValid_iff : (f : File) → (check parse_ip f ≡ none) ↔ IsValid f
  check-IsValid_iff f = (check-none f, none-check f)
