-- ===== src/Pools/Home.antt =====
-- `SetProfitHome` against the validation and the marks (internal/pool/manager.go).
use simple_mining_proxy.Base.{
  ◌≡◌, refl, ap, subst, ◌⊎◌, inl, inr, Bool, true, false, Option-cases, some, List, [], ◌∷◌, map,
  Text, All, arith, text_eq,
}
use simple_mining_proxy.State.{Pool, File, find_pool, ids}
use simple_mining_proxy.State.Fields.{pool_field_errors}
use simple_mining_proxy.State.Store.{ok}
use simple_mining_proxy.State.Valid.{IsValid, IsValidPool, mem_nonempty}
use simple_mining_proxy.Pools.Edit.{mark_home, set_profit_home_file}
use simple_mining_proxy.Pools.Marks.{
  targets-mark_home, homes-mark, HomesTakePart-absent, HomesTakePart-mark,
}
use simple_mining_proxy.Pools.Marked.{IsMarked}

module _ (parse_ip : Text → Bool) where
  set_profit_home_file-ok :
      (id : Text) (f : File) {g : File}
      → set_profit_home_file id f ≡ ok g
      → (record f { pools = map (mark_home id) f.pools } ≡ g)
        × ((id ≡ [])
            ⊎ ((p : Pool) × (find_pool f.pools id ≡ some p)
                × (p.profit_switch ≡ true)
                × (p.solo ≡ false)))
  unfolding set_profit_home_file
  set_profit_home_file-ok id f e = elim (Option-cases (find_pool f.pools id)) [
    | inl missing ↦ (ground arith, ground arith)
    | inr (p, stored) ↦ elim (text_eq id []) [
      | yes empty ↦ (ground arith, inl empty)
      | no named ↦ (ground arith, inr (p, stored, ground arith, ground arith))
    ]
  ]

  pub set_profit_home_file-IsMarked :
      (id : Text) (f : File) {g : File}
      → IsValid parse_ip f
      → IsMarked f.pools
      → set_profit_home_file id f ≡ ok g
      → IsMarked g.pools
  set_profit_home_file-IsMarked id f v k e =
      let (result, which) = set_profit_home_file-ok id f e in
      subst (λ x. IsMarked x.pools) result
        (record {
          one_target = omega (arith, targets-mark_home id f.pools, k.one_target);
          one_home = homes-mark id f.pools v.ids_distinct;
          homes_take_part = elim which [
            | inl empty ↦
                HomesTakePart-absent id f.pools
                  (rw empty (mem_nonempty parse_ip f.pools v.pools_valid))
            | inr (p, stored, profit, alone) ↦
                HomesTakePart-mark id p f.pools v.ids_distinct stored profit alone
          ];
        })

  ids-mark_home : (id : Text) (ps : List Pool) → ids (map (mark_home id) ps) ≡ ids ps
  ids-mark_home id [] = refl
  ids-mark_home id (p ∷ ps) = ap (λ xs. p.id ∷ xs) (ids-mark_home id ps)

  All-mark_home :
      (id : Text) (ps : List Pool)
      → All (IsValidPool parse_ip) ps
      → All (IsValidPool parse_ip) (map (mark_home id) ps)
  unfolding pool_field_errors
  All-mark_home id [] h = tt
  All-mark_home id (p ∷ ps) h = (h.0, All-mark_home id ps h.1)

  pub set_profit_home_file-IsValid :
      (id : Text) (f : File) {g : File}
      → IsValid parse_ip f
      → set_profit_home_file id f ≡ ok g
      → IsValid parse_ip g
  set_profit_home_file-IsValid id f v e =
      let same_ids = ids-mark_home id f.pools in
      subst (IsValid parse_ip) (set_profit_home_file-ok id f e).0 (record {
        pools_valid = All-mark_home id f.pools v.pools_valid;
        ids_distinct = rw same_ids v.ids_distinct;
        active_known = rw same_ids (ground (arith, v.active_known));
        fallback_known = rw same_ids v.fallback_known;
        fallback_inactive = v.fallback_inactive;
        fallback_distinct = v.fallback_distinct;
      })
