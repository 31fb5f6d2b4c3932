-- ===== src/Pools/Addition.antt =====
-- `Create` and `Update` against the validation (internal/pool/manager.go).
use simple_mining_proxy.Base.{
  ◌+◌, ◌<◌, ◌≡◌, refl, sym, ap, subst, ◌∙◌, inl, inr, Bool, true, false, Bool-cases, Option, none,
  some, List, [], ◌∷◌, ◌++◌, map, Text, All, All-append, mem, mem-append_one, Distinct-append_one,
  length, arith,
}
use simple_mining_proxy.State.{Pool, File, find_pool, ids}
use simple_mining_proxy.State.Fields.{valid_pool_id, pool_field_errors}
use simple_mining_proxy.State.Store.{Result, ok}
use simple_mining_proxy.State.Valid.{IsValid, IsValidPool}
use mathlib.Core.List.{map-append}
use simple_mining_proxy.Pools.Edit.{
  EditError, has_pool, clear_target, only_timed_target, >>=-eq-ok, reject_if, name_taken, not_found,
  get_pool,
}
use simple_mining_proxy.Pools.Input.{Input, apply, mended, validate, name_clash}
use simple_mining_proxy.Pools.Change.{
  blank_pool, choose_id, add_pool, new_pool, create_file, replace_pool, changed_pool, update_file,
}
use simple_mining_proxy.Pools.Switching.{find_pool-mem}
use simple_mining_proxy.Pools.FreshIds.{make_id_fresh}
use simple_mining_proxy.Pools.GoodIds.{max_numbered, make_id_valid}

pub ok-injective : {A : Type 0} {a b : A} → ◌≡◌ {A = Result EditError A} (ok a) (ok b) → a ≡ b
ok-injective h = cc

-- Clearing the mark of other pools changes neither ids nor validity.
ids-clear_target : (id : Text) (ps : List Pool) → ids (map (clear_target id) ps) ≡ ids ps
ids-clear_target id [] = refl
ids-clear_target id (p ∷ ps) = ground (arith, ids-clear_target id ps)

pub ids-only_timed_target : (p : Pool) (ps : List Pool) → ids (only_timed_target p ps) ≡ ids ps
unfolding only_timed_target
ids-only_timed_target p ps = ground (arith, ids-clear_target p.id ps)

pub ids-replace_pool : (next : Pool) (ps : List Pool) → ids (replace_pool next ps) ≡ ids ps
unfolding replace_pool
ids-replace_pool next [] = refl
ids-replace_pool next (p ∷ ps) = ground (arith, ids-replace_pool next ps)

pub get_pool-ok :
    (f : File) (id : Text) (x : EditError) {p : Pool}
    → get_pool f id x ≡ ok p
    → find_pool f.pools id ≡ some p
get_pool-ok f id x h = ground arith

module _ (parse_ip : Text → Bool) where
  All-clear_target :
      (id : Text) (ps : List Pool)
      → All (IsValidPool parse_ip) ps
      → All (IsValidPool parse_ip) (map (clear_target id) ps)
  unfolding pool_field_errors
  All-clear_target id [] h = tt
  All-clear_target id (p ∷ ps) h = (h.0, All-clear_target id ps h.1)

  All-only_timed_target :
      (p : Pool) (ps : List Pool)
      → All (IsValidPool parse_ip) ps
      → All (IsValidPool parse_ip) (only_timed_target p ps)
  unfolding only_timed_target
  All-only_timed_target p ps h = elim (Bool-cases p.timed_target) [
    | inl e ↦ rw e (All-clear_target p.id ps h)
    | inr e ↦ rw e h
  ]

  pub validate-ok :
      (p : Pool) {q : Pool}
      → validate parse_ip p ≡ ok q
      → (pool_field_errors parse_ip q ≡ []) × (mended p ≡ q)
  unfolding validate
  validate-ok p h = ground arith

  -- The id of a new pool is well-formed and new.
  choose_id-ok :
      (given : Option Text) (name : Text) (f : File) {id : Text}
      → length f.pools + 2 < max_numbered
      → choose_id given name f ≡ ok id
      → (valid_pool_id id ≡ true) × (has_pool f id ≡ false)
  unfolding choose_id
  choose_id-ok none name f h e = ground (arith, make_id_valid name f h, make_id_fresh name f)
  choose_id-ok (some []) name f h e = ground (arith, make_id_valid name f h, make_id_fresh name f)
  choose_id-ok (some (c ∷ id)) name f h e = ground arith

  pub new_pool-ok :
      (i : Input) (f : File) {p : Pool}
      → length f.pools + 2 < max_numbered
      → new_pool parse_ip i f ≡ ok p
      → IsValidPool parse_ip p × (mem p.id (ids f.pools) ≡ false)
  unfolding new_pool pool_field_errors
  new_pool-ok i f h e =
      let (q, valid, e₁) = >>=-eq-ok (validate parse_ip (apply blank_pool i)) _ e in
      let (u, free, e₂) = >>=-eq-ok (reject_if (name_clash f.pools q) name_taken) _ e₁ in
      let (id, chosen, e₃) = >>=-eq-ok (choose_id i.id q.name f) _ e₂ in
      ground (
        arith,
        validate-ok (apply blank_pool i) valid,
        choose_id-ok i.id q.name f h chosen,
        find_pool-mem f.pools id,
      )

  known_append_one :
      (a : Text) (xs fs : List Text)
      → All (λ x. mem x xs ≡ true) fs
      → All (λ x. mem x (xs ++ a ∷ []) ≡ true) fs
  known_append_one a xs [] h = tt
  known_append_one a xs (x ∷ fs) h =
      (ground (arith, mem-append_one a x xs, h.0), known_append_one a xs fs h.1)

  not-mem_of_known :
      (a : Text) (xs fs : List Text)
      → All (λ x. mem x xs ≡ true) fs
      → mem a xs ≡ false
      → mem a fs ≡ false
  not-mem_of_known a xs [] h m = refl
  not-mem_of_known a xs (x ∷ fs) h m = ground (arith, not-mem_of_known a xs fs h.1 m)

  ids-add_pool : (p : Pool) (f : File) → ids (add_pool p f).pools ≡ ids f.pools ++ p.id ∷ []
  ids-add_pool p f =
      map-append (λ q. q.id) (only_timed_target p f.pools) (p ∷ [])
      ∙ ap (λ xs. xs ++ p.id ∷ []) (ids-only_timed_target p f.pools)

  add_pool-IsValid :
      (p : Pool) (f : File)
      → IsValid parse_ip f
      → IsValidPool parse_ip p
      → mem p.id (ids f.pools) ≡ false
      → IsValid parse_ip (add_pool p f)
  add_pool-IsValid p f v w m =
      let unused = not-mem_of_known p.id (ids f.pools) f.fallback_pools v.fallback_known m in
      record {
        pools_valid =
            All-append (IsValidPool parse_ip) (only_timed_target p f.pools) (p ∷ [])
              (All-only_timed_target p f.pools v.pools_valid) (w, tt);
        ids_distinct =
            rw (ids-add_pool p f) (Distinct-append_one p.id (ids f.pools) v.ids_distinct m);
        active_known = inl (
            rw (ids-add_pool p f) (
              ground (
                arith,
                v.active_known,
                mem-append_one p.id p.id (ids f.pools),
                mem-append_one p.id f.active_pool (ids f.pools),
              )));
        fallback_known =
            rw (ids-add_pool p f)
              (known_append_one p.id (ids f.pools) f.fallback_pools v.fallback_known);
        fallback_inactive = ground (arith, unused, v.fallback_inactive);
        fallback_distinct = v.fallback_distinct;
      }

  -- A pool that `Create` adds leaves a valid file: its id, given or made, is well-formed and new,
  -- and the first pool becomes the active one. (There are fewer than ten million pools.)
  pub create_file-IsValid :
      (i : Input) (f : File) {g : File}
      → length f.pools + 2 < max_numbered
      → IsValid parse_ip f
      → create_file parse_ip i f ≡ ok g
      → IsValid parse_ip g
  unfolding create_file
  create_file-IsValid i f h v e =
      let (p, made, added) = >>=-eq-ok (new_pool parse_ip i f) _ e in
      let (valid, new) = new_pool-ok i f h made in
      subst (IsValid parse_ip) (ok-injective added) (add_pool-IsValid p f v valid new)

  All-replace_pool :
      (next : Pool) (ps : List Pool)
      → IsValidPool parse_ip next
      → All (IsValidPool parse_ip) ps
      → All (IsValidPool parse_ip) (replace_pool next ps)
  unfolding replace_pool
  All-replace_pool next [] w h = tt
  All-replace_pool next (p ∷ ps) w h = ground (arith, All-replace_pool next ps w h.1)

  find_pool-valid :
      (ps : List Pool) (id : Text) {p : Pool}
      → All (IsValidPool parse_ip) ps
      → find_pool ps id ≡ some p
      → (p.id ≡ id) × (valid_pool_id p.id ≡ true)
  unfolding find_pool
  find_pool-valid [] id {p} h e = cc
  find_pool-valid (q ∷ ps) id {p} h e = ground (arith, find_pool-valid ps id {p = p} h.1)

  pub changed_pool-ok :
      (id : Text) (i : Input) (f : File) {next : Pool}
      → All (IsValidPool parse_ip) f.pools
      → changed_pool parse_ip id i f ≡ ok next
      → IsValidPool parse_ip next × (next.id ≡ id) × (mem id (ids f.pools) ≡ true)
  unfolding changed_pool apply
  changed_pool-ok id i f v e =
      let (p, got, e₁) = >>=-eq-ok (get_pool f id (not_found id)) _ e in
      let (q, valid, e₂) = >>=-eq-ok (validate parse_ip (apply p i)) _ e₁ in
      let (u, free, e₃) = >>=-eq-ok (reject_if (name_clash f.pools q) name_taken) _ e₂ in
      let stored = get_pool-ok f id (not_found id) got in
      let known = find_pool-valid f.pools id v stored in
      let same_id : q.id ≡ p.id = sym (ap (λ r. r.id) (validate-ok (apply p i) valid).1) in
      let same_pool = ok-injective e₃ in
      subst (λ n. IsValidPool parse_ip n × (n.id ≡ id) × (mem id (ids f.pools) ≡ true)) same_pool
        (
          (rw same_id known.1, (validate-ok (apply p i) valid).0),
          same_id ∙ known.0,
          ground (arith, stored, find_pool-mem f.pools id),
        )

  -- An update that goes through leaves a valid file.
  pub update_file-IsValid :
      (id : Text) (i : Input) (f : File) {g : File}
      → IsValid parse_ip f
      → update_file parse_ip id i f ≡ ok g
      → IsValid parse_ip g
  unfolding update_file
  update_file-IsValid id i f v e =
      let (next, changed, e₁) = >>=-eq-ok (changed_pool parse_ip id i f) _ e in
      let (valid, same_id, known) = changed_pool-ok id i f v.pools_valid changed in
      let same_ids : ids (only_timed_target next (replace_pool next f.pools)) ≡ ids f.pools =
        ids-only_timed_target next (replace_pool next f.pools) ∙ ids-replace_pool next f.pools in
      subst (IsValid parse_ip) (ok-injective e₁) (record {
        pools_valid =
            All-only_timed_target next _ (All-replace_pool next f.pools valid v.pools_valid);
        ids_distinct = rw same_ids v.ids_distinct;
        active_known = inl (rw same_ids (ground (arith, v.active_known, known)));
        fallback_known = rw same_ids v.fallback_known;
        fallback_inactive = v.fallback_inactive;
        fallback_distinct = v.fallback_distinct;
      })
