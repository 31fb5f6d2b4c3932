-- ===== src/Pools/Marked.antt =====
-- The marks of the pools under `Create` and `Update` (internal/pool/manager.go).
use simple_mining_proxy.Base.{
  ◌+◌, ◌≤◌, ◌<◌, ◌≡◌, subst, ◌∙◌, Bool, true, false, some, List, [], ◌∷◌, Text, All-append,
  Distinct, length, arith,
}
use simple_mining_proxy.State.{Pool, File, find_pool, ids}
use simple_mining_proxy.State.Store.{ok}
use simple_mining_proxy.State.Valid.{IsValid}
use simple_mining_proxy.Pools.Edit.{
  not_found, >>=-eq-ok, reject_if, get_pool, name_taken, only_timed_target,
}
use simple_mining_proxy.Pools.Input.{Input, apply, validate, name_clash}
use simple_mining_proxy.Pools.Change.{
  blank_pool, new_pool, create_file, replace_pool, changed_pool, update_file, choose_id,
}
use simple_mining_proxy.Pools.GoodIds.{max_numbered}
use simple_mining_proxy.Pools.Addition.{
  new_pool-ok, changed_pool-ok, ids-replace_pool, get_pool-ok, validate-ok, ok-injective,
}
use simple_mining_proxy.Pools.Marks.{
  targets, homes, targets-add_pool, targets-clear, targets-replace_pool, homes-only_timed_target,
  homes-append, homes-replace_pool, HomesTakePart, home_takes_part, HomesTakePart-only,
  HomesTakePart-replace,
}

-- The documented rules on the marks, which the validation of the file does not look at.
pub record IsMarked (ps : List Pool) : Type 0 where
  pub one_target : targets ps ≤ 1
  pub one_home : homes ps ≤ 1
  pub homes_take_part : HomesTakePart ps

module _ (parse_ip : Text → Bool) where
  new_pool-home :
      (i : Input) (f : File) {p : Pool} → new_pool parse_ip i f ≡ ok p → p.profit_home ≡ false
  unfolding new_pool apply
  new_pool-home i f e =
      let (q, valid, e₁) = >>=-eq-ok (validate parse_ip (apply blank_pool i)) _ e in
      let (u, free, e₂) = >>=-eq-ok (reject_if (name_clash f.pools q) name_taken) _ e₁ in
      let (id, chosen, e₃) = >>=-eq-ok (choose_id i.id q.name f) _ e₂ in
      ground (arith, validate-ok parse_ip (apply blank_pool i) valid)

  pub create_file-IsMarked :
      (i : Input) (f : File) {g : File}
      → length f.pools + 2 < max_numbered
      → IsMarked f.pools
      → create_file parse_ip i f ≡ ok g
      → IsMarked g.pools
  unfolding create_file
  create_file-IsMarked i f h k e =
      let (p, made, added) = >>=-eq-ok (new_pool parse_ip i f) _ e in
      let new = (new_pool-ok parse_ip i f h made).1 in
      let away = new_pool-home i f made in
      subst (λ x. IsMarked x.pools) (ok-injective added)
        (record {
          one_target = targets-add_pool p f new k.one_target;
          one_home = ground (
            arith,
            away,
            homes-append (only_timed_target p f.pools) (p ∷ []),
            homes-only_timed_target p f.pools,
            k.one_home,
          );
          homes_take_part =
              All-append (λ x. home_takes_part x ≡ true) (only_timed_target p f.pools) (p ∷ [])
                (HomesTakePart-only p f.pools k.homes_take_part) (ground (arith, away), tt);
        })

  changed_pool-home :
      (id : Text) (i : Input) (f : File) {next : Pool}
      → changed_pool parse_ip id i f ≡ ok next
      → (p : Pool) × (find_pool f.pools id ≡ some p)
        × (next.profit_home ≡ true → p.profit_home ≡ true)
        × (home_takes_part next ≡ true)
  unfolding changed_pool apply
  changed_pool-home id i f e =
      let (p, got, e₁) = >>=-eq-ok (get_pool f id (not_found id)) _ e in
      let (q, valid, e₂) = >>=-eq-ok (validate parse_ip (apply p i)) _ e₁ in
      let (u, free, e₃) = >>=-eq-ok (reject_if (name_clash f.pools q) name_taken) _ e₂ in
      let known = (validate-ok parse_ip (apply p i) valid).1 in
      subst
        (λ n.
          (p : Pool) × (find_pool f.pools id ≡ some p)
          × (n.profit_home ≡ true → p.profit_home ≡ true)
          × (home_takes_part n ≡ true))
        (known ∙ ok-injective e₃)
        (p, get_pool-ok f id (not_found id) got, λ h. ground arith, ground arith)

  pub update_file-IsMarked :
      (id : Text) (i : Input) (f : File) {g : File}
      → IsValid parse_ip f
      → IsMarked f.pools
      → update_file parse_ip id i f ≡ ok g
      → IsMarked g.pools
  unfolding update_file only_timed_target
  update_file-IsMarked id i f v k e =
      let (next, changed, e₁) = >>=-eq-ok (changed_pool parse_ip id i f) _ e in
      let (p, stored, home, takes_part) = changed_pool-home id i f changed in
      let same_id = (changed_pool-ok parse_ip id i f v.pools_valid changed).1 in
      let ps = replace_pool next f.pools in
      let distinct : Distinct (ids ps) = rw (ids-replace_pool next f.pools) v.ids_distinct in
      subst (λ x. IsMarked x.pools) (ok-injective e₁)
        (record {
          one_target = ground (
            arith,
            targets-clear next.id ps distinct,
            targets-replace_pool next f.pools,
            k.one_target,
          );
          one_home = ground (
            arith,
            homes-only_timed_target next ps,
            homes-replace_pool next p f.pools (rw same_id stored) home,
            k.one_home,
          );
          homes_take_part =
              HomesTakePart-only next ps
                (HomesTakePart-replace next f.pools takes_part k.homes_take_part);
        })
