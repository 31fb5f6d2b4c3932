-- ===== src/Pools/Sound.antt =====
-- All operations of the API against the validation and the store (internal/pool/manager.go).
use simple_mining_proxy.Base.{
  ◌+◌, ◌<◌, ◌≡◌, refl, sym, ap, subst, ◌∙◌, inl, inr, Bool, false, some, List, Text, length, arith,
}
use simple_mining_proxy.State.{File}
use simple_mining_proxy.State.Store.{Store, ok, invalid, write_failed, StateError, mutate}
use simple_mining_proxy.State.Valid.{IsValid, none-check}
use simple_mining_proxy.State.Atomic.{Result-cases}
use simple_mining_proxy.Pools.Edit.{set_fallback_file}
use simple_mining_proxy.Pools.Switching.{activate_file-IsValid, activate_file-ok, switched_pools}
use simple_mining_proxy.Pools.GoodIds.{max_numbered}
use simple_mining_proxy.Pools.Removal.{
  delete_file-IsValid, delete_file-pools, All-remove_pool, set_fallback_file_iff,
  set_fallback_file-ok,
}
use simple_mining_proxy.Pools.Addition.{create_file-IsValid, update_file-IsValid}
use simple_mining_proxy.Pools.Marks.{targets-remove_pool, homes-remove_pool}
use simple_mining_proxy.Pools.Requests.{
  Request, switch, create, update, remove, set_fallback, set_home, edit, perform,
}
use simple_mining_proxy.Pools.Marked.{IsMarked, create_file-IsMarked, update_file-IsMarked}
use simple_mining_proxy.Pools.Home.{set_profit_home_file-IsMarked, set_profit_home_file-IsValid}

-- The validated rules and the rules on the marks.
pub record IsWellFormed (parse_ip : Text → Bool) (f : File) : Type 0 where
  pub valid : IsValid parse_ip f
  pub marked : IsMarked f.pools

module _ (parse_ip : Text → Bool) where
  set_fallback_file-IsValid :
      (given : List Text) (f : File) {g : File}
      → IsValid parse_ip f
      → set_fallback_file given f ≡ ok g
      → IsValid parse_ip g × (g.pools ≡ f.pools)
  set_fallback_file-IsValid given f v e =
      let shape = set_fallback_file-ok given f e in
      let order = (set_fallback_file_iff f given).0 (e ∙ ap ok shape) in
      subst (λ x. IsValid parse_ip x × (x.pools ≡ f.pools)) (sym shape)
        (
          record {
            pools_valid = v.pools_valid;
            ids_distinct = v.ids_distinct;
            active_known = v.active_known;
            fallback_known = order.known;
            fallback_inactive = order.inactive;
            fallback_distinct = order.distinct;
          },
          refl,
        )

  -- Every operation keeps the configuration valid, with at most one timed target and at most one
  -- home of profit switching, which takes part in it. (There are fewer than ten million pools.)
  pub edit-IsWellFormed :
      (r : Request) (f : File) {g : File}
      → length f.pools + 2 < max_numbered
      → IsWellFormed parse_ip f
      → edit parse_ip r f ≡ ok g
      → IsWellFormed parse_ip g
  unfolding edit
  edit-IsWellFormed (switch id force stale fallback) f h w e = record {
    valid = activate_file-IsValid id force stale fallback f parse_ip w.valid e;
    marked =
        subst (λ x. IsMarked x.pools) (activate_file-ok id force stale fallback f e).1
          (rw (switched_pools id fallback f) w.marked);
  }
  edit-IsWellFormed (create i) f h w e = record {
    valid = create_file-IsValid parse_ip i f h w.valid e;
    marked = create_file-IsMarked parse_ip i f h w.marked e;
  }
  edit-IsWellFormed (update id i) f h w e = record {
    valid = update_file-IsValid parse_ip id i f w.valid e;
    marked = update_file-IsMarked parse_ip id i f w.valid w.marked e;
  }
  edit-IsWellFormed (remove id) f h w e = record {
    valid = delete_file-IsValid id f e parse_ip w.valid;
    marked = rw (delete_file-pools id f e) (record {
      one_target = omega (arith, targets-remove_pool id f.pools, w.marked.one_target);
      one_home = omega (arith, homes-remove_pool id f.pools, w.marked.one_home);
      homes_take_part = All-remove_pool _ id f.pools w.marked.homes_take_part;
    });
  }
  edit-IsWellFormed (set_fallback given) f h w e =
      let (valid, kept) = set_fallback_file-IsValid given f w.valid e in
      record { valid = valid; marked = rw kept w.marked }
  edit-IsWellFormed (set_home id) f h w e = record {
    valid = set_profit_home_file-IsValid parse_ip id f w.valid e;
    marked = set_profit_home_file-IsMarked parse_ip id f w.valid w.marked e;
  }

  -- What an operation reports of the store itself is a failed write, and nothing else: a change
  -- that the operation accepts is never turned down by the validation. (There are fewer than ten
  -- million pools.)
  pub perform-invalid :
      (written : Bool) (r : Request) (s : Store) {x : StateError}
      → length s.cur.pools + 2 < max_numbered
      → IsWellFormed parse_ip s.cur
      → (perform parse_ip written r s).1 ≡ some (invalid x)
      → (written ≡ false) × (x ≡ write_failed)
  unfolding perform mutate
  perform-invalid written r s {x} h w e = elim (Result-cases (edit parse_ip r s.cur)) [
    | inr (y, bad) ↦ absurd (ground arith)
    | inl (g, good) ↦
        let accepted = none-check parse_ip g (edit-IsWellFormed r s.cur h w good).valid in
        (ground arith, ground arith)
  ]
