-- ===== src/Timed/Return.antt =====
-- The way to the target and home again (internal/timed).
use simple_mining_proxy.Base.{
  ◌≡◌, refl, sym, ap, subst, ◌∙◌, ◌≢◌, inl, inr, Bool, true, false, none, some, List, [], ◌∷◌, Text,
  mem, is_some, same, same_refl, arith,
}
use simple_mining_proxy.State.{File, find_pool, ids}
use simple_mining_proxy.State.Store.{Store, mutate, ok, Result}
use simple_mining_proxy.State.Valid.{IsValid, none-check}
use simple_mining_proxy.State.Atomic.{mutate_atomic}
use simple_mining_proxy.Pools.Edit.{EditError, activate_file, switched}
use simple_mining_proxy.Pools.Switching.{
  activate_file-ok, restore-activate, find_pool-mem, switched_pools,
}
use simple_mining_proxy.Timed.{Away, Farm, View}
use simple_mining_proxy.Timed.Stints.{same_order, save}
use simple_mining_proxy.Timed.Steps.{activate_for, restore, leave, back}

same_order_refl : (xs : List Text) → same_order xs xs ≡ true
unfolding same_order
same_order_refl [] = refl
same_order_refl (x ∷ xs) = ground (arith, same_refl x, same_order_refl xs)

mutate-ok :
    (parse_ip : Text → Bool) (fn : File → Result EditError File) (st : Store) {g : File}
    → fn st.cur ≡ ok g
    → IsValid parse_ip g
    → mutate parse_ip true fn st ≡ (record { disk = some g; cur = g }, none)
unfolding mutate
mutate-ok parse_ip fn st {g} e v = rw (mutate, e, none-check parse_ip g v) refl

module _ (parse_ip : Text → Bool) where
  activate_for-good :
      (v : View) (id : Text) (st : Store)
      → (activate_for parse_ip v id st).1 ≡ true
      → (g : File) × (activate_file id false false none st.cur ≡ ok g)
        × ((activate_for parse_ip v id st).0.cur ≡ g)
  unfolding activate_for
  activate_for-good v id st h =
      elim (mutate_atomic parse_ip v.state_written (activate_file id false false none) st) [
        | inl (n, e) ↦ absurd (ground (arith, n))
        | inr (g, f, i, p, e) ↦ (g, f, ground (arith, e))
      ]

  restore-good :
      (v : View) (id : Text) (order : List Text) (st : Store) {g : File}
      → v.state_written ≡ true
      → activate_file id true false (some order) st.cur ≡ ok g
      → IsValid parse_ip g
      → restore parse_ip v id order st ≡ (record { disk = some g; cur = g }, true)
  unfolding restore
  restore-good v id order st {g} w e i =
      rw (w, mutate-ok parse_ip (activate_file id true false (some order)) st e i) refl

  leave-good :
      (v : View) (a b : Away) (w : Farm)
      → (leave parse_ip v a w).switcher.cur ≡ some b
      → ((activate_for parse_ip v a.target w.pools).1 ≡ true)
        × (((leave parse_ip v a w).pools ≡ (activate_for parse_ip v a.target w.pools).0)
            × (b ≡ record a {
              home = w.pools.cur.active_pool;
              fallback = w.pools.cur.fallback_pools;
              set = (activate_for parse_ip v a.target w.pools).0.cur.fallback_pools;
            }))
  unfolding leave save
  leave-good v a b w e = ground arith

  back-good :
      (v : View) (b : Away) (final : Bool) (w : Farm) {st : Store}
      → w.pools.cur.active_pool ≡ b.target
      → is_some (find_pool w.pools.cur.pools b.home) ≡ true
      → w.pools.cur.fallback_pools ≡ b.set
      → restore parse_ip v b.home b.fallback w.pools ≡ (st, true)
      → ((back parse_ip v b final w).pools ≡ st) × ((back parse_ip v b final w).switcher.cur ≡ none)
  unfolding back save
  back-good v b final w {st} t h s r =
      let order : same_order w.pools.cur.fallback_pools b.set ≡ true =
        subst (λ o. same_order w.pools.cur.fallback_pools o ≡ true) s
          (same_order_refl w.pools.cur.fallback_pools) in
      let at_target : same w.pools.cur.active_pool b.target ≡ true = ground arith in
      rw (at_target, h, order, r) (refl, refl)

  -- The way home: after a switch to the target that succeeded, to go back with nothing changed
  -- meanwhile and state.json writable makes the configuration what it was before, the active pool
  -- and the fallback order included, and the farm is away no longer.
  pub back-leave :
      (v v' : View) (a b : Away) (final : Bool) (w : Farm)
      → IsValid parse_ip w.pools.cur
      → w.pools.cur.active_pool ≢ []
      → v'.state_written ≡ true
      → (leave parse_ip v a w).switcher.cur ≡ some b
      → ((back parse_ip v' b final (leave parse_ip v a w)).pools.cur ≡ w.pools.cur)
        × ((back parse_ip v' b final (leave parse_ip v a w)).switcher.cur ≡ none)
  unfolding switched
  back-leave v v' a b final w i n s e =
      let (good, (pools, is)) = leave-good v a b w e in
      let (g, f, at) = activate_for-good v a.target w.pools good in
      let (known, sw) = activate_file-ok a.target false false none w.pools.cur f in
      let after = leave parse_ip v a w in
      let cur : after.pools.cur ≡ switched a.target none w.pools.cur =
        ap (λ p. p.cur) pools ∙ at ∙ sym sw in
      let home = ap (λ x. x.home) is in
      let r = restore-activate parse_ip a.target false false false w.pools.cur i n f in
      let back_home : activate_file b.home true false (some b.fallback) after.pools.cur
          ≡ ok w.pools.cur =
        rw (is, pools, at) r in
      let there : is_some (find_pool after.pools.cur.pools b.home) ≡ true =
        rw (cur, switched_pools a.target none w.pools.cur, home)
          (find_pool-mem w.pools.cur.pools w.pools.cur.active_pool ∙ active_known i) in
      let done =
        back-good v' b final after
          (ap (λ f. f.active_pool) cur ∙ refl ∙ sym (ap (λ x. x.target) is)) there
          (ap (λ p. p.cur.fallback_pools) pools ∙ sym (ap (λ x. x.set) is))
          (restore-good v' b.home b.fallback after.pools s back_home i) in
      (ap (λ p. p.cur) done.0, done.1)
    where
      active_known :
          IsValid parse_ip w.pools.cur → mem w.pools.cur.active_pool (ids w.pools.cur.pools) ≡ true
      active_known i = ground (arith, i.active_known)
