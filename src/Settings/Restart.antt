-- ===== src/Settings/Restart.antt =====
-- internal/settings/store.go: the state of the settings between two operations, and a restart.
use simple_mining_proxy.Base.{
  Unique, ◌≡◌, sym, ap, subst, ◌∙◌, arith, true, List, [], Text, Map, All, lookup,
}
use mathlib.Core.Path.{fun_ext}
use simple_mining_proxy.State.Store.{ok, is_empty}
use simple_mining_proxy.Settings.Registry.{cross_check}
use simple_mining_proxy.Settings.Codec.{Codec, IsFaithful}
use simple_mining_proxy.Settings.Build.{Built, build_loop, build}
use simple_mining_proxy.Settings.Store.{Settings, new_store}
use simple_mining_proxy.Settings.Kept.{meant, kept_as, build_loop-values, build_loop-norm}
use simple_mining_proxy.Settings.Readable.{
  IsReadable, build_loop_again, kept_as-meant, build_loop-IsReadable, build_loop-Unique,
}

module _ (c : Codec) where
  -- The store between two operations: the overrides are readable, none is a default, and they
  -- mean the values, which agree with one another.
  pub record IsSettled (s : Settings) : Type 0 where
    pub readable : All (IsReadable c) s.overrides
    pub unique : Unique s.overrides
    pub minimal : (k : Text) → kept_as c s.overrides k ≡ lookup k s.overrides
    pub values : s.cur ≡ meant c s.overrides
    pub crossed : cross_check s.cur ≡ []

  abbrev pub settings_of : Built → Settings
  settings_of b = record { cur = b.values; overrides = b.norm }

  -- `build` without an error: no error in the loop, and none between the settings.
  build_fine :
      (m : Map Text)
      → (build c m).errs ≡ []
      → ((build_loop c m).errs ≡ [])
        × ((cross_check (build_loop c m).values ≡ [])
            × (settings_of (build c m) ≡ settings_of (build_loop c m)))
  unfolding build
  build_fine m h = ground arith

  pub build_values :
      (m : Map Text) (k : Text) → (build c m).errs ≡ [] → (build c m).values k ≡ meant c m k
  build_values m k h =
      let g = build_fine m h in
      ap (λ (s : Settings). s.cur k) g.1.1 ∙ build_loop-values c m k (ap is_empty g.0)

  loop_IsSettled :
      IsFaithful c
      → (m : Map Text) → Unique m
      → (build_loop c m).errs ≡ []
      → cross_check (build_loop c m).values ≡ []
      → IsSettled (settings_of (build_loop c m))
  loop_IsSettled f m u e x =
      let fine : is_empty (build_loop c m).errs ≡ true = ap is_empty e in
      let kept : (k : Text) → lookup k (build_loop c m).norm ≡ kept_as c m k =
        λ k. build_loop-norm c m k u fine in
      let same_as = kept_as-meant c f m (build_loop c m).norm kept in
      record {
        readable = build_loop-IsReadable c f m;
        unique = build_loop-Unique c f m;
        minimal = λ k. (same_as k).1 ∙ sym (kept k);
        values = fun_ext (λ k. build_loop-values c m k fine ∙ sym (same_as k).0);
        crossed = x;
      }

  -- What `build` gives without an error is settled.
  pub build-IsSettled :
      IsFaithful c
      → (m : Map Text) → Unique m
      → (build c m).errs ≡ []
      → IsSettled (settings_of (build c m))
  build-IsSettled f m u h =
      let g = build_fine m h in subst IsSettled (sym g.1.1) (loop_IsSettled f m u g.0 g.1.0)

  -- A settled store is what `build` makes of its own overrides.
  build_again :
      IsFaithful c
      → (s : Settings) → IsSettled s
      → ((build c s.overrides).errs ≡ [])
        × (((build c s.overrides).unknown ≡ [])
            × (((build c s.overrides).values ≡ s.cur)
                × ((k : Text) → lookup k (build c s.overrides).norm ≡ lookup k s.overrides)))
  unfolding build
  build_again f s t =
      let r = build_loop_again c s.overrides t.readable in
      let fine : is_empty (build_loop c s.overrides).errs ≡ true = ap is_empty r.0 in
      let values : (build_loop c s.overrides).values ≡ s.cur =
        fun_ext (λ k. build_loop-values c s.overrides k fine) ∙ sym t.values in
      let crossed : cross_check (build_loop c s.overrides).values ≡ [] =
        ap cross_check values ∙ t.crossed in
      let kept : (k : Text) → lookup k (build_loop c s.overrides).norm ≡ lookup k s.overrides =
        λ k. build_loop-norm c s.overrides k t.unique fine ∙ t.minimal k in
      rw (r.0) (crossed, (r.1, (values, kept)))

  new_store-ok :
      (m : Map Text) (s : Settings) (unknown : List Text)
      → new_store c m ≡ ok (s, unknown)
      → ((build c m).errs ≡ []) × (settings_of (build c m) ≡ s)
  unfolding new_store
  new_store-ok m s unknown h = ground arith

  pub new_store-IsSettled :
      IsFaithful c
      → (m : Map Text) (s : Settings) (unknown : List Text) → Unique m
      → new_store c m ≡ ok (s, unknown)
      → IsSettled s
  new_store-IsSettled f m s unknown u h =
      let g = new_store-ok m s unknown h in subst IsSettled g.1 (build-IsSettled f m u g.0)

  -- A start with the overrides of a settled store gives its values and its overrides again.
  pub new_store_again :
      IsFaithful c
      → (s : Settings) → IsSettled s
      → (again : Settings) × ((new_store c s.overrides ≡ ok (again, []))
          × ((again.cur ≡ s.cur) × ((k : Text) → lookup k again.overrides ≡ lookup k s.overrides)))
  unfolding new_store
  new_store_again f s t =
      let b = build_again f s t in
      (settings_of (build c s.overrides), (ground (arith, b.0, b.1.0), (b.1.1.0, b.1.1.1)))
