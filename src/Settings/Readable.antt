-- ===== src/Settings/Readable.antt =====
-- internal/settings/store.go: the overrides that `build` keeps are read again, and mean the same.
use simple_mining_proxy.Base.{
  Unique-insert, Unique, ◌≡◌, refl, sym, ap, ◌∙◌, arith, Bool, true, false, subst, Option, none,
  some, List, [], ◌∷◌, Text, Map, All, if◌then◌else◌, same, text_eq, lookup, insert,
}
use simple_mining_proxy.State.Store.{Result, ok, err}
use simple_mining_proxy.Settings.{Value, Def}
use simple_mining_proxy.Settings.Registry.{find_def, defs, by_key, Msg}
use simple_mining_proxy.Settings.Codec.{Codec, IsFaithful, encode, parse, Allowed}
use simple_mining_proxy.Settings.Sound.{defs-Allowed, parse-Allowed, parse-encode}
use simple_mining_proxy.Settings.Build.{
  Built, is_default, take_value, read_entry, known_entry, build_entry, build_loop,
}
use simple_mining_proxy.Settings.Kept.{value_of, meant, kept_of, kept_as}

All-find_def {κ} :
    (P : Def → Type κ) (ds : List Def) (k : Text) (d : Def)
    → All P ds
    → find_def ds k ≡ some d
    → P d
unfolding find_def
All-find_def P [] k d a h = ground arith
All-find_def P (x ∷ ds) k d a h = by_test (same x.key k) (All-find_def P ds k d a.1) h
  where
    by_test :
        (b : Bool)
        → (find_def ds k ≡ some d → P d)
        → (if b then some x else find_def ds k) ≡ some d
        → P d
    by_test true rest e = subst P (cc) a.0
    by_test false rest e = rest e

All-insert {ℓ κ} :
    {V : Type ℓ} (P : Text × V → Type κ) (k : Text) (v : V) (m : Map V)
    → P (k, v)
    → All P m
    → All P (insert k v m)
unfolding insert
All-insert P k v [] p a = (p, tt)
All-insert P k v ((j, w) ∷ m) p a =
    elim (same j k) as (λ b. All P (if b then (k, v) ∷ m else (j, w) ∷ insert k v m)) [
      | true ↦ (p, a.1)
      | false ↦ (a.0, All-insert P k v m p a.1)
    ]

module _ (c : Codec) where
  -- A kept override: a value of a known setting.
  pub record IsReadable (e : Text × Text) : Type 0 where
    pub def : Def
    pub value : Value
    pub found : by_key e.0 ≡ some def
    pub parsed : parse c def e.1 ≡ ok value

  pub build_loop_again :
      (m : Map Text)
      → All IsReadable m
      → ((build_loop c m).errs ≡ []) × ((build_loop c m).unknown ≡ [])
  unfolding build_loop build_entry read_entry take_value
  build_loop_again [] a = (refl, refl)
  build_loop_again ((k, raw) ∷ m) a =
      let r = a.0 in ground (arith, build_loop_again m a.1, r.found, r.parsed)

  module _ (f : IsFaithful c) where
    pub default-Allowed : (k : Text) (d : Def) → by_key k ≡ some d → Allowed d d.default
    default-Allowed k d h = All-find_def (λ x. Allowed x x.default) defs k d defs-Allowed h

    -- Two values of a setting with the same encoding are the same.
    encode_once :
        (d : Def) (v w : Value)
        → Allowed d v
        → Allowed d w
        → encode c v ≡ encode c w
        → ◌≡◌ {A = Result Msg Value} (ok v) (ok w)
    encode_once d v w a b e =
        sym (parse-encode c f d v a) ∙ (ap (λ t. parse c d t) e ∙ parse-encode c f d w b)

    -- What is kept of an override means what the override did, and is kept as it is.
    value_of-kept_of :
        (d : Def) (o : Option Text)
        → Allowed d d.default
        → (value_of c d (kept_of c d o) ≡ value_of c d o)
          × (kept_of c d (kept_of c d o) ≡ kept_of c d o)
    unfolding is_default
    value_of-kept_of d none a = (refl, refl)
    value_of-kept_of d (some raw) a = by_result (parse c d raw) refl
      where
        by_result :
            (r : Result Msg Value)
            → parse c d raw ≡ r
            → (value_of c d (kept_of c d (some raw)) ≡ value_of c d (some raw))
              × (kept_of c d (kept_of c d (some raw)) ≡ kept_of c d (some raw))
        by_result (ok v) e = ground (
          arith,
          parse-Allowed c d raw v,
          text_eq (encode c v) (encode c d.default),
          encode_once d v d.default,
          parse-encode c f d v,
        )
        by_result (err x) e = ground arith

    -- What is kept of a value means the value.
    pub kept_value :
        (d : Def) (v : Value)
        → Allowed d v
        → Allowed d d.default
        → value_of c d (if is_default c d v then none else some (encode c v)) ≡ v
    unfolding is_default
    kept_value d v a b = ground (
      arith,
      text_eq (encode c v) (encode c d.default),
      encode_once d v d.default,
      parse-encode c f d v,
    )

    pub kept_as-meant :
        (m n : Map Text)
        → ((k : Text) → lookup k n ≡ kept_as c m k)
        → (k : Text) → (meant c n k ≡ meant c m k) × (kept_as c n k ≡ kept_as c m k)
    unfolding meant kept_as
    kept_as-meant m n h k = by_found (by_key k) refl
      where
        by_found :
            (o : Option Def)
            → by_key k ≡ o
            → (meant c n k ≡ meant c m k) × (kept_as c n k ≡ kept_as c m k)
        by_found none e = ground arith
        by_found (some d) e =
            ground (arith, h k, value_of-kept_of d (lookup k m) (default-Allowed k d e))

    known_entry-IsReadable :
        (key raw : Text) (o : Option Def) (b : Built)
        → by_key key ≡ o
        → All IsReadable b.norm
        → All IsReadable (known_entry c key raw o b).norm
    unfolding read_entry take_value
    known_entry-IsReadable key raw none b e a = a
    known_entry-IsReadable key raw (some d) b e a = by_result (parse c d raw) refl
      where
        by_result :
            (r : Result Msg Value)
            → parse c d raw ≡ r
            → All IsReadable (read_entry c key d r b).norm
        by_result (err x) p = a
        by_result (ok v) p =
            elim (is_default c d v)
              as (λ t. All IsReadable (if t then b.norm else insert key (encode c v) b.norm)) [
                | true ↦ a
                | false ↦
                    All-insert IsReadable key (encode c v) b.norm
                      (record {
                        def = d;
                        value = v;
                        found = e;
                        parsed = parse-encode c f d v (parse-Allowed c d raw v p);
                      })
                      a
              ]

    pub build_loop-IsReadable : (m : Map Text) → All IsReadable (build_loop c m).norm
    unfolding build_loop build_entry
    build_loop-IsReadable [] = tt
    build_loop-IsReadable ((key, raw) ∷ m) =
        known_entry-IsReadable key raw (by_key key) (build_loop c m) refl (build_loop-IsReadable m)

    known_entry-Unique :
        (key raw : Text) (o : Option Def) (b : Built)
        → Unique b.norm
        → Unique (known_entry c key raw o b).norm
    unfolding read_entry take_value
    known_entry-Unique key raw none b u = u
    known_entry-Unique key raw (some d) b u = by_result (parse c d raw)
      where
        by_result : (r : Result Msg Value) → Unique (read_entry c key d r b).norm
        by_result (err x) = u
        by_result (ok v) =
            elim (is_default c d v)
              as (λ t. Unique (if t then b.norm else insert key (encode c v) b.norm)) [
                | true ↦ u
                | false ↦ Unique-insert key (encode c v) b.norm u
              ]

    pub build_loop-Unique : (m : Map Text) → Unique (build_loop c m).norm
    unfolding build_loop build_entry
    build_loop-Unique [] = tt
    build_loop-Unique ((key, raw) ∷ m) =
        known_entry-Unique key raw (by_key key) (build_loop c m) (build_loop-Unique m)
