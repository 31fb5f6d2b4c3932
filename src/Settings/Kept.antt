-- ===== src/Settings/Kept.antt =====
-- internal/settings/store.go: what `build` gives for each key.
use simple_mining_proxy.Base.{
  Unique, ◌≡◌, refl, arith, true, false, Option, none, some, List, [], ◌∷◌, Text, Map,
  if◌then◌else◌, text_eq, lookup, insert, lookup-insert,
}
use simple_mining_proxy.State.Store.{Result, ok, err, is_empty}
use simple_mining_proxy.Settings.{Value, string, Values, Def, put}
use simple_mining_proxy.Settings.Registry.{find_def, defs, by_key, defaults, Msg}
use simple_mining_proxy.Settings.Codec.{Codec, encode, parse}
use simple_mining_proxy.Settings.Build.{
  Built, is_default, take_value, read_entry, known_entry, build_entry, build_loop,
}

pub find_def-key : (ds : List Def) (k : Text) (d : Def) → find_def ds k ≡ some d → d.key ≡ k
unfolding find_def
find_def-key [] k d h = ground arith
find_def-key (x ∷ ds) k d h = ground (arith, text_eq x.key k, find_def-key ds k d)

pub insert-nonempty {ℓ} :
    {V : Type ℓ} (k : Text) (v : V) (m : Map V) → is_empty (insert k v m) ≡ false
unfolding insert
insert-nonempty k v [] = refl
insert-nonempty k v ((j, w) ∷ m) = ground arith

module _ (c : Codec) where
  -- The value of a setting whose override is given.
  abbrev pub value_of : Def → Option Text → Value
  value_of d none = d.default
  value_of d (some raw) = elim (parse c d raw) [ ok v ↦ v | err e ↦ d.default ]

  -- What overrides mean, key by key.
  unfoldable pub meant : Map Text → Values
  meant m k = elim (by_key k) [ none ↦ string [] | some d ↦ value_of d (lookup k m) ]

  -- What is kept of an override: nothing of a default.
  abbrev pub kept_of : Def → Option Text → Option Text
  kept_of d none = none
  kept_of d (some raw) = elim (parse c d raw) [
    | ok v ↦ if is_default c d v then none else some (encode c v)
    | err e ↦ none
  ]

  unfoldable pub kept_as : Map Text → Text → Option Text
  kept_as m k = elim (by_key k) [ none ↦ none | some d ↦ kept_of d (lookup k m) ]

  -- A round leaves no error only where there was none before.
  entry_fine :
      (key raw : Text) (o : Option Def) (b : Built)
      → is_empty (known_entry c key raw o b).errs ≡ true
      → is_empty b.errs ≡ true
  unfolding read_entry take_value
  entry_fine key raw none b h = h
  entry_fine key raw (some d) b h = read_fine (parse c d raw) h
    where
      read_fine :
          (r : Result Msg Value)
          → is_empty (read_entry c key d r b).errs ≡ true
          → is_empty b.errs ≡ true
      read_fine (ok v) e = e
      read_fine (err x) e = ground (arith, insert-nonempty key x b.errs)

  -- The value that a round leaves under a key.
  entry_value :
      (key raw : Text) (b : Built) (k : Text) (o : Option Def)
      → by_key key ≡ o
      → is_empty (known_entry c key raw o b).errs ≡ true
      → (m : Map Text) → b.values k ≡ meant m k
      → (known_entry c key raw o b).values k ≡ meant ((key, raw) ∷ m) k
  unfolding read_entry take_value meant put lookup
  entry_value key raw b k none e h m ih = ground (arith, text_eq key k)
  entry_value key raw b k (some d) e h m ih = read_value (parse c d raw) refl h
    where
      read_value :
          (r : Result Msg Value)
          → parse c d raw ≡ r
          → is_empty (read_entry c key d r b).errs ≡ true
          → (read_entry c key d r b).values k ≡ meant ((key, raw) ∷ m) k
      read_value (ok v) p e1 = ground (arith, text_eq key k, find_def-key defs key d)
      read_value (err x) p e1 = ground (arith, insert-nonempty key x b.errs)

  -- What a round keeps under a key, where the entries below have other keys.
  entry_norm :
      (key raw : Text) (b : Built) (k : Text) (o : Option Def)
      → by_key key ≡ o
      → is_empty (known_entry c key raw o b).errs ≡ true
      → (m : Map Text) → lookup key m ≡ none
      → lookup k b.norm ≡ kept_as m k
      → lookup k (known_entry c key raw o b).norm ≡ kept_as ((key, raw) ∷ m) k
  unfolding read_entry take_value kept_as lookup
  entry_norm key raw b k none e h m u ih = ground (arith, text_eq key k)
  entry_norm key raw b k (some d) e h m u ih = read_norm (parse c d raw) refl h
    where
      read_norm :
          (r : Result Msg Value)
          → parse c d raw ≡ r
          → is_empty (read_entry c key d r b).errs ≡ true
          → lookup k (read_entry c key d r b).norm ≡ kept_as ((key, raw) ∷ m) k
      read_norm (ok v) p e1 = ground (arith, text_eq key k, lookup-insert key k (encode c v) b.norm)
      read_norm (err x) p e1 = ground (arith, insert-nonempty key x b.errs)

  pub build_loop-values :
      (m : Map Text) (k : Text)
      → is_empty (build_loop c m).errs ≡ true
      → (build_loop c m).values k ≡ meant m k
  unfolding build_loop build_entry meant lookup defaults
  build_loop-values [] k h = refl
  build_loop-values ((key, raw) ∷ m) k h =
      let b = build_loop c m in
      entry_value key raw b k (by_key key) refl h m
        (build_loop-values m k (entry_fine key raw (by_key key) b h))

  pub build_loop-norm :
      (m : Map Text) (k : Text)
      → Unique m
      → is_empty (build_loop c m).errs ≡ true
      → lookup k (build_loop c m).norm ≡ kept_as m k
  unfolding build_loop build_entry kept_as lookup
  build_loop-norm [] k u h = ground arith
  build_loop-norm ((key, raw) ∷ m) k u h =
      let b = build_loop c m in
      entry_norm key raw b k (by_key key) refl h m u.0
        (build_loop-norm m k u.1 (entry_fine key raw (by_key key) b h))
