-- ===== src/Base/Maps.antt =====
-- Go maps with string keys: association lists in which a key stands at most once.
use Prim.Native.Nat.{ℕ, ◌+◌, ◌≤◌}
use mathlib.Core.Path.{◌≡◌, refl}
use mathlib.Core.Bool.{Bool, true}
use mathlib.Core.List.{List, [], ◌∷◌}
use mathlib.Core.Option.{Option, none, some}
use native.Mathlib.Omega.{arith}
use simple_mining_proxy.Base.Tests.{is_some, if◌then◌else◌}
use simple_mining_proxy.Base.Lists.{length}
use simple_mining_proxy.Base.Texts.{Text, text_eq, same, same_refl}

abbrev pub Map {ℓ} : Type ℓ → Type ℓ
Map V = List (Text × V)

module _ {ℓ} {V : Type ℓ} where
  unfoldable pub lookup : Text → Map V → Option V
  lookup k [] = none
  lookup k ((j, v) ∷ m) = if same j k then some v else lookup k m

  -- `m[k] = v`
  unfoldable pub insert : Text → V → Map V → Map V
  insert k v [] = (k, v) ∷ []
  insert k v ((j, w) ∷ m) = if same j k then (k, v) ∷ m else (j, w) ∷ insert k v m

  -- The loop `for k, v := range m { if drop(k, v) { delete(m, k) } }`, by the test that keeps.
  unfoldable pub retain : (Text → V → Bool) → Map V → Map V
  retain p [] = []
  retain p ((j, w) ∷ m) = if p j w then (j, w) ∷ retain p m else retain p m

  -- `delete(m, k)`
  unfoldable pub delete : Text → Map V → Map V
  delete k [] = []
  delete k ((j, w) ∷ m) = if same j k then delete k m else (j, w) ∷ delete k m

  pub lookup-insert :
      (k j : Text) (v : V) (m : Map V)
      → lookup j (insert k v m) ≡ (if same k j then some v else lookup j m)
  unfolding lookup insert
  lookup-insert k j v [] = refl
  lookup-insert k j v ((i, w) ∷ m) = ground (arith, lookup-insert k j v m)

  pub lookup-delete :
      (k j : Text) (m : Map V) → lookup j (delete k m) ≡ (if same k j then none else lookup j m)
  unfolding lookup delete
  lookup-delete k j [] = ground arith
  lookup-delete k j ((i, w) ∷ m) = ground (arith, lookup-delete k j m)

  pub length-insert-le : (k : Text) (v : V) (m : Map V) → length (insert k v m) ≤ length m + 1
  unfolding insert
  length-insert-le k v [] = omega arith
  length-insert-le k v ((j, w) ∷ m) = ground (arith, length-insert-le k v m)

  pub length-insert_old :
      (k : Text) (v : V) (m : Map V)
      → is_some (lookup k m) ≡ true
      → length (insert k v m) ≡ length m
  unfolding lookup insert
  length-insert_old k v [] h = ground arith
  length-insert_old k v ((j, w) ∷ m) h = ground (arith, length-insert_old k v m)

  pub length-delete-le : (k : Text) (m : Map V) → length (delete k m) ≤ length m
  unfolding delete
  length-delete-le k [] = omega arith
  length-delete-le k ((j, w) ∷ m) = ground (arith, length-delete-le k m)

  pub length-retain-le : (p : Text → V → Bool) (m : Map V) → length (retain p m) ≤ length m
  unfolding retain
  length-retain-le p [] = omega arith
  length-retain-le p ((j, w) ∷ m) = ground (arith, length-retain-le p m)

  -- The sum of a figure over the values.
  abbrev pub sum_values : (V → ℕ) → Map V → ℕ
  sum_values f [] = 0
  sum_values f ((j, w) ∷ m) = f w + sum_values f m

  -- The figure of an entry, 0 where there is none.
  abbrev pub figure : (V → ℕ) → Option V → ℕ
  figure f none = 0
  figure f (some v) = f v

  pub sum_values-insert :
      (f : V → ℕ) (k : Text) (v : V) (m : Map V)
      → sum_values f (insert k v m) + figure f (lookup k m) ≡ sum_values f m + f v
  unfolding lookup insert
  sum_values-insert f k v [] = omega arith
  sum_values-insert f k v ((j, w) ∷ m) = ground (arith, sum_values-insert f k v m)

  pub lookup-insert_self : (k : Text) (v : V) (m : Map V) → lookup k (insert k v m) ≡ some v
  unfolding lookup insert
  lookup-insert_self k v [] = ground (arith, same_refl k)
  lookup-insert_self k v ((i, w) ∷ m) = ground (arith, lookup-insert_self k v m, same_refl k)

  pub is_some-insert :
      (k j : Text) (v : V) (m : Map V)
      → is_some (lookup j m) ≡ true
      → is_some (lookup j (insert k v m)) ≡ true
  is_some-insert k j v m h = ground (arith, lookup-insert k j v m)

  pub length-delete-some :
      (k : Text) (m : Map V) → is_some (lookup k m) ≡ true → length (delete k m) + 1 ≤ length m
  unfolding lookup delete
  length-delete-some k [] h = ground arith
  length-delete-some k ((j, w) ∷ m) h = ground (arith, length-delete-some k m, length-delete-le k m)

  -- No key stands twice.
  abbrev pub Unique : Map V → Type ℓ
  Unique [] = Unit
  Unique ((k, v) ∷ m) = (lookup k m ≡ none) × Unique m

  pub Unique-insert : (k : Text) (v : V) (m : Map V) → Unique m → Unique (insert k v m)
  unfolding insert lookup
  Unique-insert k v [] u = (refl, tt)
  Unique-insert k v ((j, w) ∷ m) u =
      ground (arith, text_eq j k, text_eq k j, lookup-insert k j v m, Unique-insert k v m u.1)
