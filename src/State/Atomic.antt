-- ===== src/State/Atomic.antt =====
-- The store of internal/state/state.go between two calls: the disk, the memory, a failed change.
use simple_mining_proxy.Base.{
  Bool, true, ◌≡◌, refl, ap, Option-cases, Bool-cases, ◌≢◌, ◌⊎◌, inl, inr, none, some, [], ◌∷◌,
  Text, Map, arith, lookup, delete,
}
use simple_mining_proxy.State.{File, current_version}
use simple_mining_proxy.State.Store.{
  Store, Result, ok, err, mutate, check, Contents, decoded, missing, failed, corrupt, empty_file,
  upgrade, open_decoded, open_store, retired_setting,
}
use simple_mining_proxy.State.Valid.{IsValid, check-IsValid_iff, none-check}

-- The file needs no upgrade.
pub record IsCurrent (f : File) : Type 0 where
  pub version_current : f.version ≡ current_version
  pub retired_absent : lookup retired_setting f.settings ≡ none

-- The state in memory is well-formed, and it is what state.json holds, if there is one.
pub record IsConsistent (parse_ip : Text → Bool) (s : Store) : Type 0 where
  pub cur_valid : IsValid parse_ip s.cur
  pub disk_cur : (s.disk ≡ none) ⊎ (s.disk ≡ some s.cur)

delete_absent {ℓ} : {V : Type ℓ} (k : Text) (m : Map V) → lookup k m ≡ none → delete k m ≡ m
unfolding lookup delete
delete_absent k [] h = refl
delete_absent k ((j, v) ∷ m) h = ground (arith, delete_absent k m)

lookup-delete_self {ℓ} : {V : Type ℓ} (k : Text) (m : Map V) → lookup k (delete k m) ≡ none
unfolding lookup delete
lookup-delete_self k [] = refl
lookup-delete_self k ((j, v) ∷ m) = ground (arith, lookup-delete_self k m)

upgrade_current : (f : File) → IsCurrent f → upgrade f ≡ f
unfolding upgrade
upgrade_current f c = ground (arith, delete_absent retired_setting f.settings)

pub upgrade-IsCurrent : (f : File) → IsCurrent (upgrade f)
unfolding upgrade
upgrade-IsCurrent f = record {
  version_current = refl;
  retired_absent = lookup-delete_self retired_setting f.settings;
}

pub Result-cases :
    {E A : Type 0} (r : Result E A) → ((a : A) × (r ≡ ok a)) ⊎ ((x : E) × (r ≡ err x))
Result-cases (ok a) = inl (a, refl)
Result-cases (err x) = inr (x, refl)

module _ (parse_ip : Text → Bool) where
  empty-IsValid : IsValid parse_ip empty_file
  empty-IsValid = record {
    pools_valid = tt;
    ids_distinct = tt;
    active_known = inr (refl, refl);
    fallback_known = tt;
    fallback_inactive = refl;
    fallback_distinct = tt;
  }

  open_decoded-IsConsistent :
      (written : Bool) (f : File) {s : Store}
      → open_decoded parse_ip written f ≡ ok s
      → IsConsistent parse_ip s × IsCurrent s.cur
  unfolding open_decoded
  open_decoded-IsConsistent written f h =
      ground (arith, check-IsValid_iff parse_ip (upgrade f), upgrade-IsCurrent f, upgrade_current f)

  -- A store that opens is consistent and up to date: state.json is never loaded with an invalid
  -- configuration, and a file that was upgraded is the file on the disk.
  pub open_store-IsConsistent :
      (written : Bool) (c : Contents) {s : Store}
      → open_store parse_ip written c ≡ ok s
      → IsConsistent parse_ip s × IsCurrent s.cur
  unfolding open_store lookup
  open_store-IsConsistent written missing h = ground (arith, empty-IsValid)
  open_store-IsConsistent written failed h = cc
  open_store-IsConsistent written corrupt h = cc
  open_store-IsConsistent written (decoded f) h = open_decoded-IsConsistent written f h

  module _ {E : Type 0} (written : Bool) (fn : File → Result E File) (s : Store) where
    -- `Mutate` keeps the store consistent, whatever the change does and whether the write succeeds.
    pub mutate-IsConsistent :
        IsConsistent parse_ip s → IsConsistent parse_ip (mutate parse_ip written fn s).0
    unfolding mutate
    mutate-IsConsistent v = elim (Result-cases (fn s.cur)) [
      | inl (next, e) ↦ rw (e, mutate) (ground (arith, check-IsValid_iff parse_ip next))
      | inr (x, e) ↦ rw (e, mutate) v
    ]

    -- `Mutate` is all or nothing: an error leaves memory and disk as they were, and without one the
    -- change was made, passed the validation and was written.
    pub mutate_atomic :
        (((mutate parse_ip written fn s).1 ≢ none) × ((mutate parse_ip written fn s).0 ≡ s))
        ⊎ ((next : File) × (fn s.cur ≡ ok next)
            × IsValid parse_ip next
            × (written ≡ true)
            × (mutate parse_ip written fn s ≡ (record { disk = some next; cur = next }, none)))
    unfolding mutate
    mutate_atomic = elim (Result-cases (fn s.cur)) [
      | inr (x, e) ↦ rw (e, mutate) (inl (λ p. cc, refl))
      | inl (next, e) ↦ elim (Option-cases (check parse_ip next)) [
        | inr (x, c) ↦ rw (e, mutate, c) (inl (λ p. cc, refl))
        | inl c ↦ elim (Bool-cases written) [
          | inr w ↦ rw (e, mutate, c, w) (inl (λ p. cc, refl))
          | inl w ↦
              rw (e, mutate, c, w)
                (inr (next, refl, (check-IsValid_iff parse_ip next).0 c, refl, refl))
        ]
      ]
    ]

  -- After a change that succeeded, a restart finds the changed configuration.
  pub reopen-mutate :
      {E : Type 0} (w written : Bool) (fn : File → Result E File) (s t : Store)
      → mutate parse_ip written fn s ≡ (t, none)
      → IsCurrent t.cur
      → (f : File) × (t.disk ≡ some f) × (open_store parse_ip w (decoded f) ≡ ok t)
  unfolding open_store open_decoded
  reopen-mutate w written fn s t h c = elim (mutate_atomic written fn s) [
    | inl (n, e) ↦ absurd (n (ap (λ r. r.1) h))
    | inr (next, f, v, p, e) ↦ (
      next,
      ground arith,
      ground (arith, upgrade_current next, none-check parse_ip next v, c.version_current),
    )
  ]
