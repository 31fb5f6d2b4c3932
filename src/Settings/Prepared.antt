-- ===== src/Settings/Prepared.antt =====
-- internal/settings/store.go: what `Prepare` makes of a settled store.
use simple_mining_proxy.Base.{
  Unique-insert, Unique, ◌≡◌, refl, sym, ap, subst, ◌∙◌, arith, true, false, Option, none, some, [],
  ◌∷◌, Text, Map, if◌then◌else◌, same, text_eq, lookup, insert, delete, lookup-insert,
  lookup-delete,
}
use simple_mining_proxy.State.Store.{Result, ok, err, is_empty}
use simple_mining_proxy.Stratum.{is_null}
use simple_mining_proxy.Settings.{Value, Def}
use simple_mining_proxy.Settings.Registry.{by_key, Msg, setting_unknown}
use simple_mining_proxy.Settings.Codec.{Codec, IsFaithful, encode, parse}
use simple_mining_proxy.Settings.Sound.{parse-Allowed}
use simple_mining_proxy.Settings.Build.{
  Changed, is_default, asked_entry, set_entry, change_entry, build, change_loop,
}
use simple_mining_proxy.Settings.Store.{Settings, Pending, pending_of, prepare, committed, commit}
use simple_mining_proxy.Settings.Kept.{value_of, meant, insert-nonempty}
use simple_mining_proxy.Settings.Readable.{kept_value, default-Allowed}
use simple_mining_proxy.Settings.Restart.{IsSettled, settings_of, build-IsSettled, build_values}

Unique-delete {ℓ} : {V : Type ℓ} (k : Text) (m : Map V) → Unique m → Unique (delete k m)
unfolding delete lookup
Unique-delete k [] u = tt
Unique-delete k ((j, w) ∷ m) u = ground (arith, lookup-delete k j m, Unique-delete k m u.1)

module _ (c : Codec) where
  asked_entry-Unique :
      (key raw : Text) (o : Option Def) (s : Changed)
      → Unique s.next
      → Unique (asked_entry c key raw o s).next
  unfolding set_entry
  asked_entry-Unique key raw none s u = u
  asked_entry-Unique key raw (some d) s u =
      elim (is_null raw)
        as (λ b.
          Unique
            (if b
              then record s { next = delete key s.next }
              else set_entry c key d (parse c d raw) s).next) [
                | true ↦ Unique-delete key s.next u
                | false ↦ by_result (parse c d raw)
              ]
    where
      by_result : (r : Result Msg Value) → Unique (set_entry c key d r s).next
      by_result (err x) = u
      by_result (ok v) =
          elim (is_default c d v)
            as (λ t. Unique (if t then delete key s.next else insert key (encode c v) s.next)) [
              | true ↦ Unique-delete key s.next u
              | false ↦ Unique-insert key (encode c v) s.next u
            ]

  change_loop-Unique :
      (overrides changes : Map Text)
      → Unique overrides
      → Unique (change_loop c overrides changes).next
  unfolding change_loop change_entry
  change_loop-Unique overrides [] u = u
  change_loop-Unique overrides ((key, raw) ∷ changes) u =
      asked_entry-Unique key raw (by_key key) (change_loop c overrides changes)
        (change_loop-Unique overrides changes u)

  -- What a `Prepare` that succeeds rests on.
  pub prepare-ok :
      (s : Settings) (changes : Map Text) (p : Pending)
      → prepare c s changes ≡ ok p
      → let r = change_loop c s.overrides changes in
        (r.errs ≡ [])
        × (((build c r.next).errs ≡ [])
            × (settings_of c (build c r.next) ≡ record { cur = p.values; overrides = p.overrides }))
  unfolding prepare pending_of
  prepare-ok s changes p h = ground arith

  pub committed-IsSettled :
      IsFaithful c
      → (s : Settings) → IsSettled c s
      → (changes : Map Text) (r : Result (Map Msg) Pending) → prepare c s changes ≡ r
      → IsSettled c (committed r s)
  unfolding committed commit
  committed-IsSettled f s t changes (err e) h = t
  committed-IsSettled f s t changes (ok p) h =
      let r = change_loop c s.overrides changes in
      let g = prepare-ok s changes p h in
      subst (IsSettled c) g.1.1
        (build-IsSettled c f r.next (change_loop-Unique s.overrides changes t.unique) g.1.0)

  -- Whether a setting that was `old` is `v` after a change: the default where the change is
  -- null, the value that was asked for, and what it was where it is not named.
  abbrev pub Takes : Def → Value → Option Text → Value → Type 0
  Takes d old none v = v ≡ old
  Takes d old (some raw) v = if is_null raw then v ≡ d.default else parse c d raw ≡ ok v

  module _ (f : IsFaithful c) where
    asked_value :
        (key raw : Text) (o : Option Def) (s : Changed) (k : Text) (d : Def) (old : Value)
        (rest : Option Text)
        → by_key key ≡ o
        → by_key k ≡ some d
        → is_empty (asked_entry c key raw o s).errs ≡ true
        → Takes d old rest (value_of c d (lookup k s.next))
        → Takes d old
            (if same key k then some raw else rest)
            (value_of c d (lookup k (asked_entry c key raw o s).next))
    unfolding set_entry
    asked_value key raw none s k d old rest e g h ih =
        ground (arith, insert-nonempty key setting_unknown s.errs)
    asked_value key raw (some x) s k d old rest e g h ih = by_result (parse c x raw) refl h
      where
        by_result :
            (r : Result Msg Value)
            → parse c x raw ≡ r
            → is_empty
                (if is_null raw
                  then record s { next = delete key s.next }
                  else set_entry c key x r s).errs
              ≡ true
            → Takes d old (if same key k then some raw else rest) (
                value_of c d (
                  lookup k
                    (if is_null raw
                      then record s { next = delete key s.next }
                      else set_entry c key x r s).next))
        by_result (err m) p q =
            ground (arith, text_eq key k, lookup-delete key k s.next, insert-nonempty key m s.errs)
        by_result (ok v) p q = ground (
          arith,
          text_eq key k,
          lookup-delete key k s.next,
          lookup-insert key k (encode c v) s.next,
          kept_value c f x v,
          parse-Allowed c x raw v,
          default-Allowed c f key x,
        )

    asked_fine :
        (key raw : Text) (o : Option Def) (s : Changed)
        → is_empty (asked_entry c key raw o s).errs ≡ true
        → is_empty s.errs ≡ true
    unfolding set_entry
    asked_fine key raw none s h = ground (arith, insert-nonempty key setting_unknown s.errs)
    asked_fine key raw (some d) s h = by_result (parse c d raw) h
      where
        by_result :
            (r : Result Msg Value)
            → is_empty
                (if is_null raw
                  then record s { next = delete key s.next }
                  else set_entry c key d r s).errs
              ≡ true
            → is_empty s.errs ≡ true
        by_result (ok v) e = ground arith
        by_result (err x) e = ground (arith, insert-nonempty key x s.errs)

    change_loop-Takes :
        (overrides changes : Map Text) (k : Text) (d : Def)
        → by_key k ≡ some d
        → is_empty (change_loop c overrides changes).errs ≡ true
        → Takes d
            (value_of c d (lookup k overrides))
            (lookup k changes)
            (value_of c d (lookup k (change_loop c overrides changes).next))
    unfolding change_loop change_entry lookup
    change_loop-Takes overrides [] k d e h = refl
    change_loop-Takes overrides ((key, raw) ∷ changes) k d e h =
        let s = change_loop c overrides changes in
        asked_value key raw (by_key key) s k d (value_of c d (lookup k overrides))
          (lookup k changes) refl e h
          (change_loop-Takes overrides changes k d e (asked_fine key raw (by_key key) s h))

    meant-known :
        (m : Map Text) (k : Text) (d : Def)
        → by_key k ≡ some d
        → meant c m k ≡ value_of c d (lookup k m)
    unfolding meant
    meant-known m k d e = ground arith

    pub prepare-Takes :
        (s : Settings)
        → IsSettled c s
        → (changes : Map Text) (p : Pending) → prepare c s changes ≡ ok p
        → (k : Text) (d : Def) → by_key k ≡ some d
        → Takes d (s.cur k) (lookup k changes) (p.values k)
    prepare-Takes s t changes p h k d e =
        let r = change_loop c s.overrides changes in
        let g = prepare-ok s changes p h in
        let u = change_loop-Unique s.overrides changes t.unique in
        let new : p.values k ≡ value_of c d (lookup k r.next) =
          ap (λ (x : Settings). x.cur k) (sym g.1.1)
          ∙ (build_values c r.next k g.1.0 ∙ meant-known r.next k d e) in
        let old : s.cur k ≡ value_of c d (lookup k s.overrides) =
          ap (λ v. v k) t.values ∙ meant-known s.overrides k d e in
        subst (λ v. Takes d v (lookup k changes) (p.values k)) (sym old)
          (subst (λ v. Takes d (value_of c d (lookup k s.overrides)) (lookup k changes) v) (sym new)
            (change_loop-Takes s.overrides changes k d e (ap is_empty g.0)))
