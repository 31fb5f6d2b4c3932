-- ===== src/Settings/Build.antt =====
-- internal/settings/store.go: `build` and `Prepare`. The order in which Go ranges over a map is not
-- given; the loops take the entries from the last one, and each of them has its own key. The list
-- of unknown keys is left unsorted.
use simple_mining_proxy.Base.{
  Bool, Option, none, some, List, [], ◌∷◌, Text, Map, if◌then◌else◌, same, insert, delete,
}
use simple_mining_proxy.State.Store.{Result, ok, err}
use simple_mining_proxy.Stratum.{is_null}
use simple_mining_proxy.Settings.{Value, Values, Def, put}
use simple_mining_proxy.Settings.Registry.{by_key, defaults, Msg, setting_unknown, cross_check}
use simple_mining_proxy.Settings.Codec.{Codec, encode, parse}

-- What `build` returns.
pub record Built : Type 0 where
  pub values : Values
  pub norm : Map Text
  pub unknown : List Text
  pub errs : Map Msg

abbrev pub nothing_built : Built
nothing_built = record { values = defaults; norm = []; unknown = []; errs = [] }

-- `Overrides` and the errors so far, in `Prepare`.
pub record Changed : Type 0 where
  pub next : Map Text
  pub errs : Map Msg

module _ (c : Codec) where
  -- Whether a value is encoded like the default.
  unfoldable pub is_default : Def → Value → Bool
  is_default d v = same (encode c v) (encode c d.default)

  unfoldable pub take_value : Text → Def → Value → Built → Built
  take_value key d v b = record b {
    values = put d v b.values;
    norm = if is_default d v then b.norm else insert key (encode c v) b.norm;
  }

  -- What the loop of `build` does with an entry of a known key, by what `parse` returns.
  unfoldable pub read_entry : Text → Def → Result Msg Value → Built → Built
  read_entry key d (err e) b = record b { errs = insert key e b.errs }
  read_entry key d (ok v) b = take_value key d v b

  abbrev pub known_entry : Text → Text → Option Def → Built → Built
  known_entry key raw none b = record b { unknown = key ∷ b.unknown }
  known_entry key raw (some d) b = read_entry key d (parse c d raw) b

  -- One round of the loop of `build`.
  unfoldable pub build_entry : Text → Text → Built → Built
  build_entry key raw b = known_entry key raw (by_key key) b

  unfoldable pub build_loop : Map Text → Built
  build_loop [] = nothing_built
  build_loop ((key, raw) ∷ m) = build_entry key raw (build_loop m)

  abbrev pub with_checks : Built → Built
  with_checks b = elim b.errs [ [] ↦ record b { errs = cross_check b.values } | e ∷ es ↦ b ]

  unfoldable pub build : Map Text → Built
  build overrides = with_checks (build_loop overrides)

  -- What the loop of `Prepare` does with an entry of a known key.
  unfoldable pub set_entry : Text → Def → Result Msg Value → Changed → Changed
  set_entry key d (err e) s = record s { errs = insert key e s.errs }
  set_entry key d (ok v) s = record s {
    next = if is_default d v then delete key s.next else insert key (encode c v) s.next;
  }

  abbrev pub asked_entry : Text → Text → Option Def → Changed → Changed
  asked_entry key raw none s = record s { errs = insert key setting_unknown s.errs }
  asked_entry key raw (some d) s =
      if is_null raw
      then record s { next = delete key s.next }
      else set_entry key d (parse c d raw) s

  -- One round of the loop of `Prepare`.
  unfoldable pub change_entry : Text → Text → Changed → Changed
  change_entry key raw s = asked_entry key raw (by_key key) s

  unfoldable pub change_loop : Map Text → Map Text → Changed
  change_loop overrides [] = record { next = overrides; errs = [] }
  change_loop overrides ((key, raw) ∷ changes) =
      change_entry key raw (change_loop overrides changes)
