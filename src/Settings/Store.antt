-- ===== src/Settings/Store.antt =====
-- internal/settings/store.go: the store of the settings, `NewStore`, `Prepare`, `Commit` and `Save`.
-- `mu` makes each of them one step. The listeners are left out.
use simple_mining_proxy.Base.{
  Bool, Option, none, some, List, [], ◌∷◌, ◌++◌, Text, Map, if◌then◌else◌, same,
}
use simple_mining_proxy.State.{File, itoa}
use simple_mining_proxy.State.Store.{Result, ok, err, MutateError, Store, mutate}
use simple_mining_proxy.Settings.{Applies, Value, duration, int, string, Values, Def}
use simple_mining_proxy.Settings.Registry.{defs, Msg}
use simple_mining_proxy.Settings.Codec.{Codec, format_duration}
use simple_mining_proxy.Settings.Build.{Built, build, change_loop}

-- `Store`
pub record Settings : Type 0 where
  pub cur : Values
  pub overrides : Map Text

pub record SettingChange : Type 0 where
  pub key : Text
  pub old : Text
  pub new : Text
  pub applies : Applies

pub record Pending : Type 0 where
  pub values : Values
  pub overrides : Map Text
  pub changes : List SettingChange

-- `Commit`
unfoldable pub commit : Pending → Settings → Settings
commit p s = record { cur = p.values; overrides = p.overrides }

module _ (c : Codec) where
  unfoldable pub new_store : Map Text → Result (Map Msg) (Settings × List Text)
  new_store saved =
      let b = build c saved in
      elim b.errs [
        | [] ↦ ok (record { cur = b.values; overrides = b.norm }, b.unknown)
        | e ∷ es ↦ err (e ∷ es)
      ]

  -- `Format`
  unfoldable pub format : Def → Value → Text
  format d (duration n) = format_duration c n
  format d (int n) = if same d.unit [] then itoa n else itoa n ++ (b' ' ∷ d.unit)
  format d (string s) = s

  -- The loop that fills `Changes`.
  unfoldable pub list_changes : Values → Values → List Def → List SettingChange
  list_changes old v [] = []
  list_changes old v (d ∷ ds) =
      let rest = list_changes old v ds in
      let o = format d (old d.key) in
      let n = format d (v d.key) in
      if same o n
      then rest
      else record { key = d.key; old = o; new = n; applies = d.applies } ∷ rest

  -- The last part of `Prepare`.
  unfoldable pub pending_of : Settings → Built → Result (Map Msg) Pending
  pending_of s b = elim b.errs [
    | [] ↦ ok (record {
      values = b.values;
      overrides = b.norm;
      changes = list_changes s.cur b.values defs;
    })
    | e ∷ es ↦ err (e ∷ es)
  ]

  unfoldable pub prepare : Settings → Map Text → Result (Map Msg) Pending
  prepare s changes =
      let r = change_loop c s.overrides changes in
      elim r.errs [ [] ↦ pending_of s (build c r.next) | e ∷ es ↦ err (e ∷ es) ]

-- The store of state.json and that of the settings.
pub record Stores : Type 0 where
  pub file : Store
  pub settings : Settings

-- What the closure of `Save` makes of the file.
unfoldable pub settings_kept : Result (Map Msg) Pending → File → Result (Map Msg) File
settings_kept (err e) f = err e
settings_kept (ok p) f = ok (record f { settings = p.overrides })

-- The call of `Commit` by `Mutate`.
unfoldable pub committed : Result (Map Msg) Pending → Settings → Settings
unfolding commit
committed (err e) s = s
committed (ok p) s = commit p s

-- What `Save` leaves, by what `Mutate` returns.
unfoldable pub saved :
    Result (Map Msg) Pending
    → Stores
    → Store × Option (MutateError (Map Msg))
    → Stores × Option (MutateError (Map Msg))
saved pending s (t, some e) = (record s { file = t }, some e)
saved pending s (t, none) = (record { file = t; settings = committed pending s.settings }, none)

module _ (parse_ip : Text → Bool) (c : Codec) where
  unfoldable pub save : Bool → Map Text → Stores → Stores × Option (MutateError (Map Msg))
  unfolding saved
  save written changes s =
      let pending = prepare c s.settings changes in
      saved pending s (mutate parse_ip written (settings_kept pending) s.file)
