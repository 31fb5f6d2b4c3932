-- ===== src/Settings/Reopened.antt =====
-- internal/settings/store.go: a start after a `Save`, with the state.json that it left.
use simple_mining_proxy.Base.{
  Unique, ◌≡◌, refl, sym, ap, subst, ◌∙◌, Bool, inl, inr, Option, none, some, List, [], ◌∷◌, Text,
  Map, text_eq, lookup,
}
use simple_mining_proxy.State.{File}
use simple_mining_proxy.State.Store.{
  Result, ok, mutate, MutateError, Store, Contents, decoded, open_store, retired_setting,
}
use simple_mining_proxy.State.Atomic.{IsCurrent, open_store-IsConsistent, reopen-mutate}
use simple_mining_proxy.Settings.Registry.{find_def, defs, Msg}
use simple_mining_proxy.Settings.Codec.{Codec, IsFaithful}
use simple_mining_proxy.Settings.Store.{
  Settings, new_store, Pending, prepare, Stores, settings_kept, saved, save,
}
use simple_mining_proxy.Settings.Kept.{kept_as}
use simple_mining_proxy.Settings.Restart.{IsSettled, new_store-IsSettled, new_store_again}
use simple_mining_proxy.Settings.Saves.{saves, save_atomic, save-IsSettled, saves-IsSettled}

module _ (parse_ip : Text → Bool) (c : Codec) where
  save_version :
      (written : Bool) (changes : Map Text) (s : Stores)
      → (save parse_ip c written changes s).0.file.cur.version ≡ s.file.cur.version
  save_version written changes s = elim (save_atomic parse_ip c written changes s) [
    | inl (n, e) ↦ ap (λ (x : Stores). x.file.cur.version) e
    | inr (p, (h, (w, e))) ↦
        ap (λ (x : Stores × Option (MutateError (Map Msg))). x.0.file.cur.version) e
  ]

  saves_version :
      (rs : List (Bool × Map Text)) (s : Stores)
      → (saves parse_ip c rs s).file.cur.version ≡ s.file.cur.version
  saves_version [] s = refl
  saves_version ((written, changes) ∷ rs) s =
      saves_version rs (save parse_ip c written changes s).0 ∙ save_version written changes s

  retired_unknown : (s : Settings) → IsSettled c s → lookup retired_setting s.overrides ≡ none
  unfolding kept_as find_def defs text_eq
  retired_unknown s t = sym (t.minimal retired_setting)

  saved_mutate :
      (pending : Result (Map Msg) Pending) (s : Stores) (r : Store × Option (MutateError (Map Msg)))
      → (saved pending s r).1 ≡ none
      → r ≡ ((saved pending s r).0.file, none)
  unfolding saved
  saved_mutate pending s (t, none) h = refl
  saved_mutate pending s (t, some e) h = cc

  save_reopens :
      (again written : Bool) (changes : Map Text) (s : Stores)
      → let r = save parse_ip c written changes s in
        r.1 ≡ none
        → IsCurrent r.0.file.cur
        → (g : File) × (r.0.file.disk ≡ some g)
          × (open_store parse_ip again (decoded g) ≡ ok r.0.file)
  unfolding save
  save_reopens again written changes s n i =
      let fn = settings_kept (prepare c s.settings changes) in
      reopen-mutate parse_ip again written fn s.file (save parse_ip c written changes s).0.file
        (saved_mutate (prepare c s.settings changes) s (mutate parse_ip written fn s.file) n) i

  save_kept :
      (written : Bool) (changes : Map Text) (s : Stores)
      → (save parse_ip c written changes s).1 ≡ none
      → (save parse_ip c written changes s).0.file.cur.settings
        ≡ (save parse_ip c written changes s).0.settings.overrides
  save_kept written changes s n = elim (save_atomic parse_ip c written changes s) [
    | inl (m, e) ↦ absurd (m n)
    | inr (p, (h, (w, e))) ↦
        subst
          (λ (y : Stores × Option (MutateError (Map Msg))).
            y.0.file.cur.settings ≡ y.0.settings.overrides)
          (sym e) refl
  ]

  -- After a start, with a file that has each key once, and any requests: a `Save` that succeeds
  -- leaves a state.json that opens as the state in memory, and a start with it warns of no key and
  -- gives the same value of every setting, given that `json` and `time` read back what they print.
  pub save_restarts :
      IsFaithful c
      → (started : Bool) (contents : Contents) (s : Stores) (unknown : List Text)
      → open_store parse_ip started contents ≡ ok s.file
      → Unique s.file.cur.settings
      → new_store c s.file.cur.settings ≡ ok (s.settings, unknown)
      → (rs : List (Bool × Map Text)) (written again : Bool) (changes : Map Text)
      → (save parse_ip c written changes (saves parse_ip c rs s)).1 ≡ none
      → let r = (save parse_ip c written changes (saves parse_ip c rs s)).0 in
        (g : File) × ((r.file.disk ≡ some g)
          × ((open_store parse_ip again (decoded g) ≡ ok r.file)
              × ((next : Settings) × ((new_store c r.file.cur.settings ≡ ok (next, []))
                    × (next.cur ≡ r.settings.cur)))))
  save_restarts f started contents s unknown o u h rs written again changes n =
      let t = saves parse_ip c rs s in
      let r = (save parse_ip c written changes t).0 in
      let x : IsSettled c r.settings = save-IsSettled parse_ip c f written changes t (
        saves-IsSettled parse_ip c f rs s
          (new_store-IsSettled c f s.file.cur.settings s.settings unknown u h)) in
      let k = save_kept written changes t n in
      let current : IsCurrent r.file.cur = record {
        version_current =
            save_version written changes t
            ∙ (saves_version rs s
                ∙ (open_store-IsConsistent parse_ip started contents o).1.version_current);
        retired_absent = ap (lookup retired_setting) k ∙ retired_unknown r.settings x;
      } in
      let (g, disk, opens) = save_reopens again written changes t n current in
      let a = new_store_again c f r.settings x in
      (g, (disk, (opens, (a.0, (ap (new_store c) k ∙ a.1.0, a.1.1.0)))))
