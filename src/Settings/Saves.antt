-- ===== src/Settings/Saves.antt =====
-- internal/settings/store.go: what `Save` keeps, what it refuses and what it changes.
use simple_mining_proxy.Base.{
  Unique, ◌≡◌, refl, sym, ap, subst, ◌∙◌, arith, Bool, true, ◌≢◌, ◌⊎◌, inl, inr, Option, none, some,
  List, [], ◌∷◌, Text, Map, lookup,
}
use simple_mining_proxy.State.{File}
use simple_mining_proxy.State.Store.{Result, ok, err, mutate, MutateError, Store}
use simple_mining_proxy.State.Atomic.{mutate_atomic}
use simple_mining_proxy.Settings.{Def}
use simple_mining_proxy.Settings.Registry.{by_key, Msg}
use simple_mining_proxy.Settings.Codec.{Codec, IsFaithful}
use simple_mining_proxy.Settings.Store.{
  new_store, Pending, prepare, Stores, settings_kept, committed, commit, saved, save,
}
use simple_mining_proxy.Settings.Kept.{}
use simple_mining_proxy.Settings.Restart.{IsSettled, new_store-IsSettled}
use simple_mining_proxy.Settings.Agreed.{IsAgreed, kept-IsAgreed}
use simple_mining_proxy.Settings.Prepared.{committed-IsSettled, Takes, prepare-Takes}

module _ (parse_ip : Text → Bool) (c : Codec) where
  -- Requests of the API and of Telegram, each with whether state.json can be written.
  abbrev pub saves : List (Bool × Map Text) → Stores → Stores
  saves [] s = s
  saves ((written, changes) ∷ rest) s = saves rest (save parse_ip c written changes s).0

  abbrev pub file_with : File → Pending → File
  file_with g p = record g { settings = p.overrides }

  -- What a `Save` that succeeds leaves.
  abbrev pub saved_stores : Stores → Pending → Stores
  saved_stores s p = record {
    file = record { disk = some (file_with s.file.cur p); cur = file_with s.file.cur p };
    settings = record { cur = p.values; overrides = p.overrides };
  }

  kept-ok :
      (r : Result (Map Msg) Pending) (g next : File)
      → settings_kept r g ≡ ok next
      → (p : Pending) × ((r ≡ ok p) × (next ≡ file_with g p))
  unfolding settings_kept
  kept-ok (err e) g next h = ground arith
  kept-ok (ok p) g next h = (p, (refl, cc))

  saved_refused :
      (pending : Result (Map Msg) Pending) (s : Stores) (r : Store × Option (MutateError (Map Msg)))
      → r.1 ≢ none
      → r.0 ≡ s.file
      → ((saved pending s r).1 ≢ none) × ((saved pending s r).0 ≡ s)
  unfolding saved
  saved_refused pending s (t, some e) n h = (n, ground arith)
  saved_refused pending s (t, none) n h = absurd (n refl)

  saved_done :
      (pending : Result (Map Msg) Pending) (s : Stores) (p : Pending) (next : File)
      → pending ≡ ok p
      → next ≡ file_with s.file.cur p
      → saved pending s (record { disk = some next; cur = next }, none) ≡ (saved_stores s p, none)
  unfolding saved committed commit
  saved_done pending s p next h k = rw (h, k) refl

  -- `Save` is all or nothing: an error leaves the settings, the memory and the disk as they were;
  -- without one the changes were accepted, are on the disk, and are what readers get.
  pub save_atomic :
      (written : Bool) (changes : Map Text) (s : Stores)
      → (((save parse_ip c written changes s).1 ≢ none)
          × ((save parse_ip c written changes s).0 ≡ s))
        ⊎ ((p : Pending) × ((prepare c s.settings changes ≡ ok p)
              × ((written ≡ true)
                  × (save parse_ip c written changes s ≡ (saved_stores s p, none)))))
  unfolding save
  save_atomic written changes s =
      let fn = settings_kept (prepare c s.settings changes) in
      elim (mutate_atomic parse_ip written fn s.file) [
        | inl (n, e) ↦
            inl (
              saved_refused (prepare c s.settings changes) s (mutate parse_ip written fn s.file) n
                e)
        | inr (next, q, v, w, e) ↦
            let k = kept-ok (prepare c s.settings changes) s.file.cur next q in
            inr (
              k.0,
              (
                k.1.0,
                (
                  w,
                  ap (saved (prepare c s.settings changes) s) e
                      ∙ saved_done (prepare c s.settings changes) s k.0 next k.1.0 k.1.1,
                ),
              ),
            )
      ]

  pub save-IsSettled :
      IsFaithful c
      → (written : Bool) (changes : Map Text) (s : Stores) → IsSettled c s.settings
      → IsSettled c (save parse_ip c written changes s).0.settings
  unfolding committed commit
  save-IsSettled f written changes s t = elim (save_atomic written changes s) [
    | inl (n, e) ↦ subst (λ (x : Stores). IsSettled c x.settings) (sym e) t
    | inr (p, (h, (w, e))) ↦
        subst (λ (x : Stores × Option (MutateError (Map Msg))). IsSettled c x.0.settings) (sym e)
          (committed-IsSettled c f s.settings t changes (ok p) h)
  ]

  pub saves-IsSettled :
      IsFaithful c
      → (rs : List (Bool × Map Text)) (s : Stores) → IsSettled c s.settings
      → IsSettled c (saves rs s).settings
  saves-IsSettled f [] s t = t
  saves-IsSettled f ((written, changes) ∷ rs) s t =
      saves-IsSettled f rs (save parse_ip c written changes s).0
        (save-IsSettled f written changes s t)

  -- Whatever is saved after a start, with a file that has each key once: each setting keeps within
  -- its limits and the rules between settings hold, given that `json` and `time` read back what
  -- they print.
  pub saves-IsAgreed :
      IsFaithful c
      → (s : Stores) (unknown : List Text) → Unique s.file.cur.settings
      → new_store c s.file.cur.settings ≡ ok (s.settings, unknown)
      → (rs : List (Bool × Map Text)) → IsAgreed (saves rs s).settings.cur
  saves-IsAgreed f s unknown u h rs =
      kept-IsAgreed c f (saves rs s).settings (
        saves-IsSettled f rs s (new_store-IsSettled c f s.file.cur.settings s.settings unknown u h))

  -- After a start, with a file that has each key once, and any requests: a `Save` that succeeds
  -- gives each setting of the registry that it names the value that its text stands for, or the
  -- default where that is null, and leaves the settings alone that it does not name, given that
  -- `json` and `time` read back what they print.
  pub save-Takes :
      IsFaithful c
      → (s : Stores) (unknown : List Text) → Unique s.file.cur.settings
      → new_store c s.file.cur.settings ≡ ok (s.settings, unknown)
      → (rs : List (Bool × Map Text)) (written : Bool) (changes : Map Text)
      → (save parse_ip c written changes (saves rs s)).1 ≡ none
      → (k : Text) (d : Def) → by_key k ≡ some d
      → Takes c d
          ((saves rs s).settings.cur k)
          (lookup k changes)
          ((save parse_ip c written changes (saves rs s)).0.settings.cur k)
  save-Takes f s unknown u h rs written changes n k d g =
      let t = saves rs s in
      let x =
        saves-IsSettled f rs s
          (new_store-IsSettled c f s.file.cur.settings s.settings unknown u h) in
      elim (save_atomic written changes t) [
        | inl (m, e) ↦ absurd (m n)
        | inr (p, (q, (w, e))) ↦
            subst
              (λ (y : Stores × Option (MutateError (Map Msg))).
                Takes c d (t.settings.cur k) (lookup k changes) (y.0.settings.cur k))
              (sym e) (prepare-Takes c f t.settings x changes p q k d g)
      ]
