-- ===== src/State/Store.antt =====
-- internal/state/state.go: `File.check`, and the store's `Mutate` and `Open`.
use simple_mining_proxy.Base.{
  ℕ, Bool, true, false, ◌&&◌, ◌||◌, not, Option, none, some, List, [], ◌∷◌, Text, txt, ltb,
  if◌then◌else◌, same, mem, is_some, lookup, delete,
}
use simple_mining_proxy.State.{Pool, File, current_version, ids}
use simple_mining_proxy.State.Fields.{FieldError, valid_pool_id, pool_field_errors}

pub data StateError : Type 0 where
  id_missing active_empty : StateError
  id_invalid id_duplicate active_unknown : Text → StateError
  fallback_unknown fallback_active fallback_twice : Text → StateError
  fields_invalid : Text → List FieldError → StateError
  unreadable unparsable write_failed : StateError
  version_too_new : ℕ → StateError

abbrev pub is_empty {ℓ} : {A : Type ℓ} → List A → Bool
is_empty [] = true
is_empty (x ∷ xs) = false

module _ (parse_ip : Text → Bool) where
  -- What `check` finds wrong with a pool, given the ids before it.
  unfoldable pub pool_error : List Text → Pool → Option StateError
  pool_error seen p =
      if same p.id []
      then some id_missing
      else if not (valid_pool_id p.id)
      then some (id_invalid p.id)
      else if mem p.id seen
      then some (id_duplicate p.id)
      else if not (is_empty (pool_field_errors parse_ip p))
      then some (fields_invalid p.id (pool_field_errors parse_ip p))
      else none

  unfoldable pub check_pools : List Text → List Pool → Option StateError
  check_pools seen [] = none
  check_pools seen (p ∷ ps) =
      let rest = check_pools (p.id ∷ seen) ps in
      elim (pool_error seen p) [ some e ↦ some e | none ↦ rest ]

  -- What `check` finds wrong with a fallback entry, given the entries before it.
  unfoldable pub fallback_error : File → List Text → Text → Option StateError
  fallback_error f seen id =
      if not (mem id (ids f.pools))
      then some (fallback_unknown id)
      else if same id f.active_pool
      then some (fallback_active id)
      else if mem id seen
      then some (fallback_twice id)
      else none

  unfoldable pub check_fallback : File → List Text → List Text → Option StateError
  check_fallback f seen [] = none
  check_fallback f seen (id ∷ rest) =
      let later = check_fallback f (id ∷ seen) rest in
      elim (fallback_error f seen id) [ some e ↦ some e | none ↦ later ]

  unfoldable pub active_error : File → Option StateError
  active_error f =
      if not (same f.active_pool []) && not (mem f.active_pool (ids f.pools))
      then some (active_unknown f.active_pool)
      else if same f.active_pool [] && not (is_empty f.pools)
      then some active_empty
      else none

  unfoldable pub check : File → Option StateError
  check f = elim (check_pools [] f.pools) [
    | some e ↦ some e
    | none ↦ elim (active_error f) [ some e ↦ some e | none ↦ check_fallback f [] f.fallback_pools ]
  ]

-- `path` as it stands on the disk, and the state in memory.
pub record Store : Type 0 where
  pub disk : Option File
  pub cur : File

pub data Result {ℓ κ} (E : Type κ) (A : Type ℓ) : Type (ℓ ⊔ κ) where
  ok : A → Result E A
  err : E → Result E A

-- An error of `fn` passed on by `Mutate`, or one of its own.
pub data MutateError (E : Type 0) : Type 0 where
  refused : E → MutateError E
  invalid : StateError → MutateError E

module _ (parse_ip : Text → Bool) {E : Type 0} where
  -- `Mutate`: the file that `commit` gets is the new `cur`.
  unfoldable pub mutate : Bool → (File → Result E File) → Store → Store × Option (MutateError E)
  mutate written fn s = elim (fn s.cur) [
    | err e ↦ (s, some (refused e))
    | ok next ↦ elim (check parse_ip next) [
      | some e ↦ (s, some (invalid e))
      | none ↦
          if written
          then (record s { disk = some next; cur = next }, none)
          else (s, some (invalid write_failed))
    ]
  ]

-- What reading and decoding state.json gives.
pub data Contents : Type 0 where
  missing failed corrupt : Contents
  decoded : File → Contents

abbrev pub empty_file : File
empty_file = record {
  version = current_version;
  active_pool = [];
  fallback_pools = [];
  pools = [];
  settings = [];
  telegram_token = [];
}

abbrev pub retired_setting : Text
retired_setting = txt "rewrite_login_prefixes"

-- The file as `Open` keeps it.
unfoldable pub upgrade : File → File
upgrade f = record f { version = current_version; settings = delete retired_setting f.settings }

abbrev pub needs_upgrade : File → Bool
needs_upgrade f = ltb f.version current_version || is_some (lookup retired_setting f.settings)

module _ (parse_ip : Text → Bool) where
  unfoldable pub open_decoded : Bool → File → Result StateError Store
  open_decoded written f =
      if ltb current_version f.version
      then err (version_too_new f.version)
      else elim (check parse_ip (upgrade f)) [
        | some e ↦ err e
        | none ↦
            if needs_upgrade f
            then (if written
                then ok (record { disk = some (upgrade f); cur = upgrade f })
                else err write_failed)
            else ok (record { disk = some f; cur = upgrade f })
      ]

  unfoldable pub open_store : Bool → Contents → Result StateError Store
  unfolding open_decoded
  open_store written missing = ok (record { disk = none; cur = empty_file })
  open_store written failed = err unreadable
  open_store written corrupt = err unparsable
  open_store written (decoded f) = open_decoded written f
