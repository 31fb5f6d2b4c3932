-- ===== src/Pools/Requests.antt =====
-- internal/pool/manager.go: the operations of the API on the configuration file, each as the change
-- that it hands to `Mutate`.
use simple_mining_proxy.Base.{Bool, Option, List, Text}
use simple_mining_proxy.State.{File}
use simple_mining_proxy.State.Store.{Result, Store, MutateError, mutate}
use simple_mining_proxy.Pools.Edit.{
  EditError, activate_file, set_profit_home_file, delete_file, set_fallback_file,
}
use simple_mining_proxy.Pools.Input.{Input}
use simple_mining_proxy.Pools.Change.{create_file, update_file}

-- `switch` is `Activate`, `ActivateFor` and `Restore`, after their pool check.
pub data Request : Type 0 where
  switch : Text → Bool → Bool → Option (List Text) → Request
  create : Input → Request
  update : Text → Input → Request
  remove : Text → Request
  set_fallback : List Text → Request
  set_home : Text → Request

module _ (parse_ip : Text → Bool) where
  unfoldable pub edit : Request → File → Result EditError File
  edit (switch id force stale fallback) f = activate_file id force stale fallback f
  edit (create i) f = create_file parse_ip i f
  edit (update id i) f = update_file parse_ip id i f
  edit (remove id) f = delete_file id f
  edit (set_fallback given) f = set_fallback_file given f
  edit (set_home id) f = set_profit_home_file id f

  -- The request against the store; `written` says whether state.json could be written.
  unfoldable pub perform : Bool → Request → Store → Store × Option (MutateError EditError)
  perform written r s = mutate parse_ip written (edit r) s
