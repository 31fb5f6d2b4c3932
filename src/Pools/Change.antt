-- ===== src/Pools/Change.antt =====
-- internal/pool/manager.go: the closures of `Create` and `Update`.
use simple_mining_proxy.Base.{
  Bool, false, not, Option, none, some, List, [], ◌∷◌, ◌++◌, Text, txt, if◌then◌else◌, same,
}
use simple_mining_proxy.State.{Pool, File}
use simple_mining_proxy.State.Fields.{valid_pool_id}
use simple_mining_proxy.State.Store.{Result, ok}
use simple_mining_proxy.Pools.Edit.{
  EditError, id_taken, id_malformed, name_taken, not_found, ◌>>=◌, ◌>>◌, reject_if, get_pool,
  has_pool, only_timed_target,
}
use simple_mining_proxy.Pools.Input.{Input, apply, validate, name_clash}
use simple_mining_proxy.Pools.Ids.{make_id}

-- `state.Pool{Password: "x"}`
abbrev pub blank_pool : Pool
blank_pool = record {
  id = [];
  name = [];
  coin = [];
  addresses = [];
  tls = false;
  tls_skip_verify = false;
  username = [];
  password = txt "x";
  profit_switch = false;
  timed_target = false;
  solo = false;
  profit_home = false;
}

-- The id that the request names, or one made from the name.
unfoldable pub choose_id : Option Text → Text → File → Result EditError Text
choose_id none name f = ok (make_id name f)
choose_id (some []) name f = ok (make_id name f)
choose_id (some (c ∷ id)) name f = do
  reject_if (not (valid_pool_id (c ∷ id))) id_malformed
  reject_if (has_pool f (c ∷ id)) (id_taken (c ∷ id))
  ok (c ∷ id)

abbrev pub add_pool : Pool → File → File
add_pool p f = record f {
  pools = only_timed_target p f.pools ++ p ∷ [];
  active_pool = if same f.active_pool [] then p.id else f.active_pool;
}

-- `*p = next` in the list.
unfoldable pub replace_pool : Pool → List Pool → List Pool
replace_pool next [] = []
replace_pool next (p ∷ ps) = if same p.id next.id then next ∷ ps else p ∷ replace_pool next ps

module _ (parse_ip : Text → Bool) where
  -- The new pool of `Create`.
  unfoldable pub new_pool : Input → File → Result EditError Pool
  unfolding choose_id
  new_pool i f = do
    p ← validate parse_ip (apply blank_pool i)
    reject_if (name_clash f.pools p) name_taken
    id ← choose_id i.id p.name f
    ok (record p { id = id })

  unfoldable pub create_file : Input → File → Result EditError File
  create_file i f = do p ← new_pool i f; ok (add_pool p f)

  -- The changed pool of `Update`.
  unfoldable pub changed_pool : Text → Input → File → Result EditError Pool
  changed_pool id i f = do
    p ← get_pool f id (not_found id)
    next ← validate parse_ip (apply p i)
    reject_if (name_clash f.pools next) name_taken
    ok next

  unfoldable pub update_file : Text → Input → File → Result EditError File
  unfolding replace_pool
  update_file id i f = do
    next ← changed_pool id i f
    ok (record f { pools = only_timed_target next (replace_pool next f.pools) })
