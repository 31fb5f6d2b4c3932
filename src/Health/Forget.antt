-- ===== src/Health/Forget.antt =====
-- internal/pool/health.go: `forgetHealth` and `poolEdited`.
use simple_mining_proxy.Base.{
  Bool, ◌||◌, not, List, [], ◌∷◌, ◌++◌, map, Text, txt, mem, if◌then◌else◌, same, delete, retain,
}
use simple_mining_proxy.State.{Address, Pool}
use simple_mining_proxy.State.Fields.{has_prefix}
use simple_mining_proxy.Health.{Health, addr_key}
use simple_mining_proxy.Health.Refresh.{Event, refresh_pool}
use simple_mining_proxy.Health.Record.{bump_version}
use simple_mining_proxy.Health.DialOrder.{differ}

-- `forgetHealth`
unfoldable pub forget : Text → Health → Health
forget id h = bump_version id (record h {
  pools = delete id h.pools;
  addrs = retain (λ k _. not (has_prefix (id ++ txt "|") k)) h.addrs;
})

-- The login or the transport has changed.
abbrev pub starts_over : Pool → Pool → Bool
starts_over old next =
    differ old.tls next.tls
    || (differ old.tls_skip_verify next.tls_skip_verify
        || (not (same old.username next.username) || not (same old.password next.password)))

-- The loop that drops the entries of removed addresses.
unfoldable pub drop_removed : Text → List Text → List Address → Health → Health
drop_removed id keep [] h = h
drop_removed id keep (a ∷ as') h =
    drop_removed id keep as'
      (if mem (addr_key id a) keep then h else record h { addrs = delete (addr_key id a) h.addrs })

unfoldable pub pool_edited : Pool → Pool → Health → Health × List Event
unfolding drop_removed
pool_edited old next h =
    if starts_over old next
    then (forget next.id h, [])
    else refresh_pool next (
        drop_removed old.id (map (addr_key next.id) next.addresses) old.addresses
          (bump_version next.id h))
