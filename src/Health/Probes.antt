-- ===== src/Health/Probes.antt =====
-- internal/pool/probe.go: the background checks and what a result must meet to count. A step is
-- what happens under the locks; the check itself, over the network, lies between two steps.
use simple_mining_proxy.Base.{
  ℕ, ◌+◌, ◌*◌, Bool, false, ◌&&◌, ◌||◌, not, Option, none, some, List, [], ◌∷◌, Text, Map, any, ltb,
  ◌==◌, if◌then◌else◌, same, mem, without, lookup, insert,
}
use simple_mining_proxy.State.{Address, Pool, find_pool}
use simple_mining_proxy.Health.{Time, second, Health, addr_key}
use simple_mining_proxy.Health.Record.{
  count_of, bump_version, probe_result, dial_result, stall_result,
}
use simple_mining_proxy.Health.DialOrder.{differ}
use simple_mining_proxy.Health.Forget.{forget, pool_edited}

abbrev pub recheck_interval : Time
recheck_interval = 10 * second

-- The parts of `Manager` that the checks use: the snapshot, the maps under `hmu`, the test worker
-- of the settings and the one that `settingsChanged` saw last, the addresses whose check is asked
-- for, those whose gate is taken, and when a check of each was last started.
pub record Prober : Type 0 where
  pub pools : List Pool
  pub health : Health
  pub setting_worker : Text
  pub test_worker : Text
  pub pending : List Text
  pub busy : List Text
  pub last_start : Map Time

abbrev pub same_address : Address → Address → Bool
same_address a b = same a.host b.host && (a.port == b.port)

abbrev pub has_address : Address → Pool → Option Pool → Bool
has_address a p none = false
has_address a p (some cur) =
    not (differ cur.tls p.tls)
    && (not (differ cur.tls_skip_verify p.tls_skip_verify)
        && (same cur.username p.username
            && (same cur.password p.password && any (same_address a) cur.addresses)))

-- `stillHas`
unfoldable pub still_has : List Pool → Pool → Address → Bool
still_has pools p a = has_address a p (find_pool pools p.id)

-- `checkVersion`
unfoldable pub check_version : Text → Health → ℕ
check_version id h = count_of (lookup id h.versions)

unfoldable pub request_probe : Text → Address → Prober → Prober
request_probe id a s = record s {
  pending = if mem (addr_key id a) s.pending then s.pending else addr_key id a ∷ s.pending;
}

unfoldable pub request_addresses : Text → List Address → Prober → Prober
request_addresses id [] s = s
request_addresses id (a ∷ as') s = request_addresses id as' (request_probe id a s)

unfoldable pub request_pools : List Pool → Prober → Prober
unfolding request_addresses
request_pools [] s = s
request_pools (p ∷ ps) s = request_pools ps (request_addresses p.id p.addresses s)

unfoldable pub bump_all : List Pool → Health → Health
bump_all [] h = h
bump_all (p ∷ ps) h = bump_all ps (bump_version p.id h)

unfoldable pub settings_changed : Text → Prober → Prober
settings_changed worker s =
    if same worker s.test_worker
    then s
    else request_pools s.pools (record s {
      test_worker = worker;
      health = bump_all s.pools (record s.health { addrs = []; pools = [] });
    })

-- A check under way: what it was started with.
pub record Check : Type 0 where
  pub pool : Pool
  pub address : Address
  pub worker : Text
  pub version : ℕ

-- `startProbe`, up to the check.
unfoldable pub start_probe : Bool → Time → Pool → Address → Prober → Prober × Option Check
start_probe cancelled now p a s =
    let key = addr_key p.id a in
    if mem key s.busy
      || (cancelled
          || (ltb now (count_of (lookup key s.last_start) + recheck_interval)
              || not (still_has s.pools p a)))
    then (s, none)
    else (
      record s {
        busy = key ∷ s.busy;
        last_start = insert key now s.last_start;
        pending = without s.pending key;
      },
      some (record {
        pool = p;
        address = a;
        worker = s.setting_worker;
        version = check_version p.id s.health;
      }),
    )

-- What `recordCheck` asks.
unfoldable pub accepts : Bool → Check → Prober → Bool
accepts cancelled c s =
    not cancelled
    && (still_has s.pools c.pool c.address
        && (same s.setting_worker c.worker && (check_version c.pool.id s.health == c.version)))

unfoldable pub record_check : Bool → Check → Time → ℕ → Option Text → Prober → Prober
record_check cancelled c now rtt result s = record s {
  health = (probe_result (accepts cancelled c s) c.pool c.address now rtt result s.health).0;
}

-- The end of the goroutine: the result, and the gate given back.
unfoldable pub end_check : Bool → Check → Time → ℕ → Option Text → Prober → Prober
end_check cancelled c now rtt result s =
    let next = record_check cancelled c now rtt result s in
    record next { busy = without next.busy (addr_key c.pool.id c.address) }

-- `sessionFailure`; `stalled` is that no job came.
unfoldable pub session_failure : Bool → Pool → Address → Time → Text → Prober → Prober
session_failure stalled p a now e s =
    if not (still_has s.pools p a)
    then s
    else request_probe p.id a
        (if stalled then record s { health = (stall_result p a now e s.health).0 } else s)

-- What happens to the checks: a commit of the settings and its listener, edits and removals of
-- pools with the new snapshot, other new snapshots, failures and dials of sessions, and the
-- beginning and the end of checks.
pub data ProbeStep : Type 0 where
  commit_worker change_worker : Text → ProbeStep
  edit : List Pool → Pool → Pool → ProbeStep
  drop_pool : List Pool → Text → ProbeStep
  new_snapshot : List Pool → ProbeStep
  failure : Bool → Pool → Address → Time → Text → ProbeStep
  dial : Pool → Address → Time → Option Text → ProbeStep
  begin_check : Bool → Time → Pool → Address → ProbeStep
  finish_check : Bool → Check → Time → ℕ → Option Text → ProbeStep

unfoldable pub probe_step : ProbeStep → Prober → Prober
unfolding settings_changed session_failure start_probe end_check
probe_step (commit_worker w) s = record s { setting_worker = w }
probe_step (change_worker w) s = settings_changed w s
probe_step (edit pools old next) s = record s {
  pools = pools;
  health = (pool_edited old next s.health).0;
}
probe_step (drop_pool pools id) s = record s { pools = pools; health = forget id s.health }
probe_step (new_snapshot pools) s = record s { pools = pools }
probe_step (failure stalled p a now e) s = session_failure stalled p a now e s
probe_step (dial p a now result) s =
    if still_has s.pools p a
    then record s { health = (dial_result p a now result s.health).0 }
    else s
probe_step (begin_check cancelled now p a) s = (start_probe cancelled now p a s).0
probe_step (finish_check cancelled c now rtt result) s = end_check cancelled c now rtt result s

unfoldable pub probe_steps : List ProbeStep → Prober → Prober
unfolding probe_step
probe_steps [] s = s
probe_steps (st ∷ ss) s = probe_steps ss (probe_step st s)
