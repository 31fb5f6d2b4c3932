-- ===== src/Routing.antt =====
-- internal/pool/manager.go and probe.go: where a new session goes, and which sessions are moved by
-- the health of the pools. Times are nanoseconds since Go's zero time.
pub mod Pick
pub mod Modes
pub mod Returns
mod Tests
use simple_mining_proxy.Base.{
  ℕ, suc, ◌+◌, Bool, true, false, ◌&&◌, ◌||◌, not, Option, none, some, List, [], ◌∷◌, ◌++◌, Text,
  txt, length, filter, any, mem, ltb, leb, ◌==◌, if◌then◌else◌, same, to_lower, lookup,
}
use simple_mining_proxy.State.{Address, Pool, find_pool}
use simple_mining_proxy.Health.{Time, Status, unknown, up, down, PoolHealth, Health, addr_key}
use simple_mining_proxy.Health.Updates.{is_up, is_down}
use simple_mining_proxy.Health.Refresh.{entry, status_of}
use simple_mining_proxy.Health.Record.{dial_result}
use simple_mining_proxy.Health.DialOrder.{ordered_addresses}

pub record Snapshot : Type 0 where
  pub active : Text
  pub fallback : List Text
  pub pools : List Pool

-- The status and the start of a healthy run that `healthLocked` reads.
abbrev pub known_health : Option PoolHealth → Status × Time
known_health none = (unknown, 0)
known_health (some ph) = (ph.status, ph.up_since)

unfoldable pub pool_is_down : Health → Text → Bool
pool_is_down h id = is_down (known_health (lookup id h.pools)).0

-- A round of the loop of `candidates`.
abbrev pub add_candidate : Bool → Option Pool → List Pool → List Pool
add_candidate skip none out = out
add_candidate skip (some p) out = if skip then out else p ∷ out

unfoldable pub candidates_of : Health → Snapshot → List Text → List Pool
candidates_of h s [] = []
candidates_of h s (id ∷ ids) =
    add_candidate (same id [] || pool_is_down h id) (find_pool s.pools id) (candidates_of h s ids)

-- `candidates`
unfoldable pub candidates : Health → Snapshot → List Pool
unfolding candidates_of
candidates h s = candidates_of h s (s.active ∷ s.fallback)

-- `Effective`
unfoldable pub effective : Health → Snapshot → Text
effective h s = elim (candidates h s) [ [] ↦ [] | p ∷ ps ↦ p.id ]

pub data Mode : Type 0 where
  switching stopped normal degraded : Mode

-- `Mode`; the argument says whether a drain runs, and `stopped` is "DOWN".
unfoldable pub mode : Bool → Health → Snapshot → Mode
mode draining h s =
    if draining
    then switching
    else if same s.active []
    then stopped
    else if not (pool_is_down h s.active)
    then normal
    else if any (λ id. not (pool_is_down h id)) s.fallback
    then degraded
    else stopped

-- A dial of `Pick`: whether the budget has time left before it and after it, whether the address
-- still belongs to the pool then, when it ended, and its error.
pub record Dialed : Type 0 where
  pub in_time : Bool
  pub in_time_after : Bool
  pub still_has : Bool
  pub at : Time
  pub error : Option Text

pub record Upstream : Type 0 where
  pub pool : Pool
  pub address : Address

abbrev pub works : Option Text → Bool
works none = true
works (some e) = false

-- How the loops of `Pick` end: a connection, the budget spent, or no address left.
pub data Picked : Type 0 where
  connected : Upstream → Picked
  out_of_time exhausted : Picked

module _ (dial : Pool → Address → Dialed) where
  -- What a dial tells of its address.
  abbrev pub note_dial : Pool → Address → Dialed → Health → Health
  note_dial p a d h =
      if d.still_has && (d.in_time_after || works d.error)
      then (dial_result p a d.at d.error h).0
      else h

  -- The inner loop of `Pick`.
  unfoldable pub dial_addresses : Pool → List Address → Health → Health × Picked
  dial_addresses p [] h = (h, exhausted)
  dial_addresses p (a ∷ as') h =
      let d = dial p a in
      let noted = note_dial p a d h in
      let rest = dial_addresses p as' noted in
      if not d.in_time
      then (h, out_of_time)
      else if works d.error
      then (noted, connected (record { pool = p; address = a }))
      else rest

  -- What the outer loop does after the addresses of a pool.
  abbrev pub go_on : Health × Picked → (Health × Picked) → Health × Picked
  go_on (h, exhausted) rest = rest
  go_on (h, connected u) rest = (h, connected u)
  go_on (h, out_of_time) rest = (h, out_of_time)

  -- The outer loop.
  unfoldable pub dial_pools : List Pool → Health → Health × Picked
  unfolding dial_addresses
  dial_pools [] h = (h, exhausted)
  dial_pools (p ∷ ps) h =
      let tried = dial_addresses p (ordered_addresses h p) h in go_on tried (dial_pools ps tried.0)

  -- `Pick`
  unfoldable pub pick : Health → Snapshot → Health × Picked
  unfolding dial_pools candidates
  pick h s = dial_pools (candidates h s) h

-- What `checkFailback` and `checkFailover` read of a live session.
pub record Placed : Type 0 where
  pub pool : Text
  pub address : Text

-- The drain that a check starts: the sessions that its filter passes.
pub record Moved : Type 0 where
  pub last_failback : Time
  pub drained : List Placed

-- `checkFailback` for the delay of the settings.
unfoldable pub check_failback :
    ℕ → Bool → Time → Time → Health → Snapshot → List Placed → Option Moved
check_failback delay draining now last h s sessions =
    let (status, since) = known_health (lookup s.active h.pools) in
    let away = filter (λ x. not (same x.pool s.active)) sessions in
    if same s.active []
    then none
    else if not (is_up status) || ((since == 0) || ltb now (since + delay))
    then none
    else if ltb now (last + delay) || draining
    then none
    else if length away == 0
    then none
    else some (record { last_failback = now; drained = away })

-- The keys that `checkFailover` collects.
unfoldable pub failed_addresses : Health → Text → List Address → List Text
failed_addresses h id [] = []
failed_addresses h id (a ∷ as') =
    let rest = failed_addresses h id as' in
    if is_down (status_of (entry h id a)) then addr_key id a ∷ rest else rest

unfoldable pub failed_keys : Health → List Pool → List Text
unfolding failed_addresses
failed_keys h [] = []
failed_keys h (p ∷ ps) = failed_addresses h p.id p.addresses ++ failed_keys h ps

abbrev pub session_key : Placed → Text
session_key x = x.pool ++ (txt "|" ++ to_lower x.address)

-- `checkFailover`: the sessions that it drains, if it drains any.
unfoldable pub check_failover : Bool → Health → Snapshot → List Placed → List Placed
unfolding failed_keys
check_failover draining h s sessions =
    if draining then [] else filter (λ x. mem (session_key x) (failed_keys h s.pools)) sessions
