-- ===== src/Health/Refresh.antt =====
-- internal/pool/health.go: the status of a pool, its preferred address, and what a check or a
-- session dial does to the maps. The events are values.
use simple_mining_proxy.Base.{
  ℕ, ◌+◌, ◌*◌, Bool, true, false, ◌&&◌, ◌||◌, not, Option, none, some, List, [], ◌∷◌, ◌++◌, Text,
  length, ltb, leb, ◌==◌, if◌then◌else◌, same, lookup, insert,
}
use simple_mining_proxy.State.{Address, Pool}
use simple_mining_proxy.Health.{
  Time, Status, unknown, up, down, AddrHealth, PoolHealth, Health, addr_key, switch_min_gain,
}
use simple_mining_proxy.Health.Updates.{is_up, is_down}

abbrev pub status_of : Option AddrHealth → Status
status_of none = unknown
status_of (some h) = h.status

abbrev pub entry : Health → Text → Address → Option AddrHealth
entry h id a = lookup (addr_key id a) h.addrs

-- `anyUp` and `allDown` of the loop over the addresses.
unfoldable pub any_up : Health → Text → List Address → Bool
any_up h id [] = false
any_up h id (a ∷ as') = is_up (status_of (entry h id a)) || any_up h id as'

unfoldable pub all_down : Health → Text → List Address → Bool
all_down h id [] = true
all_down h id (a ∷ as') = is_down (status_of (entry h id a)) && all_down h id as'

unfoldable pub pool_status : Health → Pool → Status
pool_status h p =
    if any_up h p.id p.addresses
    then up
    else if ltb 0 (length p.addresses) && all_down h p.id p.addresses
    then down
    else unknown

-- The earliest start among the healthy runs of UP addresses, 0 if there is none.
abbrev pub earlier : Time → Option AddrHealth → Time
earlier since none = since
earlier since (some h) =
    if is_up h.status && (ltb 0 h.up_since && ((since == 0) || ltb h.up_since since))
    then h.up_since
    else since

unfoldable pub earliest : Health → Text → Time → List Address → Time
earliest h id since [] = since
earliest h id since (a ∷ as') = earliest h id (earlier since (entry h id a)) as'

-- The variables of the loop in `chooseLocked`; the empty text is no key.
pub record Choice : Type 0 where
  pub best_key : Text
  pub best_rtt : ℕ
  pub first_usable : Text
  pub cur_ok : Bool
  pub cur_rtt : ℕ

abbrev pub rtt_of : Option AddrHealth → ℕ
rtt_of none = 0
rtt_of (some h) = h.rtt

-- A round for an address that is not DOWN.
abbrev pub consider : Text → Text → ℕ → Choice → Choice
consider current k rtt c =
    let better = ltb 0 rtt && (same c.best_key [] || ltb rtt c.best_rtt) in
    record c {
      best_key = if better then k else c.best_key;
      best_rtt = if better then rtt else c.best_rtt;
      first_usable = if same c.first_usable [] then k else c.first_usable;
      cur_ok = if same k current then true else c.cur_ok;
      cur_rtt = if same k current then rtt else c.cur_rtt;
    }

unfoldable pub choose_loop : Health → Text → Text → Choice → List Address → Choice
choose_loop h id current c [] = c
choose_loop h id current c (a ∷ as') =
    choose_loop h id current
      (if is_down (status_of (entry h id a))
        then c
        else consider current (addr_key id a) (rtt_of (entry h id a)) c)
      as'

abbrev pub no_choice : Choice
no_choice = record { best_key = []; best_rtt = 0; first_usable = []; cur_ok = false; cur_rtt = 0 }

-- `float64(bestRTT) < float64(curRTT)*0.8` over whole numbers.
unfoldable pub clearly_faster : ℕ → ℕ → Bool
clearly_faster best cur = ltb (5 * best) (4 * cur) && leb (best + switch_min_gain) cur

unfoldable pub decide_choice : Text → Choice → Text
decide_choice current c =
    if same c.best_key []
    then (if c.cur_ok then current else c.first_usable)
    else if not c.cur_ok || ((c.cur_rtt == 0) || same current c.best_key)
    then c.best_key
    else if clearly_faster c.best_rtt c.cur_rtt
    then c.best_key
    else current

unfoldable pub choose : Health → Pool → Text → Text
choose h p current = decide_choice current (choose_loop h p.id current no_choice p.addresses)

pub data Event : Type 0 where
  address_down : Text → Text → Event
  address_up : Text → Event
  pool_up_again pool_up : Event
  pool_down : Bool → Text → Event
  address_preferred : Text → Text → Event

abbrev pub pool_entry : Health → Text → PoolHealth
pool_entry h id = elim (lookup id h.pools) [
  | some ph ↦ ph
  | none ↦ record { status = unknown; up_since = 0; preferred = [] }
]

-- `lastErr` of the loop.
abbrev pub latest_error : Text → Option AddrHealth → Text
latest_error e none = e
latest_error e (some ah) = if same ah.last_error [] then e else ah.last_error

unfoldable pub last_error : Health → Text → Text → List Address → Text
last_error h id e [] = e
last_error h id e (a ∷ as') = last_error h id (latest_error e (entry h id a)) as'

abbrev pub status_events : Health → Pool → Status → Status → List Event
status_events h p up up = []
status_events h p down up = pool_up_again ∷ []
status_events h p unknown up = pool_up ∷ []
status_events h p down down = []
status_events h p prev down =
    pool_down (ltb 1 (length p.addresses)) (last_error h p.id [] p.addresses) ∷ []
status_events h p prev unknown = []

abbrev pub preferred_events : Health → Text → Text → List Event
preferred_events h old best = elim (lookup old h.addrs) [
  | none ↦ []
  | some oh ↦
      if not (same best old) && (ltb 0 oh.rtt && (not (is_down oh.status) && not (same best [])))
      then address_preferred old best ∷ []
      else []
]

-- `refreshPoolLocked`
unfoldable pub refresh_pool : Pool → Health → Health × List Event
refresh_pool p h =
    let ph = pool_entry h p.id in
    let next = pool_status h p in
    let best = choose h p ph.preferred in
    (
      record h {
        pools =
            insert p.id
              (record {
                status = next;
                up_since = if is_up next then earliest h p.id 0 p.addresses else 0;
                preferred = best;
              })
              h.pools;
      },
      status_events h p ph.status next ++ preferred_events h ph.preferred best,
    )
