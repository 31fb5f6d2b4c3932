-- ===== src/Events.antt =====
-- internal/events/events.go: the ring buffer of events, and the throttling of repeated warnings.
-- Times are nanoseconds since Go's zero time.
pub mod Ring
pub mod Listed
pub mod Throttle
mod Tests
use simple_mining_proxy.Base.{
  ℕ, zero, suc, ◌+◌, ◌-◌, ◌*◌, ◌%◌, Bool, true, false, ◌&&◌, ◌||◌, not, Option, none, some, List,
  [], ◌∷◌, ◌++◌, Text, Map, length, get_elem?, set, ltb, leb, ◌==◌, if◌then◌else◌, is_some, lookup,
  insert, retain,
}

-- The level names in their order.
pub data Level : Type 0 where
  info warn error : Level

abbrev pub rank : Level → ℕ
rank info = 0
rank warn = 1
rank error = 2

pub record Event : Type 0 where
  pub seq : ℕ
  pub time : ℕ
  pub level : Level
  pub type : Text
  pub message : Text

-- The zero value of the buffer.
abbrev pub no_event : Event
no_event = record { seq = 0; time = 0; level = info; type = []; message = [] }

pub record Log : Type 0 where
  pub buf : List Event
  pub next : ℕ
  pub full : Bool
  pub seq : ℕ
  pub throttled : Map ℕ
  pub suppressed : ℕ
  pub last_report : ℕ

abbrev pub blank : ℕ → List Event
blank zero = []
blank (suc n) = no_event ∷ blank n

-- `New`
unfoldable pub new_log : ℕ → Log
new_log size = record {
  buf = blank size;
  next = 0;
  full = false;
  seq = 0;
  throttled = [];
  suppressed = 0;
  last_report = 0;
}

-- `add`
unfoldable pub add_event : Level → ℕ → Text → Text → Log → Log
add_event level now type message l =
    let next = (l.next + 1) % length l.buf in
    record l {
      seq = l.seq + 1;
      buf =
          set l.buf l.next
            (record { seq = l.seq + 1; time = now; level = level; type = type; message = message });
      next = next;
      full = if next == 0 then true else l.full;
    }

abbrev pub event_at : Option Event → Event
event_at none = no_event
event_at (some e) = e

-- The loop of `ListAt`: `left` entries from the `i`-th newest on, of which `room` fit.
unfoldable pub list_from : Log → Level → ℕ → ℕ → ℕ → List Event
list_from l floor zero i room = []
list_from l floor (suc left) i room =
    let e = event_at (get_elem? l.buf ((l.next + length l.buf - 1 - i) % length l.buf)) in
    let kept = leb (rank floor) (rank e.level) in
    let rest = list_from l floor left (i + 1) (if kept then room - 1 else room) in
    if room == 0 then [] else if kept then e ∷ rest else rest

abbrev pub stored : Log → ℕ
stored l = if l.full then length l.buf else l.next

-- `ListAt`
unfoldable pub list_at : ℕ → Level → Log → List Event
unfolding list_from
list_at limit floor l =
    let n = stored l in list_from l floor n 0 (if (limit == 0) || ltb n limit then n else limit)

abbrev pub minute : ℕ
minute = 60000000000

abbrev pub max_throttle_keys : ℕ
max_throttle_keys = 1000

abbrev pub max_throttle_interval : ℕ
max_throttle_interval = 10 * minute

abbrev pub within : ℕ → ℕ → Option ℕ → Bool
within now interval none = false
within now interval (some last) = ltb now (last + interval)

-- `Throttled`: `flood` makes the text of the report from the number of events.
unfoldable pub add_throttled : (ℕ → Text) → Text → Text → ℕ → ℕ → Text → Text → Log → Log
unfolding add_event
add_throttled flood suppressed_type key interval now type message l =
    if within now interval (lookup key l.throttled)
    then l
    else let crowded =
        not (is_some (lookup key l.throttled)) && leb max_throttle_keys (length l.throttled) in
      let kept =
        if crowded
        then retain (λ k t. leb now (t + max_throttle_interval)) l.throttled
        else l.throttled in
      if crowded && leb max_throttle_keys (length kept)
      then (if leb (l.last_report + minute) now
          then add_event warn now suppressed_type (flood (l.suppressed + 1))
              (record l { throttled = kept; suppressed = 0; last_report = now })
          else record l { throttled = kept; suppressed = l.suppressed + 1 })
      else add_event warn now type message (record l { throttled = insert key now kept })
