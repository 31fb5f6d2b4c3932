-- ===== src/Notifier.antt =====
-- internal/telegram/notifier.go: which changes of ASICs go to the chat, and when. Times are
-- nanoseconds since Go's zero time, which is 0.
pub mod News
pub mod Heard
pub mod Told
mod Tests
use simple_mining_proxy.Base.{
  ℕ, ◌+◌, ◌*◌, Bool, true, false, ◌&&◌, ◌||◌, not, Option, none, some, List, [], ◌∷◌, ◌++◌, Text,
  Map, length, ltb, leb, ◌==◌, if◌then◌else◌, is_some, lookup, insert, delete, retain,
}
use simple_mining_proxy.Monitor.{Change, Alert, change_before, sort_by}

abbrev pub flap_changes : ℕ
flap_changes = 2

abbrev pub flap_window : ℕ
flap_window = 3600 * 1000000000

abbrev pub flap_hold : ℕ
flap_hold = 900 * 1000000000

-- What the chat was last told about an ASIC, the oldest time first.
pub record Reported : Type 0 where
  pub online : Bool
  pub times : List ℕ

pub record Notifier : Type 0 where
  pub batch : ℕ
  pub gap : ℕ
  pub pending : Map Change
  pub reported : Map Reported
  pub online : ℕ
  pub total : ℕ
  pub first_due : ℕ
  pub last_sent : ℕ

unfoldable pub new_notifier : ℕ → ℕ → Notifier
new_notifier batch gap = record {
  batch = batch;
  gap = gap;
  pending = [];
  reported = [];
  online = 0;
  total = 0;
  first_due = 0;
  last_sent = 0;
}

-- `recent`
unfoldable pub recent_times : ℕ → List ℕ → List ℕ
recent_times now [] = []
recent_times now (t ∷ ts) = if leb (t + flap_window) now then recent_times now ts else t ∷ ts

unfoldable pub add_changes : List Change → Map Change → Map Change
add_changes [] pending = pending
add_changes (c ∷ cs) pending = add_changes cs (insert c.name c pending)

-- `add`
unfoldable pub add_alert : Alert → ℕ → Notifier → Notifier
unfolding add_changes
add_alert a now n = record n {
  pending = add_changes a.changes n.pending;
  online = a.online;
  total = a.total;
  first_due = if n.first_due == 0 then now else n.first_due;
}

abbrev pub last_time : List ℕ → ℕ
last_time [] = 0
last_time (t ∷ []) = t
last_time (t ∷ (u ∷ ts)) = last_time (u ∷ ts)

abbrev pub same_state : Bool → Bool → Bool
same_state true b = b
same_state false b = not b

-- A pending change is old news, is held back, or is due.
pub data Verdict : Type 0 where
  known held due : Verdict

-- A round of the first loop of `take`, by what the chat was told and the times of the window.
unfoldable pub judge : ℕ → Change → Option Reported → Verdict
judge now c none = due
judge now c (some r) =
    let times = recent_times now r.times in
    if same_state r.online c.online
    then known
    else if leb flap_changes (length times) && ltb now (last_time times + flap_hold)
    then held
    else due

abbrev pub is_known : Verdict → Bool
is_known known = true
is_known v = false

abbrev pub is_due : Verdict → Bool
is_due due = true
is_due v = false

-- The changes that are due.
unfoldable pub due_changes : ℕ → Map Reported → Map Change → List Change
unfolding judge
due_changes now told [] = []
due_changes now told ((name, c) ∷ m) =
    let rest = due_changes now told m in
    if is_due (judge now c (lookup name told)) then c ∷ rest else rest

-- `r.times = recent(r.times, now)` for the ASICs with a pending change.
unfoldable pub refresh_times : ℕ → Map Change → Map Reported → Map Reported
unfolding recent_times
refresh_times now pending [] = []
refresh_times now pending ((name, r) ∷ m) =
    (
      name,
      if is_some (lookup name pending) then record r { times = recent_times now r.times } else r,
    )
    ∷ refresh_times now pending m

-- What the loops of `take` leave.
unfoldable pub tidied : ℕ → Notifier → Notifier
unfolding judge refresh_times recent_times
tidied now n =
    let pending =
      retain (λ name c. not (is_known (judge now c (lookup name n.reported)))) n.pending in
    record n {
      pending = pending;
      reported =
          retain
            (λ name r.
              is_some (lookup name pending)
              || (not (length (recent_times now r.times) == 0) || not r.online))
            (refresh_times now n.pending n.reported);
    }

-- The end of `take`.
unfoldable pub send_due : ℕ → List Change → Notifier → Notifier × List Change
send_due now [] n = (record n { first_due = 0 }, [])
send_due now (c ∷ cs) n =
    let first = if n.first_due == 0 then now else n.first_due in
    (
      record n { first_due = first },
      if ltb now (first + n.batch) || ltb now (n.last_sent + n.gap)
          then []
          else sort_by change_before (c ∷ cs),
    )

-- `take`
unfoldable pub take_due : ℕ → Notifier → Notifier × List Change
unfolding due_changes tidied send_due
take_due now n = send_due now (due_changes now n.reported n.pending) (tidied now n)

abbrev pub reported_or : Option Reported → Reported
reported_or none = record { online = false; times = [] }
reported_or (some r) = r

unfoldable pub tell : ℕ → List Change → Map Reported → Map Reported
unfolding recent_times
tell now [] told = told
tell now (c ∷ cs) told = tell now cs (
    insert c.name
      (record {
        online = c.online;
        times = recent_times now (reported_or (lookup c.name told)).times ++ now ∷ [];
      })
      told)

unfoldable pub drop_sent : List Change → Map Change → Map Change
drop_sent [] pending = pending
drop_sent (c ∷ cs) pending = drop_sent cs (delete c.name pending)

-- `sent`
unfoldable pub mark_sent : ℕ → List Change → Notifier → Notifier
unfolding tell drop_sent
mark_sent now cs n = record n {
  reported = tell now cs n.reported;
  pending = drop_sent cs n.pending;
  last_sent = now;
  first_due = 0;
}

-- `failed`
abbrev pub mark_failed : ℕ → Notifier → Notifier
mark_failed now n = record n { last_sent = now }
