-- ===== src/Monitor.antt =====
-- internal/monitor/monitor.go: which ASICs are watched, and when they go offline and come back.
-- Hashrates and difficulties are whole numbers; times and durations are nanoseconds, times since
-- Go's zero time. The maps are walked in some order; the changes are sorted after that.
pub mod Names
pub mod Alerts
pub mod Offline
mod Tests
use simple_mining_proxy.Base.{
  ℕ, zero, suc, ◌+◌, ◌-◌, ◌*◌, ◌/◌, ◌^◌, min, max, Bool, true, false, ◌&&◌, ◌||◌, not, Option, none,
  some, List, [], ◌∷◌, Text, Map, length, ltb, leb, ◌==◌, if◌then◌else◌, is_some, lookup, insert,
}
use simple_mining_proxy.Monitor.Names.{name_less}

abbrev pub second : ℕ
second = 1000000000

abbrev pub start_grace : ℕ
start_grace = 300 * second

abbrev pub settle : ℕ
settle = 120 * second

abbrev pub share_gaps : ℕ
share_gaps = 20

abbrev pub max_wait : ℕ
max_wait = 3600 * second

abbrev pub forget_after : ℕ
forget_after = 7 * (24 * max_wait)

abbrev pub max_workers : ℕ
max_workers = 10000

abbrev pub save_every : ℕ
save_every = 60 * second

-- What `check` reads of a live session.
pub record Info : Type 0 where
  pub worker : Text
  pub last_submit : Option ℕ
  pub pool_name : Text
  pub hashrate : ℕ
  pub connected_at : ℕ
  pub difficulty : ℕ

pub record Change : Type 0 where
  pub name : Text
  pub online : Bool
  pub last_share : ℕ
  pub away : ℕ
  pub pool : Text

pub record Alert : Type 0 where
  pub time : ℕ
  pub changes : List Change
  pub online : ℕ
  pub total : ℕ

pub record Miner : Type 0 where
  pub name : Text
  pub online : Bool
  pub last_share : ℕ
  pub hashrate : ℕ
  pub pool : Text

pub record Worker : Type 0 where
  pub last_share : ℕ
  pub offline : Bool
  pub pool : Text
  pub hashrate : ℕ
  pub current : ℕ
  pub difficulty : ℕ

pub record Monitor : Type 0 where
  pub started : ℕ
  pub workers : Map Worker
  pub dirty : Bool
  pub saved_at : ℕ

pub record Live : Type 0 where
  pub last : ℕ
  pub pool : Text
  pub settled : ℕ
  pub current : ℕ
  pub difficulty : ℕ

abbrev pub live_of : Option Live → Live
live_of none = record { last = 0; pool = []; settled = 0; current = 0; difficulty = 0 }
live_of (some l) = l

abbrev pub submitted_last : Option ℕ → Text → Live → Live
submitted_last none pool l = l
submitted_last (some t) pool l = if ltb l.last t then record l { last = t; pool = pool } else l

-- A round of the loop over the sessions.
abbrev pub add_session : ℕ → Info → Live → Live
add_session now i l =
    let l = submitted_last i.last_submit i.pool_name l in
    record l {
      current = l.current + i.hashrate;
      settled = if leb (i.connected_at + settle) now then l.settled + i.hashrate else l.settled;
      difficulty = max l.difficulty i.difficulty;
    }

abbrev pub see : ℕ → Text → Info → Map Live → Map Live
see now [] i seen = seen
see now (c ∷ name) i seen =
    insert (c ∷ name) (add_session now i (live_of (lookup (c ∷ name) seen))) seen

unfoldable pub see_all : ℕ → List Info → Map Live → Map Live
see_all now [] seen = seen
see_all now (i ∷ is) seen = see_all now is (see now i.worker i seen)

-- `wait`: the gap between shares is `difficulty * 2^32 / hashrate` seconds.
unfoldable pub wait : ℕ → Worker → ℕ
wait base w =
    if (w.hashrate == 0) || (w.difficulty == 0)
    then base
    else max base (min (share_gaps * w.difficulty * 2 ^ 32 * second / w.hashrate) max_wait)

-- `now.Sub(w.LastShare) > wait(w, base)`
abbrev pub is_silent : ℕ → ℕ → Worker → Bool
is_silent base now w = ltb (w.last_share + wait base w) now

-- What the loops of `check` change.
pub record Found : Type 0 where
  pub workers : Map Worker
  pub changes : List Change
  pub dirty : Bool

abbrev pub no_worker : Worker
no_worker = record {
  last_share = 0;
  offline = false;
  pool = [];
  hashrate = 0;
  current = 0;
  difficulty = 0;
}

-- The worker after what its sessions show.
abbrev pub shown : Live → Worker → Worker
shown l w =
    let w = record w {
      current = l.current;
      difficulty = l.difficulty;
      hashrate = if ltb 0 l.settled then l.settled else w.hashrate;
    } in
    if ltb w.last_share l.last
    then record w { offline = false; last_share = l.last; pool = l.pool }
    else w

abbrev pub came_back : Text → Live → Worker → List Change → List Change
came_back name l w changes =
    if ltb w.last_share l.last && w.offline
    then record {
      name = name;
      online = true;
      last_share = l.last;
      away = l.last - w.last_share;
      pool = l.pool;
    }
      ∷ changes
    else changes

-- A round for a worker that is watched.
abbrev pub show_worker : Text → Live → Worker → Found → Found
show_worker name l w f = record {
  workers = insert name (shown l w) f.workers;
  changes = came_back name l w f.changes;
  dirty = f.dirty || ltb w.last_share l.last;
}

-- A round of the loop over `seen`.
unfoldable pub update_worker : Text → Live → Option Worker → Found → Found
update_worker name l (some w) f = show_worker name l w f
update_worker name l none f =
    if (l.last == 0) || leb max_workers (length f.workers)
    then f
    else show_worker name l no_worker f

unfoldable pub update_workers : Map Live → Found → Found
unfolding update_worker
update_workers [] f = f
update_workers ((name, l) ∷ seen) f =
    update_workers seen (update_worker name l (lookup name f.workers) f)

-- The second loop, over the workers: those that stay, the changes and the number online.
pub record Judged : Type 0 where
  pub workers : Map Worker
  pub changes : List Change
  pub forgot : Bool
  pub online : ℕ

abbrev pub unseen : Bool → Worker → Worker
unseen seen w = if seen then w else record w { current = 0 }

module _ (base now : ℕ) (judge : Bool) where
  abbrev pub judge_worker : Text → Worker → Judged → Judged
  judge_worker name w j =
      let silent = is_silent base now w in
      if not w.offline && (judge && silent)
      then record j {
        workers = (name, record w { offline = true }) ∷ j.workers;
        changes =
            record {
              name = name;
              online = false;
              last_share = w.last_share;
              away = 0;
              pool = w.pool;
            }
            ∷ j.changes;
      }
      else if w.offline && ltb (w.last_share + forget_after) now
      then record j { forgot = true }
      else record j {
        workers = (name, w) ∷ j.workers;
        online = if not w.offline && not silent then j.online + 1 else j.online;
      }

  unfoldable pub judge_workers : Map Live → Map Worker → List Change → Judged
  judge_workers seen [] changes = record {
    workers = [];
    changes = changes;
    forgot = false;
    online = 0;
  }
  judge_workers seen ((name, w) ∷ m) changes =
      judge_worker name (unseen (is_some (lookup name seen)) w) (judge_workers seen m changes)

-- The comparison of the changes, and of the list of ASICs.
abbrev pub shown_before : Bool → Text → Bool → Text → Bool
shown_before true a true b = name_less a b
shown_before false a false b = name_less a b
shown_before online a other b = not online

module _ {ℓ} {A : Type ℓ} (before : A → A → Bool) where
  unfoldable pub insert_sorted : A → List A → List A
  insert_sorted x [] = x ∷ []
  insert_sorted x (y ∷ ys) = if before y x then y ∷ insert_sorted x ys else x ∷ (y ∷ ys)

  -- `sort.Slice`
  unfoldable pub sort_by : List A → List A
  unfolding insert_sorted
  sort_by [] = []
  sort_by (x ∷ xs) = insert_sorted x (sort_by xs)

-- The monitor after a check, whether it saves, and the alert, if there is one.
pub record Checked : Type 0 where
  pub monitor : Monitor
  pub saves : Bool
  pub alert : Option Alert

abbrev pub change_before : Change → Change → Bool
change_before x y = shown_before x.online x.name y.online y.name

abbrev pub alert_of : ℕ → List Change → ℕ → ℕ → Option Alert
alert_of now [] online total = none
alert_of now (c ∷ cs) online total = some (record {
  time = now;
  changes = sort_by change_before (c ∷ cs);
  online = online;
  total = total;
})

-- `check` for the sessions of the registry and the wait of the settings.
unfoldable pub check : ℕ → ℕ → List Info → Monitor → Checked
unfolding see_all update_workers judge_workers
check base now infos m =
    let seen = see_all now infos [] in
    let f = update_workers seen (record { workers = m.workers; changes = []; dirty = m.dirty }) in
    let j = judge_workers base now (leb (m.started + start_grace) now) seen f.workers f.changes in
    let dirty = f.dirty || j.forgot in
    let saves = dirty && (ltb 0 (length j.changes) || leb (m.saved_at + save_every) now) in
    record {
      monitor = record m {
        workers = j.workers;
        dirty = dirty && not saves;
        saved_at = if saves then now else m.saved_at;
      };
      saves = saves;
      alert = alert_of now j.changes j.online (length j.workers);
    }

unfoldable pub list_miners : ℕ → ℕ → Map Worker → List Miner
list_miners base now [] = []
list_miners base now ((name, w) ∷ m) =
    record {
      name = name;
      online = not w.offline && not (is_silent base now w);
      last_share = w.last_share;
      hashrate = w.current;
      pool = w.pool;
    }
    ∷ list_miners base now m

-- `Miners`
unfoldable pub miners : ℕ → ℕ → Monitor → List Miner
unfolding list_miners sort_by
miners base now m =
    sort_by (λ x y. shown_before x.online x.name y.online y.name) (list_miners base now m.workers)

-- The loop of `New` over the saved workers; those without a name or a record are left out.
unfoldable pub load_workers : Map (Option Worker) → Map Worker → Map Worker
load_workers [] m = m
load_workers ((name, none) ∷ st) m = load_workers st m
load_workers ((name, some w) ∷ st) m =
    load_workers st
      (if not (length name == 0) && ltb (length m) max_workers then insert name w m else m)
