-- ===== src/History/Recorder.antt =====
-- internal/history/history.go: a series of two tiers, and what a minute does to it. A point that
-- goes to a file is an entry of the list of its tier, the newest first; one whose write fails is logged
-- and dropped, and stands in the list of those.
use simple_mining_proxy.Base.{
  ℕ, ◌+◌, ◌-◌, ◌*◌, ◌/◌, ◌%◌, Bool, false, ◌&&◌, ◌||◌, not, List, [], ◌∷◌, ltb, leb, ◌==◌,
  if◌then◌else◌,
}
use simple_mining_proxy.History.{Point, blank_point, add_point, Sample, delta, worker_delta}

abbrev pub second : ℕ
second = 1000000000

abbrev pub minute : ℕ
minute = 60 * second

pub data Tier : Type 0 where
  fine_tier coarse_tier : Tier

-- Whether `appendPoint` succeeds.
abbrev pub Disk : Type 0
Disk = Tier → Point → Bool

-- `cur` and `acc` are empty while their seconds are 0; the steps are those of the tiers.
pub record Series : Type 0 where
  pub fine_step : ℕ
  pub coarse_step : ℕ
  pub cur : Point
  pub acc : Point
  pub fine : List Point
  pub coarse : List Point
  pub lost_fine : List Point
  pub lost_coarse : List Point

-- The steps of minute, hour and ten minutes.
abbrev pub new_series : ℕ → Series
new_series step = record {
  fine_step = step;
  coarse_step = 3600;
  cur = blank_point 0;
  acc = blank_point 0;
  fine = [];
  coarse = [];
  lost_fine = [];
  lost_coarse = [];
}

-- `t - t%step`
abbrev pub aligned : ℕ → ℕ → ℕ
aligned step t = t - t % step

-- `write`, to the file of the coarse tier and to that of the fine one.
abbrev pub write_coarse : Disk → Series → Series
write_coarse disk s =
    if disk coarse_tier s.acc
    then record s { coarse = s.acc ∷ s.coarse }
    else record s { lost_coarse = s.acc ∷ s.lost_coarse }

abbrev pub write_fine : Disk → Series → Series
write_fine disk s =
    if disk fine_tier s.cur
    then record s { fine = s.cur ∷ s.fine }
    else record s { lost_fine = s.cur ∷ s.lost_fine }

-- `r.write(s.coarse, s.acc); s.acc = Point{}`
abbrev pub close_coarse : Disk → Series → Series
close_coarse disk s = record (write_coarse disk s) { acc = blank_point 0 }

-- The next coarse interval, if none is open.
abbrev pub open_coarse : ℕ → Series → Series
open_coarse t s = if s.acc.seconds == 0 then record s { acc = blank_point t } else s

-- The fine interval goes to its file and, whether that succeeds or not, into the coarse one.
abbrev pub roll_up : Disk → Series → Series
roll_up disk s = record (write_fine disk s) { acc = add_point s.acc s.cur; cur = blank_point 0 }

-- `flushLocked`, with whether a coarse interval was written.
unfoldable pub flush : Disk → ℕ → Series → Series × Bool
flush disk end s =
    let ct = aligned s.coarse_step s.cur.start in
    let moved = ltb 0 s.acc.seconds && not (s.acc.start == ct) in
    let s = if moved then close_coarse disk s else s in
    let s = roll_up disk (open_coarse ct s) in
    let complete = leb (s.acc.start + s.coarse_step) end in
    (if complete then close_coarse disk s else s, moved || complete)

abbrev pub open_fine : ℕ → Series → Series
open_fine t s = if s.cur.seconds == 0 then record s { cur = blank_point t } else s

abbrev pub take_point : Point → Series → Series
take_point p s = record s { cur = add_point s.cur p }

-- `addLocked`
unfoldable pub add_to : Disk → Point → ℕ → Series → Series × Bool
unfolding flush
add_to disk p end s =
    let ft = aligned s.fine_step p.start in
    let gap : Series × Bool =
      if ltb 0 s.cur.seconds && not (s.cur.start == ft) then flush disk end s else (s, false) in
    let s = take_point p (open_fine ft gap.0) in
    let last : Series × Bool =
      if leb (s.cur.start + s.fine_step) end then flush disk end s else (s, false) in
    (last.0, gap.1 || last.1)

-- The state of `Recorder` under its lock.
pub record Recorder : Type 0 where
  pub last : Sample
  pub last_at : ℕ
  pub totals : Series
  pub workers : Series

-- `d.Round(time.Second) / time.Second`: half a second rounds up.
abbrev pub rounded_seconds : ℕ → ℕ
rounded_seconds d = (d + 500000000) / second

-- What `recordLocked` gets: the time, the sample, and which writes of the series succeed.
pub record Minute : Type 0 where
  pub now : ℕ
  pub sample : Sample
  pub disk : Disk
  pub worker_disk : Disk

-- `recordLocked`
unfoldable pub record_minute : Minute → Recorder → Recorder × Bool
unfolding add_to delta worker_delta
record_minute m r =
    let now = m.now in
    let cur = m.sample in
    let t = r.last_at / minute * 60 in
    let seconds = rounded_seconds (now - r.last_at) in
    let end = now / second in
    let (totals, hour) = add_to m.disk (delta t seconds r.last cur) end r.totals in
    let (workers, worker_hour) =
      add_to m.worker_disk (worker_delta t seconds r.last cur) end r.workers in
    if leb now r.last_at
    then (r, false)
    else if seconds == 0
    then (record r { last = cur; last_at = now }, false)
    else (
      record { last = cur; last_at = now; totals = totals; workers = workers },
      worker_hour || hour,
    )
