-- ===== src/Monitor/Offline.antt =====
-- When an ASIC is reported, and when it is not (internal/monitor/monitor.go).
use simple_mining_proxy.Base.{
  ℕ, ◌+◌, ◌≤◌, ◌<◌, ◌≡◌, refl, ◌⊎◌, Bool, true, false, Option, none, some, List, [], ◌∷◌, Text, Map,
  length, All, arith, leb, lookup, length-insert-le, length-insert_old,
}
use simple_mining_proxy.Monitor.{
  Info, Change, Alert, Worker, Monitor, Live, Found, no_worker, shown, wait, see_all, update_worker,
  update_workers, judge_workers, start_grace, max_workers, check,
}

-- An entry of a map with a property.
abbrev pub Listed : (Text × Worker → Type 0) → Map Worker → Type 0
Listed P [] = ⊥
Listed P (x ∷ m) = P x ⊎ Listed P m

-- An ASIC that comes back was known and offline; its share is later than the last one, by the time away.
abbrev pub WasAway : Change → Option Worker → Type 0
WasAway c none = ⊥
WasAway c (some w) =
    (w.offline ≡ true) × ((w.last_share < c.last_share) × (w.last_share + c.away ≡ c.last_share))

module _ (base now : ℕ) (judge : Bool) where
  -- An ASIC that goes offline is marked so, and its last share is older than its own wait.
  abbrev pub Gone : Change → Text × Worker → Type 0
  Gone c (name, w) =
      (name ≡ c.name)
      × ((w.offline ≡ true) × ((w.last_share ≡ c.last_share) × (w.last_share + wait base w < now)))

  -- An ASIC that counts as online has sent a share within its own wait.
  abbrev pub IsAlive : Text × Worker → Type 0
  IsAlive (name, w) = judge ≡ true → w.offline ≡ false → now ≤ w.last_share + wait base w

  module _ (before : Map Worker) where
    -- A change that may be reported, by the workers before a check and those after it.
    abbrev pub IsFair : Map Worker → Change → Type 0
    IsFair after c =
        (c.online ≡ true → WasAway c (lookup c.name before))
        × (c.online ≡ false → (judge ≡ true) × Listed (Gone c) after)

    -- The ASICs whose turn is still to come are as they were.
    abbrev Untouched : Map Worker → Map Live → Type 0
    Untouched m = All (λ (k, l). lookup k m ≡ lookup k before)

module _ (P : Change → Type 0) where
  -- What an alert reports.
  abbrev pub Reports : Option Alert → Type 0
  Reports none = Unit
  Reports (some a) = All P a.changes

update_worker-bounded :
    (name : Text) (l : Live) (f : Found)
    → length f.workers ≤ max_workers
    → length (update_worker name l (lookup name f.workers) f).workers ≤ max_workers
unfolding update_worker
update_worker-bounded name l f h = by_entry (lookup name f.workers) refl
  where
    by_entry :
        (w : Option Worker)
        → lookup name f.workers ≡ w
        → length (update_worker name l w f).workers ≤ max_workers
    by_entry none e = ground (arith, length-insert-le name (shown l no_worker) f.workers)
    by_entry (some w) e = omega (arith, h, length-insert_old name (shown l w) f.workers (rw e refl))

update_workers-bounded :
    (seen : Map Live) (f : Found)
    → length f.workers ≤ max_workers
    → length (update_workers seen f).workers ≤ max_workers
unfolding update_workers
update_workers-bounded [] f h = h
update_workers-bounded ((name, l) ∷ seen) f h =
    update_workers-bounded seen (update_worker name l (lookup name f.workers) f)
      (update_worker-bounded name l f h)

length-judge_workers :
    (base now : ℕ) (judge : Bool) (seen : Map Live) (m : Map Worker) (cs : List Change)
    → length (judge_workers base now judge seen m cs).workers ≤ length m
unfolding judge_workers
length-judge_workers base now judge seen [] cs = omega arith
length-judge_workers base now judge seen ((name, w) ∷ m) cs =
    ground (arith, length-judge_workers base now judge seen m cs)

-- No check makes the list longer than 10,000 ASICs, whatever logins connect.
pub check_bounded :
    (base now : ℕ) (infos : List Info) (m : Monitor)
    → length m.workers ≤ max_workers
    → length (check base now infos m).monitor.workers ≤ max_workers
unfolding check
check_bounded base now infos m h =
    let seen = see_all now infos [] in
    let start : Found = record { workers = m.workers; changes = []; dirty = m.dirty } in
    let f = update_workers seen start in
    omega (
      arith,
      update_workers-bounded seen start h,
      length-judge_workers base now (leb (m.started + start_grace) now) seen f.workers f.changes,
    )
