-- ===== src/Guard.antt =====
-- internal/admin/guard.go: the brute-force protection of the panel. Times are nanoseconds since
-- Go's zero time; the check of the password and the time are arguments.
pub mod Locks
pub mod Limits
pub mod Guesses
mod Tests
use simple_mining_proxy.Base.{
  ℕ, zero, suc, ◌+◌, ◌-◌, ◌*◌, ◌^◌, min, Bool, true, false, ◌&&◌, ◌||◌, not, Option, none, some,
  List, [], ◌∷◌, ◌++◌, Text, Map, length, filter, drop, get_elem?, ltb, leb, ◌==◌, if◌then◌else◌,
  is_some, same, lookup, insert, delete, retain,
}

abbrev pub minute : ℕ
minute = 60000000000

abbrev pub ip_fail_limit : ℕ
ip_fail_limit = 5

abbrev pub ip_fail_window : ℕ
ip_fail_window = 15 * minute

abbrev pub ip_lock_base : ℕ
ip_lock_base = 15 * minute

abbrev pub ip_lock_max : ℕ
ip_lock_max = 1440 * minute

abbrev pub lock_forget : ℕ
lock_forget = 1440 * minute

abbrev pub global_fail_limit : ℕ
global_fail_limit = 100

abbrev pub global_fail_window : ℕ
global_fail_window = 60 * minute

abbrev pub max_guard_ips : ℕ
max_guard_ips = 5000

pub record IpRecord : Type 0 where
  pub fails : List ℕ
  pub locks : ℕ
  pub locked_until : ℕ
  pub last_fail : ℕ

-- The guard, and the file that it last wrote.
pub record Saved : Type 0 where
  pub ips : Map IpRecord
  pub global : List ℕ

pub record Guard : Type 0 where
  pub ips : Map IpRecord
  pub global : List ℕ
  pub file : Option Saved

-- `attemptResult`; `retry_at`, `ip_lock` and the flags keep their zero values otherwise.
pub record AttemptResult : Type 0 where
  pub ok : Bool
  pub blocked : Bool
  pub global : Bool
  pub retry_at : ℕ
  pub ip_lock : ℕ
  pub global_lock : Bool

abbrev pub plain : AttemptResult
plain = record {
  ok = false;
  blocked = false;
  global = false;
  retry_at = 0;
  ip_lock = 0;
  global_lock = false;
}

-- `recent`: `now.Sub(t) < window`, also for times after `now`.
unfoldable pub recent : List ℕ → ℕ → ℕ → List ℕ
recent [] now w = []
recent (t ∷ ts) now w = let rest = recent ts now w in if ltb now (t + w) then t ∷ rest else rest

-- `newGuard`: what it could read and decode.
unfoldable pub new_guard : Option Saved → Guard
new_guard none = record { ips = []; global = []; file = none }
new_guard (some f) = record { ips = f.ips; global = f.global; file = some f }

-- `saveLocked`, where the write may fail.
unfoldable pub save : Bool → Guard → Guard
save written g = record g {
  file = if written then some (record { ips = g.ips; global = g.global }) else g.file;
}

-- `ipLockBase << min(rec.Locks, 10)`, capped.
unfoldable pub lock_duration : ℕ → ℕ
lock_duration locks = min (ip_lock_base * 2 ^ min locks 10) ip_lock_max

-- The loop of `pruneLocked` over the records.
abbrev pub refresh_fails : ℕ → IpRecord → IpRecord
refresh_fails now r = record r { fails = recent r.fails now ip_fail_window }

unfoldable pub refresh_all : ℕ → Map IpRecord → Map IpRecord
refresh_all now [] = []
refresh_all now ((ip, r) ∷ m) = (ip, refresh_fails now r) ∷ refresh_all now m

abbrev pub is_kept : ℕ → Text → IpRecord → Bool
is_kept now ip r =
    not ((length r.fails == 0) && (leb r.locked_until now && ltb (r.last_fail + lock_forget) now))

-- `sort.Slice` by the last failure.
unfoldable pub insert_by_last : Text × ℕ → List (Text × ℕ) → List (Text × ℕ)
insert_by_last e [] = e ∷ []
insert_by_last e (d ∷ ds) = if ltb d.1 e.1 then d ∷ insert_by_last e ds else e ∷ (d ∷ ds)

unfoldable pub by_last : Map IpRecord → List (Text × ℕ)
by_last [] = []
by_last ((ip, r) ∷ m) = insert_by_last (ip, r.last_fail) (by_last m)

-- The loop that drops the first `n`.
unfoldable pub drop_first : ℕ → List (Text × ℕ) → Map IpRecord → Map IpRecord
drop_first zero es m = m
drop_first (suc n) [] m = m
drop_first (suc n) (e ∷ es) m = drop_first n es (delete e.0 m)

unfoldable pub prune : ℕ → Map IpRecord → Map IpRecord
unfolding refresh_all drop_first by_last
prune now m =
    let kept = retain (is_kept now) (refresh_all now m) in
    if leb (length kept) max_guard_ips
    then kept
    else drop_first (length kept - max_guard_ips) (by_last kept) kept

abbrev pub record_of : Option IpRecord → IpRecord
record_of none = record { fails = []; locks = 0; locked_until = 0; last_fail = 0 }
record_of (some r) = r

-- The record of an address after a wrong password, with the length of the lock that starts, if one
-- does.
unfoldable pub wrong : ℕ → IpRecord → IpRecord × ℕ
unfolding recent
wrong now r =
    let locks = if ltb (r.last_fail + lock_forget) now then 0 else r.locks in
    let fails = recent r.fails now ip_fail_window ++ now ∷ [] in
    if leb ip_fail_limit (length fails)
    then (
      record {
        fails = [];
        locks = suc locks;
        locked_until = now + lock_duration locks;
        last_fail = now;
      },
      lock_duration locks,
    )
    else (
      record { fails = fails; locks = locks; locked_until = r.locked_until; last_fail = now },
      0,
    )

abbrev pub locked_until_of : Option IpRecord → ℕ
locked_until_of none = 0
locked_until_of (some r) = r.locked_until

abbrev pub time_at : Option ℕ → ℕ
time_at none = 0
time_at (some t) = t

-- `attempt`
unfoldable pub attempt : Text → ℕ → Bool → Bool → Guard → Guard × AttemptResult
unfolding recent save
attempt ip now verified written g =
    let global = recent g.global now global_fail_window in
    let rec_ = lookup ip g.ips in
    let seen = record g { global = global } in
    if ltb now (locked_until_of rec_)
    then (seen, record plain { blocked = true; retry_at = locked_until_of rec_ })
    else if leb global_fail_limit (length global)
    then (
      seen,
      record plain {
        blocked = true;
        global = true;
        retry_at =
            time_at (get_elem? global (length global - global_fail_limit)) + global_fail_window;
      },
    )
    else if verified
    then (
      if is_some rec_ then save written (record seen { ips = delete ip seen.ips }) else seen,
      record plain { ok = true },
    )
    else let failed = wrong now (record_of rec_) in
      let counted = global ++ now ∷ [] in
      (
        save written (record seen { ips = prune now (insert ip failed.0 g.ips); global = counted }),
        record plain { ip_lock = failed.1; global_lock = length counted == global_fail_limit },
      )
