-- ===== src/Health/Updates.antt =====
-- internal/pool/health.go: one address. The error of a check is its text, `none` when it passed.
use simple_mining_proxy.Base.{
  ℕ, ◌+◌, ◌-◌, ◌/◌, Bool, true, false, ◌&&◌, ◌||◌, not, Option, none, some, List, [], ◌∷◌, ◌++◌,
  Text, txt, length, drop, ltb, leb, ◌==◌, if◌then◌else◌,
}
use simple_mining_proxy.Health.{
  Time, Status, unknown, up, down, AddrHealth, probe_fails_to_down, dial_fails_to_down,
  probe_oks_to_up, rtt_samples,
}

abbrev pub is_down : Status → Bool
is_down down = true
is_down s = false

abbrev pub is_up : Status → Bool
is_up up = true
is_up s = false

unfoldable pub insert_sorted : ℕ → List ℕ → List ℕ
insert_sorted x [] = x ∷ []
insert_sorted x (y ∷ ys) = if leb x y then x ∷ (y ∷ ys) else y ∷ insert_sorted x ys

-- `slices.Sort`
unfoldable pub sort : List ℕ → List ℕ
unfolding insert_sorted
sort [] = []
sort (x ∷ xs) = insert_sorted x (sort xs)

abbrev pub nth : List ℕ → ℕ → ℕ
nth [] i = 0
nth (x ∷ xs) i = if i == 0 then x else nth xs (i - 1)

-- The last samples, the oldest dropped when there are five.
abbrev pub window : List ℕ → ℕ → List ℕ
window samples rtt = (if length samples == rtt_samples then drop 1 samples else samples) ++ rtt ∷ []

abbrev pub median : List ℕ → ℕ
median s = nth (sort s) ((length s - 1) / 2)

unfoldable pub add_sample : ℕ → AddrHealth → AddrHealth
add_sample rtt h = record h { samples = window h.samples rtt; rtt = median (window h.samples rtt) }

abbrev pub new_addr : AddrHealth
new_addr = record {
  status = unknown;
  probe_fails = 0;
  probe_oks = 0;
  dial_fails = 0;
  last_check = 0;
  last_error = [];
  up_since = 0;
  samples = [];
  rtt = 0;
}

-- The result part of `probeResultIf`, after the sample.
unfoldable pub probe_verdict : Time → Option Text → AddrHealth → AddrHealth
probe_verdict now (some e) h = record h {
  last_error = e;
  probe_oks = 0;
  probe_fails = h.probe_fails + 1;
  up_since = 0;
  status =
      if not (is_down h.status) && leb probe_fails_to_down (h.probe_fails + 1)
      then down
      else h.status;
}
probe_verdict now none h =
    let rises =
      leb probe_oks_to_up (h.probe_oks + 1) && (not (is_up h.status) || (h.up_since == 0)) in
    record h {
      last_error = [];
      probe_fails = 0;
      dial_fails = 0;
      probe_oks = h.probe_oks + 1;
      status = if rises then up else h.status;
      up_since = if rises then now else h.up_since;
    }

abbrev pub sampled : ℕ → AddrHealth → AddrHealth
sampled rtt h = if ltb 0 rtt then add_sample rtt h else h

unfoldable pub probe_update : Time → ℕ → Option Text → AddrHealth → AddrHealth
probe_update now rtt result h =
    probe_verdict now result (sampled rtt (record h { last_check = now }))

-- `dialResult` on the entry.
unfoldable pub dial_update : Time → Option Text → AddrHealth → AddrHealth
dial_update now none h = record h { dial_fails = 0 }
dial_update now (some e) h =
    let falls = not (is_down h.status) && leb dial_fails_to_down (h.dial_fails + 1) in
    record h {
      last_check = now;
      dial_fails = h.dial_fails + 1;
      last_error = if falls then e ++ txt " (3 failed session connects)" else e;
      status = if falls then down else h.status;
      probe_oks = if falls then 0 else h.probe_oks;
      up_since = if falls then 0 else h.up_since;
    }

-- `sessionFailure` for a session that got no job in time.
unfoldable pub stall_update : Time → Text → AddrHealth → AddrHealth
stall_update now e h = record h {
  status = down;
  last_check = now;
  last_error = e;
  probe_oks = 0;
  probe_fails = 0;
  dial_fails = 0;
  up_since = 0;
}
