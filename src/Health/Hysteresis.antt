-- ===== src/Health/Hysteresis.antt =====
-- When an address changes its status, over any sequence of checks and session dials
-- (internal/pool/health.go).
use simple_mining_proxy.Base.{
  ℕ, ◌≤◌, ◌<◌, ◌≡◌, refl, ◌≢◌, ◌↔◌, Option, none, some, List, [], ◌∷◌, Text, length, length-append,
  length-drop, drop, arith,
}
use simple_mining_proxy.Health.{Time, up, down, AddrHealth, rtt_samples}
use simple_mining_proxy.Health.Updates.{
  window, add_sample, new_addr, probe_verdict, probe_update, dial_update, stall_update, sampled,
}

-- What the entry of an address is told, in order: a check with its connect time, a session dial, a
-- session that got no job.
pub data Observation : Type 0 where
  probe : Time → ℕ → Option Text → Observation
  dial : Time → Option Text → Observation
  stall : Time → Text → Observation

unfoldable pub observe : Observation → AddrHealth → AddrHealth
observe (probe now rtt result) h = probe_update now rtt result h
observe (dial now result) h = dial_update now result h
observe (stall now e) h = stall_update now e h

unfoldable pub observe_all : List Observation → AddrHealth → AddrHealth
observe_all [] h = h
observe_all (o ∷ os) h = observe_all os (observe o h)

-- Between two observations: an address that is not DOWN has failed fewer than two checks and fewer
-- than three dials in a row; a healthy run counts only after two good checks, with none failed.
pub record IsSound (h : AddrHealth) : Type 0 where
  pub probes_tolerated : h.status ≢ down → h.probe_fails < 2
  pub dials_tolerated : h.status ≢ down → h.dial_fails < 3
  pub run_is_up : 0 < h.up_since → h.status ≡ up
  pub run_is_good : 0 < h.up_since → (2 ≤ h.probe_oks) × (h.probe_fails ≡ 0)
  pub down_is_bad : h.status ≡ down → h.probe_oks < 2
  pub few_samples : length h.samples ≤ rtt_samples

length-window : (samples : List ℕ) (rtt : ℕ) → length samples ≤ 5 → length (window samples rtt) ≤ 5
length-window samples rtt h = ground (
  arith,
  length-drop 1 samples,
  length-append (drop 1 samples) (rtt ∷ []),
  length-append samples (rtt ∷ []),
)

sampled-IsSound :
    (rtt now : ℕ) (h : AddrHealth)
    → IsSound h
    → IsSound (sampled rtt (record h { last_check = now }))
unfolding add_sample
sampled-IsSound rtt now h v = ground (arith, length-window h.samples rtt)

probe_verdict-IsSound :
    (now : Time) (result : Option Text) (h : AddrHealth)
    → IsSound h
    → IsSound (probe_verdict now result h)
unfolding probe_verdict
probe_verdict-IsSound now none h v = ground arith
probe_verdict-IsSound now (some e) h v = ground arith

dial_update-IsSound :
    (now : Time) (result : Option Text) (h : AddrHealth)
    → IsSound h
    → IsSound (dial_update now result h)
unfolding dial_update
dial_update-IsSound now none h v = ground arith
dial_update-IsSound now (some e) h v = ground arith

stall_update-IsSound :
    (now : Time) (e : Text) (h : AddrHealth) → IsSound h → IsSound (stall_update now e h)
unfolding stall_update
stall_update-IsSound now e h v = ground arith

observe-IsSound : (o : Observation) (h : AddrHealth) → IsSound h → IsSound (observe o h)
unfolding observe probe_update
observe-IsSound (probe now rtt result) h v =
    probe_verdict-IsSound now result _ (sampled-IsSound rtt now h v)
observe-IsSound (dial now result) h v = dial_update-IsSound now result h v
observe-IsSound (stall now e) h v = stall_update-IsSound now e h v

-- Whatever has been observed of an address, its entry is sound.
pub observe_all-IsSound :
    (os : List Observation) (h : AddrHealth) → IsSound h → IsSound (observe_all os h)
unfolding observe_all
observe_all-IsSound [] h v = v
observe_all-IsSound (o ∷ os) h v = observe_all-IsSound os (observe o h) (observe-IsSound o h v)

pub new-IsSound : IsSound new_addr
new-IsSound = ground arith

-- What takes an address down: the second failed check or the third failed dial in a row, or a
-- session without a job.
abbrev pub Falls : Observation → AddrHealth → Type 0
Falls (probe now rtt none) h = ⊥
Falls (probe now rtt (some e)) h = h.probe_fails ≡ 1
Falls (dial now none) h = ⊥
Falls (dial now (some e)) h = h.dial_fails ≡ 2
Falls (stall now e) h = Unit

-- What brings an address up: a good check after at least one more in a row.
abbrev pub Rises : Observation → AddrHealth → Type 0
Rises (probe now rtt none) h = 1 ≤ h.probe_oks
Rises (probe now rtt (some e)) h = ⊥
Rises (dial now result) h = ⊥
Rises (stall now e) h = ⊥

-- An address that is not DOWN goes down exactly at its second failed check in a row, at its third
-- failed session dial in a row, or when a session gets no job.
pub goes_down_iff :
    (o : Observation) (h : AddrHealth)
    → IsSound h
    → h.status ≢ down
    → ((observe o h).status ≡ down) ↔ Falls o h
unfolding observe probe_update probe_verdict add_sample dial_update stall_update
goes_down_iff (probe now rtt none) h v n = (λ e. ground arith, λ e. ground arith)
goes_down_iff (probe now rtt (some x)) h v n = (λ e. ground arith, λ e. ground arith)
goes_down_iff (dial now none) h v n = (λ e. ground arith, λ e. ground arith)
goes_down_iff (dial now (some x)) h v n = (λ e. ground arith, λ e. ground arith)
goes_down_iff (stall now x) h v n = (λ e. tt, λ e. refl)

-- An address that is not UP comes up exactly at the second good check in a row; a good session
-- dial alone never brings it up.
pub comes_up_iff :
    (o : Observation) (h : AddrHealth)
    → IsSound h
    → h.status ≢ up
    → ((observe o h).status ≡ up) ↔ Rises o h
unfolding observe probe_update probe_verdict add_sample dial_update stall_update
comes_up_iff (probe now rtt none) h v n = (λ e. ground arith, λ e. ground arith)
comes_up_iff (probe now rtt (some x)) h v n = (λ e. ground arith, λ e. ground arith)
comes_up_iff (dial now none) h v n = (λ e. ground arith, λ e. ground arith)
comes_up_iff (dial now (some x)) h v n = (λ e. ground arith, λ e. ground arith)
comes_up_iff (stall now x) h v n = (λ e. ground arith, λ e. ground arith)

abbrev time_of : Observation → Time
time_of (probe now rtt result) = now
time_of (dial now result) = now
time_of (stall now e) = now

-- The observations come in the order of their times, none before `t`.
abbrev pub InOrder : Time → List Observation → Type 0
InOrder t [] = Unit
InOrder t (o ∷ os) = (t ≤ time_of o) × InOrder (time_of o) os

-- The time of the last failed check or stalled session, `t` if there is none.
abbrev pub last_bad : Time → List Observation → Time
last_bad t [] = t
last_bad t (probe now rtt (some e) ∷ os) = last_bad now os
last_bad t (probe now rtt none ∷ os) = last_bad t os
last_bad t (dial now result ∷ os) = last_bad t os
last_bad t (stall now e ∷ os) = last_bad now os

healthy_from :
    (bad t : Time) (os : List Observation) (h : AddrHealth)
    → InOrder t os
    → bad ≤ t
    → (0 < h.up_since → bad ≤ h.up_since)
    → 0 < (observe_all os h).up_since
    → last_bad bad os ≤ (observe_all os h).up_since
unfolding observe_all observe probe_update probe_verdict add_sample dial_update stall_update
healthy_from bad t [] h i b k u = k u
healthy_from bad t (probe now rtt none ∷ os) h i b k u =
    healthy_from bad now os _ i.1 (omega arith) (λ p. ground arith) u
healthy_from bad t (probe now rtt (some e) ∷ os) h i b k u =
    healthy_from now now os _ i.1 (omega arith) (λ p. ground arith) u
healthy_from bad t (dial now none ∷ os) h i b k u =
    healthy_from bad now os _ i.1 (omega arith) (λ p. ground arith) u
healthy_from bad t (dial now (some e) ∷ os) h i b k u =
    healthy_from bad now os _ i.1 (omega arith) (λ p. ground arith) u
healthy_from bad t (stall now e ∷ os) h i b k u =
    healthy_from now now os _ i.1 (omega arith) (λ p. ground arith) u

-- The healthy run that failback waits for is uninterrupted: after observations in the order of
-- time, no check has failed and no session has stalled since `up_since`.
pub up_since_uninterrupted :
    (os : List Observation)
    → InOrder 0 os
    → 0 < (observe_all os new_addr).up_since
    → last_bad 0 os ≤ (observe_all os new_addr).up_since
up_since_uninterrupted os i u = healthy_from 0 0 os new_addr i (omega arith) (λ p. omega arith) u
