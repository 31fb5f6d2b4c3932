-- ===== src/Notifier/Heard.antt =====
-- What the chat has heard, and what the notifier remembers of it (internal/telegram/notifier.go).
use simple_mining_proxy.Base.{
  ℕ, ◌+◌, ◌≤◌, ◌≡◌, refl, ◌∙◌, ap, subst, ◌⊎◌, inl, inr, Bool, true, false, Bool-cases, Option,
  none, some, List, [], ◌∷◌, Text, text_eq, Map, is_some, lookup, insert, retain, Unique, arith,
  leb, if◌then◌else◌,
}
use simple_mining_proxy.Monitor.{Change}
use simple_mining_proxy.Notifier.{
  Reported, Notifier, flap_window, recent_times, same_state, refresh_times, take_due,
}
use simple_mining_proxy.Notifier.News.{Event, alerted, tried, apply_event, IsNews}

-- What the chat has heard: the last state of each ASIC, and when.
abbrev pub Heard : Type 0
Heard = Map (Bool × ℕ)

abbrev pub hear : ℕ → List Change → Heard → Heard
hear now [] g = g
hear now (c ∷ cs) g = hear now cs (insert c.name (c.online, now) g)

abbrev pub listen : Event → Notifier → Heard → Heard
listen (alerted now a) n g = g
listen (tried now delivered) n g = if delivered then hear now (take_due now n).1 g else g

abbrev pub heard : List Event → Notifier → Heard → Heard
heard [] n g = g
heard (e ∷ es) n g = heard es (apply_event e n) (listen e n g)

abbrev pub time_of : Event → ℕ
time_of (alerted now a) = now
time_of (tried now delivered) = now

-- The events up to now come in the order of time.
abbrev pub InOrder : ℕ → List Event → ℕ → Type 0
InOrder t [] now = t ≤ now
InOrder t (e ∷ es) now = (t ≤ time_of e) × InOrder (time_of e) es now

-- A change is new to the chat: it has heard nothing of the ASIC, or the opposite, or, an hour ago or
-- more, that the ASIC is online.
abbrev pub IsNew : ℕ → Option (Bool × ℕ) → Change → Type 0
IsNew now none c = Unit
IsNew now (some (online, at)) c =
    (same_state online c.online ≡ false)
    ⊎ ((online ≡ true) × ((c.online ≡ true) × (at + flap_window ≤ now)))

abbrev pub At : ℕ → List ℕ → Type 0
At at [] = ⊥
At at (t ∷ ts) = (t ≡ at) ⊎ At at ts

-- A time is remembered, or older than the window.
abbrev pub Recalled : ℕ → ℕ → List ℕ → Type 0
Recalled now at ts = At at ts ⊎ (at + flap_window ≤ now)

-- What the notifier remembers, by what the chat has heard.
abbrev pub Known : ℕ → Option (Bool × ℕ) → Option Reported → Type 0
Known now none o = Unit
Known now (some (online, at)) none = (online ≡ true) × (at + flap_window ≤ now)
Known now (some (online, at)) (some r) = (r.online ≡ online) × Recalled now at r.times

pub recent-Recalled :
    (now at : ℕ) (ts : List ℕ) → Recalled now at ts → Recalled now at (recent_times now ts)
unfolding recent_times
recent-Recalled now at [] h = h
recent-Recalled now at (t ∷ ts) (inr l) = inr l
recent-Recalled now at (t ∷ ts) (inl (inl e)) = elim (Bool-cases (leb (t + flap_window) now)) [
  | inl b ↦ inr (ground (arith, b, e))
  | inr b ↦ rw b (inl (inl e))
]
recent-Recalled now at (t ∷ ts) (inl (inr m)) = elim (Bool-cases (leb (t + flap_window) now)) [
  | inl b ↦ rw b (recent-Recalled now at ts (inl m))
  | inr b ↦ rw b (inl (inr m))
]

pub Known-later :
    (t now : ℕ) (b : Option (Bool × ℕ)) (o : Option Reported)
    → t ≤ now
    → Known t b o
    → Known now b o
Known-later t now none o l h = tt
Known-later t now (some (online, at)) none l h = (h.0, omega (arith, h.1, l))
Known-later t now (some (online, at)) (some r) l (e, inl m) = (e, inl m)
Known-later t now (some (online, at)) (some r) l (e, inr m) = (e, inr (omega (arith, m, l)))

pub judge-IsNew :
    (now : ℕ) (b : Option (Bool × ℕ)) (o : Option Reported) (c : Change)
    → Known now b o
    → IsNews now o c
    → IsNew now b c
judge-IsNew now none o c h n = tt
judge-IsNew now (some (online, at)) none c h n = elim (Bool-cases c.online) [
  | inl t ↦ inr (h.0, (t, h.1))
  | inr f ↦ inl (rw (h.0, f) refl)
]
judge-IsNew now (some (online, at)) (some r) c h n =
    inl (subst (λ x. same_state x c.online ≡ false) h.0 n.0)

module _ {ℓ} {V : Type ℓ} (p : Text → V → Bool) where
  abbrev pub kept : Text → Option V → Option V
  kept k none = none
  kept k (some v) = if p k v then some v else none

  pub lookup-retain :
      (k : Text) (m : Map V) → Unique m → lookup k (retain p m) ≡ kept k (lookup k m)
  unfolding lookup retain
  lookup-retain k [] u = refl
  lookup-retain k ((j, v) ∷ m) u = grind (arith, text_eq j k, lookup-retain k m u.1, u.0)

  pub Unique-retain : (m : Map V) → Unique m → Unique (retain p m)
  unfolding retain
  Unique-retain [] u = tt
  Unique-retain ((j, v) ∷ m) u = elim (Bool-cases (p j v)) [
    | inl t ↦ rw t (lookup-retain j m u.1 ∙ ap (kept j) u.0, Unique-retain m u.1)
    | inr f ↦ rw f (Unique-retain m u.1)
  ]

-- The refresh of an entry.
abbrev pub refreshed : ℕ → Bool → Reported → Reported
refreshed now b r = if b then record r { times = recent_times now r.times } else r

abbrev pub refreshed_if : ℕ → Bool → Option Reported → Option Reported
refreshed_if now b none = none
refreshed_if now b (some r) = some (refreshed now b r)

module _ (now : ℕ) (pending : Map Change) where
  pub lookup-refresh_times :
      (k : Text) (m : Map Reported)
      → lookup k (refresh_times now pending m)
        ≡ refreshed_if now (is_some (lookup k pending)) (lookup k m)
  unfolding lookup refresh_times
  lookup-refresh_times k [] = refl
  lookup-refresh_times k ((j, r) ∷ m) = grind (arith, text_eq j k, lookup-refresh_times k m)

  pub Unique-refresh_times : (m : Map Reported) → Unique m → Unique (refresh_times now pending m)
  unfolding refresh_times
  Unique-refresh_times [] u = tt
  Unique-refresh_times ((j, r) ∷ m) u = (
    lookup-refresh_times j m ∙ ap (refreshed_if now (is_some (lookup j pending))) u.0,
    Unique-refresh_times m u.1,
  )
