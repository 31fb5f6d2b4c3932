-- ===== src/Events/Listed.antt =====
-- What the list of events shows after any number of events (internal/events/events.go).
use simple_mining_proxy.Base.{
  ℕ, zero, suc, ◌+◌, ◌≤◌, ◌<◌, min, ◌≡◌, refl, sym, ap, subst, ◌∙◌, inl, inr, false, Bool-cases,
  List, [], ◌∷◌, Text, length, length-filter-le, length-take-le, get_elem?, take, filter, arith,
  ltb, leb, ◌==◌, ◌||◌, if◌then◌else◌,
}
use simple_mining_proxy.Events.{Event, Log, Level, new_log, blank, add_event, list_at, stored}
use simple_mining_proxy.Events.Ring.{Holds, place, add_event-Holds, passes, list_from_slice}

-- An event as it is reported.
pub record Report : Type 0 where
  pub level : Level
  pub time : ℕ
  pub type : Text
  pub message : Text

unfoldable pub add_all : List Report → Log → Log
add_all [] l = l
add_all (r ∷ rs) l = add_all rs (add_event r.level r.time r.type r.message l)

-- All events that were reported, the newest first, numbered from 1.
unfoldable pub history : List Report → List Event → List Event
history [] hist = hist
history (r ∷ rs) hist = history rs (
    record {
      seq = length hist + 1;
      time = r.time;
      level = r.level;
      type = r.type;
      message = r.message;
    }
    ∷ hist)

-- Up to `limit` events, 0 for all.
abbrev pub limited : ℕ → List Event → List Event
limited zero es = es
limited (suc n) es = take (suc n) es

length-blank : (size : ℕ) → length (blank size) ≡ size
length-blank zero = refl
length-blank (suc n) = ap suc (length-blank n)

new_log-Holds : (size : ℕ) → 0 < size → Holds size (new_log size) []
unfolding new_log
new_log-Holds size p = record {
  sized = length-blank size;
  next_in = p;
  all_kept = λ f. refl;
  some_lost = λ f. ground arith;
  counted = refl;
  newest = λ i a b. absurd (omega (arith, b));
}

add_all-Holds :
    (size : ℕ) (rs : List Report) (l : Log) (hist : List Event)
    → Holds size l hist
    → Holds size (add_all rs l) (history rs hist)
unfolding add_all history
add_all-Holds size [] l hist h = h
add_all-Holds size (r ∷ rs) l hist h =
    let next = add_event r.level r.time r.type r.message l in
    add_all-Holds size rs next _ (
      subst
        (λ n. Holds size next (
          record { seq = n + 1; time = r.time; level = r.level; type = r.type; message = r.message }
          ∷ hist))
        h.counted (add_event-Holds size r.level r.time r.type r.message l hist h))

take_all {ℓ} : {A : Type ℓ} (n : ℕ) (xs : List A) → length xs ≤ n → take n xs ≡ xs
take_all zero [] h = refl
take_all zero (x ∷ xs) h = absurd (omega arith)
take_all (suc n) [] h = refl
take_all (suc n) (x ∷ xs) h = ap (λ t. x ∷ t) (take_all n xs (omega arith))

take-min {ℓ} : {A : Type ℓ} (n : ℕ) (xs : List A) → take (min (length xs) n) xs ≡ take n xs
take-min n xs = elim (Bool-cases (leb (length xs) n)) [
  | inl e ↦
      let le : length xs ≤ n = ground arith in
      ap (λ k. take k xs) (omega arith)
      ∙ take_all (length xs) xs (omega arith)
      ∙ sym (take_all n xs le)
  | inr e ↦ let lt : n < length xs = ground arith in ap (λ k. take k xs) (omega arith)
]

stored-min :
    (size : ℕ) (l : Log) (hist : List Event) → Holds size l hist → stored l ≡ min (length hist) size
stored-min size l hist h = ground (arith, h.all_kept, h.some_lost, h.sized, h.next_in)

list_at-Holds :
    (size limit : ℕ) (floor : Level) (l : Log) (hist : List Event)
    → Holds size l hist
    → list_at limit floor l ≡ limited limit (filter (passes floor) (take size hist))
unfolding list_at
list_at-Holds size limit floor l hist h =
    let n = stored l in
    let room = if (limit == 0) || ltb n limit then n else limit in
    let m = stored-min size l hist h in
    let shown = filter (passes floor) (take n hist) in
    let few : length shown ≤ n =
      omega (arith, length-filter-le (passes floor) (take n hist), length-take-le n hist) in
    let slice = list_from_slice l floor hist n 0 room (omega (arith, m)) (λ k b.
      subst (λ j. get_elem? l.buf (place (length l.buf) l.next j) ≡ get_elem? hist k) (same_index k)
        (subst (λ s. get_elem? l.buf (place s l.next k) ≡ get_elem? hist k) (sym h.sized)
          (h.newest k (omega (arith, m, b)) (omega (arith, m, b))))) in
    let all = ap (λ t. filter (passes floor) t) (ap (λ k. take k hist) m ∙ take-min size hist) in
    slice ∙ fits n limit shown few ∙ ap (limited limit) all
  where
    same_index : (k : ℕ) → k ≡ 0 + k
    same_index k = omega arith

    nonzero : (k : ℕ) → (suc k == 0) ≡ false
    nonzero k = ground arith

    fits :
        (n limit : ℕ) (es : List Event)
        → length es ≤ n
        → take (if (limit == 0) || ltb n limit then n else limit) es ≡ limited limit es
    fits n zero es few = take_all n es few
    fits n (suc k) es few = elim (Bool-cases (ltb n (suc k))) [
      | inl e ↦ rw (nonzero k, e) (take_all n es few ∙ sym (take_all (suc k) es (ground arith)))
      | inr e ↦ rw (nonzero k, e) refl
    ]

-- The list shows the newest events: of all events reported, the last `size` are kept, and of these
-- the ones of the level asked for or higher are shown, the newest first, up to the limit.
pub list_at_newest :
    (size limit : ℕ) (floor : Level) (rs : List Report)
    → 0 < size
    → list_at limit floor (add_all rs (new_log size))
      ≡ limited limit (filter (passes floor) (take size (history rs [])))
list_at_newest size limit floor rs p =
    list_at-Holds size limit floor (add_all rs (new_log size)) (history rs [])
      (add_all-Holds size rs (new_log size) [] (new_log-Holds size p))
