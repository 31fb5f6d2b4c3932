-- ===== src/Events/Ring.antt =====
-- Where the events stand in the ring buffer (internal/events/events.go).
use native.Mathlib.Nat.{mod-eq_of_lt, mod-eq-sub-mod, mod_self}
use simple_mining_proxy.Base.{
  ℕ, zero, suc, ◌+◌, ◌-◌, ◌%◌, ◌≤◌, ◌<◌, ◌≡◌, refl, sym, ap, subst, ◌∙◌, ◌≢◌, ◌⊎◌, inl, inr, Bool,
  true, false, Bool-cases, Option, some, List, [], ◌∷◌, Text, length, get_elem?, set, take, filter,
  arith, ltb, leb, ◌==◌,
}
use simple_mining_proxy.Events.{Event, Log, Level, rank, add_event, list_from}

module _ {ℓ} {A : Type ℓ} where
  length-set : (xs : List A) (i : ℕ) (v : A) → length (set xs i v) ≡ length xs
  length-set [] i v = refl
  length-set (x ∷ xs) zero v = refl
  length-set (x ∷ xs) (suc i) v = ground (arith, length-set xs i v)

  get_elem?-set_same :
      (xs : List A) (i : ℕ) (v : A) → i < length xs → get_elem? (set xs i v) i ≡ some v
  get_elem?-set_same [] i v h = absurd (omega arith)
  get_elem?-set_same (x ∷ xs) zero v h = refl
  get_elem?-set_same (x ∷ xs) (suc i) v h = get_elem?-set_same xs i v (omega arith)

  get_elem?-set_other :
      (xs : List A) (i j : ℕ) (v : A) → i ≢ j → get_elem? (set xs i v) j ≡ get_elem? xs j
  get_elem?-set_other [] i j v n = refl
  get_elem?-set_other (x ∷ xs) zero zero v n = absurd (n refl)
  get_elem?-set_other (x ∷ xs) zero (suc j) v n = refl
  get_elem?-set_other (x ∷ xs) (suc i) zero v n = refl
  get_elem?-set_other (x ∷ xs) (suc i) (suc j) v n =
      get_elem?-set_other xs i j v (λ e. n (ap suc e))

-- Where the `i`-th newest event stands.
abbrev pub place : ℕ → ℕ → ℕ → ℕ
place size next i = (next + size - 1 - i) % size

place_value :
    (size next i : ℕ)
    → next < size
    → i < size
    → ((i < next) × (place size next i ≡ next - 1 - i))
      ⊎ ((next ≤ i) × (place size next i ≡ next + size - 1 - i))
place_value size next i n l = elim (Bool-cases (ltb i next)) [
  | inl e ↦
      let lt : i < next = ground arith in
      inl (lt, mod-eq-sub-mod (omega arith) ∙ mod-eq_of_lt (omega arith) ∙ omega arith)
  | inr e ↦ let le : next ≤ i = ground arith in inr (le, mod-eq_of_lt (omega arith))
]

next_value :
    (size next : ℕ)
    → next < size
    → ((next + 1 ≡ size) × ((next + 1) % size ≡ 0))
      ⊎ ((next + 1 < size) × ((next + 1) % size ≡ next + 1))
next_value size next n = elim (Bool-cases (next + 1 == size)) [
  | inl e ↦
      let eq : next + 1 ≡ size = ground arith in inl (eq, ap (λ k. k % size) eq ∙ mod_self size)
  | inr e ↦ let lt : next + 1 < size = ground arith in inr (lt, mod-eq_of_lt lt)
]

-- The buffer of a log and all events that were added, the newest first.
pub record Holds (size : ℕ) (l : Log) (hist : List Event) : Type 0 where
  pub sized : length l.buf ≡ size
  pub next_in : l.next < size
  pub all_kept : l.full ≡ false → length hist ≡ l.next
  pub some_lost : l.full ≡ true → size ≤ length hist
  pub counted : l.seq ≡ length hist
  pub newest :
      (i : ℕ)
      → i < size
      → i < length hist
      → get_elem? l.buf (place size l.next i) ≡ get_elem? hist i

-- The event that `add` writes.
abbrev pub event_of : Level → ℕ → Text → Text → Log → Event
event_of level now type message l = record {
  seq = l.seq + 1;
  time = now;
  level = level;
  type = type;
  message = message;
}

module _ (size : ℕ) (level : Level) (now : ℕ) (type message : Text) (l : Log)
    (hist : List Event) where
  newest_after :
      Holds size l hist
      → (i : ℕ) → i < size
      → i < suc (length hist)
      → let e = event_of level now type message l in
        get_elem? (set l.buf l.next e) (place size ((l.next + 1) % size) i) ≡ get_elem? (e ∷ hist) i
  newest_after h zero a b =
      let e = event_of level now type message l in
      let at : place size ((l.next + 1) % size) 0 ≡ l.next = ground (
        arith,
        next_value size l.next h.next_in,
        place_value size ((l.next + 1) % size) 0,
        h.next_in,
      ) in
      ap (λ k. get_elem? (set l.buf l.next e) k) at
      ∙ get_elem?-set_same l.buf l.next e (ground (arith, h.sized, h.next_in))
  newest_after h (suc i) a b =
      let e = event_of level now type message l in
      let at : place size ((l.next + 1) % size) (suc i) ≡ place size l.next i = ground (
        arith,
        next_value size l.next h.next_in,
        place_value size ((l.next + 1) % size) (suc i),
        place_value size l.next i,
        h.next_in,
      ) in
      let other : l.next ≢ place size l.next i =
        λ q. ground (arith, place_value size l.next i, h.next_in) in
      ap (λ k. get_elem? (set l.buf l.next e) k) at
      ∙ get_elem?-set_other l.buf l.next (place size l.next i) e other
      ∙ h.newest i (omega arith) (omega arith)

  pub add_event-Holds :
      Holds size l hist
      → Holds size (add_event level now type message l) (event_of level now type message l ∷ hist)
  unfolding add_event
  add_event-Holds h =
      let v = next_value size l.next h.next_in in
      let is = newest_after h in
      record {
        sized =
            ground (arith, length-set l.buf l.next (event_of level now type message l), h.sized);
        next_in = ground (arith, v, h.sized, h.next_in);
        all_kept = λ f. ground (arith, v, h.sized, h.all_kept);
        some_lost = λ f. ground (arith, v, h.sized, h.all_kept, h.some_lost);
        counted = ground (arith, h.counted);
        newest =
            subst
              (λ n.
                (i : ℕ)
                → i < size
                → i < suc (length hist)
                → get_elem? (set l.buf l.next (event_of level now type message l))
                    (place size ((l.next + 1) % n) i)
                  ≡ get_elem? (event_of level now type message l ∷ hist) i)
              (sym h.sized) is;
      }

abbrev pub passes : Level → Event → Bool
passes floor e = leb (rank floor) (rank e.level)

pub list_from_slice :
    (l : Log) (floor : Level) (rest : List Event) (left i room : ℕ)
    → left ≤ length rest
    → ((k : ℕ)
        → k < left
        → get_elem? l.buf ((l.next + length l.buf - 1 - (i + k)) % length l.buf) ≡ get_elem? rest k)
    → list_from l floor left i room ≡ take room (filter (passes floor) (take left rest))
unfolding list_from
list_from_slice l floor rest zero i zero h g = refl
list_from_slice l floor rest zero i (suc room) h g = refl
list_from_slice l floor [] (suc left) i room h g = absurd (omega arith)
list_from_slice l floor (e ∷ rest) (suc left) i zero h g = refl
list_from_slice l floor (e ∷ rest) (suc left) i (suc room) h g =
    let at : ℕ → Option Event =
      λ j. get_elem? l.buf ((l.next + length l.buf - 1 - j) % length l.buf) in
    let first : at i ≡ some e = ap at (omega arith) ∙ g 0 (omega arith) in
    let later : (k : ℕ) → k < left → at (i + 1 + k) ≡ get_elem? rest k =
      λ k b. ap at (omega arith) ∙ g (suc k) (omega (arith, b)) in
    ground (
      arith,
      first,
      list_from_slice l floor rest left (i + 1) room (omega (arith, h)) later,
      list_from_slice l floor rest left (i + 1) (suc room) (omega (arith, h)) later,
    )
