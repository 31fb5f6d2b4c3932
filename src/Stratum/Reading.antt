-- ===== src/Stratum/Reading.antt =====
-- What the line reader returns, against the bytes of its stream (internal/stratum/linereader.go).
use mathlib.Core.List.{append_assoc}
use simple_mining_proxy.Base.{
  ℕ, zero, suc, ◌+◌, ◌≤◌, ◌<◌, ◌≡◌, refl, sym, subst, true, false, Bool-cases, ◌⊎◌, inl, inr,
  Option, none, some, List, [], ◌∷◌, ◌++◌, Text, length, length-append, arith, ltb,
}
use simple_mining_proxy.Stratum.Lines.{
  Slice, full_line, part, failure, Line, got, stopped, LineReader, read_raw, is_space, blank,
  after_raw, read_from, after_line, read_by_error, read_line,
}

-- The bytes that are to come.
abbrev pub bytes : List Slice → Text
bytes [] = []
bytes (full_line t ∷ ss) = t ++ bytes ss
bytes (part t ∷ ss) = t ++ bytes ss
bytes (failure t e ∷ ss) = t ++ bytes ss

-- The second text is what follows some blanks of the first.
abbrev pub AfterBlanks : Text → Text → Type 0
AfterBlanks [] u = [] ≡ u
AfterBlanks (c ∷ v) u = (c ∷ v ≡ u) ⊎ ((is_space c ≡ true) × AfterBlanks v u)

same-AfterBlanks : (u : Text) → AfterBlanks u u
same-AfterBlanks [] = refl
same-AfterBlanks (c ∷ u) = inl refl

blank-AfterBlanks : (t v u : Text) → blank t ≡ true → AfterBlanks v u → AfterBlanks (t ++ v) u
unfolding blank
blank-AfterBlanks [] v u b h = h
blank-AfterBlanks (c ∷ t) v u b h = inr (ground arith, blank-AfterBlanks t v u (ground arith) h)

-- What `readRaw` gives for what it has and the pieces to come.
abbrev RawOf : ℕ → Text → Line × List Slice → Type 0
RawOf bound v (stopped e, ss) = Unit
RawOf bound v (got t, ss) = (length t ≤ bound) × (t ++ bytes ss ≡ v)

read_raw-RawOf :
    (bound : ℕ) (acc : Text) (ss : List Slice)
    → RawOf bound (acc ++ bytes ss) (read_raw bound acc ss)
unfolding read_raw
read_raw-RawOf bound acc [] = tt
read_raw-RawOf bound acc (full_line t ∷ ss) =
    elim (Bool-cases (ltb bound (length acc + length t))) [
      | inl y ↦ rw y tt
      | inr n ↦ rw n (ground (arith, n, length-append acc t), append_assoc acc t (bytes ss))
    ]
read_raw-RawOf bound acc (part t ∷ ss) =
    let rest = read_raw-RawOf bound (acc ++ t) ss in
    elim (Bool-cases (ltb bound (length acc + length t))) [
      | inl y ↦ rw y tt
      | inr n ↦ rw n (rw⁻¹ (append_assoc acc t (bytes ss)) rest)
    ]
read_raw-RawOf bound acc (failure t e ∷ ss) =
    elim (Bool-cases (ltb bound (length acc + length t))) [ inl y ↦ rw y tt | inr n ↦ rw n tt ]

-- A line takes a piece.
abbrev Takes : ℕ → Line × List Slice → Type 0
Takes n (stopped e, rest) = Unit
Takes n (got t, rest) = length rest < n

read_raw-Takes :
    (bound : ℕ) (acc : Text) (ss : List Slice) → Takes (length ss) (read_raw bound acc ss)
unfolding read_raw
read_raw-Takes bound acc [] = tt
read_raw-Takes bound acc (full_line t ∷ ss) =
    elim (Bool-cases (ltb bound (length acc + length t))) [
      | inl y ↦ rw y tt
      | inr n ↦ rw n (omega arith)
    ]
read_raw-Takes bound acc (part t ∷ ss) = elim (Bool-cases (ltb bound (length acc + length t))) [
  | inl y ↦ rw y tt
  | inr n ↦ rw n (later (read_raw bound (acc ++ t) ss) (read_raw-Takes bound (acc ++ t) ss))
]
  where
    later : (x : Line × List Slice) → Takes (length ss) x → Takes (suc (length ss)) x
    later (stopped e, rest) h = tt
    later (got t, rest) h = omega (arith, h)
read_raw-Takes bound acc (failure t e ∷ ss) =
    elim (Bool-cases (ltb bound (length acc + length t))) [ inl y ↦ rw y tt | inr n ↦ rw n tt ]

-- The line that the reader returns, and the pieces that it leaves.
abbrev pub IsLine : ℕ → Text → Line × List Slice → Type 0
IsLine bound v (stopped e, rest) = Unit
IsLine bound v (got t, rest) =
    ((length t ≤ bound) × (blank t ≡ false)) × AfterBlanks v (t ++ bytes rest)

abbrev pub Returns : (Line × List Slice → Type 0) → Option (Line × List Slice) → Type 0
Returns P none = ⊥
Returns P (some x) = P x

skip-IsLine :
    (bound : ℕ) (t v : Text) (x : Line × List Slice)
    → blank t ≡ true
    → IsLine bound v x
    → IsLine bound (t ++ v) x
skip-IsLine bound t v (stopped e, rest) b h = tt
skip-IsLine bound t v (got u, rest) b h = (h.0, blank-AfterBlanks t v (u ++ bytes rest) b h.1)

skip_line :
    (bound : ℕ) (t v : Text) (o : Option (Line × List Slice))
    → blank t ≡ true
    → Returns (IsLine bound v) o
    → Returns (IsLine bound (t ++ v)) o
skip_line bound t v none b h = h
skip_line bound t v (some x) b h = skip-IsLine bound t v x b h

read_from-IsLine :
    (n bound : ℕ) (ss : List Slice)
    → length ss < n
    → Returns (IsLine bound (bytes ss)) (read_from n bound ss)
unfolding read_from
read_from-IsLine zero bound ss l = omega (arith, l)
read_from-IsLine (suc n) bound ss l =
    go (read_raw bound [] ss) (read_raw-RawOf bound [] ss) (read_raw-Takes bound [] ss)
      (λ k. read_from-IsLine n bound (read_raw bound [] ss).1 k)
  where
    go :
        (x : Line × List Slice)
        → RawOf bound (bytes ss) x
        → Takes (length ss) x
        → (length x.1 < n → Returns (IsLine bound (bytes x.1)) (read_from n bound x.1))
        → Returns (IsLine bound (bytes ss)) (after_raw x (read_from n bound x.1))
    go (stopped e, rest) r s later = tt
    go (got t, rest) r s later = elim (Bool-cases (blank t)) [
      | inr f ↦
          rw f ((r.0, f), subst (AfterBlanks (bytes ss)) (sym r.1) (same-AfterBlanks (bytes ss)))
      | inl b ↦ rw b (
          subst (λ v. Returns (IsLine bound v) (read_from n bound rest)) r.1
            (skip_line bound t (bytes rest) (read_from n bound rest) b
              (later (omega (arith, s, l)))))
    ]

-- What a call of the reader promises: it returns; a line is not blank, within the bound, and stands in
-- the stream after blanks only, with nothing lost before what is still to come; and an error stays.
abbrev pub Promised : LineReader → Option (LineReader × Line) → Type 0
Promised l none = ⊥
Promised l (some (next, stopped e)) =
    (next.err ≡ some e) × (read_line next ≡ some (next, stopped e))
Promised l (some (next, got t)) =
    ((length t ≤ l.bound) × (blank t ≡ false))
    × (AfterBlanks (bytes l.slices) (t ++ bytes next.slices)
        × ((next.err ≡ none) × (next.bound ≡ l.bound)))

after_line-Promised :
    (l : LineReader) (o : Option (Line × List Slice))
    → l.err ≡ none
    → Returns (IsLine l.bound (bytes l.slices)) o
    → Promised l (after_line l o)
unfolding read_line
after_line-Promised l none e h = absurd h
after_line-Promised l (some (stopped x, rest)) e h = (refl, refl)
after_line-Promised l (some (got t, rest)) e h = (h.0, (h.1, (e, refl)))

-- A read of the line reader always ends. A line that it returns is not blank and not longer than the
-- bound, and in the stream only blanks stand before it and all that is still to come stands after it;
-- and after an error every further read gives that error again.
pub read_line-Promised : (l : LineReader) → l.err ≡ none → Promised l (read_line l)
unfolding read_line
read_line-Promised l e =
    subst (λ o. Promised l (read_by_error o l)) (sym e)
      (after_line-Promised l (read_from (suc (length l.slices)) l.bound l.slices) e
        (read_from-IsLine (suc (length l.slices)) l.bound l.slices (omega arith)))
