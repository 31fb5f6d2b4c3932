-- ===== src/Monitor/Names.antt =====
-- internal/monitor/monitor.go: `NameLess`, the order of names as people number ASICs.
use simple_mining_proxy.Base.{
  ℕ, zero, suc, ◌+◌, ◌≡◌, refl, sym, Bool, true, false, ◌&&◌, not, [], ◌∷◌, Text, length, take,
  drop, same, text_eq, arith, ltb, leb, ◌==◌, if◌then◌else◌,
}

-- Go's `<` on strings.
unfoldable pub text_less : Text → Text → Bool
text_less a [] = false
text_less [] (y ∷ b) = true
text_less (x ∷ a) (y ∷ b) = if x == y then text_less a b else ltb x y

abbrev pub is_digit : ℕ → Bool
is_digit c = leb 48 c && leb c 57

-- `digits`
unfoldable pub digits : Text → ℕ
digits [] = 0
digits (c ∷ t) = if is_digit c then suc (digits t) else 0

-- `strings.TrimLeft(s, "0")`
unfoldable pub trim_zeros : Text → Text
trim_zeros [] = []
trim_zeros (c ∷ t) = if c == 48 then trim_zeros t else c ∷ t

-- Two runs of digits as numbers: whether they differ, and whether the first is less.
unfoldable pub number_differs : Text → Text → Bool
unfolding trim_zeros
number_differs a b = not (same (trim_zeros a) (trim_zeros b))

unfoldable pub number_less : Text → Text → Bool
unfolding trim_zeros text_less
number_less a b =
    let na = trim_zeros a in
    let nb = trim_zeros b in
    if not (length na == length nb) then ltb (length na) (length nb) else text_less na nb

-- The loop, for at most so many rounds.
unfoldable pub name_less_from : ℕ → Text → Text → Bool
unfolding digits number_less number_differs
name_less_from zero a b = false
name_less_from (suc n) [] b = ltb 0 (length b)
name_less_from (suc n) (x ∷ a) [] = false
name_less_from (suc n) (x ∷ a) (y ∷ b) =
    let da = digits (x ∷ a) in
    let db = digits (y ∷ b) in
    let na = take da (x ∷ a) in
    let nb = take db (y ∷ b) in
    let after_numbers = name_less_from n (drop da (x ∷ a)) (drop db (y ∷ b)) in
    let after_bytes = name_less_from n a b in
    if ltb 0 da && ltb 0 db
    then (if number_differs na nb then number_less na nb else after_numbers)
    else if not (x == y)
    then ltb x y
    else after_bytes

-- `NameLess`; every round shortens both names.
unfoldable pub name_less : Text → Text → Bool
unfolding name_less_from
name_less a b = name_less_from (suc (length a + length b)) a b

text_less_asym : (a b : Text) → text_less a b ≡ true → text_less b a ≡ false
unfolding text_less
text_less_asym a [] h = ground arith
text_less_asym [] (y ∷ b) h = refl
text_less_asym (x ∷ a) (y ∷ b) h = ground (arith, text_less_asym a b)

number_less_asym : (a b : Text) → number_less a b ≡ true → number_less b a ≡ false
unfolding number_less
number_less_asym a b h = ground (arith, text_less_asym (trim_zeros a) (trim_zeros b))

same_sym : (a b : Text) → same a b ≡ same b a
same_sym a b = elim (text_eq a b) [
  | yes y ↦ ground (arith, y)
  | no n ↦ ground (arith, n, λ (e : b ≡ a). n (sym e))
]

number_differs_sym : (a b : Text) → number_differs a b ≡ number_differs b a
unfolding number_differs
number_differs_sym a b = rw (same_sym (trim_zeros a) (trim_zeros b)) refl

-- No two names stand before each other: the order by which the lists are sorted never contradicts
-- itself, for names with numbers, with leading zeros and without numbers; and no name stands before
-- itself.
pub name_less_from_asym :
    (n : ℕ) (a b : Text) → name_less_from n a b ≡ true → name_less_from n b a ≡ false
unfolding name_less_from
name_less_from_asym zero a b h = ground arith
name_less_from_asym (suc n) [] [] h = ground arith
name_less_from_asym (suc n) [] (y ∷ b) h = refl
name_less_from_asym (suc n) (x ∷ a) [] h = ground arith
name_less_from_asym (suc n) (x ∷ a) (y ∷ b) h =
    let da = digits (x ∷ a) in
    let db = digits (y ∷ b) in
    let na = take da (x ∷ a) in
    let nb = take db (y ∷ b) in
    ground (
      arith,
      number_differs_sym na nb,
      number_less_asym na nb,
      name_less_from_asym n (drop da (x ∷ a)) (drop db (y ∷ b)),
      name_less_from_asym n a b,
    )
