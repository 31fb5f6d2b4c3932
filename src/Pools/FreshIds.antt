-- ===== src/Pools/FreshIds.antt =====
-- The candidates among which `makeID` looks for an id (internal/pool/manager.go).
use mathlib.Core.List.{append_cancel_left}
use simple_mining_proxy.Base.{
  ℕ, zero, suc, ◌+◌, ◌-◌, ◌*◌, ◌/◌, ◌%◌, ◌≤◌, ◌<◌, ◌≡◌, refl, ap, ◌∙◌, true, false, Bool-cases, inl,
  inr, List, [], ◌∷◌, Text, length, length-append, mem, Distinct, All, without, mem-without,
  text_eq, arith, ltb,
}
use simple_mining_proxy.State.{Pool, File, itoa, digits_from, ids}
use simple_mining_proxy.Pools.Edit.{has_pool}
use simple_mining_proxy.Pools.Ids.{candidate, free_id, id_base, make_id}
use simple_mining_proxy.Pools.Switching.{find_pool-mem}

-- Reading a decimal numeral, after `v`.
value : ℕ → Text → ℕ
value v [] = v
value v (c ∷ s) = value (v * 10 + (c - 48)) s

value-digits_from :
    (fuel n : ℕ) (acc : Text) → n < fuel → value 0 (digits_from fuel n acc) ≡ value n acc
unfolding value digits_from
value-digits_from zero n acc h = elim h [ ]
value-digits_from (suc fuel) n acc h = elim (Bool-cases (ltb n 10)) [
  | inl e ↦ rw e (ap (λ v. value v acc) (omega arith))
  | inr e ↦ rw e (
      value-digits_from fuel (n / 10) ((48 + n % 10) ∷ acc) (ground arith)
      ∙ ap (λ v. value v acc) (omega arith))
]

value-itoa : (n : ℕ) → value 0 (itoa n) ≡ n
unfolding itoa value
value-itoa n = value-digits_from (suc n) n [] (omega arith)

candidate_injective : (base : Text) (i j : ℕ) → candidate base i ≡ candidate base j → i ≡ j
unfolding candidate
candidate_injective base zero zero h = refl
candidate_injective base zero (suc j) h =
    absurd (omega (arith, ap length h, length-append base (b'_' ∷ itoa (j + 2))))
candidate_injective base (suc i) zero h =
    absurd (omega (arith, ap length h, length-append base (b'_' ∷ itoa (i + 2))))
candidate_injective base (suc i) (suc j) h =
    let numerals : itoa (i + 2) ≡ itoa (j + 2) = cc (append_cancel_left base _ _ h) in
    omega (arith, value-itoa (i + 2), value-itoa (j + 2), ap (value 0) numerals)

-- `n` candidates from the `k`-th on.
candidates : Text → ℕ → ℕ → List Text
candidates base k zero = []
candidates base k (suc n) = candidate base k ∷ candidates base (suc k) n

candidate_fresh :
    (base : Text) (i k n : ℕ) → i < k → mem (candidate base i) (candidates base k n) ≡ false
unfolding candidates
candidate_fresh base i k zero h = refl
candidate_fresh base i k (suc n) h = elim (text_eq (candidate base k) (candidate base i)) [
  | yes e ↦ absurd (omega (arith, candidate_injective base k i e))
  | no d ↦ ground (arith, candidate_fresh base i (suc k) n (omega arith))
]

candidates-Distinct : (base : Text) (k n : ℕ) → Distinct (candidates base k n)
unfolding candidates
candidates-Distinct base k zero = tt
candidates-Distinct base k (suc n) =
    (candidate_fresh base k (suc k) n (omega arith), candidates-Distinct base (suc k) n)

length-candidates : (base : Text) (k n : ℕ) → length (candidates base k n) ≡ n
unfolding candidates
length-candidates base k zero = refl
length-candidates base k (suc n) = ap suc (length-candidates base (suc k) n)

length-without-le : (a : Text) (ys : List Text) → length (without ys a) ≤ length ys
unfolding without
length-without-le a [] = omega arith
length-without-le a (y ∷ ys) = ground (arith, length-without-le a ys)

length-without_lt :
    (a : Text) (ys : List Text) → mem a ys ≡ true → length (without ys a) < length ys
unfolding without
length-without_lt a [] h = cc
length-without_lt a (y ∷ ys) h = ground (arith, length-without_lt a ys, length-without-le a ys)

All-mem-without :
    (a : Text) (xs ys : List Text)
    → mem a xs ≡ false
    → All (λ x. mem x ys ≡ true) xs
    → All (λ x. mem x (without ys a) ≡ true) xs
All-mem-without a [] ys m h = tt
All-mem-without a (x ∷ xs) ys m h = ground (arith, mem-without a x ys, All-mem-without a xs ys)

-- The pigeonhole principle.
length_le_of_All-mem :
    (xs ys : List Text) → Distinct xs → All (λ x. mem x ys ≡ true) xs → length xs ≤ length ys
length_le_of_All-mem [] ys d h = omega arith
length_le_of_All-mem (x ∷ xs) ys d h = omega (
  arith,
  length-without_lt x ys h.0,
  length_le_of_All-mem xs (without ys x) d.1 (All-mem-without x xs ys d.0 h.1),
)

-- If the loop ends at a taken id, it has met taken ids only.
free_id_taken :
    (f : File) (base : Text) (fuel k : ℕ)
    → has_pool f (free_id f base fuel k) ≡ true
    → All (λ x. mem x (ids f.pools) ≡ true) (candidates base k (suc fuel))
unfolding free_id candidates
free_id_taken f base zero k h = ground (arith, find_pool-mem f.pools (candidate base k))
free_id_taken f base (suc fuel) k h = elim (Bool-cases (has_pool f (candidate base k))) [
  | inl e ↦ (
    ground (arith, find_pool-mem f.pools (candidate base k)),
    free_id_taken f base fuel (suc k) (ground arith),
  )
  | inr e ↦ absurd (ground arith)
]

length-ids : (ps : List Pool) → length (ids ps) ≡ length ps
length-ids [] = refl
length-ids (p ∷ ps) = ap suc (length-ids ps)

-- The id made for a new pool is not the id of another one: the search ends, within as many rounds
-- as there are pools.
pub make_id_fresh : (name : Text) (f : File) → has_pool f (make_id name f) ≡ false
unfolding make_id
make_id_fresh name f = elim (Bool-cases (has_pool f (make_id name f))) [
  | inr e ↦ e
  | inl e ↦ absurd (
      omega (
        arith,
        length-ids f.pools,
        length-candidates (id_base name) 0 (suc (length f.pools)),
        length_le_of_All-mem _ (ids f.pools)
            (candidates-Distinct (id_base name) 0 (suc (length f.pools)))
            (free_id_taken f (id_base name) (length f.pools) 0 e),
      ))
]
