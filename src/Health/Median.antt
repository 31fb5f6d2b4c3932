-- ===== src/Health/Median.antt =====
-- The latency of an address among its samples (internal/pool/health.go).
use simple_mining_proxy.Base.{
  ℕ, zero, suc, ◌+◌, ◌-◌, ◌/◌, ◌≤◌, ◌<◌, ◌≡◌, refl, List, [], ◌∷◌, length, length-append, drop,
  arith, ltb, if◌then◌else◌,
}
use simple_mining_proxy.Health.Updates.{insert_sorted, sort, nth, median, window, add_sample}
use simple_mining_proxy.Health.{AddrHealth}

-- How many samples lie below, and how many above a bound.
abbrev pub below : ℕ → List ℕ → ℕ
below b [] = 0
below b (x ∷ xs) = if ltb x b then suc (below b xs) else below b xs

abbrev pub above : ℕ → List ℕ → ℕ
above b [] = 0
above b (x ∷ xs) = if ltb b x then suc (above b xs) else above b xs

abbrev Sorted : List ℕ → Type 0
Sorted [] = Unit
Sorted (x ∷ []) = Unit
Sorted (x ∷ (y ∷ ys)) = (x ≤ y) × Sorted (y ∷ ys)

insert_sorted-Sorted : (x : ℕ) (ys : List ℕ) → Sorted ys → Sorted (insert_sorted x ys)
unfolding insert_sorted
insert_sorted-Sorted x [] s = tt
insert_sorted-Sorted x (y ∷ []) s = ground arith
insert_sorted-Sorted x (y ∷ (z ∷ zs)) s = ground (arith, insert_sorted-Sorted x (z ∷ zs) s.1)

sort-Sorted : (xs : List ℕ) → Sorted (sort xs)
unfolding sort
sort-Sorted [] = tt
sort-Sorted (x ∷ xs) = insert_sorted-Sorted x (sort xs) (sort-Sorted xs)

below-insert : (b x : ℕ) (ys : List ℕ) → below b (insert_sorted x ys) ≡ below b (x ∷ ys)
unfolding insert_sorted
below-insert b x [] = refl
below-insert b x (y ∷ ys) = ground (arith, below-insert b x ys)

above-insert : (b x : ℕ) (ys : List ℕ) → above b (insert_sorted x ys) ≡ above b (x ∷ ys)
unfolding insert_sorted
above-insert b x [] = refl
above-insert b x (y ∷ ys) = ground (arith, above-insert b x ys)

length-insert : (x : ℕ) (ys : List ℕ) → length (insert_sorted x ys) ≡ suc (length ys)
unfolding insert_sorted
length-insert x [] = refl
length-insert x (y ∷ ys) = ground (arith, length-insert x ys)

below-sort : (b : ℕ) (xs : List ℕ) → below b (sort xs) ≡ below b xs
unfolding sort
below-sort b [] = refl
below-sort b (x ∷ xs) = ground (arith, below-insert b x (sort xs), below-sort b xs)

above-sort : (b : ℕ) (xs : List ℕ) → above b (sort xs) ≡ above b xs
unfolding sort
above-sort b [] = refl
above-sort b (x ∷ xs) = ground (arith, above-insert b x (sort xs), above-sort b xs)

length-sort : (xs : List ℕ) → length (sort xs) ≡ length xs
unfolding sort
length-sort [] = refl
length-sort (x ∷ xs) = ground (arith, length-insert x (sort xs), length-sort xs)

head_le_nth : (y i : ℕ) (ys : List ℕ) → Sorted (y ∷ ys) → i < length (y ∷ ys) → y ≤ nth (y ∷ ys) i
head_le_nth y zero ys v l = omega arith
head_le_nth y (suc i) [] v l = absurd (omega arith)
head_le_nth y (suc i) (z ∷ zs) v l = ground (arith, head_le_nth z i zs v.1)

-- In a sorted list everything up to a low element is low, and everything from a high one on high.
nth_low : (b i : ℕ) (s : List ℕ) → Sorted s → i < length s → nth s i < b → i < below b s
nth_low b i [] v l h = absurd (omega arith)
nth_low b i (x ∷ []) v l h = ground arith
nth_low b zero (x ∷ (y ∷ ys)) v l h = ground arith
nth_low b (suc i) (x ∷ (y ∷ ys)) v l h =
    ground (arith, nth_low b i (y ∷ ys) v.1, head_le_nth y i ys v.1)

nth_high : (b i : ℕ) (s : List ℕ) → Sorted s → i < length s → b < nth s i → length s ≤ i + above b s
nth_high b i [] v l h = absurd (omega arith)
nth_high b i (x ∷ []) v l h = ground arith
nth_high b zero (x ∷ (y ∷ ys)) v l h = ground (arith, nth_high b zero (y ∷ ys) v.1)
nth_high b (suc i) (x ∷ (y ∷ ys)) v l h = ground (arith, nth_high b i (y ∷ ys) v.1)

median_low : (b : ℕ) (s : List ℕ) → 0 < length s → below b s ≤ (length s - 1) / 2 → b ≤ median s
median_low b s n h =
    let i = (length s - 1) / 2 in
    ground (arith, below-sort b s, length-sort s, nth_low b i (sort s) (sort-Sorted s))

median_high : (b : ℕ) (s : List ℕ) → 0 < length s → above b s ≤ length s / 2 → median s ≤ b
median_high b s n h =
    let i = (length s - 1) / 2 in
    ground (arith, above-sort b s, length-sort s, nth_high b i (sort s) (sort-Sorted s))

length-window_pos : (samples : List ℕ) (rtt : ℕ) → 0 < length (window samples rtt)
length-window_pos samples rtt =
    ground (arith, length-append samples (rtt ∷ []), length-append (drop 1 samples) (rtt ∷ []))

-- The latency after a sample is the lower median of the window: it lies in any range that no more
-- than (n - 1) / 2 of the n samples fall short of, and no more than n / 2 exceed.
pub add_sample_median :
    (rtt lo hi : ℕ) (h : AddrHealth)
    → let samples = (add_sample rtt h).samples in
      below lo samples ≤ (length samples - 1) / 2
      → above hi samples ≤ length samples / 2
      → (lo ≤ (add_sample rtt h).rtt) × ((add_sample rtt h).rtt ≤ hi)
unfolding add_sample
add_sample_median rtt lo hi h b a =
    let s = window h.samples rtt in
    let n = length-window_pos h.samples rtt in (median_low lo s n b, median_high hi s n a)
