-- ===== src/Stats/Window.antt =====
-- The ring of minute buckets against the shares that it was given (internal/stats/stats.go).
use simple_mining_proxy.Base.{
  ℕ, zero, suc, ◌+◌, ◌/◌, ◌%◌, ◌≤◌, ◌<◌, ◌≡◌, refl, ◌∙◌, ◌⊎◌, Bool, List, [], ◌∷◌, length, arith,
  ltb, if◌then◌else◌,
}
use simple_mining_proxy.Stats.{
  Bucket, Rate, bucket_len, n_buckets, blank_buckets, new_rate, add_bucket, add_rate, window_sum,
}

-- The bucket at an index holds a minute of that index, or nothing; none holds a later minute.
abbrev pub Aligned : ℕ → ℕ → List Bucket → Type 0
Aligned latest i [] = Unit
Aligned latest i (b ∷ bs) =
    ((b.stamp ≤ latest) × ((b.stamp % 10 ≡ i) ⊎ (b.sum ≡ 0))) × Aligned latest (suc i) bs

add_bucket-Aligned :
    (diff m i j : ℕ) (bs : List Bucket)
    → m % 10 ≡ i + j
    → Aligned m j bs
    → Aligned m j (add_bucket diff m i bs)
unfolding add_bucket
add_bucket-Aligned diff m i j [] e h = tt
add_bucket-Aligned diff m zero j (b ∷ bs) e h = ground (arith, h.0)
add_bucket-Aligned diff m (suc i) j (b ∷ bs) e h =
    (h.0, add_bucket-Aligned diff m i (suc j) bs (omega arith) h.1)

later-Aligned : (t u j : ℕ) (bs : List Bucket) → t ≤ u → Aligned t j bs → Aligned u j bs
later-Aligned t u j [] l h = tt
later-Aligned t u j (b ∷ bs) l h = ((omega arith, h.0.1), later-Aligned t u (suc j) bs l h.1)

-- Whether a share of the minute `k` counts in the window that ends at the minute `m`.
abbrev pub in_window : ℕ → ℕ → Bool
in_window m k = ltb m (k + n_buckets)

window_sum-add :
    (diff m q i j : ℕ) (bs : List Bucket)
    → m ≤ q
    → i < length bs
    → m % 10 ≡ i + j
    → Aligned m j bs
    → window_sum q (add_bucket diff m i bs) ≡ (if in_window q m then diff else 0) + window_sum q bs
unfolding add_bucket window_sum
window_sum-add diff m q i j [] l n e h = absurd (omega arith)
window_sum-add diff m q zero j (b ∷ bs) l n e h = ground arith
window_sum-add diff m q (suc i) j (b ∷ bs) l n e h =
    ground (arith, window_sum-add diff m q i (suc j) bs l (omega arith) (omega arith) h.1)

length-add_bucket : (diff m i : ℕ) (bs : List Bucket) → length (add_bucket diff m i bs) ≡ length bs
unfolding add_bucket
length-add_bucket diff m i [] = refl
length-add_bucket diff m zero (b ∷ bs) = refl
length-add_bucket diff m (suc i) (b ∷ bs) = ground (arith, length-add_bucket diff m i bs)

-- An accepted share: when, and of which difficulty.
pub record Accepted : Type 0 where
  pub at : ℕ
  pub diff : ℕ

unfoldable pub add_shares : List Accepted → Rate → Rate
add_shares [] r = r
add_shares (a ∷ as') r = add_shares as' (add_rate a.diff a.at r)

-- The shares come in the order of their times, from `t` to `end`.
abbrev pub InTime : ℕ → List Accepted → ℕ → Type 0
InTime t [] end = t ≤ end
InTime t (a ∷ as') end = (t ≤ a.at) × InTime a.at as' end

-- The difficulty of the shares within the last ten minutes of the clock, the current one included.
abbrev pub recent_diff : ℕ → List Accepted → ℕ
recent_diff now [] = 0
recent_diff now (a ∷ as') =
    (if in_window (now / bucket_len) (a.at / bucket_len) then a.diff else 0) + recent_diff now as'

minutes_le : (t u : ℕ) → t ≤ u → t / bucket_len ≤ u / bucket_len
minutes_le t u l = omega arith

latest_minute : (as' : List Accepted) (t end : ℕ) → InTime t as' end → t ≤ end
latest_minute [] t end h = h
latest_minute (a ∷ as') t end h = omega (arith, h.0, latest_minute as' a.at end h.1)

add_shares_window :
    (as' : List Accepted) (t end : ℕ) (r : Rate)
    → InTime t as' end
    → length r.buckets ≡ 10
    → Aligned (t / bucket_len) 0 r.buckets
    → window_sum (end / bucket_len) (add_shares as' r).buckets
      ≡ recent_diff end as' + window_sum (end / bucket_len) r.buckets
unfolding add_shares add_rate
add_shares_window [] t end r o n h = omega arith
add_shares_window (a ∷ as') t end r o n h =
    let m = a.at / bucket_len in
    let i = m % 10 in
    let now = later-Aligned (t / bucket_len) m 0 r.buckets (minutes_le t a.at o.0) h in
    let le = minutes_le a.at end (latest_minute as' a.at end o.1) in
    let one =
      window_sum-add a.diff m (end / bucket_len) i 0 r.buckets le (omega (arith, n)) (omega arith)
        now in
    let rest =
      add_shares_window as' a.at end (add_rate a.diff a.at r) o.1
        (length-add_bucket a.diff m i r.buckets ∙ n)
        (add_bucket-Aligned a.diff m i 0 r.buckets (omega arith) now) in
    omega (arith, one, rest)

-- The ring of ten minute buckets loses and keeps nothing wrongly: after shares in the order of time,
-- the sum of its window is the difficulty of the shares of the last ten minutes of the clock.
pub window_exact :
    (as' : List Accepted) (start end : ℕ)
    → InTime start as' end
    → window_sum (end / bucket_len) (add_shares as' (new_rate start)).buckets ≡ recent_diff end as'
unfolding new_rate window_sum
window_exact as' start end o =
    add_shares_window as' start end (new_rate start) o refl (ground arith)
    ∙ blank_window (end / bucket_len) (recent_diff end as')
  where
    blank_window : (m d : ℕ) → d + window_sum m (blank_buckets n_buckets) ≡ d
    blank_window m d = ground arith
