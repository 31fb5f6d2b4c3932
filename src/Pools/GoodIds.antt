-- ===== src/Pools/GoodIds.antt =====
-- The shape of the ids that `makeID` builds (internal/pool/manager.go).
use mathlib.Core.List.{reverse-cons}
use native.Mathlib.Nat.{pow-suc}
use simple_mining_proxy.Base.{
  ℕ, zero, suc, ◌+◌, ◌/◌, ◌%◌, ◌^◌, ◌≤◌, ◌<◌, ◌≡◌, refl, Bool, true, false, not, [], ◌∷◌, ◌++◌,
  reverse, Text, length, length-append, any, take, length-take-le, ◌==◌, to_lower, arith,
}
use simple_mining_proxy.State.{File, itoa, digits_from}
use simple_mining_proxy.State.Fields.{id_byte, valid_pool_id}
use simple_mining_proxy.Pools.Input.{trim, trim_left}
use simple_mining_proxy.Pools.Ids.{
  add_letter, id_letters, trim_underscores, cut, or_pool, id_base, candidate, free_id, make_id,
}

-- The text has a byte that no id may have.
abbrev dirty : Text → Bool
dirty = any (λ c. not (id_byte c))

dirty-append : (s t : Text) → dirty s ≡ false → dirty t ≡ false → dirty (s ++ t) ≡ false
dirty-append [] t h k = k
dirty-append (c ∷ s) t h k = ground (arith, dirty-append s t)

dirty-reverse : (s : Text) → dirty s ≡ false → dirty (reverse s) ≡ false
dirty-reverse [] h = refl
dirty-reverse (c ∷ s) h =
    rw (reverse-cons c s)
      (dirty-append (reverse s) (c ∷ []) (dirty-reverse s (ground arith)) (ground arith))

length-reverse : (s : Text) → length (reverse s) ≡ length s
length-reverse [] = refl
length-reverse (c ∷ s) =
    rw (reverse-cons c s) (omega (arith, length-append (reverse s) (c ∷ []), length-reverse s))

dirty-trim_left : (p : ℕ → Bool) (s : Text) → dirty s ≡ false → dirty (trim_left p s) ≡ false
unfolding trim_left
dirty-trim_left p [] h = refl
dirty-trim_left p (c ∷ s) h = ground (arith, dirty-trim_left p s)

length-trim_left : (p : ℕ → Bool) (s : Text) → length (trim_left p s) ≤ length s
unfolding trim_left
length-trim_left p [] = omega arith
length-trim_left p (c ∷ s) = ground (arith, length-trim_left p s)

dirty-trim : (p : ℕ → Bool) (s : Text) → dirty s ≡ false → dirty (trim p s) ≡ false
unfolding trim
dirty-trim p s h =
    let front = trim_left p s in
    dirty-reverse (trim_left p (reverse front))
      (dirty-trim_left p (reverse front) (dirty-reverse front (dirty-trim_left p s h)))

length-trim : (p : ℕ → Bool) (s : Text) → length (trim p s) ≤ length s
unfolding trim
length-trim p s = omega (
  arith,
  length-reverse (trim_left p (reverse (trim_left p s))),
  length-trim_left p (reverse (trim_left p s)),
  length-reverse (trim_left p s),
  length-trim_left p s,
)

dirty-take : (n : ℕ) (s : Text) → dirty s ≡ false → dirty (take n s) ≡ false
dirty-take zero s h = refl
dirty-take (suc n) [] h = refl
dirty-take (suc n) (c ∷ s) h = ground (arith, dirty-take n s)

dirty-add_letter : (s : Text) (c : ℕ) → dirty s ≡ false → dirty (add_letter s c) ≡ false
dirty-add_letter [] c h = ground arith
dirty-add_letter (d ∷ s) c h = ground arith

dirty-id_letters : (s name : Text) → dirty s ≡ false → dirty (id_letters s name) ≡ false
unfolding id_letters
dirty-id_letters s [] h = h
dirty-id_letters s (c ∷ rest) h = dirty-id_letters (add_letter s c) rest (dirty-add_letter s c h)

dirty-cut : (s : Text) → dirty s ≡ false → dirty (cut s) ≡ false
dirty-cut s h = ground (arith, dirty-trim (λ c. c == b'_') (take 24 s), dirty-take 24 s)

length-cut : (s : Text) → length (cut s) ≤ 24
length-cut s = ground (arith, length-trim (λ c. c == b'_') (take 24 s), length-take-le 24 s)

or_pool_lem :
    (s : Text)
    → dirty s ≡ false
    → length s ≤ 24
    → (dirty (or_pool s) ≡ false) × (0 < length (or_pool s)) × (length (or_pool s) ≤ 24)
or_pool_lem [] h k = (refl, omega arith, omega arith)
or_pool_lem (c ∷ s) h k = (h, omega arith, k)

id_base_lem :
    (name : Text)
    → (dirty (id_base name) ≡ false) × (0 < length (id_base name)) × (length (id_base name) ≤ 24)
unfolding id_base
id_base_lem name =
    let letters = id_letters [] (to_lower name) in
    let trimmed = trim_underscores (reverse letters) in
    or_pool_lem (cut trimmed)
      (dirty-cut trimmed (
        dirty-trim (λ c. c == b'_') (reverse letters)
          (dirty-reverse letters (dirty-id_letters [] (to_lower name) refl))))
      (length-cut trimmed)

dirty-digits_from :
    (fuel n : ℕ) (acc : Text) → dirty acc ≡ false → dirty (digits_from fuel n acc) ≡ false
unfolding digits_from
dirty-digits_from zero n acc h = h
dirty-digits_from (suc fuel) n acc h =
    ground (arith, dirty-digits_from fuel (n / 10) ((48 + n % 10) ∷ acc))

length-digits_from :
    (k fuel n : ℕ) (acc : Text)
    → n < 10 ^ suc k
    → length (digits_from fuel n acc) ≤ suc k + length acc
unfolding digits_from
length-digits_from k zero n acc h = omega arith
length-digits_from zero (suc fuel) n acc h = ground arith
length-digits_from (suc k) (suc fuel) n acc h =
    ground (arith, pow-suc 10 (suc k), length-digits_from k fuel (n / 10) ((48 + n % 10) ∷ acc))

-- Room for the number in the 32 bytes of an id.
abbrev pub max_numbered : ℕ
max_numbered = 10000000

candidate_lem :
    (name : Text) (k : ℕ) → k + 2 < max_numbered → valid_pool_id (candidate (id_base name) k) ≡ true
unfolding valid_pool_id candidate itoa
candidate_lem name zero h = ground (arith, id_base_lem name)
candidate_lem name (suc k) h = ground (
  arith,
  id_base_lem name,
  length-digits_from 6 (suc (k + 2)) (k + 2) [],
  dirty-digits_from (suc (k + 2)) (k + 2) [],
  dirty-append (id_base name) (b'_' ∷ itoa (k + 2)),
  length-append (id_base name) (b'_' ∷ itoa (k + 2)),
)

free_id_lem :
    (f : File) (name : Text) (fuel k : ℕ)
    → k + fuel + 2 < max_numbered
    → valid_pool_id (free_id f (id_base name) fuel k) ≡ true
unfolding free_id
free_id_lem f name zero k h = candidate_lem name k (omega arith)
free_id_lem f name (suc fuel) k h =
    ground (arith, free_id_lem f name fuel (suc k), candidate_lem name k)

-- Whatever the name, the id made from it passes the validation, while there are fewer than ten
-- million pools.
pub make_id_valid :
    (name : Text) (f : File)
    → length f.pools + 2 < max_numbered
    → valid_pool_id (make_id name f) ≡ true
unfolding make_id
make_id_valid name f h = free_id_lem f name (length f.pools) 0 (omega arith)
