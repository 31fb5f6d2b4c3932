-- ===== src/Health/Ordered.antt =====
-- The order in which a session dials, against its comparison (internal/pool/health.go).
use simple_mining_proxy.Base.{
  ℕ, suc, ◌≡◌, refl, Bool, true, false, List, [], ◌∷◌, All, All-map, if◌then◌else◌, arith,
}
use simple_mining_proxy.Health.DialOrder.{
  Candidate, dials_before, insert_candidate, sort_candidates,
}

-- Each candidate is dialled before all that follow, or the two compare alike.
abbrev pub Ranked : List Candidate → Type 0
Ranked [] = Unit
Ranked (x ∷ xs) = All (λ y. dials_before y x ≡ false) xs × Ranked xs

-- How many of the candidates pass a test.
abbrev pub count : (Candidate → Bool) → List Candidate → ℕ
count p [] = 0
count p (x ∷ xs) = if p x then suc (count p xs) else count p xs

insert_candidate-All :
    (P : Candidate → Type 0) (x : Candidate) (ys : List Candidate)
    → P x
    → All P ys
    → All P (insert_candidate x ys)
unfolding insert_candidate
insert_candidate-All P x [] h k = (h, tt)
insert_candidate-All P x (y ∷ ys) h k = ground (arith, insert_candidate-All P x ys h k.1)

dials_before_trans :
    (x y z : Candidate)
    → dials_before y x ≡ false
    → dials_before z y ≡ false
    → dials_before z x ≡ false
unfolding dials_before
dials_before_trans x y z h k = ground arith

dials_before-total : (x y : Candidate) → dials_before y x ≡ true → dials_before x y ≡ false
unfolding dials_before
dials_before-total x y h = ground arith

insert_candidate-Ranked :
    (x : Candidate) (ys : List Candidate) → Ranked ys → Ranked (insert_candidate x ys)
unfolding insert_candidate
insert_candidate-Ranked x [] r = (tt, tt)
insert_candidate-Ranked x (y ∷ ys) r =
    let later = All-map (λ z. dials_before z y ≡ false) (λ z. dials_before z x ≡ false) ys in
    let inserted = insert_candidate-All (λ z. dials_before z y ≡ false) x ys in
    ground (
      arith,
      later,
      inserted,
      dials_before-total x y,
      dials_before_trans x y,
      insert_candidate-Ranked x ys r.1,
    )

sort_candidates-Ranked : (xs : List Candidate) → Ranked (sort_candidates xs)
unfolding sort_candidates
sort_candidates-Ranked [] = tt
sort_candidates-Ranked (x ∷ xs) =
    insert_candidate-Ranked x (sort_candidates xs) (sort_candidates-Ranked xs)

count-insert_candidate :
    (p : Candidate → Bool) (x : Candidate) (ys : List Candidate)
    → count p (insert_candidate x ys) ≡ count p (x ∷ ys)
unfolding insert_candidate
count-insert_candidate p x [] = refl
count-insert_candidate p x (y ∷ ys) = ground (arith, count-insert_candidate p x ys)

count-sort_candidates :
    (p : Candidate → Bool) (xs : List Candidate) → count p (sort_candidates xs) ≡ count p xs
unfolding sort_candidates
count-sort_candidates p [] = refl
count-sort_candidates p (x ∷ xs) =
    ground (arith, count-insert_candidate p x (sort_candidates xs), count-sort_candidates p xs)

-- No candidate of the dial order is to be dialled before one that stands ahead of it, and the order
-- holds each candidate as often as the list that it sorts.
pub sort_candidates_order :
    (xs : List Candidate)
    → Ranked (sort_candidates xs)
      × ((p : Candidate → Bool) → count p (sort_candidates xs) ≡ count p xs)
sort_candidates_order xs = (sort_candidates-Ranked xs, λ p. count-sort_candidates p xs)
