-- ===== src/Health/Choice.antt =====
-- How the preferred address of a pool compares with the others (internal/pool/health.go).
use simple_mining_proxy.Base.{
  ℕ, ◌+◌, ◌*◌, ◌≤◌, ◌<◌, ◌≡◌, refl, ◌≢◌, ◌⊎◌, inl, inr, Bool, true, false, ◌&&◌, not, Bool-cases,
  List, [], ◌∷◌, Text, All, All-map, if◌then◌else◌, same, lookup, arith,
}
use simple_mining_proxy.State.{Address, Pool}
use simple_mining_proxy.Health.{Health, addr_key, switch_min_gain}
use simple_mining_proxy.Health.Updates.{is_down}
use simple_mining_proxy.Health.Refresh.{
  entry, status_of, rtt_of, Choice, consider, choose_loop, no_choice, clearly_faster, decide_choice,
  choose,
}

-- An address that is not DOWN, and the latency behind a key.
abbrev pub is_usable : Health → Text → Address → Bool
is_usable h id a = not (is_down (status_of (entry h id a)))

abbrev pub key_rtt : Health → Text → ℕ
key_rtt h k = rtt_of (lookup k h.addrs)

-- `k` is the key of a usable address in the list.
abbrev pub usable_key : Health → Text → Text → List Address → Bool
usable_key h id k [] = false
usable_key h id k (a ∷ as') =
    if is_usable h id a && same (addr_key id a) k then true else usable_key h id k as'

key_nonempty : (id : Text) (a : Address) → addr_key id a ≢ []
unfolding addr_key
key_nonempty [] a e = ground arith
key_nonempty (c ∷ id) a e = ground arith

module _ (h : Health) (id current : Text) where
  -- What the loop knows, where `U` holds of the usable keys.
  record Knows (U : Text → Bool) (c : Choice) : Type 0 where
    best_usable : c.best_key ≢ [] → U c.best_key ≡ true
    best_measured : c.best_key ≢ [] → (c.best_rtt ≡ key_rtt h c.best_key) × (0 < c.best_rtt)
    first_usable_ok : c.first_usable ≢ [] → U c.first_usable ≡ true
    cur_usable : c.cur_ok ≡ true → (U current ≡ true) × (c.cur_rtt ≡ key_rtt h current)

  consider-Knows :
      (U : Text → Bool) (k : Text) (c : Choice)
      → U k ≡ true
      → k ≢ []
      → Knows U c
      → Knows U (consider current k (key_rtt h k) c)
  consider-Knows U k c u n v = record {
    best_usable = λ e. ground (arith, v.best_usable);
    best_measured = λ e. ground (arith, v.best_measured);
    first_usable_ok = λ e. ground (arith, v.first_usable_ok);
    cur_usable = λ e. ground (arith, v.cur_usable);
  }

  choose_loop-Knows :
      (U : Text → Bool) (as' : List Address) (c : Choice)
      → All (λ a. is_usable h id a ≡ true → U (addr_key id a) ≡ true) as'
      → Knows U c
      → Knows U (choose_loop h id current c as')
  unfolding choose_loop
  choose_loop-Knows U [] c a v = v
  choose_loop-Knows U (x ∷ as') c a v = elim (Bool-cases (is_down (status_of (entry h id x)))) [
    | inl d ↦ rw d (choose_loop-Knows U as' c a.1 v)
    | inr d ↦ rw d (
        choose_loop-Knows U as' (consider current (addr_key id x) (rtt_of (entry h id x)) c) a.1
          (consider-Knows U (addr_key id x) c (a.0 (rw d refl)) (key_nonempty id x) v))
  ]

  -- A later round replaces the best address only by a faster one.
  choose_loop-best :
      (as' : List Address) (c : Choice)
      → c.best_key ≢ []
      → ((choose_loop h id current c as').best_key ≢ [])
        × ((choose_loop h id current c as').best_rtt ≤ c.best_rtt)
  unfolding choose_loop
  choose_loop-best [] c n = (n, omega arith)
  choose_loop-best (x ∷ as') c n =
      let next =
        if is_down (status_of (entry h id x))
        then c
        else consider current (addr_key id x) (rtt_of (entry h id x)) c in
      let rest = choose_loop-best as' next (ground (arith, key_nonempty id x)) in
      (rest.0, ground (arith, rest.1))

  choose_loop-least :
      (as' : List Address) (c : Choice)
      → All
          (λ a.
            is_usable h id a ≡ true
            → 0 < rtt_of (entry h id a)
            → ((choose_loop h id current c as').best_key ≢ [])
              × ((choose_loop h id current c as').best_rtt ≤ rtt_of (entry h id a)))
          as'
  unfolding choose_loop
  choose_loop-least [] c = tt
  choose_loop-least (x ∷ as') c =
      let next =
        if is_down (status_of (entry h id x))
        then c
        else consider current (addr_key id x) (rtt_of (entry h id x)) c in
      (
        λ u m.
            let rest = choose_loop-best as' next (ground (arith, key_nonempty id x)) in
            (rest.0, ground (arith, rest.1)),
        choose_loop-least as' next,
      )

  choose_loop-current :
      (as' : List Address) (c : Choice)
      → (c.cur_ok ≡ true) ⊎ (usable_key h id current as' ≡ true)
      → (choose_loop h id current c as').cur_ok ≡ true
  unfolding choose_loop
  choose_loop-current [] c (inl e) = e
  choose_loop-current [] c (inr e) = ground arith
  choose_loop-current (x ∷ as') c k =
      choose_loop-current as'
        (if is_down (status_of (entry h id x))
          then c
          else consider current (addr_key id x) (rtt_of (entry h id x)) c)
        (ground arith)

  usable_key-All :
      (as' : List Address)
      → All (λ a. is_usable h id a ≡ true → usable_key h id (addr_key id a) as' ≡ true) as'
  usable_key-All [] = tt
  usable_key-All (x ∷ as') = (
    λ u. ground arith,
    All-map (λ a. is_usable h id a ≡ true → usable_key h id (addr_key id a) as' ≡ true)
        (λ a. is_usable h id a ≡ true → usable_key h id (addr_key id a) (x ∷ as') ≡ true) as'
        (λ a k u. ground (arith, k u)) (usable_key-All as'),
  )

  choose_loop-first :
      (as' : List Address) (c : Choice) (k : Text)
      → (c.first_usable ≢ []) ⊎ (usable_key h id k as' ≡ true)
      → (choose_loop h id current c as').first_usable ≢ []
  unfolding choose_loop
  choose_loop-first [] c k (inl e) = e
  choose_loop-first [] c k (inr e) = ground arith
  choose_loop-first (x ∷ as') c k f =
      choose_loop-first as'
        (if is_down (status_of (entry h id x))
          then c
          else consider current (addr_key id x) (rtt_of (entry h id x)) c)
        k
        (elim f [
          | inl e ↦ inl (ground (arith, key_nonempty id x))
          | inr e ↦ ground (arith, key_nonempty id x)
        ])

  usable_nonempty : (as' : List Address) (k : Text) → usable_key h id k as' ≡ true → k ≢ []
  usable_nonempty [] k u = ground arith
  usable_nonempty (x ∷ as') k u = ground (arith, key_nonempty id x, usable_nonempty as' k)

known :
    (h : Health) (p : Pool) (current : Text)
    → Knows h p.id current
        (λ k. usable_key h p.id k p.addresses)
        (choose_loop h p.id current no_choice p.addresses)
known h p current =
    choose_loop-Knows h p.id current (λ k. usable_key h p.id k p.addresses) p.addresses no_choice
      (usable_key-All h p.id current p.addresses)
      (record {
        best_usable = λ e. ground arith;
        best_measured = λ e. ground arith;
        first_usable_ok = λ e. ground arith;
        cur_usable = λ e. ground arith;
      })

-- The preferred address that is chosen is usable.
pub choose_usable :
    (h : Health) (p : Pool) (current : Text)
    → choose h p current ≢ []
    → usable_key h p.id (choose h p current) p.addresses ≡ true
unfolding choose decide_choice
choose_usable h p current n =
    let v = known h p current in ground (arith, v.best_usable, v.first_usable_ok, v.cur_usable)

-- A pool with a usable address gets a preferred address.
pub choose_some :
    (h : Health) (p : Pool) (current k : Text)
    → usable_key h p.id k p.addresses ≡ true
    → choose h p current ≢ []
unfolding choose decide_choice
choose_some h p current k u =
    let v = known h p current in
    let f = choose_loop-first h p.id current p.addresses no_choice k (inr u) in
    let n = usable_nonempty h p.id current p.addresses current in ground (arith, f, n, v.cur_usable)

-- A usable preferred address that has been measured is left only for a clearly faster one: more
-- than a fifth faster, and by at least five milliseconds.
pub choose_sticky :
    (h : Health) (p : Pool) (current : Text)
    → usable_key h p.id current p.addresses ≡ true
    → 0 < key_rtt h current
    → choose h p current ≢ current
    → (5 * key_rtt h (choose h p current) < 4 * key_rtt h current)
      × (key_rtt h (choose h p current) + switch_min_gain ≤ key_rtt h current)
unfolding choose decide_choice clearly_faster
choose_sticky h p current u m n =
    let v = known h p current in
    let c = choose_loop-current h p.id current p.addresses no_choice (inr u) in
    ground (arith, v.best_measured, v.cur_usable, c)

-- No usable address that has been measured is clearly faster than the preferred one.
pub choose_fastest :
    (h : Health) (p : Pool) (current : Text)
    → All
        (λ a.
          is_usable h p.id a ≡ true
          → 0 < rtt_of (entry h p.id a)
          → clearly_faster (rtt_of (entry h p.id a)) (key_rtt h (choose h p current)) ≡ false)
        p.addresses
unfolding choose decide_choice clearly_faster
choose_fastest h p current =
    let v = known h p current in
    let c = choose_loop h p.id current no_choice p.addresses in
    All-map
      (λ a.
        is_usable h p.id a ≡ true
        → 0 < rtt_of (entry h p.id a)
        → (c.best_key ≢ []) × (c.best_rtt ≤ rtt_of (entry h p.id a)))
      (λ a.
        is_usable h p.id a ≡ true
        → 0 < rtt_of (entry h p.id a)
        → clearly_faster (rtt_of (entry h p.id a)) (key_rtt h (decide_choice current c)) ≡ false)
      p.addresses (λ a l u m. ground (arith, (l u m).0, (l u m).1, v.best_measured, v.cur_usable))
      (choose_loop-least h p.id current p.addresses no_choice)
