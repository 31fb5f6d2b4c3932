-- ===== src/Routing/Pick.antt =====
-- The upstream of a new session (internal/pool/manager.go).
use simple_mining_proxy.Base.{
  ◌≡◌, ◌≢◌, refl, true, false, ◌||◌, Bool-cases, inl, inr, Option, none, some, List, [], ◌∷◌, Text,
  All, mem, same, text_eq, arith, if◌then◌else◌,
}
use simple_mining_proxy.State.{Address, Pool, find_pool}
use simple_mining_proxy.Health.{Health}
use simple_mining_proxy.Health.DialOrder.{ordered_addresses}
use simple_mining_proxy.Routing.{
  Snapshot, pool_is_down, add_candidate, candidates_of, candidates, Dialed, Upstream, works, Picked,
  connected, out_of_time, exhausted, note_dial, dial_addresses, go_on, dial_pools, pick,
}

pub find_pool_id : (ps : List Pool) (id : Text) (p : Pool) → find_pool ps id ≡ some p → p.id ≡ id
unfolding find_pool
find_pool_id [] id p e = ground arith
find_pool_id (q ∷ ps) id p e = elim (text_eq q.id id) [
  | yes y ↦ ground (arith, y)
  | no n ↦ ground (arith, n, find_pool_id ps id p)
]

-- A pool that a session may be sent to: it has a role, and it is not DOWN.
abbrev pub IsWanted : Health → List Text → Pool → Type 0
IsWanted h ids p = (mem p.id ids ≡ true) × (pool_is_down h p.id ≡ false)

later-IsWanted :
    (h : Health) (id : Text) (ids : List Text) (ps : List Pool)
    → All (IsWanted h ids) ps
    → All (IsWanted h (id ∷ ids)) ps
later-IsWanted h id ids [] w = tt
later-IsWanted h id ids (p ∷ ps) w = (ground arith, later-IsWanted h id ids ps w.1)

candidates_of-IsWanted :
    (h : Health) (s : Snapshot) (ids : List Text) → All (IsWanted h ids) (candidates_of h s ids)
unfolding candidates_of
candidates_of-IsWanted h s [] = tt
candidates_of-IsWanted h s (id ∷ ids) =
    let rest = later-IsWanted h id ids _ (candidates_of-IsWanted h s ids) in
    add (find_pool s.pools id) refl rest
  where
    add :
        (found : Option Pool)
        → find_pool s.pools id ≡ found
        → All (IsWanted h (id ∷ ids)) (candidates_of h s ids)
        → All
            (IsWanted h (id ∷ ids))
            (add_candidate (same id [] || pool_is_down h id) found (candidates_of h s ids))
    add none e rest = rest
    add (some p) e rest =
        let i = find_pool_id s.pools id p e in
        elim (Bool-cases (same id [] || pool_is_down h id)) [
          | inl t ↦ rw t rest
          | inr f ↦ rw f ((ground (arith, i, text_eq id id), rw i (ground arith)), rest)
        ]

-- The first address whose dial works.
abbrev pub first_working : (Pool → Address → Dialed) → Pool → List Address → Option Address
first_working dial p [] = none
first_working dial p (a ∷ as') = if works (dial p a).error then some a else first_working dial p as'

module _ (dial : Pool → Address → Dialed) where
  dial_addresses-first_working :
      (p : Pool) (as' : List Address) (a : Address) (h : Health)
      → ((b : Address) → (dial p b).in_time ≡ true)
      → first_working dial p as' ≡ some a
      → (dial_addresses dial p as' h).1 ≡ connected (record { pool = p; address = a })
  unfolding dial_addresses
  dial_addresses-first_working p [] a h t e = ground arith
  dial_addresses-first_working p (b ∷ as') a h t e =
      let noted = note_dial dial p b (dial p b) h in
      ground (arith, t b, dial_addresses-first_working p as' a noted t)

  go_on-connected :
      (tried rest : Health × Picked) (u : Upstream)
      → tried.1 ≡ connected u
      → (go_on dial tried rest).1 ≡ connected u
  go_on-connected (h, connected v) rest u e = e
  go_on-connected (h, out_of_time) rest u e = ground arith
  go_on-connected (h, exhausted) rest u e = ground arith

  -- A new session goes to the active pool while that is not DOWN and one of its addresses answers:
  -- to the first that answers, in the order in which the addresses of the pool are dialled.
  pub pick_active :
      (h : Health) (s : Snapshot) (p : Pool) (a : Address)
      → s.active ≢ []
      → find_pool s.pools s.active ≡ some p
      → pool_is_down h s.active ≡ false
      → ((b : Address) → (dial p b).in_time ≡ true)
      → first_working dial p (ordered_addresses h p) ≡ some a
      → (pick dial h s).1 ≡ connected (record { pool = p; address = a })
  unfolding pick candidates candidates_of dial_pools
  pick_active h s p a n f d t e =
      let unnamed : same s.active [] ≡ false = ground arith in
      let tried = dial_addresses dial p (ordered_addresses h p) h in
      rw (f, unnamed, d)
        (go_on-connected tried _ (record { pool = p; address = a })
          (dial_addresses-first_working p (ordered_addresses h p) a h t e))

  -- A connection over which a session may run.
  abbrev pub Works : (Pool → Type 0) → Picked → Type 0
  Works P (connected u) =
      P u.pool × (((dial u.pool u.address).in_time ≡ true) × ((dial u.pool u.address).error ≡ none))
  Works P out_of_time = Unit
  Works P exhausted = Unit

  works-none : (e : Option Text) → works e ≡ true → e ≡ none
  works-none none t = refl
  works-none (some e) t = ground arith

  dial_addresses-Works :
      (P : Pool → Type 0) (p : Pool) (as' : List Address) (h : Health)
      → P p
      → Works P (dial_addresses dial p as' h).1
  unfolding dial_addresses
  dial_addresses-Works P p [] h w = tt
  dial_addresses-Works P p (a ∷ as') h w =
      let d = dial p a in
      let later : (k : Health) → Works P (dial_addresses dial p as' k).1 =
        λ k. dial_addresses-Works P p as' k w in
      elim (Bool-cases d.in_time) [
        | inr f ↦ rw f tt
        | inl t ↦ elim (Bool-cases (works d.error)) [
          | inr f ↦ rw (t, f) (later _)
          | inl e ↦ rw (t, e) (w, (t, works-none d.error e))
        ]
      ]

  dial_pools-Works :
      (P : Pool → Type 0) (ps : List Pool) (h : Health)
      → All P ps
      → Works P (dial_pools dial ps h).1
  unfolding dial_pools
  dial_pools-Works P [] h w = tt
  dial_pools-Works P (p ∷ ps) h w =
      let tried = dial_addresses dial p (ordered_addresses h p) h in
      join tried (dial_pools dial ps tried.0)
        (dial_addresses-Works P p (ordered_addresses h p) h w.0) (dial_pools-Works P ps tried.0 w.1)
    where
      join :
          (tried rest : Health × Picked)
          → Works P tried.1
          → Works P rest.1
          → Works P (go_on dial tried rest).1
      join (h, connected u) rest x y = x
      join (h, out_of_time) rest x y = tt
      join (h, exhausted) rest x y = y

  -- A session only gets a connection that works, to a pool that is the active one or a fallback
  -- and was not DOWN.
  pub pick-Works :
      (h : Health) (s : Snapshot) → Works (IsWanted h (s.active ∷ s.fallback)) (pick dial h s).1
  unfolding pick candidates
  pick-Works h s =
      dial_pools-Works (IsWanted h (s.active ∷ s.fallback)) (candidates h s) h
        (candidates_of-IsWanted h s (s.active ∷ s.fallback))
