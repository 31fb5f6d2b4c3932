-- ===== src/Routing/Returns.antt =====
-- The sessions that a return to the active pool and a failover move (internal/pool/manager.go and
-- probe.go).
use simple_mining_proxy.Base.{
  ℕ, ◌+◌, ◌≤◌, ◌<◌, ◌≡◌, refl, subst, ◌∙◌, Bool, true, false, ◌&&◌, ◌||◌, not, Option, none, some,
  List, [], ◌∷◌, ◌++◌, Text, length, All, mem, filter, filter-All, same, text_eq, arith, lookup,
}
use simple_mining_proxy.State.{Address, Pool, find_pool}
use simple_mining_proxy.Health.{Time, up, Health, addr_key}
use simple_mining_proxy.Health.Updates.{is_down}
use simple_mining_proxy.Health.Refresh.{status_of}
use simple_mining_proxy.Routing.{
  Snapshot, known_health, pool_is_down, candidates_of, candidates, effective, Placed, Moved,
  check_failback, failed_addresses, failed_keys, session_key, check_failover,
}
use simple_mining_proxy.Routing.Pick.{find_pool_id}
use simple_mining_proxy.Routing.Modes.{effective_head}

-- What holds when a return to the active pool moves sessions.
pub record IsReturn (delay : ℕ) (now last : Time) (h : Health) (s : Snapshot) (m : Moved)
    : Type 0 where
  pub is_up_now : (known_health (lookup s.active h.pools)).0 ≡ up
  pub is_dated : 0 < (known_health (lookup s.active h.pools)).1
  pub is_steady : (known_health (lookup s.active h.pools)).1 + delay ≤ now
  pub is_spaced : last + delay ≤ now
  pub not_down : pool_is_down h s.active ≡ false
  pub is_named : same s.active [] ≡ false
  pub dated : m.last_failback ≡ now
  pub some_moved : 0 < length m.drained
  pub all_away : All (λ x. not (same x.pool s.active) ≡ true) m.drained

abbrev pub IsMove :
    (delay : ℕ) (now last : Time) (h : Health) (s : Snapshot) → Option Moved → Type 0
IsMove delay now last h s none = Unit
IsMove delay now last h s (some m) = IsReturn delay now last h s m

failback-IsMove :
    (delay : ℕ) (draining : Bool) (now last : Time) (h : Health) (s : Snapshot)
    (sessions : List Placed)
    → IsMove delay now last h s (check_failback delay draining now last h s sessions)
unfolding check_failback pool_is_down
failback-IsMove delay draining now last h s sessions =
    ground (arith, filter-All (λ (x : Placed). not (same x.pool s.active)) sessions)

effective_active :
    (h : Health) (s : Snapshot) (p : Pool)
    → find_pool s.pools s.active ≡ some p
    → same s.active [] ≡ false
    → pool_is_down h s.active ≡ false
    → effective h s ≡ s.active
unfolding candidates candidates_of
effective_active h s p f n d = effective_head h s ∙ rw (f, n, d) (find_pool_id s.pools s.active p f)

-- A return moves only sessions that are not on the active pool, and at least one, once that pool has
-- been UP for the whole delay and the last return is as old; new sessions then go to the active pool;
-- and until the delay has passed again no other return happens, whatever the pools and sessions do.
pub failback_moves :
    (delay : ℕ) (draining : Bool) (now last : Time) (h : Health) (s : Snapshot)
    (sessions : List Placed) (m : Moved) (p : Pool)
    → find_pool s.pools s.active ≡ some p
    → check_failback delay draining now last h s sessions ≡ some m
    → (IsReturn delay now last h s m × (effective h s ≡ s.active))
      × ((later : Time) (d : Bool) (h' : Health) (s' : Snapshot) (others : List Placed)
          → later < now + delay
          → check_failback delay d later m.last_failback h' s' others ≡ none)
unfolding check_failback
failback_moves delay draining now last h s sessions m p f e =
    let move : IsReturn delay now last h s m =
      subst (IsMove delay now last h s) e (failback-IsMove delay draining now last h s sessions) in
    (
      (move, effective_active h s p f move.is_named move.not_down),
      λ later d h' s' others l. ground (arith, move.dated),
    )

-- The address with the key is DOWN.
abbrev pub is_down_key : Health → Text → Bool
is_down_key h k = is_down (status_of (lookup k h.addrs))

-- The keys of the addresses of the pools.
abbrev address_keys : Text → List Address → List Text
address_keys id [] = []
address_keys id (a ∷ as') = addr_key id a ∷ address_keys id as'

abbrev pub pool_keys : List Pool → List Text
pool_keys [] = []
pool_keys (p ∷ ps) = address_keys p.id p.addresses ++ pool_keys ps

mem-append : (k : Text) (xs ys : List Text) → mem k (xs ++ ys) ≡ (mem k xs || mem k ys)
mem-append k [] ys = refl
mem-append k (x ∷ xs) ys = ground (arith, mem-append k xs ys)

mem-failed_addresses :
    (h : Health) (id k : Text) (as' : List Address)
    → mem k (failed_addresses h id as') ≡ (mem k (address_keys id as') && is_down_key h k)
unfolding failed_addresses
mem-failed_addresses h id k [] = refl
mem-failed_addresses h id k (a ∷ as') =
    let rest = mem-failed_addresses h id k as' in
    elim (text_eq (addr_key id a) k) [
      | yes y ↦ ground (arith, y, rest)
      | no n ↦ ground (arith, n, rest)
    ]

mem-failed_keys :
    (h : Health) (k : Text) (ps : List Pool)
    → mem k (failed_keys h ps) ≡ (mem k (pool_keys ps) && is_down_key h k)
unfolding failed_keys
mem-failed_keys h k [] = refl
mem-failed_keys h k (p ∷ ps) = ground (
  arith,
  mem-append k (failed_addresses h p.id p.addresses) (failed_keys h ps),
  mem-append k (address_keys p.id p.addresses) (pool_keys ps),
  mem-failed_addresses h p.id k p.addresses,
  mem-failed_keys h k ps,
)

filter_same {ℓ} :
    {A : Type ℓ} (p q : A → Bool) (xs : List A) → ((x : A) → p x ≡ q x) → filter p xs ≡ filter q xs
filter_same p q [] e = refl
filter_same p q (x ∷ xs) e = rw (e x, filter_same p q xs e) refl

-- While no drain runs, a failover moves exactly the sessions on an address of a pool that is DOWN,
-- also those on a fallback, and no other session.
pub failover_exact :
    (h : Health) (s : Snapshot) (sessions : List Placed)
    → check_failover false h s sessions
      ≡ filter
          (λ x. mem (session_key x) (pool_keys s.pools) && is_down_key h (session_key x))
          sessions
unfolding check_failover
failover_exact h s sessions =
    filter_same (λ x. mem (session_key x) (failed_keys h s.pools))
      (λ x. mem (session_key x) (pool_keys s.pools) && is_down_key h (session_key x)) sessions
      (λ x. mem-failed_keys h (session_key x) s.pools)
