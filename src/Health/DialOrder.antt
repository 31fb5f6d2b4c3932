-- ===== src/Health/DialOrder.antt =====
-- internal/pool/health.go: `orderedAddresses`, the order in which a new session dials.
use simple_mining_proxy.Base.{
  ℕ, suc, Bool, true, false, not, none, some, List, [], ◌∷◌, map, Text, ltb, ◌==◌, if◌then◌else◌,
  same, lookup,
}
use simple_mining_proxy.State.{Address, Pool}
use simple_mining_proxy.Health.{Health, addr_key}
use simple_mining_proxy.Health.Updates.{is_down}
use simple_mining_proxy.Health.Refresh.{entry, status_of, rtt_of}

pub record Candidate : Type 0 where
  pub address : Address
  pub rtt : ℕ
  pub pref : Bool
  pub order : ℕ

-- The preferred key of the pool, the empty text when there is none.
unfoldable pub preferred_key : Health → Text → Text
preferred_key h id = elim (lookup id h.pools) [ none ↦ [] | some ph ↦ ph.preferred ]

-- The first loop; `i` counts the addresses before.
unfoldable pub dial_candidates : Health → Text → ℕ → List Address → List Candidate
dial_candidates h id i [] = []
dial_candidates h id i (a ∷ as') =
    let rest = dial_candidates h id (suc i) as' in
    if is_down (status_of (entry h id a))
    then rest
    else record {
      address = a;
      rtt = rtt_of (entry h id a);
      pref = same (addr_key id a) (preferred_key h id);
      order = i;
    }
      ∷ rest

abbrev pub differ : Bool → Bool → Bool
differ true true = false
differ false false = false
differ a b = true

-- The comparison of `sort.SliceStable`.
unfoldable pub dials_before : Candidate → Candidate → Bool
dials_before x y =
    if differ x.pref y.pref
    then x.pref
    else if differ (ltb 0 x.rtt) (ltb 0 y.rtt)
    then ltb 0 x.rtt
    else if not (x.rtt == y.rtt)
    then ltb x.rtt y.rtt
    else ltb x.order y.order

-- Stable insertion from the right: `x` stood before all of the list.
unfoldable pub insert_candidate : Candidate → List Candidate → List Candidate
insert_candidate x [] = x ∷ []
insert_candidate x (y ∷ ys) = if dials_before y x then y ∷ insert_candidate x ys else x ∷ (y ∷ ys)

unfoldable pub sort_candidates : List Candidate → List Candidate
sort_candidates [] = []
sort_candidates (x ∷ xs) = insert_candidate x (sort_candidates xs)

unfoldable pub ordered_addresses : Health → Pool → List Address
ordered_addresses h p =
    map (λ c. c.address) (sort_candidates (dial_candidates h p.id 0 p.addresses))
