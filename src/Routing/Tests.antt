-- ===== src/Routing/Tests.antt =====
-- Runs of the routing of internal/pool/manager.go and probe.go on concrete pools.
use simple_mining_proxy.Base.{
  ◌<◌, ◌≡◌, refl, Bool, true, false, ◌&&◌, none, List, [], ◌∷◌, txt, text_eq, to_lower, lower_byte,
  mem, filter, lookup, arith,
}
use simple_mining_proxy.State.{Address, Pool, addr_string, digits_from, find_pool}
use simple_mining_proxy.State.Tests.{pool_a, pool_b}
use simple_mining_proxy.Health.{Time, Status, up, down, PoolHealth, Health, addr_key}
use simple_mining_proxy.Health.DialOrder.{
  ordered_addresses, dial_candidates, sort_candidates, insert_candidate, preferred_key,
}
use simple_mining_proxy.Routing.{
  Snapshot, Dialed, connected, pick, pool_is_down, effective, mode, Placed, Moved, check_failback,
  check_failover, failed_keys, failed_addresses, session_key,
}
use simple_mining_proxy.Routing.Pick.{pick_active}
use simple_mining_proxy.Routing.Modes.{Serves, mode-Serves}
use simple_mining_proxy.Routing.Returns.{
  IsReturn, failback_moves, is_down_key, pool_keys, failover_exact,
}

abbrev snapshot : Snapshot
snapshot = record { active = txt "a"; fallback = txt "b" ∷ []; pools = pool_a ∷ pool_b ∷ [] }

abbrev entry_of : Status → Time → PoolHealth
entry_of s t = record { status = s; up_since = t; preferred = [] }

abbrev recovered : Health
recovered = record { addrs = []; pools = (txt "a", entry_of up 100) ∷ []; versions = [] }

abbrev failed : Health
failed = record {
  addrs =
      (
        txt "a|a.example:3333",
        record {
          status = down;
          probe_fails = 2;
          probe_oks = 0;
          dial_fails = 0;
          last_check = 90;
          last_error = txt "refused";
          up_since = 0;
          samples = [];
          rtt = 0;
        },
      )
      ∷ [];
  pools = (txt "a", entry_of down 0) ∷ [];
  versions = [];
}

abbrev answers : Pool → Address → Dialed
answers p a = record {
  in_time = true;
  in_time_after = true;
  still_has = true;
  at = 500;
  error = none;
}

pick_active_example :
    (pick answers recovered snapshot).1
    ≡ connected (record { pool = pool_a; address = record { host = txt "a.example"; port = 3333 } })
unfolding pool_is_down lookup text_eq find_pool ordered_addresses dial_candidates sort_candidates
    insert_candidate addr_key addr_string digits_from to_lower lower_byte preferred_key
pick_active_example =
    pick_active answers recovered snapshot pool_a (record { host = txt "a.example"; port = 3333 })
      (ground arith) refl refl (λ b. refl) refl

mode-Serves_example : Serves failed snapshot (mode false failed snapshot)
unfolding find_pool text_eq
mode-Serves_example = mode-Serves failed snapshot ((refl, refl), ((refl, refl), tt))

abbrev sessions : List Placed
sessions =
    record { pool = txt "a"; address = txt "A.example:3333" }
    ∷ record { pool = txt "b"; address = txt "b.example:3333" }
    ∷ []

abbrev returned : Moved
returned = record {
  last_failback = 900;
  drained = record { pool = txt "b"; address = txt "b.example:3333" } ∷ [];
}

failback_moves_example :
    (IsReturn 60 900 0 recovered snapshot returned × (effective recovered snapshot ≡ txt "a"))
    × ((later : Time) (d : Bool) (h' : Health) (s' : Snapshot) (others : List Placed)
        → later < 960
        → check_failback 60 d later 900 h' s' others ≡ none)
unfolding check_failback lookup text_eq find_pool
failback_moves_example =
    failback_moves 60 false 900 0 recovered snapshot sessions returned pool_a refl refl

failover_exact_example :
    check_failover false failed snapshot sessions
    ≡ filter
        (λ x. mem (session_key x) (pool_keys snapshot.pools) && is_down_key failed (session_key x))
        sessions
failover_exact_example = failover_exact failed snapshot sessions

failover_moves_first :
    check_failover false failed snapshot sessions
    ≡ record { pool = txt "a"; address = txt "A.example:3333" } ∷ []
unfolding check_failover failed_keys failed_addresses lookup text_eq addr_key addr_string
    digits_from to_lower lower_byte
failover_moves_first = refl
