-- ===== src/Health/Stale.antt =====
-- internal/pool/probe.go: a check that something overtook does not count.
use simple_mining_proxy.Base.{
  ℕ, ◌+◌, ◌≡◌, sym, ap, subst, arith, Bool, true, false, ◌&&◌, ◌||◌, not, Option, none, some, List,
  ◌∷◌, Text, ltb, ◌==◌, if◌then◌else◌, same, mem, lookup, insert, without,
}
use simple_mining_proxy.State.{Address, Pool}
use simple_mining_proxy.Health.{Time, addr_key}
use simple_mining_proxy.Health.Refresh.{entry}
use simple_mining_proxy.Health.Updates.{probe_update}
use simple_mining_proxy.Health.Record.{addr_entry, store_entry, count_of, probe_result}
use simple_mining_proxy.Health.Probes.{
  Prober, recheck_interval, still_has, check_version, Check, start_probe, accepts, record_check,
  ProbeStep, probe_steps,
}
use simple_mining_proxy.Health.Versions.{Grown, touches, version_of, steps-Grown}

some-Check : (x y : Check) → some x ≡ some y → x ≡ y
some-Check x y e = cc

-- A check that was started has the worker and the version of that moment, and leaves the maps.
started :
    (cancelled : Bool) (now : Time) (p : Pool) (a : Address) (s next : Prober) (c : Check)
    → start_probe cancelled now p a s ≡ (next, some c)
    → (c ≡ record { pool = p; address = a; worker = s.setting_worker; version = version_of p.id s })
      × (next.health ≡ s.health)
unfolding start_probe
started cancelled now p a s next c h =
    by_test
      (mem key s.busy
        || (cancelled
            || (ltb now (count_of (lookup key s.last_start) + recheck_interval)
                || not (still_has s.pools p a))))
      h
  where
    key : Text
    key = addr_key p.id a

    begun : Prober
    begun = record s {
      busy = key ∷ s.busy;
      last_start = insert key now s.last_start;
      pending = without s.pending key;
    }

    check : Check
    check = record {
      pool = p;
      address = a;
      worker = s.setting_worker;
      version = check_version p.id s.health;
    }

    by_test :
        (b : Bool)
        → ◌≡◌ {A = Prober × Option Check}
            (if b then (s, none) else (begun, some check))
            (next, some c)
        → (c ≡ check) × (next.health ≡ s.health)
    by_test true e = cc
    by_test false e = (
      sym (some-Check check c (ap (λ (r : Prober × Option Check). r.1) e)),
      ap (λ (r : Prober × Option Check). r.0.health) (sym e),
    )

-- The result of a check counts exactly when nothing has overtaken it: whatever happened since its
-- start, it changes the health of its address as a check does, if it was not cancelled, the pool
-- still has the address with the same login and transport, the test worker is the same, and
-- neither a change of that worker, nor an edit or removal of the pool, nor a stalled session of it
-- came in between; otherwise it changes no health.
pub check_counts :
    (cancelled : Bool) (now : Time) (p : Pool) (a : Address) (s next : Prober) (c : Check)
    → start_probe cancelled now p a s ≡ (next, some c)
    → (ss : List ProbeStep) (stop : Bool) (later : Time) (rtt : ℕ) (result : Option Text)
    → let after = probe_steps ss next in
      (record_check stop c later rtt result after).health ≡ (
        if not stop
          && (still_has after.pools p a
              && (same after.setting_worker s.setting_worker && not (touches p.id next ss)))
        then (store_entry p a
            (probe_update later rtt result (addr_entry (entry after.health p.id a)))
            after.health).0
        else after.health)
unfolding record_check probe_result accepts
check_counts cancelled now p a s next c h ss stop later rtt result =
    let f = started cancelled now p a s next c h in
    let after = probe_steps ss next in
    let v : (check_version p.id after.health == version_of p.id s) ≡ not (touches p.id next ss) =
      by_growth (touches p.id next ss) (version_of p.id s) (version_of p.id after) (
        subst (λ x. Grown (touches p.id next ss) (check_version p.id x) (version_of p.id after)) f.1
          (steps-Grown p.id ss next)) in
    rw (f.0, v) (ground arith)
  where
    by_growth : (b : Bool) (x y : ℕ) → Grown b x y → (y == x) ≡ not b
    by_growth true x y g = ground arith
    by_growth false x y g = ground arith
