-- ===== src/Health/Versions.antt =====
-- internal/pool/probe.go: the versions of the pools count up exactly where something touches a pool.
use simple_mining_proxy.Base.{
  ℕ, ◌+◌, ◌<◌, ◌≡◌, refl, sym, subst, ◌∙◌, arith, Bool, true, false, ◌&&◌, ◌||◌, not, Option, List,
  [], ◌∷◌, Text, if◌then◌else◌, same, text_eq, mem, map, delete, lookup, lookup-insert,
}
use simple_mining_proxy.State.{Address, Pool, ids}
use simple_mining_proxy.Health.{Time, AddrHealth, Health, addr_key}
use simple_mining_proxy.Health.Refresh.{refresh_pool, entry}
use simple_mining_proxy.Health.Updates.{probe_update, dial_update, stall_update}
use simple_mining_proxy.Health.Record.{
  addr_entry, store_entry, count_of, bump_version, probe_result, dial_result, stall_result,
}
use simple_mining_proxy.Health.Forget.{forget, drop_removed, starts_over, pool_edited}
use simple_mining_proxy.Health.Probes.{
  Prober, still_has, check_version, request_probe, request_addresses, request_pools, bump_all,
  settings_changed, start_probe, accepts, record_check, end_check, session_failure, ProbeStep,
  commit_worker, change_worker, edit, drop_pool, new_snapshot, failure, dial, begin_check,
  finish_check, probe_step, probe_steps,
}

-- A version that is counted up exactly where something has touched the pool.
abbrev pub Grown : Bool → ℕ → ℕ → Type 0
Grown true old new = old < new
Grown false old new = new ≡ old

version-bump_version :
    (i id : Text) (h : Health)
    → check_version id (bump_version i h)
      ≡ (if same i id then check_version id h + 1 else check_version id h)
unfolding check_version
version-bump_version i id h =
    ground (arith, text_eq i id, lookup-insert i id (count_of (lookup i h.versions) + 1) h.versions)

version-store_entry :
    (id : Text) (p : Pool) (a : Address) (x : AddrHealth) (h : Health)
    → check_version id (store_entry p a x h).0 ≡ check_version id h
unfolding store_entry refresh_pool check_version
version-store_entry id p a x h = refl

version-drop_removed :
    (id i : Text) (keep : List Text) (as' : List Address) (h : Health)
    → check_version id (drop_removed i keep as' h) ≡ check_version id h
unfolding drop_removed check_version
version-drop_removed id i keep [] h = refl
version-drop_removed id i keep (a ∷ as') h =
    elim (mem (addr_key i a) keep)
      as (λ b.
        check_version id (
          drop_removed i keep as'
            (if b then h else record h { addrs = delete (addr_key i a) h.addrs }))
        ≡ check_version id h) [
          | true ↦ version-drop_removed id i keep as' h
          | false ↦
              version-drop_removed id i keep as'
                (record h { addrs = delete (addr_key i a) h.addrs })
        ]

bump_all-Grown :
    (id : Text) (ps : List Pool) (h : Health)
    → Grown (mem id (ids ps)) (check_version id h) (check_version id (bump_all ps h))
unfolding bump_all
bump_all-Grown id [] h = refl
bump_all-Grown id (p ∷ ps) h =
    ground (arith, version-bump_version p.id id h, bump_all-Grown id ps (bump_version p.id h))

version-pool_edited :
    (id : Text) (old next : Pool) (h : Health)
    → check_version id (pool_edited old next h).0 ≡ check_version id (bump_version next.id h)
unfolding pool_edited refresh_pool forget check_version
version-pool_edited id old next h =
    let keep = map (addr_key next.id) next.addresses in
    elim (starts_over old next)
      as (λ b.
        check_version id
          (if b
            then (forget next.id h, [])
            else refresh_pool next
                (drop_removed old.id keep old.addresses (bump_version next.id h))).0
        ≡ check_version id (bump_version next.id h)) [
          | true ↦ refl
          | false ↦ version-drop_removed id old.id keep old.addresses (bump_version next.id h)
        ]

bump-Grown :
    (i id : Text) (h : Health)
    → Grown (same i id) (check_version id h) (check_version id (bump_version i h))
bump-Grown i id h = ground (arith, version-bump_version i id h)

version-forget :
    (id i : Text) (h : Health) → check_version id (forget i h) ≡ check_version id (bump_version i h)
unfolding forget check_version
version-forget id i h = refl

request_addresses-health :
    (id : Text) (as' : List Address) (s : Prober) → (request_addresses id as' s).health ≡ s.health
unfolding request_addresses request_probe
request_addresses-health id [] s = refl
request_addresses-health id (a ∷ as') s = request_addresses-health id as' (request_probe id a s)

request_pools-health : (ps : List Pool) (s : Prober) → (request_pools ps s).health ≡ s.health
unfolding request_pools
request_pools-health [] s = refl
request_pools-health (p ∷ ps) s =
    request_pools-health ps (request_addresses p.id p.addresses s)
    ∙ request_addresses-health p.id p.addresses s

version-probe_result :
    (id : Text) (b : Bool) (p : Pool) (a : Address) (now : Time) (rtt : ℕ) (result : Option Text)
    (h : Health)
    → check_version id (probe_result b p a now rtt result h).0 ≡ check_version id h
unfolding probe_result
version-probe_result id true p a now rtt result h =
    version-store_entry id p a (probe_update now rtt result (addr_entry (entry h p.id a))) h
version-probe_result id false p a now rtt result h = refl

version-stall_result :
    (id : Text) (p : Pool) (a : Address) (now : Time) (e : Text) (h : Health)
    → check_version id (stall_result p a now e h).0 ≡ check_version id (bump_version p.id h)
unfolding stall_result
version-stall_result id p a now e h =
    version-store_entry id p a (stall_update now e (addr_entry (entry h p.id a)))
      (bump_version p.id h)

-- Whether a step touches a pool: its checks under way no longer count.
abbrev pub touches_now : Text → Prober → ProbeStep → Bool
touches_now id s (commit_worker w) = false
touches_now id s (change_worker w) = not (same w s.test_worker) && mem id (ids s.pools)
touches_now id s (edit pools old next) = same next.id id
touches_now id s (drop_pool pools i) = same i id
touches_now id s (new_snapshot pools) = false
touches_now id s (failure stalled p a now e) = still_has s.pools p a && (stalled && same p.id id)
touches_now id s (dial p a now result) = false
touches_now id s (begin_check cancelled now p a) = false
touches_now id s (finish_check cancelled c now rtt result) = false

abbrev pub touches : Text → Prober → List ProbeStep → Bool
touches id s [] = false
touches id s (st ∷ ss) = touches_now id s st || touches id (probe_step st s) ss

abbrev pub version_of : Text → Prober → ℕ
version_of id s = check_version id s.health

worker-Grown :
    (id w : Text) (s : Prober)
    → Grown
        (not (same w s.test_worker) && mem id (ids s.pools))
        (version_of id s)
        (version_of id (settings_changed w s))
unfolding settings_changed check_version
worker-Grown id w s =
    let h : Health = record s.health { addrs = []; pools = [] } in
    let asked : Prober = record s { test_worker = w; health = bump_all s.pools h } in
    elim (same w s.test_worker)
      as (λ b.
        Grown (not b && mem id (ids s.pools)) (version_of id s)
          (version_of id (if b then s else request_pools s.pools asked))) [
            | true ↦ refl
            | false ↦
                subst (λ x. Grown (mem id (ids s.pools)) (version_of id s) (check_version id x))
                  (sym (request_pools-health s.pools asked)) (bump_all-Grown id s.pools h)
          ]

failure-Grown :
    (id : Text) (s : Prober) (stalled : Bool) (p : Pool) (a : Address) (now : Time) (e : Text)
    → Grown
        (still_has s.pools p a && (stalled && same p.id id))
        (version_of id s)
        (version_of id (session_failure stalled p a now e s))
unfolding session_failure request_probe
failure-Grown id s false p a now e =
    elim (still_has s.pools p a)
      as (λ b.
        Grown (b && false) (version_of id s)
          (version_of id (if not b then s else request_probe p.id a s))) [
            | true ↦ refl
            | false ↦ refl
          ]
failure-Grown id s true p a now e =
    elim (still_has s.pools p a)
      as (λ b. Grown (b && same p.id id) (version_of id s) (
        version_of id (
          if not b
          then s
          else request_probe p.id a (record s { health = (stall_result p a now e s.health).0 })))) [
            | true ↦
                subst (Grown (same p.id id) (version_of id s))
                  (sym (version-stall_result id p a now e s.health)) (bump-Grown p.id id s.health)
            | false ↦ refl
          ]

step-Grown :
    (id : Text) (s : Prober) (st : ProbeStep)
    → Grown (touches_now id s st) (version_of id s) (version_of id (probe_step st s))
unfolding probe_step dial_result start_probe end_check record_check
step-Grown id s (commit_worker w) = refl
step-Grown id s (change_worker w) = worker-Grown id w s
step-Grown id s (edit pools old next) =
    rw (version-pool_edited id old next s.health) (bump-Grown next.id id s.health)
step-Grown id s (drop_pool pools i) = rw (version-forget id i s.health) (bump-Grown i id s.health)
step-Grown id s (new_snapshot pools) = refl
step-Grown id s (failure stalled p a now e) = failure-Grown id s stalled p a now e
step-Grown id s (dial p a now result) =
    elim (still_has s.pools p a)
      as (λ b.
        version_of id
          (if b then record s { health = (dial_result p a now result s.health).0 } else s)
        ≡ version_of id s) [
          | true ↦
              version-store_entry id p a
                (dial_update now result (addr_entry (entry s.health p.id a))) s.health
          | false ↦ refl
        ]
step-Grown id s (begin_check cancelled now p a) = ground arith
step-Grown id s (finish_check cancelled c now rtt result) =
    version-probe_result id (accepts cancelled c s) c.pool c.address now rtt result s.health

pub steps-Grown :
    (id : Text) (ss : List ProbeStep) (s : Prober)
    → Grown (touches id s ss) (version_of id s) (version_of id (probe_steps ss s))
unfolding probe_steps
steps-Grown id [] s = refl
steps-Grown id (st ∷ ss) s =
    joined (touches_now id s st) (touches id (probe_step st s) ss) (version_of id s)
      (version_of id (probe_step st s)) (version_of id (probe_steps ss (probe_step st s)))
      (step-Grown id s st) (steps-Grown id ss (probe_step st s))
  where
    joined : (b c : Bool) (x y z : ℕ) → Grown b x y → Grown c y z → Grown (b || c) x z
    joined true true x y z g h = omega (arith, g, h)
    joined true false x y z g h = omega (arith, g, h)
    joined false true x y z g h = omega (arith, g, h)
    joined false false x y z g h = h ∙ g
