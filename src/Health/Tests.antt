-- ===== src/Health/Tests.antt =====
-- Runs of internal/pool/health.go on concrete checks, dials and latencies.
use simple_mining_proxy.Base.{
  ℕ, ◌+◌, ◌*◌, ◌≤◌, ◌<◌, ◌≡◌, refl, true, false, ◌&&◌, not, some, same, if◌then◌else◌, insert,
  without, none, List, [], ◌∷◌, Text, txt, text_eq, lower_byte, to_lower, lookup, arith,
}
use simple_mining_proxy.State.{Address, Pool, find_pool, itoa, addr_string, digits_from}
use simple_mining_proxy.Health.Record.{addr_entry, store_entry}
use simple_mining_proxy.Health.Probes.{
  Prober, still_has, check_version, Check, start_probe, record_check, ProbeStep, failure,
  probe_steps,
}
use simple_mining_proxy.Health.Versions.{touches}
use simple_mining_proxy.Health.Stale.{check_counts}
use simple_mining_proxy.State.Tests.{pool_a}
use simple_mining_proxy.Health.{
  Status, second, up, down, AddrHealth, Health, addr_key, switch_min_gain,
}
use simple_mining_proxy.Health.Updates.{
  new_addr, add_sample, sort, insert_sorted, probe_update, probe_verdict, dial_update,
}
use simple_mining_proxy.Health.Refresh.{entry, choose, choose_loop, decide_choice, clearly_faster}
use simple_mining_proxy.Health.Choice.{key_rtt, choose_sticky}
use simple_mining_proxy.Health.DialOrder.{Candidate}
use simple_mining_proxy.Health.Hysteresis.{
  Observation, probe, dial, observe, observe_all, IsSound, last_bad, up_since_uninterrupted,
}

abbrev seen : List Observation
seen = probe 10 5 none ∷ probe 20 6 none ∷ dial 25 none ∷ probe 30 4 none ∷ []

abbrev risen : AddrHealth
risen = record {
  status = up;
  probe_fails = 1;
  probe_oks = 0;
  dial_fails = 0;
  last_check = 30;
  last_error = txt "timeout";
  up_since = 0;
  samples = 5 ∷ 6 ∷ [];
  rtt = 5;
}

risen-IsSound : IsSound risen
risen-IsSound = ground arith

abbrev fallen : AddrHealth
fallen = record risen { status = down; probe_oks = 1; probe_fails = 0 }

up_since_uninterrupted_example : last_bad 0 seen ≤ (observe_all seen new_addr).up_since
unfolding observe_all observe probe_update probe_verdict add_sample dial_update sort insert_sorted
up_since_uninterrupted_example = up_since_uninterrupted seen (ground arith) (ground arith)

abbrev address_of : Text → Address
address_of host = record { host = host; port = 3333 }

abbrev measured : Status → ℕ → AddrHealth
measured status rtt = record new_addr { status = status; rtt = rtt }

abbrev wide : Pool
wide = record pool_a {
  addresses = address_of (txt "x") ∷ address_of (txt "y") ∷ address_of (txt "z") ∷ [];
}

-- The address x is DOWN, y takes 50 milliseconds and z takes 20.
abbrev health : Health
health = record {
  addrs =
      (txt "a|x:3333", measured down 10)
      ∷ (txt "a|y:3333", measured up 50000000)
      ∷ (txt "a|z:3333", measured up 20000000)
      ∷ [];
  pools = [];
  versions = [];
}

chosen : choose health wide (txt "a|y:3333") ≡ txt "a|z:3333"
unfolding choose choose_loop decide_choice lookup text_eq addr_key to_lower lower_byte addr_string
    digits_from clearly_faster
chosen = refl

choose_sticky_example :
    (5 * key_rtt health (choose health wide (txt "a|y:3333")) < 4 * 50000000)
    × (key_rtt health (choose health wide (txt "a|y:3333")) + switch_min_gain ≤ 50000000)
unfolding choose choose_loop decide_choice lookup text_eq addr_key to_lower lower_byte addr_string
    digits_from clearly_faster
choose_sticky_example =
    choose_sticky health wide (txt "a|y:3333") refl (ground arith) (ground arith)

abbrev candidates : List Candidate
candidates =
    record { address = address_of (txt "y"); rtt = 50; pref = false; order = 0 }
    ∷ record { address = address_of (txt "z"); rtt = 20; pref = false; order = 1 }
    ∷ record { address = address_of (txt "x"); rtt = 0; pref = true; order = 2 }
    ∷ []

-- A farm before its first check, and the check of an address of its pool.
abbrev prober : Prober
prober = record {
  pools = wide ∷ [];
  health = health;
  setting_worker = txt "w";
  test_worker = txt "w";
  pending = txt "a|y:3333" ∷ [];
  busy = [];
  last_start = [];
}

abbrev checked : Check
checked = record { pool = wide; address = address_of (txt "y"); worker = txt "w"; version = 0 }

abbrev checking : Prober
checking = record prober {
  pending = [];
  busy = txt "a|y:3333" ∷ [];
  last_start = (txt "a|y:3333", 60 * second) ∷ [];
}

begins :
    start_probe false (60 * second) wide (address_of (txt "y")) prober ≡ (checking, some checked)
unfolding start_probe still_has find_pool check_version without insert lookup text_eq addr_key
    to_lower lower_byte addr_string itoa digits_from
begins = refl

-- A session of the pool stalls on another address while the check is under way.
abbrev overtaken : List ProbeStep
overtaken = failure true wide (address_of (txt "z")) (61 * second) (txt "no job") ∷ []

check_counts_example :
    let after = probe_steps overtaken checking in
    (record_check false checked (62 * second) 5 none after).health ≡ (
      if not false
        && (still_has after.pools wide (address_of (txt "y"))
            && (same after.setting_worker (txt "w") && not (touches (txt "a") checking overtaken)))
      then (store_entry wide
          (address_of (txt "y"))
          (probe_update
            (62 * second)
            5
            none
            (addr_entry (entry after.health (txt "a") (address_of (txt "y")))))
          after.health).0
      else after.health)
check_counts_example =
    check_counts false (60 * second) wide (address_of (txt "y")) prober checking checked begins
      overtaken false (62 * second) 5 none
