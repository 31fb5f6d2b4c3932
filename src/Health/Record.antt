-- ===== src/Health/Record.antt =====
-- internal/pool/health.go and probe.go: a check, a session dial and a stalled session on the maps.
use simple_mining_proxy.Base.{
  ℕ, ◌+◌, Bool, Option, none, some, List, [], ◌∷◌, ◌++◌, Text, length, ltb, if◌then◌else◌, lookup,
  insert,
}
use simple_mining_proxy.State.{Address, Pool, addr_string}
use simple_mining_proxy.Health.{Time, Status, up, down, AddrHealth, Health, addr_key}
use simple_mining_proxy.Health.Updates.{new_addr, probe_update, dial_update, stall_update}
use simple_mining_proxy.Health.Refresh.{Event, address_down, address_up, entry, refresh_pool}

-- `addrEntry`
abbrev pub addr_entry : Option AddrHealth → AddrHealth
addr_entry none = new_addr
addr_entry (some h) = h

abbrev pub address_events : Pool → Address → Status → AddrHealth → List Event
address_events p a prev h = if ltb 1 (length p.addresses) then changed prev h.status else []
  where
    changed : Status → Status → List Event
    changed down down = []
    changed prev down = address_down (addr_string a) h.last_error ∷ []
    changed down up = address_up (addr_string a) ∷ []
    changed prev next = []

-- The entry of an address replaced, then `addrChangedLocked`.
unfoldable pub store_entry : Pool → Address → AddrHealth → Health → Health × List Event
store_entry p a changed h =
    let prev = (addr_entry (entry h p.id a)).status in
    let (h', events) =
      refresh_pool p (record h { addrs = insert (addr_key p.id a) changed h.addrs }) in
    (h', address_events p a prev changed ++ events)

-- `probeResultIf`; `accept` is what the test of its caller says.
unfoldable pub probe_result :
    Bool → Pool → Address → Time → ℕ → Option Text → Health → Health × List Event
probe_result accept p a now rtt result h =
    if accept
    then store_entry p a (probe_update now rtt result (addr_entry (entry h p.id a))) h
    else (h, [])

unfoldable pub dial_result : Pool → Address → Time → Option Text → Health → Health × List Event
dial_result p a now result h =
    store_entry p a (dial_update now result (addr_entry (entry h p.id a))) h

abbrev pub count_of : Option ℕ → ℕ
count_of none = 0
count_of (some n) = n

-- `m.versions[id]++`
abbrev pub bump_version : Text → Health → Health
bump_version id h = record h {
  versions = insert id (count_of (lookup id h.versions) + 1) h.versions;
}

-- The locked part of `sessionFailure` for a session that got no job.
unfoldable pub stall_result : Pool → Address → Time → Text → Health → Health × List Event
stall_result p a now e h =
    store_entry p a (stall_update now e (addr_entry (entry h p.id a))) (bump_version p.id h)
