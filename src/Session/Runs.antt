-- ===== src/Session/Runs.antt =====
-- Runs of a session: messages of the miner and of the pool as they come (internal/session/session.go).
use simple_mining_proxy.Base.{ℕ, suc, Option, List, [], ◌∷◌, txt, same, if◌then◌else◌}
use simple_mining_proxy.Session.{Param, Message}
use simple_mining_proxy.Session.Miner.{forward_from_miner}
use simple_mining_proxy.Session.Upstream.{Relay, Decoding, from_pool}

-- A message that was read, and when.
pub data Event : Type 0 where
  from_the_miner : ℕ → Message → Event
  from_the_pool : ℕ → Option Message → Event

module _ (encoded : Message → List Param → ℕ) (d : Decoding) where
  unfoldable pub apply_event : Event → Relay → Relay
  apply_event (from_the_miner now msg) r = record r {
    session = (forward_from_miner encoded now msg r.session).0;
  }
  apply_event (from_the_pool now msg) r = (from_pool d now msg r).0

  unfoldable pub run : List Event → Relay → Relay
  unfolding apply_event
  run [] r = r
  run (e ∷ es) r = run es (apply_event e r)

-- How many shares the miner has sent.
abbrev pub submits : List Event → ℕ
submits [] = 0
submits (from_the_miner now msg ∷ es) =
    if same msg.method (txt "mining.submit") then suc (submits es) else submits es
submits (from_the_pool now msg ∷ es) = submits es
