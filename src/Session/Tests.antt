-- ===== src/Session/Tests.antt =====
-- Runs of internal/session/session.go on concrete messages.
use simple_mining_proxy.Base.{ℕ, ◌+◌, refl, none, some, List, [], ◌∷◌, Text, txt, length, arith}
use simple_mining_proxy.Stats.{new_collector}
use simple_mining_proxy.Session.{Param, text, Message, Session, new_session}
use simple_mining_proxy.Session.Miner.{authorize, submit, forward_from_miner}
use simple_mining_proxy.Session.Upstream.{Relay, Decoding}
use simple_mining_proxy.Session.Runs.{Event, from_the_miner, from_the_pool, run, submits}
use simple_mining_proxy.Session.Bounds.{IsBounded, forward_from_miner-IsBounded}
use simple_mining_proxy.Session.Users.{account}
use simple_mining_proxy.Session.Accounts.{SentAs, KeepsRest, one_account}
use simple_mining_proxy.Session.Shares.{Counts, run-Counts}

abbrev decoding : Decoding
decoding = record { parse_float = λ t. none; error_reason = λ t. t }

abbrev line_length : Message → List Param → ℕ
line_length msg ps = 100 + length ps

abbrev fresh : Session
fresh = new_session (txt "a") (txt "acc.{worker}") (txt "x") 8192 1000

abbrev submission : Message
submission = record {
  method = txt "mining.submit";
  id = txt "4";
  params = some (text (txt "farm.rig7") ∷ text (txt "job") ∷ text (txt "00") ∷ []);
  result = [];
  error = [];
  length = 120;
}

abbrev login : Message
login = record submission {
  method = txt "mining.authorize";
  id = txt "3";
  params = some (text (txt "farm.rig7") ∷ text (txt "pw") ∷ []);
}

abbrev yes_to : Text → Message
yes_to id = record {
  method = [];
  id = id;
  params = none;
  result = txt "true";
  error = txt "null";
  length = 40;
}

abbrev events : List Event
events =
    from_the_miner 2000 login
    ∷ from_the_pool 3000 (some (yes_to (txt "3")))
    ∷ from_the_miner 4000 submission
    ∷ from_the_pool 5000 (some (yes_to (txt "4")))
    ∷ from_the_pool 6000 (some (yes_to (txt "4")))
    ∷ []

abbrev ended : Relay
ended = run line_length decoding events (record { session = fresh; stats = new_collector 10 })

one_account_example :
    SentAs
      (account (txt "acc.{worker}") (txt "farm.rig7"))
      (authorize line_length 7000 submission
        (text (txt "farm.rig7") ∷ text (txt "job") ∷ text (txt "00") ∷ [])
        (some (txt "farm.rig7"))
        ended.session).1
    × (SentAs
          (account (txt "acc.{worker}") (txt "farm.rig7"))
          (submit line_length 7000 submission
            (text (txt "farm.rig7") ∷ text (txt "job") ∷ text (txt "00") ∷ [])
            (some (txt "farm.rig7"))
            ended.session).1
        × KeepsRest
            (text (txt "farm.rig7") ∷ text (txt "job") ∷ text (txt "00") ∷ [])
            (submit line_length 7000 submission
              (text (txt "farm.rig7") ∷ text (txt "job") ∷ text (txt "00") ∷ [])
              (some (txt "farm.rig7"))
              ended.session).1)
one_account_example =
    one_account line_length decoding events (new_collector 10) (txt "a") (txt "acc.{worker}")
      (txt "x") 8192 1000 7000 submission
      (text (txt "farm.rig7") ∷ text (txt "job") ∷ text (txt "00") ∷ []) (txt "farm.rig7") refl refl
      (ground arith)

run-Counts_example :
    Counts (submits events) (record { session = fresh; stats = new_collector 10 }) ended
run-Counts_example =
    run-Counts line_length decoding events (record { session = fresh; stats = new_collector 10 })

forward_from_miner-IsBounded_example :
    IsBounded (forward_from_miner line_length 4000 submission fresh).0
unfolding new_session
forward_from_miner-IsBounded_example =
    forward_from_miner-IsBounded line_length 4000 submission fresh (ground arith)
