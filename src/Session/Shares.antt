-- ===== src/Session/Shares.antt =====
-- The shares that a session counts, after any messages (internal/session/session.go and
-- internal/stats/stats.go).
use simple_mining_proxy.Base.{
  ℕ, ◌+◌, ◌≤◌, ◌≡◌, refl, Bool, true, false, Bool-cases, inl, inr, Option, none, some, List, [],
  ◌∷◌, Text, txt, length, length-insert-le, length-delete-some, length-retain-le, arith, leb,
  if◌then◌else◌, same, lookup, delete,
}
use simple_mining_proxy.Stats.{Collector, share}
use simple_mining_proxy.Stratum.{id_key}
use simple_mining_proxy.Session.{
  Param, Message, string_first, rest_of, string_or_empty, rewritten, SubmitInfo, AuthInfo, Session,
  sweep, pending_max_age,
}
use simple_mining_proxy.Session.Miner.{
  expect_auth, authorized, submit_user, remember, expect_submit, submitted, submitted_other,
  authorize, submit, subscribed, with_params, from_miner, forward_from_miner,
}
use simple_mining_proxy.Session.Upstream.{
  Relay, Decoding, set_difficulty, answer_submit, accepted_answer, answer_auth, answer, notified,
  from_pool, number_first, params_of,
}
use simple_mining_proxy.Session.Runs.{
  Event, from_the_miner, from_the_pool, apply_event, run, submits,
}

-- The shares that a session has counted, and those for which it waits.
abbrev pub known_shares : Session → ℕ
known_shares s = s.accepted + s.rejected + length s.pending_submit

-- The counters stay, and at most `n` shares are new.
record Waits (n : ℕ) (s t : Session) : Type 0 where
  pub accepted : t.accepted ≡ s.accepted
  pub rejected : t.rejected ≡ s.rejected
  pub pending : length t.pending_submit ≤ length s.pending_submit + n

sweep-Waits : (now : ℕ) (s : Session) → Waits 0 s (sweep now s)
unfolding sweep
sweep-Waits now s = ground (
  arith,
  length-retain-le (λ k (v : SubmitInfo). leb now (v.at + pending_max_age)) s.pending_submit,
)

expect_auth-Waits :
    (now : ℕ) (key user : Text) (s : Session) → Waits 0 s (expect_auth now key user s)
expect_auth-Waits now [] user s = ground arith
expect_auth-Waits now (c ∷ key) user s = ground arith

authorized-Waits :
    (now : ℕ) (key login user : Text) (s : Session) → Waits 0 s (authorized now key login user s)
unfolding authorized
authorized-Waits now [] login user s = ground (arith, sweep-Waits now s)
authorized-Waits now (c ∷ key) login user s = ground (arith, sweep-Waits now s)

expect_submit-Waits :
    (now : ℕ) (key worker : Text) (s : Session) → Waits 1 s (expect_submit now key worker s)
expect_submit-Waits now [] worker s = ground arith
expect_submit-Waits now (c ∷ key) worker s =
    let s' = sweep now s in
    let info : SubmitInfo = record { at = now; diff = s'.difficulty; worker = worker } in
    ground (arith, sweep-Waits now s, length-insert-le (c ∷ key) info s'.pending_submit)

submitted-Waits : (now : ℕ) (key login : Text) (s : Session) → Waits 1 s (submitted now key login s)
unfolding submitted
submitted-Waits now key login s =
    let known = lookup login s.logins in
    let h = expect_submit-Waits now key login (record s {
      last_submit = now;
      logins =
          remember login (submit_user (record s { last_submit = now }) login known) known s.logins;
    }) in
    record { accepted = h.accepted; rejected = h.rejected; pending = h.pending }

submitted_other-Waits : (now : ℕ) (key : Text) (s : Session) → Waits 1 s (submitted_other now key s)
unfolding submitted_other
submitted_other-Waits now key s =
    let h = expect_submit-Waits now key s.worker (record s { last_submit = now }) in
    record { accepted = h.accepted; rejected = h.rejected; pending = h.pending }

abbrev new_submits : Message → ℕ
new_submits msg = if same msg.method (txt "mining.submit") then 1 else 0

module _ (encoded : Message → List Param → ℕ) (now : ℕ) where
  authorize-Waits :
      (msg : Message) (ps : List Param) (login : Option Text) (s : Session)
      → Waits 0 s (authorize encoded now msg ps login s).0
  unfolding authorize
  authorize-Waits msg ps none s = ground arith
  authorize-Waits msg ps (some login) s =
      let rw_ = rewritten s login (string_or_empty (string_first (rest_of ps))) in
      ground (arith, authorized-Waits now (id_key msg.id) login rw_.user s)

  submit-Waits :
      (msg : Message) (ps : List Param) (login : Option Text) (s : Session)
      → Waits 1 s (submit encoded now msg ps login s).0
  unfolding submit
  submit-Waits msg ps none s = submitted_other-Waits now (id_key msg.id) s
  submit-Waits msg ps (some login) s = ground (arith, submitted-Waits now (id_key msg.id) login s)

  subscribed-Waits : (ua : Option Text) (s : Session) → Waits 0 s (subscribed ua s)
  subscribed-Waits none s = ground arith
  subscribed-Waits (some ua) s = ground arith

  from_miner-Waits :
      (msg : Message) (params : Option (List Param)) (s : Session)
      → Waits (new_submits msg) s (from_miner encoded now msg params s).0
  unfolding from_miner with_params
  from_miner-Waits msg none s = ground arith
  from_miner-Waits msg (some ps) s = ground (
    arith,
    authorize-Waits msg ps (string_first ps) s,
    submit-Waits msg ps (string_first ps) s,
    subscribed-Waits (string_first ps) s,
  )

  forward-Waits :
      (msg : Message) (s : Session)
      → Waits (new_submits msg) s (forward_from_miner encoded now msg s).0
  unfolding forward_from_miner
  forward-Waits msg s =
      let h = from_miner-Waits msg msg.params (record s { last_miner_activity = now }) in
      record { accepted = h.accepted; rejected = h.rejected; pending = h.pending }

-- The session and the collector count the same answers, each of a share of which the session knew.
pub record Counts (n : ℕ) (r t : Relay) : Type 0 where
  pub known : known_shares t.session ≤ known_shares r.session + n
  pub accepted : t.stats.accepted + r.session.accepted ≡ r.stats.accepted + t.session.accepted
  pub rejected : t.stats.rejected + r.session.rejected ≡ r.stats.rejected + t.session.rejected

share-count :
    (pool worker : Text) (accepted : Bool) (diff : ℕ) (reason : Text) (now : ℕ) (c : Collector)
    → let next = share pool worker accepted diff reason now c in
      (next.accepted ≡ c.accepted + (if accepted then 1 else 0))
      × (next.rejected ≡ c.rejected + (if accepted then 0 else 1))
unfolding share
share-count pool worker true diff reason now c = ground arith
share-count pool worker false diff reason now c = ground arith

module _ (d : Decoding) (now : ℕ) where
  difficulty-Waits : (n : Option ℕ) (s : Session) → Waits 0 s (set_difficulty n s)
  difficulty-Waits none s = ground arith
  difficulty-Waits (some n) s = ground arith

  notified-Waits : (msg : Message) (s : Session) → Waits 0 s (notified d now msg s).0
  unfolding notified
  notified-Waits msg s = ground (arith, difficulty-Waits (number_first d (params_of msg.params)) s)

  answer_auth-Waits :
      (msg : Message) (auth : AuthInfo) (s : Session) → Waits 0 s (answer_auth d now msg auth s).0
  unfolding answer_auth
  answer_auth-Waits msg auth s = ground arith

  answer-Counts :
      (msg : Message) (key : Text) (sub : Option SubmitInfo) (auth : Option AuthInfo) (r : Relay)
      → lookup key r.session.pending_submit ≡ sub
      → Counts 0 r (answer d now msg key sub auth r).0
  unfolding answer answer_submit
  answer-Counts msg key (some sub) auth r e =
      let s = r.session in
      let yes = share-count s.pool_id sub.worker true sub.diff [] now r.stats in
      let no =
        share-count s.pool_id sub.worker false sub.diff (d.error_reason msg.error) now r.stats in
      let gone = length-delete-some key s.pending_submit (ground arith) in
      elim (Bool-cases (accepted_answer d now msg)) [
        | inl t ↦ rw t (record {
          known = omega (arith, gone);
          accepted = omega (arith, yes.0);
          rejected = omega (arith, yes.1);
        })
        | inr f ↦ rw f (record {
          known = omega (arith, gone);
          accepted = omega (arith, no.0);
          rejected = omega (arith, no.1);
        })
      ]
  answer-Counts msg key none (some auth) r e =
      let h =
        answer_auth-Waits msg auth
          (record r.session { pending_auth = delete key r.session.pending_auth }) in
      record {
        known = omega (arith, h.accepted, h.rejected, h.pending);
        accepted = omega (arith, h.accepted);
        rejected = omega (arith, h.rejected);
      }
  answer-Counts msg key none none r e = ground arith

  from_pool-Counts : (msg : Option Message) (r : Relay) → Counts 0 r (from_pool d now msg r).0
  unfolding from_pool
  from_pool-Counts none r = ground arith
  from_pool-Counts (some msg) r =
      let r' : Relay = record r { session = record r.session { last_pool_activity = now } } in
      let key = id_key msg.id in
      ground (
        arith,
        notified-Waits msg r'.session,
        answer-Counts msg key (lookup key r'.session.pending_submit)
            (lookup key r'.session.pending_auth) r' refl,
      )

-- After any messages, a session has counted and waits for at most the shares that it knew at the
-- start and those that the miner sent since, however often the pool answers; and each that it
-- counts, accepted or rejected, is counted once with the server.
pub run-Counts :
    (encoded : Message → List Param → ℕ) (d : Decoding) (es : List Event) (r : Relay)
    → Counts (submits es) r (run encoded d es r)
unfolding run apply_event
run-Counts encoded d [] r = ground arith
run-Counts encoded d (from_the_miner now msg ∷ es) r =
    let h = forward-Waits encoded now msg r.session in
    let rest = run-Counts encoded d es (apply_event encoded d (from_the_miner now msg) r) in
    ground (arith, h, rest)
run-Counts encoded d (from_the_pool now msg ∷ es) r =
    let h = from_pool-Counts d now msg r in
    let rest = run-Counts encoded d es (apply_event encoded d (from_the_pool now msg) r) in
    record {
      known = omega (arith, h.known, rest.known);
      accepted = omega (arith, h.accepted, rest.accepted);
      rejected = omega (arith, h.rejected, rest.rejected);
    }
