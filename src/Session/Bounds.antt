-- ===== src/Session/Bounds.antt =====
-- The size of the tables of a session (internal/session/session.go).
use simple_mining_proxy.Base.{
  ℕ, ◌+◌, ◌≤◌, Option, none, some, List, [], ◌∷◌, Text, Map, length, length-insert-le,
  length-insert_old, length-retain-le, arith, leb, lookup,
}
use simple_mining_proxy.Stratum.{id_key}
use simple_mining_proxy.Session.{
  Param, Message, string_first, rest_of, string_or_empty, SubmitInfo, AuthInfo, Session, rewritten,
  sweep, max_tracked_login, max_pending_auth, max_pending_ids, pending_max_age,
}
use simple_mining_proxy.Session.Miner.{
  insert_bounded, expect_auth, authorized, submit_user, remember, expect_submit, submitted,
  submitted_other, authorize, submit, subscribed, with_params, from_miner, forward_from_miner,
}

-- A miner cannot grow the tables without limit.
pub record IsBounded (s : Session) : Type 0 where
  pub logins : length s.logins ≤ max_tracked_login
  pub pending_auth : length s.pending_auth ≤ max_pending_auth
  pub pending_submit : length s.pending_submit ≤ max_pending_ids

length-insert_bounded {ℓ} :
    {V : Type ℓ} (bound : ℕ) (k : Text) (v : V) (m : Map V)
    → length m ≤ bound
    → length (insert_bounded bound k v m) ≤ bound
length-insert_bounded bound k v m h =
    ground (arith, length-insert-le k v m, length-insert_old k v m)

sweep-IsBounded : (now : ℕ) (s : Session) → IsBounded s → IsBounded (sweep now s)
unfolding sweep
sweep-IsBounded now s h = ground (
  arith,
  length-retain-le (λ k (v : SubmitInfo). leb now (v.at + pending_max_age)) s.pending_submit,
  length-retain-le (λ k (v : AuthInfo). leb now (v.at + pending_max_age)) s.pending_auth,
)

expect_auth-IsBounded :
    (now : ℕ) (key user : Text) (s : Session) → IsBounded s → IsBounded (expect_auth now key user s)
expect_auth-IsBounded now [] user s h = h
expect_auth-IsBounded now (c ∷ key) user s h = record {
  logins = h.logins;
  pending_auth =
      length-insert_bounded max_pending_auth (c ∷ key) (record { at = now; user = user })
        s.pending_auth h.pending_auth;
  pending_submit = h.pending_submit;
}

authorized-IsBounded :
    (now : ℕ) (key login user : Text) (s : Session)
    → IsBounded s
    → IsBounded (authorized now key login user s)
unfolding authorized
authorized-IsBounded now key login user s h =
    let swept = sweep-IsBounded now s h in
    let s' = sweep now s in
    let known : IsBounded
        (record s' { logins = insert_bounded max_tracked_login login user s'.logins }) =
      record {
        logins = length-insert_bounded max_tracked_login login user s'.logins swept.logins;
        pending_auth = swept.pending_auth;
        pending_submit = swept.pending_submit;
      } in
    let e =
      expect_auth-IsBounded now key user
        (record s' { logins = insert_bounded max_tracked_login login user s'.logins }) known in
    record { logins = e.logins; pending_auth = e.pending_auth; pending_submit = e.pending_submit }

remember-bounded :
    (login user : Text) (known : Option Text) (m : Map Text)
    → length m ≤ max_tracked_login
    → length (remember login user known m) ≤ max_tracked_login
remember-bounded login user none m h = ground (arith, length-insert-le login user m)
remember-bounded login user (some k) m h = h

expect_submit-IsBounded :
    (now : ℕ) (key worker : Text) (s : Session)
    → IsBounded s
    → IsBounded (expect_submit now key worker s)
expect_submit-IsBounded now [] worker s h = h
expect_submit-IsBounded now (c ∷ key) worker s h =
    let swept = sweep-IsBounded now s h in
    let s' = sweep now s in
    let info : SubmitInfo = record { at = now; diff = s'.difficulty; worker = worker } in
    ground (arith, swept, length-insert-le (c ∷ key) info s'.pending_submit)

submitted-IsBounded :
    (now : ℕ) (key login : Text) (s : Session) → IsBounded s → IsBounded (submitted now key login s)
unfolding submitted
submitted-IsBounded now key login s h = expect_submit-IsBounded now key login _ (record {
  logins =
      remember-bounded login (submit_user s login (lookup login s.logins)) (lookup login s.logins)
        s.logins h.logins;
  pending_auth = h.pending_auth;
  pending_submit = h.pending_submit;
})

submitted_other-IsBounded :
    (now : ℕ) (key : Text) (s : Session) → IsBounded s → IsBounded (submitted_other now key s)
unfolding submitted_other
submitted_other-IsBounded now key s h =
    expect_submit-IsBounded now key s.worker (record s { last_submit = now })
      (record {
        logins = h.logins;
        pending_auth = h.pending_auth;
        pending_submit = h.pending_submit;
      })

module _ (encoded : Message → List Param → ℕ) (now : ℕ) where
  authorize-IsBounded :
      (msg : Message) (ps : List Param) (login : Option Text) (s : Session)
      → IsBounded s
      → IsBounded (authorize encoded now msg ps login s).0
  unfolding authorize
  authorize-IsBounded msg ps none s h = h
  authorize-IsBounded msg ps (some login) s h =
      let rw_ = rewritten s login (string_or_empty (string_first (rest_of ps))) in
      ground (arith, authorized-IsBounded now (id_key msg.id) login rw_.user s h)

  submit-IsBounded :
      (msg : Message) (ps : List Param) (login : Option Text) (s : Session)
      → IsBounded s
      → IsBounded (submit encoded now msg ps login s).0
  unfolding submit
  submit-IsBounded msg ps none s h = submitted_other-IsBounded now (id_key msg.id) s h
  submit-IsBounded msg ps (some login) s h =
      ground (arith, submitted-IsBounded now (id_key msg.id) login s h)

  from_miner-IsBounded :
      (msg : Message) (params : Option (List Param)) (s : Session)
      → IsBounded s
      → IsBounded (from_miner encoded now msg params s).0
  unfolding from_miner with_params
  from_miner-IsBounded msg none s h = h
  from_miner-IsBounded msg (some ps) s h = ground (
    arith,
    authorize-IsBounded msg ps (string_first ps) s h,
    submit-IsBounded msg ps (string_first ps) s h,
    subscribed-IsBounded (string_first ps) s h,
  )
    where
      subscribed-IsBounded :
          (ua : Option Text) (s : Session) → IsBounded s → IsBounded (subscribed ua s)
      subscribed-IsBounded none s h = h
      subscribed-IsBounded (some ua) s h = record {
        logins = h.logins;
        pending_auth = h.pending_auth;
        pending_submit = h.pending_submit;
      }

  -- No message of the miner makes a table of the session larger than its limit: 128 logins, 128
  -- authorizations and 10,000 shares that wait for an answer.
  pub forward_from_miner-IsBounded :
      (msg : Message) (s : Session)
      → IsBounded s
      → IsBounded (forward_from_miner encoded now msg s).0
  unfolding forward_from_miner
  forward_from_miner-IsBounded msg s h =
      from_miner-IsBounded msg msg.params (record s { last_miner_activity = now })
        (record {
          logins = h.logins;
          pending_auth = h.pending_auth;
          pending_submit = h.pending_submit;
        })
