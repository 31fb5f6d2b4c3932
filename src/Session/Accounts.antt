-- ===== src/Session/Accounts.antt =====
-- Under which account the logins of a session reach the pool, after any messages
-- (internal/session/session.go).
use simple_mining_proxy.Base.{
  ℕ, ◌≤◌, ◌≡◌, refl, sym, ap, ◌∙◌, true, false, Option, none, some, List, [], ◌∷◌, Text, length,
  arith, ltb, same, text_eq, lookup, delete,
}
use simple_mining_proxy.State.Store.{Result, ok, err}
use simple_mining_proxy.Stats.{Collector}
use simple_mining_proxy.Stratum.{id_key}
use simple_mining_proxy.Session.{
  Param, Message, string_first, rest_of, string_or_empty, SubmitInfo, AuthInfo, Session,
  SessionError, new_session,
}
use simple_mining_proxy.Session.Miner.{submit_user, authorize, submit, forward_from_miner}
use simple_mining_proxy.Session.Upstream.{
  Relay, Decoding, params_of, set_difficulty, answer_submit, answer_auth, answer, notified,
  from_pool, number_first,
}
use simple_mining_proxy.Session.Runs.{Event, from_the_miner, from_the_pool, apply_event, run}
use simple_mining_proxy.Session.Users.{
  account, IsConsistent, SameTable, SameTable-IsConsistent, submit_user-account, account_of,
  from_miner-IsConsistent,
}

module _ (d : Decoding) (now : ℕ) where
  difficulty_table : (n : Option ℕ) (s : Session) → SameTable s (set_difficulty n s)
  difficulty_table none s = (refl, refl)
  difficulty_table (some n) s = ground arith

  notified_table : (msg : Message) (s : Session) → SameTable s (notified d now msg s).0
  unfolding notified
  notified_table msg s = ground (arith, difficulty_table (number_first d (params_of msg.params)) s)

  answer_auth_table :
      (msg : Message) (auth : AuthInfo) (s : Session) → SameTable s (answer_auth d now msg auth s).0
  unfolding answer_auth
  answer_auth_table msg auth s = ground arith

  answer_table :
      (msg : Message) (key : Text) (sub : Option SubmitInfo) (auth : Option AuthInfo) (r : Relay)
      → SameTable r.session (answer d now msg key sub auth r).0.session
  unfolding answer answer_submit
  answer_table msg key (some sub) auth r = ground arith
  answer_table msg key none (some auth) r =
      answer_auth_table msg auth
        (record r.session { pending_auth = delete key r.session.pending_auth })
  answer_table msg key none none r = (refl, refl)

  from_pool_table :
      (msg : Option Message) (r : Relay) → SameTable r.session (from_pool d now msg r).0.session
  unfolding from_pool
  from_pool_table none r = (refl, refl)
  from_pool_table (some msg) r =
      let r' : Relay = record r { session = record r.session { last_pool_activity = now } } in
      let key = id_key msg.id in
      ground (
        arith,
        notified_table msg r'.session,
        answer_table msg key (lookup key r'.session.pending_submit)
            (lookup key r'.session.pending_auth) r',
      )

forward-IsConsistent :
    (encoded : Message → List Param → ℕ) (now : ℕ) (template : Text) (msg : Message) (s : Session)
    → IsConsistent template s
    → IsConsistent template (forward_from_miner encoded now msg s).0
unfolding forward_from_miner
forward-IsConsistent encoded now template msg s h =
    from_miner-IsConsistent encoded now template msg msg.params
      (record s { last_miner_activity = now }) h

run-IsConsistent :
    (encoded : Message → List Param → ℕ) (d : Decoding) (template : Text) (es : List Event)
    (r : Relay)
    → IsConsistent template r.session
    → IsConsistent template (run encoded d es r).session
unfolding run apply_event
run-IsConsistent encoded d template [] r h = h
run-IsConsistent encoded d template (from_the_miner now msg ∷ es) r h =
    run-IsConsistent encoded d template es (apply_event encoded d (from_the_miner now msg) r)
      (forward-IsConsistent encoded now template msg r.session h)
run-IsConsistent encoded d template (from_the_pool now msg ∷ es) r h =
    run-IsConsistent encoded d template es (apply_event encoded d (from_the_pool now msg) r) (
      SameTable-IsConsistent template r.session (from_pool d now msg r).0.session
        (from_pool_table d now msg r) h)

new-IsConsistent :
    (pool_id template password : Text) (max_line start : ℕ)
    → IsConsistent template (new_session pool_id template password max_line start)
unfolding new_session lookup
new-IsConsistent pool_id template password max_line start = (refl, λ l u e. cc)

-- The line that goes to the pool carries `user` first.
abbrev pub SentAs : Text → Result SessionError Message → Type 0
SentAs user (err e) = ⊥
SentAs user (ok out) = string_first (params_of out.params) ≡ some user

-- What follows the first parameter stays as it is.
abbrev pub KeepsRest : List Param → Result SessionError Message → Type 0
KeepsRest ps (err e) = ⊥
KeepsRest ps (ok out) = rest_of (params_of out.params) ≡ rest_of ps

module _ (encoded : Message → List Param → ℕ) (now : ℕ) (template : Text) (msg : Message) where
  authorize-account :
      (ps : List Param) (login : Text) (s : Session)
      → length login ≤ 256
      → IsConsistent template s
      → SentAs (account template login) (authorize encoded now msg ps (some login) s).1
  unfolding authorize
  authorize-account ps login s l h =
      let password = string_or_empty (string_first (rest_of ps)) in
      let short : ltb 256 (length login) ≡ false = ground arith in
      rw short (ap some (account_of template s login password h.0))

  submit-account :
      (ps : List Param) (login : Text) (s : Session)
      → msg.params ≡ some ps
      → string_first ps ≡ some login
      → length login ≤ 256
      → IsConsistent template s
      → SentAs (account template login) (submit encoded now msg ps (some login) s).1
        × KeepsRest ps (submit encoded now msg ps (some login) s).1
  unfolding submit
  submit-account ps login s p f l h =
      let short : ltb 256 (length login) ≡ false = ground arith in
      let user = submit_user s login (lookup login s.logins) in
      let e = submit_user-account template s login h in
      elim (text_eq user login) [
        | yes q ↦
            let t : same user login ≡ true = ground arith in
            rw (short, t, p) (f ∙ ap some (sym q ∙ e), refl)
        | no n ↦ let t : same user login ≡ false = ground arith in rw (short, t) (ap some e, refl)
      ]

-- After any messages of the miner and of the pool, a login is known to the pool under one account:
-- its authorization and its shares go there under the user that the template of the pool makes of
-- it, whether the session has it in its table or not, and a share keeps its other parameters.
pub one_account :
    (encoded : Message → List Param → ℕ) (d : Decoding) (es : List Event) (stats : Collector)
    (pool_id template password : Text) (max_line start now : ℕ) (msg : Message) (ps : List Param)
    (login : Text)
    → msg.params ≡ some ps
    → string_first ps ≡ some login
    → length login ≤ 256
    → let fresh = new_session pool_id template password max_line start in
      let s = (run encoded d es (record { session = fresh; stats = stats })).session in
      SentAs (account template login) (authorize encoded now msg ps (some login) s).1
      × (SentAs (account template login) (submit encoded now msg ps (some login) s).1
          × KeepsRest ps (submit encoded now msg ps (some login) s).1)
one_account encoded d es stats pool_id template password max_line start now msg ps login p f l =
    let fresh = new_session pool_id template password max_line start in
    let h =
      run-IsConsistent encoded d template es (record { session = fresh; stats = stats })
        (new-IsConsistent pool_id template password max_line start) in
    (
      authorize-account encoded now template msg ps login _ l h,
      submit-account encoded now template msg ps login _ p f l h,
    )
