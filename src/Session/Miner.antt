-- ===== src/Session/Miner.antt =====
-- internal/session/session.go: what a session does with a message of the miner.
use simple_mining_proxy.Base.{
  ℕ, ◌||◌, Option, none, some, List, [], ◌∷◌, Text, txt, Map, length, ltb, if◌then◌else◌, is_some,
  same, lookup, insert,
}
use simple_mining_proxy.State.Store.{Result, ok, err}
use simple_mining_proxy.Stratum.{id_key}
use simple_mining_proxy.Session.{
  Param, text, Message, string_first, rest_of, string_or_empty, Session, SessionError,
  login_too_long, line_too_long, rewritten, sweep, max_login_len, max_tracked_login,
  max_pending_auth, max_pending_ids,
}

-- `if _, exists := m[k]; exists || len(m) < bound { m[k] = v }`
abbrev pub insert_bounded {ℓ} : {V : Type ℓ} → ℕ → Text → V → Map V → Map V
insert_bounded bound k v m =
    if is_some (lookup k m) || ltb (length m) bound then insert k v m else m

-- The locked part of `authorize` for the answer to come; the empty key is no id.
abbrev pub expect_auth : ℕ → Text → Text → Session → Session
expect_auth now [] user s = s
expect_auth now (c ∷ key) user s = record s {
  pending_auth =
      insert_bounded max_pending_auth (c ∷ key) (record { at = now; user = user }) s.pending_auth;
}

-- The parameters that the pool gets: the account, its password, and what follows.
abbrev pub authorize_params : Text → Text → List Param → List Param
authorize_params user password ps = text user ∷ (text password ∷ rest_of (rest_of ps))

-- The locked part of `authorize`.
unfoldable pub authorized : ℕ → Text → Text → Text → Session → Session
authorized now key login user s =
    let s = sweep now s in
    let s = record s { logins = insert_bounded max_tracked_login login user s.logins } in
    record (expect_auth now key user s) { worker = login; upstream_user = user }

-- The user for a login that submits, and the table with it.
abbrev pub submit_user : Session → Text → Option Text → Text
submit_user s login none = (rewritten s login []).user
submit_user s login (some user) = user

abbrev pub remember : Text → Text → Option Text → Map Text → Map Text
remember login user none m = if ltb (length m) max_tracked_login then insert login user m else m
remember login user (some known) m = m

-- The locked part of `submit` for the answer to come.
abbrev pub expect_submit : ℕ → Text → Text → Session → Session
expect_submit now [] worker s = s
expect_submit now (c ∷ key) worker s =
    let s = sweep now s in
    if ltb (length s.pending_submit) max_pending_ids
    then record s {
      pending_submit =
          insert (c ∷ key) (record { at = now; diff = s.difficulty; worker = worker })
            s.pending_submit;
    }
    else s

-- The locked part of `submit` for a login, and for a first parameter that is no string.
unfoldable pub submitted : ℕ → Text → Text → Session → Session
submitted now key login s =
    let s = record s { last_submit = now } in
    let known = lookup login s.logins in
    let s = record s { logins = remember login (submit_user s login known) known s.logins } in
    expect_submit now key login s

unfoldable pub submitted_other : ℕ → Text → Session → Session
submitted_other now key s = expect_submit now key s.worker (record s { last_submit = now })

abbrev pub subscribed : Option Text → Session → Session
subscribed none s = s
subscribed (some ua) s = record s { user_agent = ua }

abbrev pub within_limit : ℕ → Result SessionError Message → Result SessionError Message
within_limit bound (err e) = err e
within_limit bound (ok out) =
    if ltb bound out.length then err (line_too_long out.length) else ok out

-- The length that the line of a message has with other parameters, and the time.
module _ (encoded : Message → List Param → ℕ) (now : ℕ) where
  -- `ReplaceParams`
  abbrev pub replace_params : Message → List Param → Message
  replace_params msg ps = record msg { params = some ps; length = encoded msg ps }

  -- `authorize`, for the parameters and the first of them as a string.
  unfoldable pub authorize :
      Message → List Param → Option Text → Session → Session × Result SessionError Message
  authorize msg ps none s = (s, ok msg)
  authorize msg ps (some login) s =
      let rw_ = rewritten s login (string_or_empty (string_first (rest_of ps))) in
      if ltb max_login_len (length login) then (s, err login_too_long) else (
        authorized now (id_key msg.id) login rw_.user s,
        ok (replace_params msg (authorize_params rw_.user rw_.password ps)),
      )

  -- `submit`, likewise.
  unfoldable pub submit :
      Message → List Param → Option Text → Session → Session × Result SessionError Message
  submit msg ps none s = (submitted_other now (id_key msg.id) s, ok msg)
  submit msg ps (some login) s =
      let user = submit_user s login (lookup login s.logins) in
      if ltb max_login_len (length login) then (s, err login_too_long) else (
        submitted now (id_key msg.id) login s,
        ok (if same user login then msg else replace_params msg (text user ∷ rest_of ps)),
      )

  -- `fromMiner` for a message with parameters.
  unfoldable pub with_params :
      Message → List Param → Session → Session × Result SessionError Message
  unfolding authorize submit
  with_params msg ps s =
      if same msg.method (txt "mining.subscribe")
      then (subscribed (string_first ps) s, ok msg)
      else if same msg.method (txt "mining.authorize")
      then authorize msg ps (string_first ps) s
      else if same msg.method (txt "mining.submit")
      then submit msg ps (string_first ps) s
      else (s, ok msg)

  -- `fromMiner`: without an array of parameters every message passes as it is.
  unfoldable pub from_miner :
      Message → Option (List Param) → Session → Session × Result SessionError Message
  unfolding with_params
  from_miner msg none s = (s, ok msg)
  from_miner msg (some ps) s = with_params msg ps s

  -- `forwardFromMiner`, after `markMinerActivity` of `minerLoop`.
  unfoldable pub forward_from_miner : Message → Session → Session × Result SessionError Message
  unfolding from_miner
  forward_from_miner msg s =
      let (s', out) = from_miner msg msg.params (record s { last_miner_activity = now }) in
      (s', within_limit s.max_line out)
