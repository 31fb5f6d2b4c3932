-- ===== src/Session/Users.antt =====
-- The user under which the pool knows a login (internal/session/session.go).
use simple_mining_proxy.Base.{
  ℕ, ◌≡◌, refl, sym, ap, ◌∙◌, subst, ◌||◌, Bool-cases, Option, none, some, Option-cases, inl, inr,
  List, [], ◌∷◌, Text, txt, Map, length, lookup-insert, arith, ltb, is_some, same, text_eq, lookup,
  insert,
}
use simple_mining_proxy.Stratum.{id_key, rewrite_login}
use simple_mining_proxy.Session.{
  Param, Message, string_first, rest_of, string_or_empty, Session, rewritten, sweep,
}
use simple_mining_proxy.Session.Miner.{
  insert_bounded, expect_auth, authorized, submit_user, remember, expect_submit, submitted,
  submitted_other, authorize, submit, subscribed, with_params, from_miner,
}

-- The account of a login at the pool.
abbrev pub account : Text → Text → Text
account template login = (rewrite_login login [] template []).user

-- The table of logins says for each what the template makes of it.
abbrev pub Agrees : Text → Map Text → Type 0
Agrees template m = (login user : Text) → lookup login m ≡ some user → user ≡ account template login

abbrev pub IsConsistent : Text → Session → Type 0
IsConsistent template s = (s.template ≡ template) × Agrees template s.logins

insert-Agrees :
    (template login user : Text) (m : Map Text)
    → user ≡ account template login
    → Agrees template m
    → Agrees template (insert login user m)
insert-Agrees template login user m e h l u g = elim (text_eq login l) [
  | yes q ↦ ground (arith, lookup-insert login l user m)
  | no n ↦ ground (arith, lookup-insert login l user m, h l u)
]

insert_bounded-Agrees :
    (template login user : Text) (bound : ℕ) (m : Map Text)
    → user ≡ account template login
    → Agrees template m
    → Agrees template (insert_bounded bound login user m)
insert_bounded-Agrees template login user bound m e h =
    elim (Bool-cases (is_some (lookup login m) || ltb (length m) bound)) [
      | inl t ↦ rw t (insert-Agrees template login user m e h)
      | inr t ↦ rw t h
    ]

-- Two sessions with the same template and the same table.
abbrev pub SameTable : Session → Session → Type 0
SameTable s s' = (s'.logins ≡ s.logins) × (s'.template ≡ s.template)

pub SameTable-IsConsistent :
    (template : Text) (s s' : Session)
    → SameTable s s'
    → IsConsistent template s
    → IsConsistent template s'
SameTable-IsConsistent template s s' e h = (e.1 ∙ h.0, subst (Agrees template) (sym e.0) h.1)

sweep_table : (now : ℕ) (s : Session) → SameTable s (sweep now s)
unfolding sweep
sweep_table now s = ground arith

expect_auth_table :
    (now : ℕ) (key user : Text) (s : Session) → SameTable s (expect_auth now key user s)
expect_auth_table now [] user s = (refl, refl)
expect_auth_table now (c ∷ key) user s = (refl, refl)

expect_submit_table :
    (now : ℕ) (key worker : Text) (s : Session) → SameTable s (expect_submit now key worker s)
expect_submit_table now [] worker s = (refl, refl)
expect_submit_table now (c ∷ key) worker s = ground (arith, sweep_table now s)

authorized-IsConsistent :
    (template : Text) (now : ℕ) (key login user : Text) (s : Session)
    → user ≡ account template login
    → IsConsistent template s
    → IsConsistent template (authorized now key login user s)
unfolding authorized
authorized-IsConsistent template now key login user s e h =
    let s' = sweep now s in
    let swept = SameTable-IsConsistent template s s' (sweep_table now s) h in
    let known : Session = record s' { logins = insert_bounded 128 login user s'.logins } in
    let t = expect_auth_table now key user known in
    (
      t.1 ∙ swept.0,
      subst (Agrees template) (sym t.0)
          (insert_bounded-Agrees template login user 128 s'.logins e swept.1),
    )

pub account_of :
    (template : Text) (s : Session) (login password : Text)
    → s.template ≡ template
    → (rewritten s login password).user ≡ account template login
unfolding rewrite_login
account_of template s login password e =
    ap (λ t. (rewrite_login login password t s.password).user) e

pub submit_user-account :
    (template : Text) (s : Session) (login : Text)
    → IsConsistent template s
    → submit_user s login (lookup login s.logins) ≡ account template login
submit_user-account template s login h = elim (Option-cases (lookup login s.logins)) [
  | inl e ↦ rw e (account_of template s login [] h.0)
  | inr (u, e) ↦ rw e (h.1 login u e)
]

remember-Agrees :
    (template login user : Text) (known : Option Text) (m : Map Text)
    → user ≡ account template login
    → Agrees template m
    → Agrees template (remember login user known m)
remember-Agrees template login user none m e h = elim (Bool-cases (ltb (length m) 128)) [
  | inl t ↦ rw t (insert-Agrees template login user m e h)
  | inr t ↦ rw t h
]
remember-Agrees template login user (some k) m e h = h

submitted-IsConsistent :
    (template : Text) (now : ℕ) (key login : Text) (s : Session)
    → IsConsistent template s
    → IsConsistent template (submitted now key login s)
unfolding submitted
submitted-IsConsistent template now key login s h =
    let user = submit_user s login (lookup login s.logins) in
    let known : Session = record s {
      last_submit = now;
      logins = remember login user (lookup login s.logins) s.logins;
    } in
    SameTable-IsConsistent template known (expect_submit now key login known)
      (expect_submit_table now key login known)
      (
        h.0,
        remember-Agrees template login user (lookup login s.logins) s.logins
            (submit_user-account template s login h) h.1,
      )

module _ (encoded : Message → List Param → ℕ) (now : ℕ) (template : Text) where
  authorize-IsConsistent :
      (msg : Message) (ps : List Param) (login : Option Text) (s : Session)
      → IsConsistent template s
      → IsConsistent template (authorize encoded now msg ps login s).0
  unfolding authorize
  authorize-IsConsistent msg ps none s h = h
  authorize-IsConsistent msg ps (some login) s h =
      let password = string_or_empty (string_first (rest_of ps)) in
      let rw_ = rewritten s login password in
      elim (Bool-cases (ltb 256 (length login))) [
        | inl e ↦ rw e h
        | inr e ↦ rw e (
            authorized-IsConsistent template now (id_key msg.id) login rw_.user s
              (account_of template s login password h.0) h)
      ]

  submit-IsConsistent :
      (msg : Message) (ps : List Param) (login : Option Text) (s : Session)
      → IsConsistent template s
      → IsConsistent template (submit encoded now msg ps login s).0
  unfolding submit submitted_other
  submit-IsConsistent msg ps none s h =
      SameTable-IsConsistent template s (submitted_other now (id_key msg.id) s)
        (expect_submit_table now (id_key msg.id) s.worker (record s { last_submit = now })) h
  submit-IsConsistent msg ps (some login) s h = elim (Bool-cases (ltb 256 (length login))) [
    | inl e ↦ rw e h
    | inr e ↦ rw e (submitted-IsConsistent template now (id_key msg.id) login s h)
  ]

  with_params-IsConsistent :
      (msg : Message) (ps : List Param) (s : Session)
      → IsConsistent template s
      → IsConsistent template (with_params encoded now msg ps s).0
  unfolding with_params
  with_params-IsConsistent msg ps s h =
      elim (Bool-cases (same msg.method (txt "mining.subscribe"))) [
        | inl e ↦ rw e (
            SameTable-IsConsistent template s (subscribed (string_first ps) s)
              (subscribed_table (string_first ps)) h)
        | inr e ↦ elim (Bool-cases (same msg.method (txt "mining.authorize"))) [
          | inl a ↦ rw (e, a) (authorize-IsConsistent msg ps (string_first ps) s h)
          | inr a ↦ elim (Bool-cases (same msg.method (txt "mining.submit"))) [
            | inl b ↦ rw (e, a, b) (submit-IsConsistent msg ps (string_first ps) s h)
            | inr b ↦ rw (e, a, b) h
          ]
        ]
      ]
    where
      subscribed_table : (ua : Option Text) → SameTable s (subscribed ua s)
      subscribed_table none = (refl, refl)
      subscribed_table (some ua) = (refl, refl)

  pub from_miner-IsConsistent :
      (msg : Message) (params : Option (List Param)) (s : Session)
      → IsConsistent template s
      → IsConsistent template (from_miner encoded now msg params s).0
  unfolding from_miner
  from_miner-IsConsistent msg none s h = h
  from_miner-IsConsistent msg (some ps) s h = with_params-IsConsistent msg ps s h
