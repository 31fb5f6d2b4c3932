-- ===== src/Stratum/Logins.antt =====
-- The account that a pool is told for a login (internal/stratum/rewrite.go).
use simple_mining_proxy.Base.{
  ℕ, ◌≡◌, refl, ap, ◌∙◌, ◌≢◌, false, none, some, List, [], ◌∷◌, ◌++◌, Text, txt, All, arith, ◌==◌,
}
use mathlib.Core.List.{append-nil}
use simple_mining_proxy.State.Fields.{has_prefix}
use simple_mining_proxy.Stratum.{after_dot, worker, replacement, replace_from, rewrite_login}

-- A part of a login before its first dot, and a fixed part of a template.
abbrev pub NoDot : Text → Type 0
NoDot = All (λ c. (c == b'.') ≡ false)

abbrev pub NoBrace : Text → Type 0
NoBrace = All (λ c. (c == b'{') ≡ false)

after_dot_part : (account w : Text) → NoDot account → after_dot (account ++ b'.' ∷ w) ≡ some w
unfolding after_dot
after_dot_part [] w h = refl
after_dot_part (c ∷ t) w h = ground (arith, after_dot_part t w h.1)

-- What is replaced starts with a brace.
abbrev AllPlaceholders : List (Text × Text) → Type 0
AllPlaceholders [] = Unit
AllPlaceholders ((old, new) ∷ pairs) =
    ((c : ℕ) → (t : Text) → (c == b'{') ≡ false → has_prefix old (c ∷ t) ≡ false)
    × AllPlaceholders pairs

replace_fixed :
    (pairs : List (Text × Text)) (fixed rest : Text)
    → AllPlaceholders pairs
    → NoBrace fixed
    → replace_from pairs 0 (fixed ++ rest) ≡ fixed ++ replace_from pairs 0 rest
unfolding replace_from
replace_fixed pairs [] rest k h = refl
replace_fixed pairs (c ∷ t) rest k h =
    ground (arith, none_fits pairs k, replace_fixed pairs t rest k h.1)
  where
    none_fits :
        (ps : List (Text × Text)) → AllPlaceholders ps → replacement ps (c ∷ (t ++ rest)) ≡ none
    none_fits [] k = refl
    none_fits ((old, new) ∷ ps) k = rw (k.0 c (t ++ rest) h.0) (none_fits ps k.1)

-- The worker of a login is what follows its first dot.
pub worker_part :
    (account name : Text) → NoDot account → name ≢ [] → worker (account ++ b'.' ∷ name) ≡ name
unfolding worker
worker_part account [] d n = absurd (n refl)
worker_part account (c ∷ t) d n = rw (after_dot_part account (c ∷ t) d) refl

brace_first :
    (key : Text) (c : ℕ) (t : Text) → (c == b'{') ≡ false → has_prefix (b'{' ∷ key) (c ∷ t) ≡ false
brace_first key c t h = ground arith

replace_worker :
    (w login : Text)
    → replace_from ((txt "{worker}", w) ∷ (txt "{login}", login) ∷ []) 0 (txt "{worker}") ≡ w
unfolding replace_from
replace_worker w login = append-nil w

-- With the account "acc.{worker}" at a pool, every login of a farm becomes "acc." and the name of
-- its worker, whatever the login holds: it is never read as a template itself.
pub rewrite_account :
    (account owner name asic_password pool_password : Text)
    → NoBrace account
    → NoDot owner
    → name ≢ []
    → (rewrite_login
        (owner ++ b'.' ∷ name)
        asic_password
        (account ++ txt ".{worker}")
        pool_password).user
      ≡ account ++ b'.' ∷ name
unfolding rewrite_login
rewrite_account account owner name asic_password pool_password b d n =
    let login = owner ++ b'.' ∷ name in
    let pairs = (txt "{worker}", worker login) ∷ (txt "{login}", login) ∷ [] in
    let fits : AllPlaceholders pairs =
      (brace_first (txt "worker}"), (brace_first (txt "login}"), tt)) in
    replace_fixed pairs account (txt ".{worker}") fits b
    ∙ ap (λ t. account ++ t)
        (replace_fixed pairs (txt ".") (txt "{worker}") fits (refl, tt)
          ∙ ap (λ t. b'.' ∷ t) (replace_worker (worker login) login ∙ worker_part owner name d n))
