-- ===== src/Stratum.antt =====
-- internal/stratum: the worker of a login, the account that a pool is told, and the id of a message.
-- Text is ASCII here.
pub mod Logins
pub mod Ids
pub mod Lines
pub mod Reading
mod Tests
use simple_mining_proxy.Base.{
  ℕ, zero, suc, ◌+◌, ◌-◌, Bool, true, false, ◌&&◌, ◌||◌, not, Option, none, some, List, [], ◌∷◌,
  ◌++◌, Text, txt, length, ltb, leb, ◌==◌, if◌then◌else◌, same,
}
use simple_mining_proxy.State.Fields.{has_prefix}

-- `login[i+1:]`, if there is a dot.
unfoldable pub after_dot : Text → Option Text
after_dot [] = none
after_dot (c ∷ t) = let rest = after_dot t in if c == b'.' then some t else rest

abbrev pub or_default : Text → Text
or_default [] = txt "default"
or_default (c ∷ t) = c ∷ t

abbrev pub worker_of : Text → Option Text → Text
worker_of login none = or_default login
worker_of login (some w) = or_default w

-- `Worker`
unfoldable pub worker : Text → Text
worker login = worker_of login (after_dot login)

-- What replaces the front of a text, and the length of what is replaced: the first pair that fits.
abbrev pub replacement : List (Text × Text) → Text → Option (Text × ℕ)
replacement [] t = none
replacement ((old, new) ∷ pairs) t =
    if has_prefix old t then some (new, length old) else replacement pairs t

-- One pass over the text as `strings.NewReplacer` does it; the first argument counts the bytes that
-- belong to a replaced part.
unfoldable pub replace_from : List (Text × Text) → ℕ → Text → Text
replace_from pairs n [] = []
replace_from pairs (suc n) (c ∷ t) = replace_from pairs n t
replace_from pairs zero (c ∷ t) = elim (replacement pairs (c ∷ t)) [
  | none ↦ c ∷ replace_from pairs zero t
  | some r ↦ r.0 ++ replace_from pairs (r.1 - 1) t
]

pub record Rewrite : Type 0 where
  pub user : Text
  pub password : Text

-- `RewriteLogin`
unfoldable pub rewrite_login : Text → Text → Text → Text → Rewrite
unfolding replace_from
rewrite_login login asic_password template pool_password = record {
  user = replace_from ((txt "{worker}", worker login) ∷ (txt "{login}", login) ∷ []) 0 template;
  password = replace_from ((txt "{password}", asic_password) ∷ []) 0 pool_password;
}

-- The white space of JSON messages.
abbrev pub is_space : ℕ → Bool
is_space c = (c == 32) || (leb 9 c && leb c 13)

unfoldable pub trim_left : Text → Text
trim_left [] = []
trim_left (c ∷ t) = let rest = trim_left t in if is_space c then rest else c ∷ t

abbrev pub trimmed : ℕ → Text → Text
trimmed c [] = if is_space c then [] else c ∷ []
trimmed c (d ∷ t) = c ∷ (d ∷ t)

unfoldable pub trim_right : Text → Text
trim_right [] = []
trim_right (c ∷ t) = trimmed c (trim_right t)

-- `bytes.TrimSpace`
unfoldable pub trim_space : Text → Text
trim_space t = trim_right (trim_left t)

unfoldable pub all_digits : Text → Bool
all_digits [] = true
all_digits (c ∷ t) = leb b'0' c && (leb c b'9' && all_digits t)

-- `isDigits`
unfoldable pub is_digits : Text → Bool
unfolding all_digits
is_digits t = leb (length t) 18 && all_digits t

-- `IsNull`
unfoldable pub is_null : Text → Bool
is_null raw = same (trim_space raw) [] || same (trim_space raw) (txt "null")

abbrev pub first_is : ℕ → Text → Bool
first_is q [] = false
first_is q (c ∷ t) = c == q

unfoldable pub last_is : ℕ → Text → Bool
last_is q [] = false
last_is q (c ∷ []) = c == q
last_is q (c ∷ (d ∷ t)) = last_is q (d ∷ t)

-- `id[:n-1]`
unfoldable pub without_last : Text → Text
without_last [] = []
without_last (c ∷ []) = []
without_last (c ∷ (d ∷ t)) = c ∷ without_last (d ∷ t)

abbrev pub tail : Text → Text
tail [] = []
tail (c ∷ t) = t

-- `id[1:n-1]`
abbrev pub inner : Text → Text
inner t = without_last (tail t)

-- `IDKey`
unfoldable pub id_key : Text → Text
id_key raw =
    let id = trim_space raw in
    if is_null raw
    then []
    else if ltb 2 (length id) && (first_is b'"' id && (last_is b'"' id && is_digits (inner id)))
    then inner id
    else id
