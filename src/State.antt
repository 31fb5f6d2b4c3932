-- ===== src/State.antt =====
-- internal/state/state.go: pools, the configuration file, its validation and the store.
-- Texts are byte lists; a port is a natural number; `write` of atomicfile.go succeeds or fails by
-- the argument `written`. What `json` and `net.ParseIP` decide enters as an argument.
pub mod Fields
pub mod Store
pub mod Valid
pub mod Atomic
pub mod Tests
use simple_mining_proxy.Base.{
  ℕ, zero, suc, ◌+◌, ◌/◌, ◌%◌, Bool, true, false, ◌&&◌, ◌||◌, not, Option, none, some, List, [],
  ◌∷◌, ◌++◌, map, Text, txt, Map, length, any, ltb, leb, ◌==◌, if◌then◌else◌, same, text_eq,
  to_lower, delete, is_some, lookup,
}

abbrev pub current_version : ℕ
current_version = 2

abbrev pub max_pool_addresses : ℕ
max_pool_addresses = 8

pub record Address : Type 0 where
  pub host : Text
  pub port : ℕ

-- The decimal digits of `n`, most significant first; `n + 1` rounds are more than enough.
unfoldable pub digits_from : ℕ → ℕ → Text → Text
digits_from zero n acc = acc
digits_from (suc fuel) n acc =
    let rest = digits_from fuel (n / 10) ((48 + n % 10) ∷ acc) in
    if ltb n 10 then (48 + n) ∷ acc else rest

unfoldable pub itoa : ℕ → Text
itoa n = digits_from (suc n) n []

abbrev pub contains_byte : ℕ → Text → Bool
contains_byte c = any (λ x. x == c)

-- `net.JoinHostPort`
unfoldable pub addr_string : Address → Text
unfolding itoa
addr_string a =
    if contains_byte b':' a.host
    then txt "[" ++ (a.host ++ (txt "]:" ++ itoa a.port))
    else a.host ++ (txt ":" ++ itoa a.port)

pub record Pool : Type 0 where
  pub id : Text
  pub name : Text
  pub coin : Text
  pub addresses : List Address
  pub tls : Bool
  pub tls_skip_verify : Bool
  pub username : Text
  pub password : Text
  pub profit_switch : Bool
  pub timed_target : Bool
  pub solo : Bool
  pub profit_home : Bool

-- The configuration file; `settings` keeps the raw values.
pub record File : Type 0 where
  pub version : ℕ
  pub active_pool : Text
  pub fallback_pools : List Text
  pub pools : List Pool
  pub settings : Map Text
  pub telegram_token : Text

-- `File.Pool` and `Snapshot.Get`: the first pool with the id.
unfoldable pub find_pool : List Pool → Text → Option Pool
find_pool [] id = none
find_pool (p ∷ ps) id = if same p.id id then some p else find_pool ps id

abbrev pub ids : List Pool → List Text
ids = map (λ p. p.id)
