-- ===== src/Pools/Input.antt =====
-- internal/pool/manager.go: what a create or update request asks for, and the closures of `Create`
-- and `Update`. Letter case and white space are those of ASCII text.
use simple_mining_proxy.Base.{
  ℕ, ◌-◌, Bool, false, ◌&&◌, ◌||◌, not, Option, none, some, List, [], ◌∷◌, map, reverse, Text, any,
  leb, ◌==◌, if◌then◌else◌, same, is_some, to_lower,
}
use simple_mining_proxy.State.{Address, Pool}
use simple_mining_proxy.State.Fields.{pool_field_errors}
use simple_mining_proxy.State.Store.{Result, ok, is_empty}
use simple_mining_proxy.Pools.Edit.{EditError, fields, ◌>>◌, reject_if}

pub record Input : Type 0 where
  pub id : Option Text
  pub name : Option Text
  pub coin : Option Text
  pub addresses : Option (List Address)
  pub host : Option Text
  pub port : Option ℕ
  pub tls : Option Bool
  pub tls_skip_verify : Option Bool
  pub username : Option Text
  pub password : Option Text
  pub profit_switch : Option Bool
  pub timed_target : Option Bool
  pub solo : Option Bool

abbrev pub is_space : ℕ → Bool
is_space c = (c == 32) || (leb 9 c && leb c 13)

unfoldable pub trim_left : (ℕ → Bool) → Text → Text
trim_left p [] = []
trim_left p (c ∷ s) = if p c then trim_left p s else c ∷ s

-- `strings.Trim`
unfoldable pub trim : (ℕ → Bool) → Text → Text
trim p s = reverse (trim_left p (reverse (trim_left p s)))

abbrev pub trim_space : Text → Text
trim_space = trim is_space

upper_byte : ℕ → ℕ
upper_byte c = if leb b'a' c && leb c b'z' then c - 32 else c

unfoldable pub to_upper : Text → Text
unfolding upper_byte
to_upper = map upper_byte

abbrev pub get_or {ℓ} : {A : Type ℓ} → Option A → A → A
get_or none d = d
get_or (some a) d = a

abbrev pub trimmed_or : Option Text → Text → Text
trimmed_or none d = d
trimmed_or (some s) d = trim_space s

abbrev pub first_address : List Address → Address
first_address [] = record { host = []; port = 0 }
first_address (a ∷ as') = a

abbrev pub trimmed_host : Address → Address
trimmed_host a = record a { host = trim_space a.host }

-- The `switch` on `addresses` and the short form `host`, `port`.
unfoldable pub new_addresses : Input → List Address → List Address
new_addresses i old = elim i.addresses [
  | some given ↦ map trimmed_host given
  | none ↦
      if is_some i.host || is_some i.port
      then record {
        host = trimmed_or i.host (first_address old).host;
        port = get_or i.port (first_address old).port;
      }
        ∷ []
      else old
]

unfoldable pub apply : Pool → Input → Pool
unfolding new_addresses
apply p i =
    let profit = get_or i.profit_switch p.profit_switch in
    let alone = get_or i.solo p.solo in
    record p {
      name = trimmed_or i.name p.name;
      coin = to_upper (trimmed_or i.coin p.coin);
      addresses = new_addresses i p.addresses;
      tls = get_or i.tls p.tls;
      tls_skip_verify = get_or i.tls_skip_verify p.tls_skip_verify;
      username = trimmed_or i.username p.username;
      password = get_or i.password p.password;
      profit_switch = profit;
      timed_target = get_or i.timed_target p.timed_target;
      solo = alone;
      profit_home = if not profit || alone then false else p.profit_home;
    }

-- `validate` mends one field before the check.
abbrev pub mended : Pool → Pool
mended p = record p {
  tls_skip_verify = if p.tls_skip_verify && not p.tls then false else p.tls_skip_verify;
}

module _ (parse_ip : Text → Bool) where
  unfoldable pub validate : Pool → Result EditError Pool
  validate p = do
    reject_if (not (is_empty (pool_field_errors parse_ip (mended p))))
        (fields (pool_field_errors parse_ip (mended p)))
    ok (mended p)

-- `checkName`: another pool has the name, up to letter case and the spaces around it.
unfoldable pub name_clash : List Pool → Pool → Bool
name_clash ps p =
    any (λ x. not (same x.id p.id) && same (to_lower (trim_space x.name)) (to_lower p.name)) ps
