-- ===== src/State/Fields.antt =====
-- internal/state/state.go: `PoolFieldErrors`, the validation that the API and the store share.
use simple_mining_proxy.Base.{
  ℕ, suc, Bool, true, false, ◌&&◌, ◌||◌, not, Option, none, some, List, [], ◌∷◌, ◌++◌, Text, txt,
  length, any, ltb, leb, ◌==◌, if◌then◌else◌, same, to_lower,
}
use simple_mining_proxy.State.{Address, Pool, contains_byte, addr_string, max_pool_addresses}

-- `^[a-z0-9_]{1,32}$`
abbrev pub id_byte : ℕ → Bool
id_byte c = (leb b'a' c && leb c b'z') || ((leb b'0' c && leb c b'9') || (c == b'_'))

unfoldable pub valid_pool_id : Text → Bool
valid_pool_id id = ltb 0 (length id) && (leb (length id) 32 && not (any (λ c. not (id_byte c)) id))

-- `utf8.RuneCountInString` of valid UTF-8: the bytes that continue no character.
unfoldable pub rune_count : Text → ℕ
rune_count [] = 0
rune_count (c ∷ s) = if leb 0x80 c && leb c 0xbf then rune_count s else suc (rune_count s)

pub data AddressError : Type 0 where
  host_missing ipv6_brackets scheme port_separate ipv6_invalid port_range listed_twice :
      AddressError

-- One constructor for each message of `PoolFieldErrors`.
pub data FieldError : Type 0 where
  pool_name pool_coin addresses_empty addresses_many pool_username username_spaces : FieldError
  pool_password skip_verify solo_profit : FieldError
  pool_address : ℕ → AddressError → FieldError

abbrev pub has_prefix : Text → Text → Bool
has_prefix [] s = true
has_prefix (c ∷ p) [] = false
has_prefix (c ∷ p) (d ∷ s) = (c == d) && has_prefix p s

abbrev pub contains : Text → Text → Bool
contains p [] = has_prefix p []
contains p (c ∷ s) = has_prefix p (c ∷ s) || contains p s

abbrev pub ends_in : ℕ → Text → Bool
ends_in c [] = false
ends_in c (x ∷ []) = x == c
ends_in c (x ∷ (y ∷ s)) = ends_in c (y ∷ s)

abbrev pub count_byte : ℕ → Text → ℕ
count_byte c [] = 0
count_byte c (x ∷ s) = if x == c then suc (count_byte c s) else count_byte c s

abbrev pub error_if : Bool → FieldError → List FieldError
error_if b e = if b then e ∷ [] else []

abbrev pub found : Option FieldError → List FieldError
found none = []
found (some e) = e ∷ []

abbrev pub username_errors : Text → List FieldError
username_errors u =
    if same u [] || ltb 256 (length u)
    then pool_username ∷ []
    else error_if (any (λ c. (c == b' ') || (c == 9)) u) username_spaces

module _ (parse_ip : Text → Bool) where
  unfoldable pub host_error : Text → Option AddressError
  host_error h =
      if same h []
      then some host_missing
      else if has_prefix (txt "[") h || ends_in b']' h
      then some ipv6_brackets
      else if contains (txt "://") h || any (λ c. (c == b' ') || (c == b'/')) h
      then some scheme
      else if count_byte b':' h == 1
      then some port_separate
      else if contains_byte b':' h && not (parse_ip h)
      then some ipv6_invalid
      else none

  abbrev pub address_reason : List Text → Address → Option AddressError
  address_reason seen a = elim (host_error a.host) [
    | some e ↦ some e
    | none ↦
        if ltb a.port 1 || ltb 65535 a.port
        then some port_range
        else if any (same (to_lower (addr_string a))) seen
        then some listed_twice
        else none
  ]

  -- The loop of `addressesError`; `i` counts the addresses before.
  unfoldable pub addresses_loop : ℕ → List Text → List Address → Option FieldError
  addresses_loop i seen [] = none
  addresses_loop i seen (a ∷ as') =
      let rest = addresses_loop (suc i) (to_lower (addr_string a) ∷ seen) as' in
      elim (address_reason seen a) [ some e ↦ some (pool_address (suc i) e) | none ↦ rest ]

  unfoldable pub addresses_error : List Address → Option FieldError
  addresses_error addrs =
      if length addrs == 0
      then some addresses_empty
      else if ltb max_pool_addresses (length addrs)
      then some addresses_many
      else addresses_loop 0 [] addrs

  -- The map of `PoolFieldErrors` as the list of its messages.
  unfoldable pub pool_field_errors : Pool → List FieldError
  pool_field_errors p =
      error_if (same p.name [] || ltb 64 (rune_count p.name)) pool_name
      ++ (error_if (ltb 16 (length p.coin)) pool_coin
          ++ (found (addresses_error p.addresses)
              ++ (username_errors p.username
                  ++ (error_if (ltb 256 (length p.password)) pool_password
                      ++ (error_if (p.tls_skip_verify && not p.tls) skip_verify
                          ++ error_if (p.solo && p.profit_switch) solo_profit)))))
