-- ===== src/Stratum/Ids.antt =====
-- The id of a message as a key (internal/stratum/message.go).
use simple_mining_proxy.Base.{
  ◌≡◌, refl, ap, ◌≢◌, true, false, [], ◌∷◌, ◌++◌, Text, length-append, arith,
}
use simple_mining_proxy.Stratum.{
  trim_left, trim_right, trimmed, trim_space, all_digits, is_digits, is_null, first_is, last_is,
  without_last, id_key,
}

trim_right_quoted : (d : Text) → trim_right (d ++ b'"' ∷ []) ≡ d ++ b'"' ∷ []
unfolding trim_right
trim_right_quoted [] = refl
trim_right_quoted (c ∷ []) = refl
trim_right_quoted (c ∷ (e ∷ t)) = ap (trimmed c) (trim_right_quoted (e ∷ t))

trim_right_digits : (d : Text) → all_digits d ≡ true → trim_right d ≡ d
unfolding trim_right all_digits
trim_right_digits [] h = refl
trim_right_digits (c ∷ []) h = ground arith
trim_right_digits (c ∷ (e ∷ t)) h = ap (trimmed c) (trim_right_digits (e ∷ t) (ground arith))

trim_space_digits : (d : Text) → all_digits d ≡ true → trim_space d ≡ d
unfolding trim_space trim_left all_digits trim_right
trim_space_digits [] h = refl
trim_space_digits (c ∷ t) h = ground (arith, trim_right_digits (c ∷ t) h)

trim_space_quoted : (d : Text) → trim_space (b'"' ∷ (d ++ b'"' ∷ [])) ≡ b'"' ∷ (d ++ b'"' ∷ [])
unfolding trim_space trim_left
trim_space_quoted d = trim_right_quoted (b'"' ∷ d)

last_is_quoted : (d : Text) → last_is b'"' (d ++ b'"' ∷ []) ≡ true
unfolding last_is
last_is_quoted [] = refl
last_is_quoted (c ∷ []) = refl
last_is_quoted (c ∷ (e ∷ t)) = last_is_quoted (e ∷ t)

without_last_quoted : (d : Text) → without_last (d ++ b'"' ∷ []) ≡ d
unfolding without_last
without_last_quoted [] = refl
without_last_quoted (c ∷ []) = refl
without_last_quoted (c ∷ (e ∷ t)) = ap (λ u. c ∷ u) (without_last_quoted (e ∷ t))

digits_not_quoted : (d : Text) → all_digits d ≡ true → first_is b'"' d ≡ false
unfolding all_digits
digits_not_quoted [] h = refl
digits_not_quoted (c ∷ t) h = ground arith

digits_not_null : (d : Text) → all_digits d ≡ true → d ≢ [] → is_null d ≡ false
unfolding is_null all_digits
digits_not_null [] h n = absurd (n refl)
digits_not_null (c ∷ t) h n = ground (arith, trim_space_digits (c ∷ t) h)

quoted_not_null : (d : Text) → is_null (b'"' ∷ (d ++ b'"' ∷ [])) ≡ false
unfolding is_null
quoted_not_null d = ground (arith, trim_space_quoted d)

key_of_digits : (d : Text) → is_digits d ≡ true → d ≢ [] → id_key d ≡ d
unfolding id_key is_digits
key_of_digits d h n = ground (arith, trim_space_digits d, digits_not_quoted d, digits_not_null d)

key_of_quoted : (d : Text) → is_digits d ≡ true → d ≢ [] → id_key (b'"' ∷ (d ++ b'"' ∷ [])) ≡ d
unfolding id_key
key_of_quoted [] h n = absurd (n refl)
key_of_quoted (c ∷ t) h n = ground (
  arith,
  trim_space_quoted (c ∷ t),
  last_is_quoted (b'"' ∷ (c ∷ t)),
  without_last_quoted (c ∷ t),
  quoted_not_null (c ∷ t),
  length-append t (b'"' ∷ []),
)

-- A number of up to 18 digits and the same number as a string give the same key, which is the
-- number: the answer of a pool that echoes a numeric id as a string is matched.
pub id_key_quoted :
    (d : Text)
    → is_digits d ≡ true
    → d ≢ []
    → (id_key d ≡ d) × (id_key (b'"' ∷ (d ++ b'"' ∷ [])) ≡ d)
id_key_quoted d h n = (key_of_digits d h n, key_of_quoted d h n)
