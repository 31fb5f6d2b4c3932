-- ===== src/Settings/Sample.antt =====
-- A codec that satisfies what is asked of `json` and `time`, for the tests of the settings.
use simple_mining_proxy.Base.{
  ℕ, zero, suc, ◌+◌, ◌-◌, ◌*◌, ◌/◌, ◌%◌, ◌<◌, ◌≡◌, refl, ap, arith, true, false, Option, none, some,
  [], ◌∷◌, ◌++◌, Text, txt, if◌then◌else◌, same, text_eq, ◌==◌, ltb, inl, inr, Bool-cases,
}
use simple_mining_proxy.State.{itoa, digits_from}
use simple_mining_proxy.Settings.{is_decimal}
use simple_mining_proxy.Settings.Registry.{sec, minute, hour}
use simple_mining_proxy.Settings.Codec.{
  Signed, Json, json_null, json_other, json_string, json_number, Codec, IsFaithful, nanoseconds,
}
use simple_mining_proxy.Settings.Sound.{spaced-itoa}

-- A number read from the front of a text: its value, the weight of a digit before it, the rest.
pub record Read : Type 0 where
  pub value : ℕ
  pub weight : ℕ
  pub rest : Text

unfoldable pub read_number : Text → Read
read_number [] = record { value = 0; weight = 1; rest = [] }
read_number (c ∷ t) =
    let r = read_number t in
    if is_decimal c
    then record { value = (c - 48) * r.weight + r.value; weight = 10 * r.weight; rest = r.rest }
    else record { value = 0; weight = 1; rest = c ∷ t }

read_number-digit :
    (k : ℕ) (t : Text)
    → k < 10
    → read_number ((48 + k) ∷ t) ≡ record {
      value = k * (read_number t).weight + (read_number t).value;
      weight = 10 * (read_number t).weight;
      rest = (read_number t).rest;
    }
unfolding read_number
read_number-digit k t h = ground arith

digits_weigh : (n w : ℕ) → n / 10 * (10 * w) + n % 10 * w ≡ n * w
digits_weigh n w =
    let e : n ≡ n / 10 * 10 + n % 10 = omega arith in omega (arith, ap (λ (t : ℕ). t * w) e)

value-digits_from :
    (fuel n : ℕ) (acc u : Text)
    → n < fuel
    → ((read_number (digits_from fuel n acc ++ u)).value
        ≡ n * (read_number (acc ++ u)).weight + (read_number (acc ++ u)).value)
      × ((read_number (digits_from fuel n acc ++ u)).rest ≡ (read_number (acc ++ u)).rest)
unfolding digits_from
value-digits_from zero n acc u h = ground arith
value-digits_from (suc fuel) n acc u h = elim (Bool-cases (ltb n 10)) [
  | inl e ↦ rw e (ground (arith, read_number-digit n (acc ++ u)))
  | inr e ↦ rw e (
      ground (
        arith,
        value-digits_from fuel (n / 10) ((48 + n % 10) ∷ acc) u,
        read_number-digit (n % 10) (acc ++ u),
        digits_weigh n (read_number (acc ++ u)).weight,
      ))
]

unfoldable pub duration_of_read : Read → Option Signed
duration_of_read r =
    if same r.rest (txt "h")
    then nanoseconds (r.value * hour)
    else if same r.rest (txt "m")
    then nanoseconds (r.value * minute)
    else if same r.rest (txt "s")
    then nanoseconds (r.value * sec)
    else if same r.rest (txt "ns")
    then nanoseconds r.value
    else none

abbrev pub first : Text → ℕ
first [] = 0
first (c ∷ t) = c

unfoldable pub read_json : Text → Option Json
read_json [] = none
read_json (c ∷ t) =
    if c == b'"'
    then some (json_string t)
    else if c == b'-'
    then some (json_number (record { negative = true; size = first t }))
    else if c == b'+'
    then some (json_number (record { negative = false; size = first t }))
    else if c == b'n'
    then some json_null
    else some json_other

unfoldable pub print_json : Json → Text
print_json json_null = txt "null"
print_json json_other = txt "{}"
print_json (json_string s) = b'"' ∷ s
print_json (json_number x) = (if x.negative then b'-' else b'+') ∷ (x.size ∷ [])

abbrev pub test_codec : Codec
test_codec = record {
  unmarshal = read_json;
  marshal = print_json;
  parse_duration = λ t. duration_of_read (read_number t);
  duration_string = λ n. itoa n ++ txt "ns";
}

reads_unit :
    (n : ℕ) (u : Text)
    → read_number u ≡ record { value = 0; weight = 1; rest = u }
    → (read_number (itoa n ++ u)).value ≡ n × ((read_number (itoa n ++ u)).rest ≡ u)
unfolding itoa
reads_unit n u h = ground (arith, value-digits_from (suc n) n [] u)

pub test_codec-IsFaithful : IsFaithful test_codec
unfolding read_json print_json duration_of_read read_number text_eq
test_codec-IsFaithful = record {
  strings = λ s. refl;
  wholes = λ n. refl;
  hours = λ n. ground (arith, reads_unit n (txt "h") refl);
  minutes = λ n. ground (arith, reads_unit n (txt "m") refl);
  seconds = λ n. ground (arith, reads_unit n (txt "s") refl);
  durations = λ n. ground (arith, reads_unit n (txt "ns") refl);
  unspaced = λ n. spaced-itoa n (txt "ns") refl;
}
