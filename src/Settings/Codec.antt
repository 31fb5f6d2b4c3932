-- ===== src/Settings/Codec.antt =====
-- internal/settings/store.go: `parse`, `encode`, `FormatDuration` and `checkString`. What `json` and
-- `time` do to a text is a parameter, `Codec`; `IsFaithful` is what the code relies on.
use simple_mining_proxy.Base.{
  ℕ, ◌*◌, ◌/◌, ◌%◌, ◌≡◌, ◌⊎◌, Bool, true, false, ◌&&◌, ◌||◌, not, Option, none, some, [], ◌++◌,
  Text, txt, any, ltb, leb, ◌==◌, if◌then◌else◌, mem,
}
use simple_mining_proxy.State.{itoa}
use simple_mining_proxy.State.Fields.{rune_count}
use simple_mining_proxy.State.Store.{Result, ok, err}
use simple_mining_proxy.Stratum.{is_space, trim_space}
use simple_mining_proxy.Settings.{
  type_duration, type_int, type_enum, type_string, Value, duration, int, string, Pattern, matches,
  Def,
}
use simple_mining_proxy.Settings.Registry.{
  sec, minute, hour, Msg, setting_duration, setting_integer, setting_string, setting_spaces,
  setting_pattern, setting_option, setting_length, setting_range,
}

-- A number with its sign: its size is in units of 10⁻⁹, so that one second counts as many
-- nanoseconds. The floating-point numbers of `json` are read as these exact ones.
pub record Signed : Type 0 where
  pub negative : Bool
  pub size : ℕ

-- A JSON value; `json_other` is a Boolean, an array or an object.
pub data Json : Type 0 where
  json_null json_other : Json
  json_string : Text → Json
  json_number : Signed → Json

abbrev pub whole : ℕ → Json
whole n = json_number (record { negative = false; size = n * sec })

-- `json.Unmarshal`, `json.Marshal`, `time.ParseDuration` and `Duration.String`.
pub record Codec : Type 0 where
  pub unmarshal : Text → Option Json
  pub marshal : Json → Text
  pub parse_duration : Text → Option Signed
  pub duration_string : ℕ → Text

abbrev pub nanoseconds : ℕ → Option Signed
nanoseconds n = some (record { negative = false; size = n })

-- What `json` prints it reads again, texts being valid UTF-8; `ParseDuration` reads a number with
-- one of the units h, m and s, and what `Duration.String` prints.
pub record IsFaithful (c : Codec) : Type 0 where
  pub strings : (s : Text) → c.unmarshal (c.marshal (json_string s)) ≡ some (json_string s)
  pub wholes : (n : ℕ) → c.unmarshal (c.marshal (whole n)) ≡ some (whole n)
  pub hours : (n : ℕ) → c.parse_duration (itoa n ++ txt "h") ≡ nanoseconds (n * hour)
  pub minutes : (n : ℕ) → c.parse_duration (itoa n ++ txt "m") ≡ nanoseconds (n * minute)
  pub seconds : (n : ℕ) → c.parse_duration (itoa n ++ txt "s") ≡ nanoseconds (n * sec)
  pub durations : (n : ℕ) → c.parse_duration (c.duration_string n) ≡ nanoseconds n
  pub unspaced : (n : ℕ) → any is_space (c.duration_string n) ≡ false

-- `outOfRange`
unfoldable pub out_of_range : Def → Msg
out_of_range d = elim d.kind [
  | type_enum ↦ setting_option
  | type_string ↦ setting_length
  | _ ↦ setting_range
]

abbrev pub pattern_fits : Option Pattern → Text → Bool
pattern_fits none s = true
pattern_fits (some p) s = matches p s

-- `checkString`
unfoldable pub check_string : Def → Text → Option Msg
check_string d s =
    if ltb (rune_count s) d.min_len || ltb d.max_len (rune_count s)
    then some (out_of_range d)
    else if any is_space s
    then some setting_spaces
    else if not (pattern_fits d.pattern s)
    then some setting_pattern
    else none

-- A number within the limits, which are not negative.
abbrev pub within_limits : Def → Signed → Bool
within_limits d x = (not x.negative || (x.size == 0)) && (leb d.least x.size && leb x.size d.most)

module _ (c : Codec) where
  -- `FormatDuration`
  unfoldable pub format_duration : ℕ → Text
  format_duration n =
      if n == 0
      then txt "0s"
      else if n % hour == 0
      then itoa (n / hour) ++ txt "h"
      else if n % minute == 0
      then itoa (n / minute) ++ txt "m"
      else if n % sec == 0
      then itoa (n / sec) ++ txt "s"
      else c.duration_string n

  unfoldable pub encode : Value → Text
  encode (duration n) = c.marshal (json_string (format_duration n))
  encode (int n) = c.marshal (whole n)
  encode (string s) = c.marshal (json_string s)

  -- The duration that a JSON value stands for; a plain number means seconds.
  unfoldable pub duration_of : Json → Option Signed
  duration_of (json_string t) = c.parse_duration (trim_space t)
  duration_of (json_number x) = some x
  duration_of json_null = none
  duration_of json_other = none

-- The number that `Unmarshal` gives, and leaves at 0 where the value is null.
unfoldable pub float_of : Json → Option Signed
float_of (json_number x) = some x
float_of json_null = some (record { negative = false; size = 0 })
float_of (json_string t) = none
float_of json_other = none

unfoldable pub string_of : Json → Option Text
string_of (json_string t) = some t
string_of json_null = some []
string_of (json_number x) = none
string_of json_other = none

unfoldable pub parse_amount : Def → Option Signed → Result Msg Value
parse_amount d none = err setting_duration
parse_amount d (some x) = if within_limits d x then ok (duration x.size) else err (out_of_range d)

abbrev pub scaled : Signed → Signed
scaled x = record { negative = x.negative; size = x.size / sec }

unfoldable pub parse_int : Def → Option Signed → Result Msg Value
parse_int d none = err setting_integer
parse_int d (some x) =
    if not (x.size % sec == 0)
    then err setting_integer
    else if within_limits d (scaled x)
    then ok (int (x.size / sec))
    else err (out_of_range d)

unfoldable pub parse_enum : Def → Option Text → Result Msg Value
parse_enum d none = err setting_string
parse_enum d (some s) = if mem s d.options then ok (string s) else err (out_of_range d)

unfoldable pub parse_string : Def → Option Text → Result Msg Value
parse_string d none = err setting_string
parse_string d (some s) = elim (check_string d (trim_space s)) [
  | some e ↦ err e
  | none ↦ ok (string (trim_space s))
]

-- `json.Unmarshal` into a variable, where `read` says what the variable takes.
abbrev pub decoded_by {ℓ} : {A : Type ℓ} → (Json → Option A) → Option Json → Option A
decoded_by read none = none
decoded_by read (some j) = read j

unfoldable pub parse : Codec → Def → Text → Result Msg Value
parse c d raw = elim d.kind [
  | type_duration ↦ parse_amount d (decoded_by (duration_of c) (c.unmarshal raw))
  | type_int ↦ parse_int d (decoded_by float_of (c.unmarshal raw))
  | type_enum ↦ parse_enum d (decoded_by string_of (c.unmarshal raw))
  | type_string ↦ parse_string d (decoded_by string_of (c.unmarshal raw))
]

-- What a setting may be.
abbrev pub Allowed : Def → Value → Type 0
Allowed d (duration n) = (d.kind ≡ type_duration) × ((leb d.least n ≡ true) × (leb n d.most ≡ true))
Allowed d (int n) = (d.kind ≡ type_int) × ((leb d.least n ≡ true) × (leb n d.most ≡ true))
Allowed d (string s) =
    ((d.kind ≡ type_enum) × (mem s d.options ≡ true))
    ⊎ ((d.kind ≡ type_string)
        × ((leb d.min_len (rune_count s) ≡ true)
            × ((leb (rune_count s) d.max_len ≡ true)
                × ((any is_space s ≡ false) × (pattern_fits d.pattern s ≡ true)))))
