-- ===== src/Settings.antt =====
-- internal/settings/registry.go: the types of the settings, the patterns of their texts and `Def`.
-- A duration is a number of nanoseconds; no limit of the registry is below zero.
pub mod Registry
pub mod Codec
pub mod Build
pub mod Store
pub mod Sound
pub mod Kept
pub mod Readable
pub mod Restart
pub mod Agreed
pub mod Prepared
pub mod Saves
pub mod Reopened
pub mod Sample
pub mod Tests
use simple_mining_proxy.Base.{
  ℕ, suc, ◌*◌, Bool, true, false, ◌&&◌, ◌||◌, Option, none, some, List, [], ◌∷◌, Text, Map, any,
  length, not, ltb, leb, ◌==◌, if◌then◌else◌, same,
}

-- `Type`
pub data Kind : Type 0 where
  type_duration type_int type_enum type_string : Kind

pub data Applies : Type 0 where
  applies_immediately applies_new_connections applies_next_drain : Applies

-- The value of a setting: the `any` of the source, which holds a `time.Duration`, an `int` or a
-- `string`.
pub data Value : Type 0 where
  duration int : ℕ → Value
  string : Text → Value

-- `Values`, the snapshot. The field that a `Def` binds stands under the key of the `Def`.
abbrev pub Values : Type 0
Values = Text → Value

-- The field behind `num` and `dur`.
unfoldable pub amount : Value → ℕ
amount (duration n) = n
amount (int n) = n
amount (string s) = 0

-- The two regular expressions of the file.
pub data Pattern : Type 0 where
  worker_pattern chats_pattern : Pattern

abbrev pub is_decimal : ℕ → Bool
is_decimal c = leb b'0' c && leb c b'9'

abbrev pub worker_byte : ℕ → Bool
worker_byte c =
    is_decimal c
    || ((leb b'A' c && leb c b'Z') || ((leb b'a' c && leb c b'z') || ((c == b'_') || (c == b'-'))))

-- Within a list of chats: the digits of the present one so far, and whether nothing of it, not
-- even its sign, has been read.
pub record InChat : Type 0 where
  pub digits_read : ℕ
  pub fresh : Bool

abbrev pub new_chat : InChat
new_chat = record { digits_read = 0; fresh = true }

unfoldable pub chats_step : InChat → ℕ → Option InChat
chats_step s c =
    if is_decimal c
    then (if ltb s.digits_read 20
        then some (record { digits_read = suc s.digits_read; fresh = false })
        else none)
    else if (c == b'-') && s.fresh
    then some (record { digits_read = 0; fresh = false })
    else if (c == b',') && ltb 0 s.digits_read
    then some new_chat
    else none

unfoldable pub chats_from : InChat → Text → Bool
unfolding chats_step
chats_from s [] = ltb 0 s.digits_read
chats_from s (c ∷ t) = elim (chats_step s c) [ none ↦ false | some next ↦ chats_from next t ]

-- `Pattern.MatchString`
unfoldable pub matches : Pattern → Text → Bool
unfolding chats_from
matches worker_pattern t = ltb 0 (length t) && not (any (λ c. not (worker_byte c)) t)
matches chats_pattern t = same t [] || chats_from new_chat t

pub record Def : Type 0 where
  pub key : Text
  pub group : Text
  pub kind : Kind
  pub unit : Text
  pub default : Value
  -- `Min` and `Max`
  pub least : ℕ
  pub most : ℕ
  pub options : List Text
  pub min_len : ℕ
  pub max_len : ℕ
  pub pattern : Option Pattern
  pub applies : Applies

-- `d.set(v, x)`
unfoldable pub put : Def → Value → Values → Values
put d x v = λ k. if same d.key k then x else v k
