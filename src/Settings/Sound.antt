-- ===== src/Settings/Sound.antt =====
-- internal/settings/store.go: what `parse` accepts, and that it reads what `encode` writes.
use simple_mining_proxy.Base.{
  ℕ, zero, suc, ◌+◌, ◌*◌, ◌/◌, ◌%◌, ◌≡◌, refl, inl, inr, arith, true, false, Bool-cases, Option,
  none, some, [], ◌∷◌, ◌++◌, Text, txt, any, All, leb, ◌==◌, mem, text_eq,
}
use simple_mining_proxy.State.{itoa, digits_from}
use simple_mining_proxy.State.Fields.{rune_count}
use simple_mining_proxy.State.Store.{ok}
use simple_mining_proxy.Stratum.{is_space, trim_left, trim_right, trim_space}
use simple_mining_proxy.Settings.{
  type_duration, type_int, type_enum, type_string, Value, duration, int, string, matches, Def,
  chats_from, chats_step,
}
use simple_mining_proxy.Settings.Registry.{sec, minute, hour, defs}
use simple_mining_proxy.Settings.Codec.{
  Signed, json_string, whole, Codec, IsFaithful, check_string, nanoseconds, pattern_fits,
  format_duration, encode, duration_of, float_of, string_of, parse_amount, parse_int, parse_enum,
  parse_string, decoded_by, parse, Allowed,
}

parse_amount-Allowed :
    (d : Def) (o : Option Signed) (v : Value)
    → d.kind ≡ type_duration
    → parse_amount d o ≡ ok v
    → Allowed d v
unfolding parse_amount
parse_amount-Allowed d none v k h = ground arith
parse_amount-Allowed d (some x) v k h = ground arith

trim_right_unspaced : (s : Text) → any is_space s ≡ false → trim_right s ≡ s
unfolding trim_right
trim_right_unspaced [] h = refl
trim_right_unspaced (c ∷ []) h = ground arith
trim_right_unspaced (c ∷ (d ∷ t)) h = rw (trim_right_unspaced (d ∷ t) (ground arith)) refl

trim_space_unspaced : (s : Text) → any is_space s ≡ false → trim_space s ≡ s
unfolding trim_space trim_left trim_right
trim_space_unspaced [] h = refl
trim_space_unspaced (c ∷ t) h = ground (arith, trim_right_unspaced (c ∷ t))

pub defs-Allowed : All (λ d. Allowed d d.default) defs
unfolding defs matches chats_from chats_step rune_count text_eq
defs-Allowed = ground arith

parse_int-Allowed :
    (d : Def) (o : Option Signed) (v : Value)
    → d.kind ≡ type_int
    → parse_int d o ≡ ok v
    → Allowed d v
unfolding parse_int
parse_int-Allowed d none v k h = ground arith
parse_int-Allowed d (some x) v k h = ground arith

parse_enum-Allowed :
    (d : Def) (o : Option Text) (v : Value)
    → d.kind ≡ type_enum
    → parse_enum d o ≡ ok v
    → Allowed d v
unfolding parse_enum
parse_enum-Allowed d none v k h = ground arith
parse_enum-Allowed d (some s) v k h = ground arith

parse_string-Allowed :
    (d : Def) (o : Option Text) (v : Value)
    → d.kind ≡ type_string
    → parse_string d o ≡ ok v
    → Allowed d v
unfolding parse_string check_string
parse_string-Allowed d none v k h = ground arith
parse_string-Allowed d (some s) v k h = ground arith

-- Whatever is read as the value of a setting is a value that the setting may have.
pub parse-Allowed :
    (c : Codec) (d : Def) (raw : Text) (v : Value) → parse c d raw ≡ ok v → Allowed d v
unfolding parse
parse-Allowed c d raw v h = ground (
  arith,
  parse_amount-Allowed d (decoded_by (duration_of c) (c.unmarshal raw)) v,
  parse_int-Allowed d (decoded_by float_of (c.unmarshal raw)) v,
  parse_enum-Allowed d (decoded_by string_of (c.unmarshal raw)) v,
  parse_string-Allowed d (decoded_by string_of (c.unmarshal raw)) v,
)

spaced-digits_from :
    (fuel n : ℕ) (s : Text) → any is_space s ≡ false → any is_space (digits_from fuel n s) ≡ false
unfolding digits_from
spaced-digits_from zero n s h = h
spaced-digits_from (suc fuel) n s h =
    ground (arith, spaced-digits_from fuel (n / 10) ((48 + n % 10) ∷ s))

spaced-append :
    (s t : Text) → any is_space s ≡ false → any is_space t ≡ false → any is_space (s ++ t) ≡ false
spaced-append [] t h k = k
spaced-append (x ∷ s) t h k = ground (arith, spaced-append s t)

pub spaced-itoa : (n : ℕ) (u : Text) → any is_space u ≡ false → any is_space (itoa n ++ u) ≡ false
unfolding itoa
spaced-itoa n u h = spaced-append (itoa n) u (spaced-digits_from (suc n) n [] refl) h

parse_int_lem :
    (d : Def) (n : ℕ)
    → leb d.least n ≡ true
    → leb n d.most ≡ true
    → parse_int d (float_of (whole n)) ≡ ok (int n)
unfolding parse_int float_of
parse_int_lem d n h k = ground arith

parse_enum_lem :
    (d : Def) (s : Text)
    → mem s d.options ≡ true
    → parse_enum d (string_of (json_string s)) ≡ ok (string s)
unfolding parse_enum string_of
parse_enum_lem d s h = ground arith

parse_string_lem :
    (d : Def) (s : Text)
    → leb d.min_len (rune_count s) ≡ true
    → leb (rune_count s) d.max_len ≡ true
    → any is_space s ≡ false
    → pattern_fits d.pattern s ≡ true
    → parse_string d (string_of (json_string s)) ≡ ok (string s)
unfolding parse_string string_of check_string
parse_string_lem d s h k a p = ground (arith, trim_space_unspaced s)

module _ (c : Codec) (f : IsFaithful c) where
  reads_back :
      (t : Text) (m n : ℕ)
      → any is_space t ≡ false
      → c.parse_duration t ≡ nanoseconds m
      → m ≡ n
      → c.parse_duration (trim_space t) ≡ nanoseconds n
  reads_back t m n h e k = rw (trim_space_unspaced t h, e, k) refl

  -- What `FormatDuration` prints is read as the same duration.
  pub parse_duration-format_duration :
      (n : ℕ) → c.parse_duration (trim_space (format_duration c n)) ≡ nanoseconds n
  unfolding format_duration itoa digits_from
  parse_duration-format_duration n = elim (Bool-cases (n == 0)) [
    | inl e0 ↦ rw e0 (reads_back (txt "0s") 0 n refl (f.seconds 0) (ground arith))
    | inr e0 ↦ rw e0 (elim (Bool-cases (n % hour == 0)) [
      | inl e1 ↦ rw e1 (
          reads_back (itoa (n / hour) ++ txt "h") (n / hour * hour) n
            (spaced-itoa (n / hour) (txt "h") refl) (f.hours (n / hour)) (ground arith))
      | inr e1 ↦ rw e1 (elim (Bool-cases (n % minute == 0)) [
        | inl e2 ↦ rw e2 (
            reads_back (itoa (n / minute) ++ txt "m") (n / minute * minute) n
              (spaced-itoa (n / minute) (txt "m") refl) (f.minutes (n / minute)) (ground arith))
        | inr e2 ↦ rw e2 (elim (Bool-cases (n % sec == 0)) [
          | inl e3 ↦ rw e3 (
              reads_back (itoa (n / sec) ++ txt "s") (n / sec * sec) n
                (spaced-itoa (n / sec) (txt "s") refl) (f.seconds (n / sec)) (ground arith))
          | inr e3 ↦
              rw e3 (reads_back (c.duration_string n) n n (f.unspaced n) (f.durations n) refl)
        ])
      ])
    ])
  ]

  -- A value that a setting may have is read back from what `encode` writes.
  pub parse-encode : (d : Def) (v : Value) → Allowed d v → parse c d (encode c v) ≡ ok v
  unfolding parse encode parse_amount duration_of
  parse-encode d (duration n) a =
      ground (arith, f.strings (format_duration c n), parse_duration-format_duration n)
  parse-encode d (int n) a = ground (arith, f.wholes n, parse_int_lem d n)
  parse-encode d (string s) (inl a) = ground (arith, f.strings s, parse_enum_lem d s)
  parse-encode d (string s) (inr a) = ground (arith, f.strings s, parse_string_lem d s)
