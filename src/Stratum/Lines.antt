-- ===== src/Stratum/Lines.antt =====
-- internal/stratum/linereader.go: the reader of lines. What `ReadSlice` of the buffered reader gives
-- enters as a list: a piece that ends a line, a piece that fills the buffer, or the last piece before
-- an error of the stream.
use simple_mining_proxy.Base.{
  ℕ, zero, suc, ◌+◌, Bool, true, false, ◌||◌, not, Option, none, some, List, [], ◌∷◌, ◌++◌, Text,
  length, ltb, ◌==◌, if◌then◌else◌,
}

pub data ReadError : Type 0 where
  too_long end_of_stream cut_off : ReadError
  failed : Text → ReadError

-- `failure none` is the end of the stream.
pub data Slice : Type 0 where
  full_line part : Text → Slice
  failure : Text → Option Text → Slice

pub data Line : Type 0 where
  got : Text → Line
  stopped : ReadError → Line

-- The reader: the pieces to come, and the error that sticks.
pub record LineReader : Type 0 where
  pub slices : List Slice
  pub bound : ℕ
  pub err : Option ReadError

-- The error of the stream, with what was read of a line.
abbrev pub stream_error : ℕ → Option Text → ReadError
stream_error n (some e) = failed e
stream_error n none = if ltb 0 n then cut_off else end_of_stream

-- The loop of `readRaw`; no piece left is the end of the stream.
unfoldable pub read_raw : ℕ → Text → List Slice → Line × List Slice
read_raw bound acc [] = (stopped (stream_error (length acc) none), [])
read_raw bound acc (full_line chunk ∷ ss) =
    if ltb bound (length acc + length chunk)
    then (stopped too_long, ss)
    else (got (acc ++ chunk), ss)
read_raw bound acc (part chunk ∷ ss) =
    let rest = read_raw bound (acc ++ chunk) ss in
    if ltb bound (length acc + length chunk) then (stopped too_long, ss) else rest
read_raw bound acc (failure chunk e ∷ ss) =
    if ltb bound (length acc + length chunk)
    then (stopped too_long, ss)
    else (stopped (stream_error (length acc + length chunk) e), ss)

abbrev pub is_space : ℕ → Bool
is_space c = (c == 32) || ((c == 9) || ((c == 13) || (c == 10)))

unfoldable pub blank : Text → Bool
blank [] = true
blank (c ∷ t) = let rest = blank t in if not (is_space c) then false else rest

-- A round of the loop of `ReadLine`, with what the rest of the loop gives.
abbrev pub after_raw : Line × List Slice → Option (Line × List Slice) → Option (Line × List Slice)
after_raw (stopped e, ss) later = some (stopped e, ss)
after_raw (got line, ss) later = if blank line then later else some (got line, ss)

-- The loop of `ReadLine`, for at most so many rounds.
unfoldable pub read_from : ℕ → ℕ → List Slice → Option (Line × List Slice)
unfolding read_raw blank
read_from zero bound ss = none
read_from (suc n) bound ss =
    let later = read_from n bound (read_raw bound [] ss).1 in after_raw (read_raw bound [] ss) later

-- The reader after the loop.
abbrev pub after_line : LineReader → Option (Line × List Slice) → Option (LineReader × Line)
after_line l none = none
after_line l (some (stopped e, ss)) = some (record l { slices = ss; err = some e }, stopped e)
after_line l (some (got line, ss)) = some (record l { slices = ss }, got line)

abbrev pub read_by_error : Option ReadError → LineReader → Option (LineReader × Line)
read_by_error (some e) l = some (l, stopped e)
read_by_error none l = after_line l (read_from (suc (length l.slices)) l.bound l.slices)

-- `ReadLine`; every round takes a piece or stops.
unfoldable pub read_line : LineReader → Option (LineReader × Line)
unfolding read_from
read_line l = read_by_error l.err l
