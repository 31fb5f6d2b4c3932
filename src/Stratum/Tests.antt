-- ===== src/Stratum/Tests.antt =====
-- Logins and ids of internal/stratum.
use simple_mining_proxy.Base.{◌≡◌, refl, Option, none, some, [], ◌∷◌, ◌++◌, Text, txt}
use simple_mining_proxy.Stratum.{after_dot, worker, replace_from, rewrite_login}
use simple_mining_proxy.Stratum.Lines.{
  full_line, part, failure, Line, got, stopped, LineReader, read_raw, blank, read_from, read_line,
}
use simple_mining_proxy.Stratum.Reading.{Promised, read_line-Promised}

no_worker : worker (txt "farm.") ≡ txt "default"
unfolding worker after_dot
no_worker = refl

whole_login :
    (rewrite_login (txt "rig7") (txt "x") (txt "me/{login}") (txt "p-{password}")).user
    ≡ txt "me/rig7"
unfolding rewrite_login replace_from worker after_dot
whole_login = refl

abbrev stream : LineReader
stream = record {
  slices =
      full_line (32 ∷ 10 ∷ [])
      ∷ part (txt "{\"id\"")
      ∷ full_line (txt ":1}" ++ 10 ∷ [])
      ∷ failure (txt "{") none
      ∷ [];
  bound = 20;
  err = none;
}

read_line-Promised_example : Promised stream (read_line stream)
read_line-Promised_example = read_line-Promised stream refl

abbrev line_of : Option (LineReader × Line) → Text
line_of none = []
line_of (some (l, stopped e)) = []
line_of (some (l, got t)) = t

read_second : line_of (read_line stream) ≡ txt "{\"id\":1}" ++ 10 ∷ []
unfolding read_line read_from read_raw blank
read_second = refl
