-- ===== src/Guard/Tests.antt =====
-- Attempts on a guard that one address has tried four times (internal/admin/guard.go).
use simple_mining_proxy.Base.{
  ℕ, ◌+◌, ◌*◌, ◌≤◌, ◌≡◌, refl, true, false, none, List, [], ◌∷◌, Text, txt, text_eq, length, lookup,
  arith,
}
use simple_mining_proxy.Guard.{
  Guard, minute, attempt, recent, wrong, lock_duration, new_guard, global_fail_window,
}
use simple_mining_proxy.Guard.Limits.{IsBounded}
use simple_mining_proxy.Guard.Guesses.{
  Attempt, guesses_of, guesses_bounded, after_all, restart_same_answer,
}

abbrev ip : Text
ip = txt "10.0.0.1"

abbrev start : ℕ
start = 2000

abbrev tried : Guard
tried = record {
  ips =
      (
        ip,
        record {
          fails = 2000 ∷ 2001 ∷ 2002 ∷ 2003 ∷ [];
          locks = 1;
          locked_until = start;
          last_fail = 2003;
        },
      )
      ∷ [];
  global = 2000 ∷ 2001 ∷ 2002 ∷ 2003 ∷ [];
  file = none;
}

abbrev locked : Guard
locked = record tried {
  ips =
      (ip, record { fails = []; locks = 1; locked_until = start + minute; last_fail = start }) ∷ [];
}

-- The fifth failure locks the address for half an hour, its second lock.
fifth_locks : (attempt ip (start + 4) false true tried).1.ip_lock ≡ 30 * minute
unfolding attempt lookup text_eq recent wrong lock_duration
fifth_locks = refl

tried-IsBounded : IsBounded tried
tried-IsBounded = ground arith

abbrev attempts : List Attempt
attempts =
    record { ip = ip; now = start; verified = false; written = true }
    ∷ record { ip = txt "10.0.0.2"; now = start + 5; verified = false; written = true }
    ∷ record { ip = ip; now = start + 9; verified = true; written = true }
    ∷ []

guesses_bounded_example :
    length (recent (guesses_of attempts (new_guard none) []) (start + 10) global_fail_window) ≤ 100
guesses_bounded_example = guesses_bounded attempts (start + 10) (ground arith)

restart_same_answer_example :
    (attempt ip (start + 10) false true (new_guard (after_all attempts (new_guard none)).file)).1
    ≡ (attempt ip (start + 10) false true (after_all attempts (new_guard none))).1
restart_same_answer_example =
    restart_same_answer attempts
      (record { ip = ip; now = start + 10; verified = false; written = true }) (ground arith)
      (ground arith)
