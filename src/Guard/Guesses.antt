-- ===== src/Guard/Guesses.antt =====
-- How many passwords can be tried, over any sequence of attempts in the order of time, and what a
-- restart keeps (internal/admin/guard.go).
use simple_mining_proxy.Base.{
  ℕ, ◌≤◌, ◌≡◌, refl, Bool, true, ◌&&◌, not, none, List, [], ◌∷◌, ◌++◌, Text, length, length-append,
  arith, if◌then◌else◌,
}
use simple_mining_proxy.Guard.{Guard, recent, attempt, save, new_guard, global_fail_window}

recent-append :
    (xs ys : List ℕ) (now w : ℕ) → recent (xs ++ ys) now w ≡ recent xs now w ++ recent ys now w
unfolding recent
recent-append [] ys now w = refl
recent-append (x ∷ xs) ys now w = ground (arith, recent-append xs ys now w)

-- What is recent later is recent now.
recent_later :
    (xs : List ℕ) (t now w : ℕ) → t ≤ now → recent (recent xs t w) now w ≡ recent xs now w
unfolding recent
recent_later [] t now w l = refl
recent_later (x ∷ xs) t now w l = ground (arith, recent_later xs t now w l)

length-recent_later :
    (xs : List ℕ) (t now w : ℕ) → t ≤ now → length (recent xs now w) ≤ length (recent xs t w)
unfolding recent
length-recent_later [] t now w l = omega arith
length-recent_later (x ∷ xs) t now w l = ground (arith, length-recent_later xs t now w l)

-- A login attempt: who, when, whether the password is right, whether the file can be written.
pub record Attempt : Type 0 where
  pub ip : Text
  pub now : ℕ
  pub verified : Bool
  pub written : Bool

-- The guard after the attempts, and the times at which a wrong password was checked.
abbrev pub after : Attempt → Guard → Guard
after a g = (attempt a.ip a.now a.verified a.written g).0

abbrev pub guessed : Attempt → Guard → List ℕ → List ℕ
guessed a g guesses =
    let result = (attempt a.ip a.now a.verified a.written g).1 in
    if not result.ok && not result.blocked then guesses ++ a.now ∷ [] else guesses

unfoldable pub guesses_of : List Attempt → Guard → List ℕ → List ℕ
guesses_of [] g guesses = guesses
guesses_of (a ∷ as') g guesses = guesses_of as' (after a g) (guessed a g guesses)

-- The attempts come in the order of their times, from `t` to `end`.
abbrev pub Within : ℕ → List Attempt → ℕ → Type 0
Within t [] end = t ≤ end
Within t (a ∷ as') end = (t ≤ a.now) × Within a.now as' end

-- The failures that the guard counts are the guesses, as far as they still count, and no more than
-- a hundred.
record Counts (t : ℕ) (g : Guard) (guesses : List ℕ) : Type 0 where
  same_recent :
      (now : ℕ)
      → t ≤ now
      → recent guesses now global_fail_window ≡ recent g.global now global_fail_window
  few : length (recent guesses t global_fail_window) ≤ 100

one_recent : (now w : ℕ) → length (recent (now ∷ []) now w) ≤ 1
unfolding recent
one_recent now w = ground arith

attempt-Counts :
    (a : Attempt) (t : ℕ) (g : Guard) (guesses : List ℕ)
    → t ≤ a.now
    → Counts t g guesses
    → Counts a.now (after a g) (guessed a g guesses)
unfolding attempt save
attempt-Counts a t g guesses l c = record {
  same_recent = λ now m. ground (
    arith,
    c.same_recent now (omega arith),
    recent_later g.global a.now now global_fail_window m,
    recent-append guesses (a.now ∷ []) now global_fail_window,
    recent-append (recent g.global a.now global_fail_window) (a.now ∷ []) now global_fail_window,
  );
  few = ground (
    arith,
    c.same_recent a.now l,
    c.few,
    length-recent_later guesses t a.now global_fail_window l,
    recent-append guesses (a.now ∷ []) a.now global_fail_window,
    length-append (recent guesses a.now global_fail_window)
        (recent (a.now ∷ []) a.now global_fail_window),
    one_recent a.now global_fail_window,
  );
}

guesses_few :
    (as' : List Attempt) (t end : ℕ) (g : Guard) (guesses : List ℕ)
    → Within t as' end
    → Counts t g guesses
    → length (recent (guesses_of as' g guesses) end global_fail_window) ≤ 100
unfolding guesses_of
guesses_few [] t end g guesses w c =
    omega (arith, length-recent_later guesses t end global_fail_window w, c.few)
guesses_few (a ∷ as') t end g guesses w c =
    guesses_few as' a.now end (after a g) (guessed a g guesses) w.1
      (attempt-Counts a t g guesses w.0 c)

-- Whoever attempts to log in, and from however many addresses: within any hour, no more than a
-- hundred wrong passwords are checked.
pub guesses_bounded :
    (as' : List Attempt) (end : ℕ)
    → Within 0 as' end
    → length (recent (guesses_of as' (new_guard none) []) end global_fail_window) ≤ 100
unfolding new_guard recent
guesses_bounded as' end w =
    guesses_few as' 0 end (new_guard none) [] w
      (record { same_recent = λ now m. refl; few = omega arith })

-- What the file holds of the guard from the time `t` on.
abbrev pub InFile : ℕ → Guard → Type 0
InFile t g =
    ((new_guard g.file).ips ≡ g.ips)
    × ((now : ℕ)
        → t ≤ now
        → recent (new_guard g.file).global now global_fail_window
          ≡ recent g.global now global_fail_window)

attempt-InFile :
    (a : Attempt) (t : ℕ) (g : Guard)
    → a.written ≡ true
    → t ≤ a.now
    → InFile t g
    → InFile a.now (after a g)
unfolding attempt save new_guard
attempt-InFile a t g w l v = (
  ground (arith, v.0),
  λ now m.
      ground (arith, v.1 now (omega arith), recent_later g.global a.now now global_fail_window m),
)

unfoldable pub after_all : List Attempt → Guard → Guard
after_all [] g = g
after_all (a ∷ as') g = after_all as' (after a g)

abbrev pub AllWritten : List Attempt → Type 0
AllWritten [] = Unit
AllWritten (a ∷ as') = (a.written ≡ true) × AllWritten as'

after_all-InFile :
    (as' : List Attempt) (t end : ℕ) (g : Guard)
    → Within t as' end
    → AllWritten as'
    → InFile t g
    → InFile end (after_all as' g)
unfolding after_all
after_all-InFile [] t end g w a v = (v.0, λ now m. v.1 now (omega arith))
after_all-InFile (a ∷ as') t end g w all v =
    after_all-InFile as' a.now end (after a g) w.1 all.1 (attempt-InFile a t g all.0 w.0 v)

empty-InFile : (t : ℕ) → InFile t (new_guard none)
unfolding new_guard
empty-InFile t = (refl, λ now m. refl)

same_answer :
    (next : Attempt) (g : Guard)
    → InFile next.now g
    → (attempt next.ip next.now next.verified next.written (new_guard g.file)).1
      ≡ (attempt next.ip next.now next.verified next.written g).1
unfolding attempt
same_answer next g v = ground (arith, v.0, v.1 next.now (omega arith))

-- A restart does not reset the counters: after any attempts whose changes could be written, an
-- attempt gets the same answer from the restarted guard as from the running one.
pub restart_same_answer :
    (as' : List Attempt) (next : Attempt)
    → Within 0 as' next.now
    → AllWritten as'
    → let g = after_all as' (new_guard none) in
      (attempt next.ip next.now next.verified next.written (new_guard g.file)).1
      ≡ (attempt next.ip next.now next.verified next.written g).1
restart_same_answer as' next w a =
    let g = after_all as' (new_guard none) in
    let v = after_all-InFile as' 0 next.now (new_guard none) w a (empty-InFile 0) in
    same_answer next g v
