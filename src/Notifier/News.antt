-- ===== src/Notifier/News.antt =====
-- What a message to the chat tells, and when (internal/telegram/notifier.go).
use simple_mining_proxy.Base.{
  ℕ, ◌+◌, ◌≤◌, ◌<◌, ◌≡◌, refl, ap, ◌∙◌, Bool, true, false, ◌||◌, not, Bool-cases, inl, inr, Option,
  none, some, List, [], ◌∷◌, Text, Map, length, All, lookup, insert, delete, retain, arith, ltb,
  ◌==◌, if◌then◌else◌,
}
use simple_mining_proxy.Monitor.{Change, Alert, change_before, insert_sorted, sort_by}
use simple_mining_proxy.Notifier.{
  Reported, Notifier, flap_changes, flap_hold, recent_times, add_changes, add_alert, last_time,
  same_state, judge, is_known, is_due, due_changes, tidied, send_due, take_due, drop_sent,
  mark_sent, mark_failed,
}

-- Every pending change stands under the name of its ASIC.
abbrev pub AreNamed : Map Change → Type 0
AreNamed = All (λ (e : Text × Change). e.1.name ≡ e.0)

insert-AreNamed : (c : Change) (m : Map Change) → AreNamed m → AreNamed (insert c.name c m)
unfolding insert
insert-AreNamed c [] h = (refl, tt)
insert-AreNamed c ((k, d) ∷ m) h = ground (arith, h, insert-AreNamed c m h.1)

add_changes-AreNamed :
    (cs : List Change) (m : Map Change) → AreNamed m → AreNamed (add_changes cs m)
unfolding add_changes
add_changes-AreNamed [] m h = h
add_changes-AreNamed (c ∷ cs) m h =
    add_changes-AreNamed cs (insert c.name c m) (insert-AreNamed c m h)

retain-AreNamed : (p : Text → Change → Bool) (m : Map Change) → AreNamed m → AreNamed (retain p m)
unfolding retain
retain-AreNamed p [] h = tt
retain-AreNamed p ((k, d) ∷ m) h = ground (arith, h, retain-AreNamed p m h.1)

delete-AreNamed : (k : Text) (m : Map Change) → AreNamed m → AreNamed (delete k m)
unfolding delete
delete-AreNamed k [] h = tt
delete-AreNamed k ((j, d) ∷ m) h = ground (arith, h, delete-AreNamed k m h.1)

drop_sent-AreNamed : (cs : List Change) (m : Map Change) → AreNamed m → AreNamed (drop_sent cs m)
unfolding drop_sent
drop_sent-AreNamed [] m h = h
drop_sent-AreNamed (c ∷ cs) m h =
    drop_sent-AreNamed cs (delete c.name m) (delete-AreNamed c.name m h)

-- A change that the notifier does not know of: it remembers nothing or the opposite, and after two
-- messages within the hour, the last is as old as the hold.
abbrev pub IsNews : ℕ → Option Reported → Change → Type 0
IsNews now none c = Unit
IsNews now (some r) c =
    (same_state r.online c.online ≡ false)
    × (flap_changes ≤ length (recent_times now r.times)
        → last_time (recent_times now r.times) + flap_hold ≤ now)

judge-IsNews :
    (now : ℕ) (c : Change) (o : Option Reported) → is_due (judge now c o) ≡ true → IsNews now o c
unfolding judge
judge-IsNews now c none e = tt
judge-IsNews now c (some r) e = ground arith

module _ (now : ℕ) (told : Map Reported) where
  abbrev pub Tells : Change → Type 0
  Tells c = IsNews now (lookup c.name told) c

  due_changes-Tells : (m : Map Change) → AreNamed m → All Tells (due_changes now told m)
  unfolding due_changes
  due_changes-Tells [] h = tt
  due_changes-Tells ((name, c) ∷ m) h =
      let rest = due_changes-Tells m h.1 in
      elim (Bool-cases (is_due (judge now c (lookup name told)))) [
        | inr f ↦ rw f rest
        | inl t ↦ rw t (
          judge-IsNews now c (lookup c.name told)
              (ap (λ k. is_due (judge now c (lookup k told))) h.0 ∙ t),
          rest,
        )
      ]

  insert_sorted-Tells :
      (x : Change) (xs : List Change)
      → Tells x
      → All Tells xs
      → All Tells (insert_sorted change_before x xs)
  unfolding insert_sorted
  insert_sorted-Tells x [] a h = (a, tt)
  insert_sorted-Tells x (y ∷ ys) a h = elim (Bool-cases (change_before y x)) [
    | inl t ↦ rw t (h.0, insert_sorted-Tells x ys a h.1)
    | inr f ↦ rw f (a, h)
  ]

  sort_by-Tells : (xs : List Change) → All Tells xs → All Tells (sort_by change_before xs)
  unfolding sort_by
  sort_by-Tells [] h = tt
  sort_by-Tells (x ∷ xs) h =
      insert_sorted-Tells x (sort_by change_before xs) h.0 (sort_by-Tells xs h.1)

-- When a message may go: the gap after the last one, and the time for others to join, have passed.
abbrev pub IsTimely : ℕ → Notifier → List Change → Type 0
IsTimely now n [] = Unit
IsTimely now n (c ∷ cs) =
    (n.last_sent + n.gap ≤ now) × (0 < n.first_due → n.first_due + n.batch ≤ now)

send_due-IsTimely :
    (now : ℕ) (cs : List Change) (n : Notifier) → IsTimely now n (send_due now cs n).1
unfolding send_due
send_due-IsTimely now [] n = tt
send_due-IsTimely now (c ∷ cs) n =
    let first = if n.first_due == 0 then now else n.first_due in
    elim (Bool-cases (ltb now (first + n.batch) || ltb now (n.last_sent + n.gap))) [
      | inl t ↦ rw t tt
      | inr f ↦ rw f (timely (sort_by change_before (c ∷ cs)) (ground arith) (λ p. ground arith))
    ]
  where
    timely :
        (xs : List Change)
        → n.last_sent + n.gap ≤ now
        → (0 < n.first_due → n.first_due + n.batch ≤ now)
        → IsTimely now n xs
    timely [] a b = tt
    timely (x ∷ xs) a b = (a, b)

send_due-Tells :
    (now : ℕ) (told : Map Reported) (cs : List Change) (n : Notifier)
    → All (Tells now told) cs
    → All (Tells now told) (send_due now cs n).1
unfolding send_due
send_due-Tells now told [] n h = tt
send_due-Tells now told (c ∷ cs) n h =
    let first = if n.first_due == 0 then now else n.first_due in
    elim (Bool-cases (ltb now (first + n.batch) || ltb now (n.last_sent + n.gap))) [
      | inl t ↦ rw t tt
      | inr f ↦ rw f (sort_by-Tells now told (c ∷ cs) h)
    ]

-- What happens to the notifier: an alert comes, or a message goes out or fails.
pub data Event : Type 0 where
  alerted : ℕ → Alert → Event
  tried : ℕ → Bool → Event

abbrev pub tell_chat : ℕ → Bool → Notifier × List Change → Notifier
tell_chat now delivered (n, []) = n
tell_chat now delivered (n, c ∷ cs) =
    if delivered then mark_sent now (c ∷ cs) n else mark_failed now n

abbrev pub apply_event : Event → Notifier → Notifier
apply_event (alerted now a) n = add_alert a now n
apply_event (tried now delivered) n = tell_chat now delivered (take_due now n)

abbrev pub run : List Event → Notifier → Notifier
run [] n = n
run (e ∷ es) n = run es (apply_event e n)

pending-send_due :
    (now : ℕ) (cs : List Change) (n : Notifier) → (send_due now cs n).0.pending ≡ n.pending
unfolding send_due
pending-send_due now [] n = refl
pending-send_due now (c ∷ cs) n = refl

tell_chat-AreNamed :
    (now : ℕ) (delivered : Bool) (x : Notifier × List Change)
    → AreNamed x.0.pending
    → AreNamed (tell_chat now delivered x).pending
unfolding mark_sent
tell_chat-AreNamed now delivered (n, []) h = h
tell_chat-AreNamed now true (n, c ∷ cs) h = drop_sent-AreNamed (c ∷ cs) n.pending h
tell_chat-AreNamed now false (n, c ∷ cs) h = h

take_due-AreNamed :
    (now : ℕ) (n : Notifier) → AreNamed n.pending → AreNamed (take_due now n).0.pending
unfolding take_due tidied
take_due-AreNamed now n h =
    rw (pending-send_due now (due_changes now n.reported n.pending) (tidied now n)) (
      retain-AreNamed (λ name c. not (is_known (judge now c (lookup name n.reported)))) n.pending h)

run-AreNamed : (es : List Event) (n : Notifier) → AreNamed n.pending → AreNamed (run es n).pending
unfolding add_alert
run-AreNamed [] n h = h
run-AreNamed (alerted now a ∷ es) n h =
    run-AreNamed es (add_alert a now n) (add_changes-AreNamed a.changes n.pending h)
run-AreNamed (tried now delivered ∷ es) n h =
    run-AreNamed es (tell_chat now delivered (take_due now n))
      (tell_chat-AreNamed now delivered (take_due now n) (take_due-AreNamed now n h))

-- After any alerts and messages, a change in a message is not what the notifier remembers that the chat
-- was told last of its ASIC; it forgets an ASIC that is online and was quiet for an hour. An ASIC of
-- which two messages went out within the hour waits a quarter of an hour after the last; and a message
-- waits for the gap after the last one, and for others to join.
pub message-Tells :
    (es : List Event) (n : Notifier) (now : ℕ)
    → AreNamed n.pending
    → let m = run es n in
      All (Tells now m.reported) (take_due now m).1 × IsTimely now m (take_due now m).1
unfolding take_due tidied
message-Tells es n now h =
    let m = run es n in
    let ds = due_changes now m.reported m.pending in
    (
      send_due-Tells now m.reported ds (tidied now m)
          (due_changes-Tells now m.reported m.pending (run-AreNamed es n h)),
      same_times (send_due now ds (tidied now m)).1 (send_due-IsTimely now ds (tidied now m)),
    )
  where
    same_times :
        (xs : List Change) → IsTimely now (tidied now (run es n)) xs → IsTimely now (run es n) xs
    same_times [] k = tt
    same_times (x ∷ xs) k = k
