-- ===== src/Listener/Counts.antt =====
-- The counters of the limits against the connections (internal/listener/listener.go).
use simple_mining_proxy.Base.{
  ℕ, zero, suc, ◌+◌, ◌-◌, ◌≤◌, ◌<◌, ◌≡◌, refl, sym, ◌∙◌, Bool, Bool-cases, inl, inr, true, false,
  Option, none, some, List, [], ◌∷◌, Text, Map, arith, if◌then◌else◌, same, text_eq, lookup,
  lookup-insert, lookup-delete,
}
use simple_mining_proxy.Stats.{counter}
use simple_mining_proxy.Listener.{
  Bounds, Phase, waiting, talking, leaving, Conn, Limits, is_full, acquire, nth, set_phase,
  remove_at, done_at, leave_at, drop_ip, forget_at, Step, connect, first_done, leave, forget,
  on_conn, step, steps,
}

abbrev pub is_waiting : Conn → Bool
is_waiting c = elim c.phase [ waiting ↦ true | talking ↦ false | leaving ↦ false ]

abbrev pub is_counted : Conn → Bool
is_counted c = elim c.phase [ waiting ↦ true | talking ↦ true | leaving ↦ false ]

abbrev pub count : (Conn → Bool) → List Conn → ℕ
count p [] = 0
count p (c ∷ cs) = (if p c then 1 else 0) + count p cs

-- The counters are exact.
pub record IsExact (l : Limits) : Type 0 where
  pub total : l.total ≡ count is_counted l.conns
  pub pending : l.pending ≡ count is_waiting l.conns
  pub per_ip : (ip : Text) → counter (lookup ip l.per_ip) ≡ count (λ c. same c.ip ip) l.conns

-- The limits hold.
pub record IsWithin (b : Bounds) (l : Limits) : Type 0 where
  pub total : l.total ≤ b.max_connections
  pub pending : l.pending ≤ b.max_pending
  pub per_ip : 0 < b.max_per_ip → (ip : Text) → counter (lookup ip l.per_ip) ≤ b.max_per_ip

count-set_phase :
    (p : Conn → Bool) (n : ℕ) (q : Phase) (cs : List Conn) (c : Conn)
    → nth n cs ≡ some c
    → count p (set_phase n q cs) + (if p c then 1 else 0)
      ≡ count p cs + (if p (record c { phase = q }) then 1 else 0)
count-set_phase p n q [] c e = ground arith
count-set_phase p zero q (d ∷ cs) c e = ground arith
count-set_phase p (suc n) q (d ∷ cs) c e = omega (arith, count-set_phase p n q cs c e)

count-remove_at :
    (p : Conn → Bool) (n : ℕ) (cs : List Conn) (c : Conn)
    → nth n cs ≡ some c
    → count p (remove_at n cs) + (if p c then 1 else 0) ≡ count p cs
count-remove_at p n [] c e = ground arith
count-remove_at p zero (d ∷ cs) c e = ground arith
count-remove_at p (suc n) (d ∷ cs) c e = omega (arith, count-remove_at p n cs c e)

counter-drop_ip :
    (ip j : Text) (m : Map ℕ)
    → counter (lookup j (drop_ip ip m)) ≡ counter (lookup j m) - (if same ip j then 1 else 0)
counter-drop_ip ip j m =
    let n = counter (lookup ip m) in
    elim (text_eq ip j) [
      | yes y ↦ ground (arith, y, lookup-delete ip j m, lookup-insert ip j (n - 1) m)
      | no k ↦ ground (arith, k, lookup-delete ip j m, lookup-insert ip j (n - 1) m)
    ]

module _ (b : Bounds) where
  abbrev pub IsSound : Limits → Type 0
  IsSound l = IsExact l × IsWithin b l

  acquire-IsSound : (ip : Text) (l : Limits) → IsSound l → IsSound (acquire b ip l)
  unfolding acquire is_full
  acquire-IsSound ip l h =
      let n = counter (lookup ip l.per_ip) + 1 in
      elim (Bool-cases (is_full b ip l)) [
        | inl t ↦ rw t h
        | inr f ↦ rw f (
          record {
            total = omega (arith, h.0.total);
            pending = omega (arith, h.0.pending);
            per_ip = λ j. ground (arith, h.0.per_ip j, lookup-insert ip j n l.per_ip, text_eq ip j);
          },
          record {
            total = ground arith;
            pending = ground arith;
            per_ip =
                λ q j. ground (arith, h.1.per_ip q j, lookup-insert ip j n l.per_ip, text_eq ip j);
          },
        )
      ]

  phase_at :
      (l : Limits) (n : ℕ) (c : Conn) (q : Phase)
      → nth n l.conns ≡ some c
      → (ip : Text)
      → count (λ d. same d.ip ip) (set_phase n q l.conns) ≡ count (λ d. same d.ip ip) l.conns
  phase_at l n c q e ip = omega (arith, count-set_phase (λ d. same d.ip ip) n q l.conns c e)

  done_at-IsSound :
      (n : ℕ) (l : Limits) (c : Conn) (p : Phase)
      → nth n l.conns ≡ some c
      → c.phase ≡ p
      → IsSound l
      → IsSound (done_at n p l)
  done_at-IsSound n l c waiting e q h =
      let w = count-set_phase is_waiting n talking l.conns c e in
      let t = count-set_phase is_counted n talking l.conns c e in
      (
        record {
          total = ground (arith, t, q, h.0.total);
          pending = ground (arith, w, q, h.0.pending);
          per_ip = λ ip. h.0.per_ip ip ∙ sym (phase_at l n c talking e ip);
        },
        record { total = h.1.total; pending = omega (arith, h.1.pending); per_ip = h.1.per_ip },
      )
  done_at-IsSound n l c talking e q h = h
  done_at-IsSound n l c leaving e q h = h

  leave_at-IsSound :
      (n : ℕ) (l : Limits) (c : Conn) (p : Phase)
      → nth n l.conns ≡ some c
      → c.phase ≡ p
      → IsSound l
      → IsSound (leave_at n p l)
  leave_at-IsSound n l c waiting e q h =
      let w = count-set_phase is_waiting n leaving l.conns c e in
      let t = count-set_phase is_counted n leaving l.conns c e in
      (
        record {
          total = ground (arith, t, q, h.0.total);
          pending = ground (arith, w, q, h.0.pending);
          per_ip = λ ip. h.0.per_ip ip ∙ sym (phase_at l n c leaving e ip);
        },
        record {
          total = omega (arith, h.1.total);
          pending = omega (arith, h.1.pending);
          per_ip = h.1.per_ip;
        },
      )
  leave_at-IsSound n l c talking e q h =
      let w = count-set_phase is_waiting n leaving l.conns c e in
      let t = count-set_phase is_counted n leaving l.conns c e in
      (
        record {
          total = ground (arith, t, q, h.0.total);
          pending = ground (arith, w, q, h.0.pending);
          per_ip = λ ip. h.0.per_ip ip ∙ sym (phase_at l n c leaving e ip);
        },
        record { total = omega (arith, h.1.total); pending = h.1.pending; per_ip = h.1.per_ip },
      )
  leave_at-IsSound n l c leaving e q h = h

  forget_at-IsSound :
      (n : ℕ) (l : Limits) (c : Conn) (p : Phase)
      → nth n l.conns ≡ some c
      → c.phase ≡ p
      → IsSound l
      → IsSound (forget_at n c p l)
  forget_at-IsSound n l c waiting e q h = h
  forget_at-IsSound n l c talking e q h = h
  forget_at-IsSound n l c leaving e q h = (
    record {
      total = ground (arith, count-remove_at is_counted n l.conns c e, q, h.0.total);
      pending = ground (arith, count-remove_at is_waiting n l.conns c e, q, h.0.pending);
      per_ip = λ ip. omega (
        arith,
        counter-drop_ip c.ip ip l.per_ip,
        count-remove_at (λ d. same d.ip ip) n l.conns c e,
        h.0.per_ip ip,
      );
    },
    record {
      total = h.1.total;
      pending = h.1.pending;
      per_ip = λ q ip. omega (arith, counter-drop_ip c.ip ip l.per_ip, h.1.per_ip q ip);
    },
  )

  on_conn-IsSound :
      (n : ℕ) (o : Option Conn) (l : Limits)
      → nth n l.conns ≡ o
      → IsSound l
      → (IsSound (on_conn (first_done n) o l) × IsSound (on_conn (leave n) o l))
        × IsSound (on_conn (forget n) o l)
  on_conn-IsSound n none l e h = ((h, h), h)
  on_conn-IsSound n (some c) l e h = (
    (done_at-IsSound n l c c.phase e refl h, leave_at-IsSound n l c c.phase e refl h),
    forget_at-IsSound n l c c.phase e refl h,
  )

  step-IsSound : (s : Step) (l : Limits) → IsSound l → IsSound (step b s l)
  unfolding step
  step-IsSound (connect ip) l h = acquire-IsSound ip l h
  step-IsSound (first_done n) l h = (on_conn-IsSound n (nth n l.conns) l refl h).0.0
  step-IsSound (leave n) l h = (on_conn-IsSound n (nth n l.conns) l refl h).0.1
  step-IsSound (forget n) l h = (on_conn-IsSound n (nth n l.conns) l refl h).1

-- However the goroutines of the connections take their turns, the counters are exactly the numbers of
-- connections: those not yet given back, those that wait for a first message, those of each address;
-- so no counter leaks or goes below zero, and no limit of the settings is ever exceeded.
pub steps-IsSound :
    (b : Bounds) (ss : List Step) (l : Limits) → IsSound b l → IsSound b (steps b ss l)
unfolding steps
steps-IsSound b [] l h = h
steps-IsSound b (s ∷ ss) l h = steps-IsSound b ss (step b s l) (step-IsSound b s l h)
