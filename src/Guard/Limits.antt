-- ===== src/Guard/Limits.antt =====
-- The limits of a single attempt (internal/admin/guard.go).
use simple_mining_proxy.Base.{
  ℕ, zero, suc, ◌-◌, ◌≤◌, ◌<◌, ◌≡◌, Bool, true, List, [], ◌∷◌, Text, Map, length, length-append,
  arith, lookup, insert, delete, retain,
}
use simple_mining_proxy.Guard.{
  Guard, IpRecord, recent, attempt, save, wrong, prune, record_of, global_fail_window,
  ip_fail_window, refresh_all, is_kept, drop_first, by_last, max_guard_ips,
}

-- A blocked attempt is not checked: its outcome is the same for any password, and it changes
-- neither what is known of the addresses nor the file.
pub blocked_unchecked :
    (ip : Text) (now : ℕ) (verified other written : Bool) (g : Guard)
    → (attempt ip now verified written g).1.blocked ≡ true
    → (attempt ip now other written g ≡ attempt ip now verified written g)
      × (((attempt ip now verified written g).0.ips ≡ g.ips)
          × ((attempt ip now verified written g).0.file ≡ g.file))
unfolding attempt
blocked_unchecked ip now verified other written g b = ground arith

length-recent-le : (ts : List ℕ) (now w : ℕ) → length (recent ts now w) ≤ length ts
unfolding recent
length-recent-le [] now w = omega arith
length-recent-le (t ∷ ts) now w = ground (arith, length-recent-le ts now w)

abbrev pub FewFails : Map IpRecord → Type 0
FewFails [] = Unit
FewFails ((ip, r) ∷ m) = (length r.fails < 5) × FewFails m

-- No address has five failures that count without being locked, and all of them together have at
-- most a hundred.
pub record IsBounded (g : Guard) : Type 0 where
  pub few_fails : FewFails g.ips
  pub few_global : length g.global ≤ 100

refresh_all-FewFails : (now : ℕ) (m : Map IpRecord) → FewFails m → FewFails (refresh_all now m)
unfolding refresh_all
refresh_all-FewFails now [] h = tt
refresh_all-FewFails now ((ip, r) ∷ m) h = (
  omega (arith, length-recent-le r.fails now ip_fail_window, h.0),
  refresh_all-FewFails now m h.1,
)

retain-FewFails :
    (p : Text → IpRecord → Bool) (m : Map IpRecord) → FewFails m → FewFails (retain p m)
unfolding retain
retain-FewFails p [] h = tt
retain-FewFails p ((ip, r) ∷ m) h = ground (arith, retain-FewFails p m h.1)

delete-FewFails : (ip : Text) (m : Map IpRecord) → FewFails m → FewFails (delete ip m)
unfolding delete
delete-FewFails ip [] h = tt
delete-FewFails ip ((j, r) ∷ m) h = ground (arith, delete-FewFails ip m h.1)

insert-FewFails :
    (ip : Text) (r : IpRecord) (m : Map IpRecord)
    → length r.fails < 5
    → FewFails m
    → FewFails (insert ip r m)
unfolding insert
insert-FewFails ip r [] l h = (l, tt)
insert-FewFails ip r ((j, s) ∷ m) l h = ground (arith, insert-FewFails ip r m l h.1)

drop_first-FewFails :
    (n : ℕ) (es : List (Text × ℕ)) (m : Map IpRecord) → FewFails m → FewFails (drop_first n es m)
unfolding drop_first
drop_first-FewFails zero es m h = h
drop_first-FewFails (suc n) [] m h = h
drop_first-FewFails (suc n) (e ∷ es) m h =
    drop_first-FewFails n es (delete e.0 m) (delete-FewFails e.0 m h)

prune-FewFails : (now : ℕ) (m : Map IpRecord) → FewFails m → FewFails (prune now m)
unfolding prune
prune-FewFails now m h =
    let kept = retain (is_kept now) (refresh_all now m) in
    let few = retain-FewFails (is_kept now) (refresh_all now m) (refresh_all-FewFails now m h) in
    ground (arith, drop_first-FewFails (length kept - max_guard_ips) (by_last kept) kept few)

wrong-few : (now : ℕ) (r : IpRecord) → length (wrong now r).0.fails < 5
unfolding wrong
wrong-few now r = ground arith

-- Every attempt keeps the bounds.
pub attempt-IsBounded :
    (ip : Text) (now : ℕ) (verified written : Bool) (g : Guard)
    → IsBounded g
    → IsBounded (attempt ip now verified written g).0
unfolding attempt save
attempt-IsBounded ip now verified written g v =
    let f = wrong now (record_of (lookup ip g.ips)) in
    let s = length-recent-le g.global now global_fail_window in
    ground (
      arith,
      s,
      v.few_fails,
      v.few_global,
      delete-FewFails ip g.ips v.few_fails,
      prune-FewFails now (insert ip f.0 g.ips)
          (insert-FewFails ip f.0 g.ips (wrong-few now (record_of (lookup ip g.ips))) v.few_fails),
      length-append (recent g.global now global_fail_window) (now ∷ []),
    )
