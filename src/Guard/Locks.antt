-- ===== src/Guard/Locks.antt =====
-- How long an address is locked out (internal/admin/guard.go).
use simple_mining_proxy.Base.{ℕ, zero, suc, ◌*◌, ◌^◌, min, ◌≡◌, refl, ap, sym, ◌∙◌, arith}
use simple_mining_proxy.Guard.{lock_duration, ip_lock_base, ip_lock_max}

min_ten : (n : ℕ) → min (suc (suc (suc (suc (suc (suc (suc (suc (suc (suc n)))))))))) 10 ≡ 10
min_ten n = omega arith

longest : (n : ℕ) → lock_duration (suc (suc (suc (suc (suc (suc (suc n))))))) ≡ ip_lock_max
unfolding lock_duration
longest zero = refl
longest (suc zero) = refl
longest (suc (suc zero)) = refl
longest (suc (suc (suc n))) = ap (λ k. min (ip_lock_base * 2 ^ k) ip_lock_max) (min_ten n)

doubles : (locks : ℕ) → lock_duration (suc locks) ≡ min (2 * lock_duration locks) ip_lock_max
unfolding lock_duration
doubles zero = refl
doubles (suc zero) = refl
doubles (suc (suc zero)) = refl
doubles (suc (suc (suc zero))) = refl
doubles (suc (suc (suc (suc zero)))) = refl
doubles (suc (suc (suc (suc (suc zero))))) = refl
doubles (suc (suc (suc (suc (suc (suc zero)))))) = refl
doubles (suc (suc (suc (suc (suc (suc (suc n))))))) =
    longest (suc n) ∙ ap (λ d. min (2 * d) ip_lock_max) (sym (longest n))

-- The first lock takes fifteen minutes, each further one twice as long, up to a day.
pub lock_duration_doubles :
    (lock_duration 0 ≡ ip_lock_base)
    × ((locks : ℕ) → lock_duration (suc locks) ≡ min (2 * lock_duration locks) ip_lock_max)
unfolding lock_duration
lock_duration_doubles = (refl, λ locks. doubles locks)
