-- ===== src/Session/Deadlines.antt =====
-- The deadlines of a session towards the pool (internal/session/session.go).
use simple_mining_proxy.Base.{ℕ, ◌+◌, ◌≤◌, ◌<◌, ◌≡◌, true, false, arith}
use simple_mining_proxy.Session.{Session}
use simple_mining_proxy.Session.Upstream.{job_base, pool_deadline, job_timed_out}

-- Before an authorization no job is late; after it a session without a job for longer than the wait
-- is late, from the time its deadline for reading passes.
pub job_timed_out_iff :
    (job_wait idle_wait now : ℕ) (s : Session)
    → (s.authorized_at ≡ 0 → job_timed_out job_wait now s ≡ false)
      × (0 < s.authorized_at
          → (job_timed_out job_wait now s ≡ true
              → (pool_deadline job_wait idle_wait s ≤ now)
                × ((s.authorized_at + job_wait ≤ now) × (s.last_job + job_wait ≤ now)))
            × ((s.authorized_at + job_wait ≤ now)
                → (s.last_job + job_wait ≤ now)
                → job_timed_out job_wait now s ≡ true))
unfolding job_timed_out pool_deadline job_base
job_timed_out_iff job_wait idle_wait now s = (
  λ e. ground arith,
  λ p. (λ t. (ground arith, (ground arith, ground arith)), λ a b. ground arith),
)
