-- ===== src/Events/Throttle.antt =====
-- The size of the table of throttled keys (internal/events/events.go).
use simple_mining_proxy.Base.{
  ℕ, ◌+◌, ◌≤◌, Text, length, retain, length-insert-le, length-insert_old, length-retain-le, arith,
  leb,
}
use simple_mining_proxy.Events.{
  Log, add_event, add_throttled, max_throttle_keys, max_throttle_interval,
}

-- A flood of distinct warnings does not grow the table of throttled keys beyond a thousand.
pub throttled_bounded :
    (flood : ℕ → Text) (suppressed_type key : Text) (interval now : ℕ) (type message : Text)
    (l : Log)
    → length l.throttled ≤ max_throttle_keys
    → length (add_throttled flood suppressed_type key interval now type message l).throttled
      ≤ max_throttle_keys
unfolding add_throttled add_event
throttled_bounded flood suppressed_type key interval now type message l h =
    let kept = retain (λ k t. leb now (t + max_throttle_interval)) l.throttled in
    ground (
      arith,
      length-retain-le (λ k t. leb now (t + max_throttle_interval)) l.throttled,
      length-insert-le key now l.throttled,
      length-insert-le key now kept,
      length-insert_old key now l.throttled,
    )
