-- ===== src/Health.antt =====
-- internal/pool/health.go: the state of the health checks. Times are nanoseconds since Go's zero
-- time, which is 0, and durations are nanoseconds; the clock does not go back.
pub mod Updates
pub mod Refresh
pub mod Record
pub mod DialOrder
pub mod Forget
pub mod Probes
pub mod Versions
pub mod Stale
pub mod Median
pub mod Hysteresis
pub mod Choice
pub mod Ordered
mod Tests
use simple_mining_proxy.Base.{ℕ, ◌*◌, List, ◌++◌, Text, txt, Map, to_lower}
use simple_mining_proxy.State.{Address, addr_string}

abbrev pub Time : Type 0
Time = ℕ

abbrev pub millisecond : ℕ
millisecond = 1000000

abbrev pub second : ℕ
second = 1000000000

pub data Status : Type 0 where
  unknown up down : Status

abbrev pub probe_fails_to_down : ℕ
probe_fails_to_down = 2

abbrev pub dial_fails_to_down : ℕ
dial_fails_to_down = 3

abbrev pub probe_oks_to_up : ℕ
probe_oks_to_up = 2

abbrev pub rtt_samples : ℕ
rtt_samples = 5

abbrev pub switch_min_gain : ℕ
switch_min_gain = 5 * millisecond

-- The health of one address; `rtt` is 0 until it is measured.
pub record AddrHealth : Type 0 where
  pub status : Status
  pub probe_fails : ℕ
  pub probe_oks : ℕ
  pub dial_fails : ℕ
  pub last_check : Time
  pub last_error : Text
  pub up_since : Time
  pub samples : List ℕ
  pub rtt : ℕ

pub record PoolHealth : Type 0 where
  pub status : Status
  pub up_since : Time
  pub preferred : Text

-- The maps of `Manager` under `hmu`.
pub record Health : Type 0 where
  pub addrs : Map AddrHealth
  pub pools : Map PoolHealth
  pub versions : Map ℕ

unfoldable pub addr_key : Text → Address → Text
addr_key pool_id a = pool_id ++ (txt "|" ++ to_lower (addr_string a))
