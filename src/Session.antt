-- ===== src/Session.antt =====
-- internal/session/session.go: the state of a session, and the messages that pass it. JSON is decoded
-- outside: a message is its fields, and a parameter is a string, a number, null or other raw JSON.
-- Difficulties are whole numbers; times are nanoseconds since Go's zero time.
pub mod Miner
pub mod Upstream
pub mod Runs
pub mod Bounds
pub mod Users
pub mod Accounts
pub mod Shares
pub mod Deadlines
mod Tests
use simple_mining_proxy.Base.{
  ℕ, ◌+◌, ◌*◌, ◌^◌, Bool, true, false, not, Option, none, some, List, [], ◌∷◌, Text, Map, ltb, leb,
  if◌then◌else◌, retain,
}
use simple_mining_proxy.Stats.{Rate, new_rate}
use simple_mining_proxy.Stratum.{Rewrite, rewrite_login}

abbrev pub second : ℕ
second = 1000000000

abbrev pub pending_max_age : ℕ
pending_max_age = 60 * second

abbrev pub sweep_interval : ℕ
sweep_interval = 10 * second

abbrev pub max_pending_ids : ℕ
max_pending_ids = 10000

abbrev pub max_pending_auth : ℕ
max_pending_auth = 128

abbrev pub max_tracked_login : ℕ
max_tracked_login = 128

abbrev pub max_login_len : ℕ
max_login_len = 256

abbrev pub max_difficulty : ℕ
max_difficulty = 10 ^ 30

pub data Param : Type 0 where
  text : Text → Param
  number : ℕ → Param
  null : Param
  other : Text → Param

-- A message and the length of its line; `params` is `none` where it is no array. The id, the result
-- and the error are raw JSON.
pub record Message : Type 0 where
  pub method : Text
  pub id : Text
  pub params : Option (List Param)
  pub result : Text
  pub error : Text
  pub length : ℕ

-- `StringAt` of the first element; null decodes to the empty string.
abbrev pub string_first : List Param → Option Text
string_first [] = none
string_first (text t ∷ ps) = some t
string_first (null ∷ ps) = some []
string_first (number n ∷ ps) = none
string_first (other t ∷ ps) = none

abbrev pub rest_of : List Param → List Param
rest_of [] = []
rest_of (p ∷ ps) = ps

-- The string at 1, the empty one where there is none.
abbrev pub string_or_empty : Option Text → Text
string_or_empty none = []
string_or_empty (some t) = t

pub record SubmitInfo : Type 0 where
  pub at : ℕ
  pub diff : ℕ
  pub worker : Text

pub record AuthInfo : Type 0 where
  pub at : ℕ
  pub user : Text

-- The session with the parts of `Upstream` that it uses; `closed` says whether `closeReason` is set.
pub record Session : Type 0 where
  pub pool_id : Text
  pub template : Text
  pub password : Text
  pub max_line : ℕ
  pub closed : Bool
  pub user_agent : Text
  pub worker : Text
  pub upstream_user : Text
  pub difficulty : ℕ
  pub accepted : ℕ
  pub rejected : ℕ
  pub last_share : ℕ
  pub last_submit : ℕ
  pub rate : Rate
  pub logins : Map Text
  pub pending_auth : Map AuthInfo
  pub pending_submit : Map SubmitInfo
  pub last_sweep : ℕ
  pub last_miner_activity : ℕ
  pub last_pool_activity : ℕ
  pub authorized_at : ℕ
  pub last_job : ℕ

-- The session that `Serve` makes for a pool.
unfoldable pub new_session : Text → Text → Text → ℕ → ℕ → Session
new_session pool_id template password max_line now = record {
  pool_id = pool_id;
  template = template;
  password = password;
  max_line = max_line;
  closed = false;
  user_agent = [];
  worker = [];
  upstream_user = [];
  difficulty = 0;
  accepted = 0;
  rejected = 0;
  last_share = 0;
  last_submit = 0;
  rate = new_rate now;
  logins = [];
  pending_auth = [];
  pending_submit = [];
  last_sweep = 0;
  last_miner_activity = now;
  last_pool_activity = now;
  authorized_at = 0;
  last_job = 0;
}

pub data SessionError : Type 0 where
  login_too_long : SessionError
  line_too_long : ℕ → SessionError
  pool_reconnect : SessionError
  authorization_rejected : Text → Text → SessionError
  job_timeout : SessionError
  unreadable : SessionError

-- `rewrite`
abbrev pub rewritten : Session → Text → Text → Rewrite
rewritten s login asic_password = rewrite_login login asic_password s.template s.password

-- `sweepLocked`
unfoldable pub sweep : ℕ → Session → Session
sweep now s = if ltb now (s.last_sweep + sweep_interval) then s else record s {
  last_sweep = now;
  pending_submit = retain (λ k v. leb now (v.at + pending_max_age)) s.pending_submit;
  pending_auth = retain (λ k v. leb now (v.at + pending_max_age)) s.pending_auth;
}
