-- ===== src/Session/Upstream.antt =====
-- internal/session/session.go: what a session does with a message of the pool, and its deadlines.
use simple_mining_proxy.Base.{
  ℕ, ◌+◌, Bool, true, false, ◌&&◌, not, Option, none, some, List, [], ◌∷◌, ◌++◌, Text, txt, take,
  length, ltb, leb, ◌==◌, if◌then◌else◌, same, lookup, delete,
}
use simple_mining_proxy.Stats.{Collector, add_rate, share}
use simple_mining_proxy.Stratum.{id_key, is_null, trim_space}
use simple_mining_proxy.Session.{
  Param, text, number, null, other, Message, string_first, SubmitInfo, AuthInfo, Session,
  SessionError, pool_reconnect, authorization_rejected, job_timeout, unreadable, max_difficulty,
}

-- A session and the collector of the server.
pub record Relay : Type 0 where
  pub session : Session
  pub stats : Collector

-- Whether the line goes on to the miner, as it is, and why the session ends, if it does.
pub record Reply : Type 0 where
  pub forwarded : Bool
  pub error : Option SessionError

abbrev pub passed : Reply
passed = record { forwarded = true; error = none }

-- `ResultTrue`
abbrev pub result_true : Text → Bool
result_true raw = same (trim_space raw) (txt "true")

-- What the code reads of the JSON libraries: a number in a string, and the reason in an error.
pub record Decoding : Type 0 where
  pub parse_float : Text → Option ℕ
  pub error_reason : Text → Text

-- `NumberAt` of the first element.
abbrev pub number_first : Decoding → List Param → Option ℕ
number_first d [] = none
number_first d (number n ∷ ps) = some n
number_first d (null ∷ ps) = some 0
number_first d (text t ∷ ps) = d.parse_float t
number_first d (other t ∷ ps) = none

abbrev pub set_difficulty : Option ℕ → Session → Session
set_difficulty none s = s
set_difficulty (some n) s =
    if ltb 0 n && leb n max_difficulty then record s { difficulty = n } else s

abbrev pub params_of : Option (List Param) → List Param
params_of none = []
params_of (some ps) = ps

abbrev pub is_named : Option Text → Bool
is_named none = false
is_named (some []) = false
is_named (some (c ∷ t)) = true

-- `IsJob` after its test of the method: nine parameters, and a job id that is not empty.
abbrev pub is_job : List Param → Bool
is_job ps = leb 9 (length ps) && is_named (string_first ps)

-- `compact`; the ellipsis is three bytes.
abbrev pub compact : Text → Text
compact raw = if ltb 200 (length raw) then take 200 raw ++ 226 ∷ 128 ∷ 166 ∷ [] else raw

module _ (d : Decoding) (now : ℕ) where
  abbrev pub accepted_answer : Message → Bool
  accepted_answer msg = result_true msg.result && is_null msg.error

  -- The answer to a share of which the session knows.
  unfoldable pub answer_submit : Message → SubmitInfo → Relay → Relay
  unfolding add_rate share
  answer_submit msg sub r =
      let s = r.session in
      let accepted = accepted_answer msg in
      record {
        session =
            if accepted
            then record s {
              accepted = s.accepted + 1;
              last_share = now;
              rate = add_rate sub.diff now s.rate;
            }
            else record s { rejected = s.rejected + 1 };
        stats =
            share s.pool_id sub.worker accepted sub.diff
              (if accepted then [] else d.error_reason msg.error) now r.stats;
      }

  abbrev pub failure_reason : Message → Text
  failure_reason msg =
      let reason = d.error_reason msg.error in
      if same reason [] then txt "result " ++ compact msg.result else reason

  -- The answer to an authorization of which the session knows.
  unfoldable pub answer_auth : Message → AuthInfo → Session → Session × Reply
  answer_auth msg auth s =
      if not (accepted_answer msg)
      then (
        s,
        record {
          forwarded = true;
          error = some (authorization_rejected auth.user (failure_reason msg));
        },
      )
      else (if s.authorized_at == 0 then record s { authorized_at = now } else s, passed)

  -- An answer with the key: to a share first, then to an authorization.
  unfoldable pub answer :
      Message → Text → Option SubmitInfo → Option AuthInfo → Relay → Relay × Reply
  unfolding answer_submit answer_auth
  answer msg key (some sub) auth r = (
    answer_submit msg sub (record r {
      session = record r.session { pending_submit = delete key r.session.pending_submit };
    }),
    passed,
  )
  answer msg key none (some auth) r =
      let (s, reply) =
        answer_auth msg auth
          (record r.session { pending_auth = delete key r.session.pending_auth }) in
      (record r { session = s }, reply)
  answer msg key none none r = (r, passed)

  -- A message with a method.
  unfoldable pub notified : Message → Session → Session × Reply
  notified msg s =
      if same msg.method (txt "mining.set_difficulty")
      then (set_difficulty (number_first d (params_of msg.params)) s, passed)
      else if same msg.method (txt "mining.notify")
      then (if is_job (params_of msg.params) then record s { last_job = now } else s, passed)
      else if same msg.method (txt "client.reconnect")
      then (s, record { forwarded = false; error = some pool_reconnect })
      else (s, passed)

  -- `markPoolActivity` and `fromPool`; `none` is a line that is no JSON object.
  unfoldable pub from_pool : Option Message → Relay → Relay × Reply
  unfolding answer notified
  from_pool none r = (
    record {
      session = record r.session { last_pool_activity = now };
      stats = record r.stats { upstream_junk = r.stats.upstream_junk + 1 };
    },
    passed,
  )
  from_pool (some msg) r =
      let r = record r { session = record r.session { last_pool_activity = now } } in
      let key = id_key msg.id in
      let (s, reply) = notified msg r.session in
      if not (same msg.method [])
      then (record r { session = s }, reply)
      else if same key []
      then (r, passed)
      else answer msg key (lookup key r.session.pending_submit) (lookup key r.session.pending_auth)
          r

-- `jobBaseLocked`
unfoldable pub job_base : Session → ℕ
job_base s =
    if s.authorized_at == 0
    then 0
    else if ltb s.authorized_at s.last_job
    then s.last_job
    else s.authorized_at

-- `poolDeadlineLocked` for the two timeouts of the settings.
unfoldable pub pool_deadline : ℕ → ℕ → Session → ℕ
unfolding job_base
pool_deadline job_wait idle_wait s =
    if not (job_base s == 0) then job_base s + job_wait else s.last_pool_activity + idle_wait

-- `jobTimedOut`
unfoldable pub job_timed_out : ℕ → ℕ → Session → Bool
unfolding job_base
job_timed_out job_wait now s = not (job_base s == 0) && leb (job_base s + job_wait) now

-- What the read of a round of `poolLoop` gives.
pub data Read : Type 0 where
  line : Option Message → Read
  expired failed : Read

-- How a round ends: the loop goes on, or the session ends with an error, reported to the manager or
-- not.
pub data Round : Type 0 where
  again : Round
  ended : SessionError → Option SessionError → Round

-- `reportFailure`: only failures of the pool, and none once the session is closed.
abbrev pub reported : Session → SessionError → Option SessionError
reported s (authorization_rejected user reason) =
    if s.closed then none else some (authorization_rejected user reason)
reported s job_timeout = if s.closed then none else some job_timeout
reported s e = none

abbrev pub round_end : Session → Option SessionError → Round
round_end s none = again
round_end s (some e) = ended e (reported s e)

-- A round of `poolLoop`, where the write to the miner works; `start` is the time at its head and
-- `now` the time after the read.
unfoldable pub pool_round : Decoding → ℕ → ℕ → ℕ → Read → Relay → Relay × Round
unfolding job_timed_out from_pool
pool_round d job_wait start now (line msg) r =
    let (r', reply) = from_pool d now msg r in
    if job_timed_out job_wait start r.session
    then (r, ended job_timeout (reported r.session job_timeout))
    else (r', round_end r'.session reply.error)
pool_round d job_wait start now expired r =
    if job_timed_out job_wait start r.session
    then (r, ended job_timeout (reported r.session job_timeout))
    else if job_timed_out job_wait now r.session
    then (r, again)
    else (r, ended unreadable none)
pool_round d job_wait start now failed r =
    if job_timed_out job_wait start r.session
    then (r, ended job_timeout (reported r.session job_timeout))
    else (r, ended unreadable none)
