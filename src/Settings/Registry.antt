-- ===== src/Settings/Registry.antt =====
-- internal/settings/registry.go: the table `Defs`, its defaults and `crossCheck`.
use simple_mining_proxy.Base.{
  ℕ, ◌*◌, Option, none, some, List, [], ◌∷◌, ◌++◌, Text, txt, ltb, leb, if◌then◌else◌, same,
}
use simple_mining_proxy.Settings.{
  type_duration, type_int, type_enum, type_string, Applies, applies_immediately,
  applies_new_connections, applies_next_drain, duration, int, string, Values, amount, Pattern,
  worker_pattern, chats_pattern, Def,
}

abbrev pub sec : ℕ
sec = 1000000000

abbrev pub minute : ℕ
minute = 60 * sec

abbrev pub hour : ℕ
hour = 60 * minute

abbrev pub day : ℕ
day = 24 * hour

abbrev pub duration_def : Text → Text → ℕ → ℕ → ℕ → Applies → Def
duration_def key group default least most applies = record {
  key = key;
  group = group;
  kind = type_duration;
  unit = [];
  default = duration default;
  least = least;
  most = most;
  options = [];
  min_len = 0;
  max_len = 0;
  pattern = none;
  applies = applies;
}

abbrev pub int_def : Text → Text → Text → ℕ → ℕ → ℕ → Applies → Def
int_def key group unit default least most applies = record {
  key = key;
  group = group;
  kind = type_int;
  unit = unit;
  default = int default;
  least = least;
  most = most;
  options = [];
  min_len = 0;
  max_len = 0;
  pattern = none;
  applies = applies;
}

abbrev pub enum_def : Text → Text → Text → List Text → Applies → Def
enum_def key group default options applies = record {
  key = key;
  group = group;
  kind = type_enum;
  unit = [];
  default = string default;
  least = 0;
  most = 0;
  options = options;
  min_len = 0;
  max_len = 0;
  pattern = none;
  applies = applies;
}

abbrev pub string_def : Text → Text → Text → ℕ → ℕ → Pattern → Applies → Def
string_def key group default min_len max_len pattern applies = record {
  key = key;
  group = group;
  kind = type_string;
  unit = [];
  default = string default;
  least = 0;
  most = 0;
  options = [];
  min_len = min_len;
  max_len = max_len;
  pattern = some pattern;
  applies = applies;
}

-- `Defs`
unfoldable pub defs : List Def
defs =
    string_def (txt "test_worker") (txt "logins") (txt "proxytest") 1 32 worker_pattern
      applies_immediately
    ∷ duration_def (txt "switch_drain") (txt "switching") (10 * sec) (0) (300 * sec)
        applies_next_drain
    ∷ duration_def (txt "failback_delay") (txt "switching") (2 * minute) (30 * sec) (60 * minute)
        applies_immediately
    ∷ duration_def (txt "pool_probe_interval") (txt "switching") (30 * sec) (10 * sec) (10 * minute)
        applies_immediately
    ∷ enum_def (txt "profit_switch") (txt "profit") (txt "off")
        (txt "off" ∷ txt "advise" ∷ txt "auto" ∷ []) applies_immediately
    ∷ duration_def (txt "profit_interval") (txt "profit") (24 * hour) (1 * hour) (7 * day)
        applies_immediately
    ∷ int_def (txt "profit_margin") (txt "profit") (txt "%") 5 0 50 applies_immediately
    ∷ int_def (txt "profit_return_margin") (txt "profit") (txt "%") 1 0 50 applies_immediately
    ∷ enum_def (txt "timed_switch") (txt "timed") (txt "off") (txt "off" ∷ txt "on" ∷ [])
        applies_immediately
    ∷ duration_def (txt "timed_period") (txt "timed") (30 * minute) (10 * minute) (24 * hour)
        applies_immediately
    ∷ duration_def (txt "timed_duration") (txt "timed") (10 * minute) (1 * minute) (12 * hour)
        applies_immediately
    ∷ enum_def (txt "hunt_switch") (txt "hunt") (txt "off") (txt "off" ∷ txt "on" ∷ [])
        applies_immediately
    ∷ duration_def (txt "offline_after") (txt "alerts") (1 * minute) (30 * sec) (60 * minute)
        applies_immediately
    ∷ string_def (txt "telegram_chats") (txt "alerts") ([]) 0 200 chats_pattern applies_immediately
    ∷ enum_def (txt "telegram_language") (txt "alerts") (txt "en") (txt "en" ∷ txt "ru" ∷ [])
        applies_immediately
    ∷ duration_def (txt "tls_handshake_timeout") (txt "timeouts") (10 * sec) (1 * sec) (60 * sec)
        applies_new_connections
    ∷ duration_def (txt "first_message_timeout") (txt "timeouts") (15 * sec) (5 * sec) (120 * sec)
        applies_new_connections
    ∷ duration_def (txt "upstream_dial_timeout") (txt "timeouts") (5 * sec) (1 * sec) (30 * sec)
        applies_new_connections
    ∷ duration_def (txt "upstream_connect_budget") (txt "timeouts") (15 * sec) (5 * sec) (120 * sec)
        applies_new_connections
    ∷ duration_def (txt "miner_idle_timeout") (txt "timeouts") (10 * minute) (1 * minute)
        (60 * minute) applies_immediately
    ∷ duration_def (txt "upstream_idle_timeout") (txt "timeouts") (15 * minute) (1 * minute)
        (60 * minute) applies_immediately
    ∷ duration_def (txt "upstream_job_timeout") (txt "timeouts") (minute) (10 * sec) (60 * minute)
        applies_immediately
    ∷ int_def (txt "max_connections") (txt "limits") ([]) 5000 10 100000 applies_new_connections
    ∷ int_def (txt "max_pending_connections") (txt "limits") ([]) 500 10 10000
        applies_new_connections
    ∷ int_def (txt "max_conn_per_ip") (txt "limits") ([]) 0 0 100000 applies_new_connections
    ∷ int_def (txt "max_line_bytes") (txt "limits") (txt "KiB") 64 4 1024 applies_new_connections
    ∷ enum_def (txt "tls_min_version") (txt "tls") (txt "1.2")
        (txt "1.0" ∷ txt "1.1" ∷ txt "1.2" ∷ txt "1.3" ∷ []) applies_new_connections
    ∷ duration_def (txt "history_detail_retention") (txt "history") (7 * day) (1 * day) (90 * day)
        applies_immediately
    ∷ duration_def (txt "history_retention") (txt "history") (365 * day) (7 * day) (3650 * day)
        applies_immediately
    ∷ duration_def (txt "history_miner_retention") (txt "history") (90 * day) (7 * day) (3650 * day)
        applies_immediately
    ∷ enum_def (txt "log_level") (txt "logging") (txt "info")
        (txt "debug" ∷ txt "info" ∷ txt "warn" ∷ txt "error" ∷ []) applies_immediately
    ∷ []

unfoldable pub find_def : List Def → Text → Option Def
find_def [] k = none
find_def (d ∷ ds) k = if same d.key k then some d else find_def ds k

-- `byKey`
abbrev pub by_key : Text → Option Def
by_key = find_def defs

-- `Defaults`; under any other key the snapshot has nothing.
unfoldable pub defaults : Values
defaults k = elim (by_key k) [ none ↦ string [] | some d ↦ d.default ]

-- `apierr.Msg`: one constructor for each message.
pub data Msg : Type 0 where
  setting_duration setting_integer setting_string setting_spaces setting_pattern : Msg
  setting_option setting_length setting_range setting_unknown : Msg
  budget_below_dial job_above_idle pending_above_total return_above_margin : Msg
  duration_above_period history_below_detail : Msg

-- One check of two settings, by their keys: the first may not be below the second.
abbrev pub below : Text → Text → Text → Msg → Values → List (Text × Msg)
below small large key msg v =
    if ltb (amount (v small)) (amount (v large)) then (key, msg) ∷ [] else []

-- `crossCheck`
unfoldable pub cross_check : Values → List (Text × Msg)
cross_check v =
    below (txt "upstream_connect_budget") (txt "upstream_dial_timeout")
      (txt "upstream_connect_budget") budget_below_dial v
    ++ (below (txt "upstream_idle_timeout") (txt "upstream_job_timeout")
          (txt "upstream_job_timeout") job_above_idle v
        ++ (below (txt "max_connections") (txt "max_pending_connections")
              (txt "max_pending_connections") pending_above_total v
            ++ (below (txt "profit_margin") (txt "profit_return_margin")
                  (txt "profit_return_margin") return_above_margin v
                ++ ((if leb (amount (v (txt "timed_period"))) (amount (v (txt "timed_duration")))
                      then (txt "timed_duration", duration_above_period) ∷ []
                      else [])
                    ++ (below (txt "history_retention") (txt "history_detail_retention")
                          (txt "history_retention") history_below_detail v
                        ++ below (txt "history_miner_retention") (txt "history_detail_retention")
                            (txt "history_miner_retention") history_below_detail v)))))
