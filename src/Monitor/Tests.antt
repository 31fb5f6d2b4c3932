-- ===== src/Monitor/Tests.antt =====
-- Runs of internal/monitor/monitor.go on concrete sessions.
use simple_mining_proxy.Base.{◌*◌, true, false, some, [], ◌∷◌, txt}
use simple_mining_proxy.Monitor.{Info, Worker, Monitor, check, second}
use simple_mining_proxy.Monitor.Alerts.{Totals, check-Totals}

abbrev silent_worker : Worker
silent_worker = record {
  last_share = 1000 * second;
  offline = false;
  pool = txt "Alpha";
  hashrate = 0;
  current = 0;
  difficulty = 0;
}

abbrev watching : Monitor
watching = record {
  started = 500 * second;
  workers =
      (txt "rig1", silent_worker) ∷ (txt "rig2", record silent_worker { offline = true }) ∷ [];
  dirty = false;
  saved_at = 900 * second;
}

abbrev live_session : Info
live_session = record {
  worker = txt "rig2";
  last_submit = some (1990 * second);
  pool_name = txt "Alpha";
  hashrate = 90;
  connected_at = 100 * second;
  difficulty = 8;
}

check-Totals_example :
    Totals
      (300 * second)
      (2000 * second)
      (check (300 * second) (2000 * second) (live_session ∷ []) watching).alert
      (check (300 * second) (2000 * second) (live_session ∷ []) watching).monitor
check-Totals_example = check-Totals (300 * second) (2000 * second) (live_session ∷ []) watching
