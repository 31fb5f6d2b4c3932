-- ===== src/Notifier/Tests.antt =====
-- Runs of internal/telegram/notifier.go on concrete alerts.
use simple_mining_proxy.Base.{ℕ, ◌*◌, true, false, List, [], ◌∷◌, Text, txt}
use simple_mining_proxy.Monitor.{Change, Alert}
use simple_mining_proxy.Notifier.News.{Event, alerted, tried}

abbrev second : ℕ
second = 1000000000

abbrev gone : Text → Change
gone name = record {
  name = name;
  online = false;
  last_share = 50 * second;
  away = 0;
  pool = txt "Alpha";
}

abbrev alert_of_two : Alert
alert_of_two = record {
  time = 100 * second;
  changes = gone (txt "rig1") ∷ gone (txt "rig2") ∷ [];
  online = 3;
  total = 5;
}

abbrev back_again : Alert
back_again = record alert_of_two { changes = record (gone (txt "rig1")) { online = true } ∷ [] }

abbrev events : List Event
events =
    alerted (100 * second) alert_of_two
    ∷ tried (115 * second) true
    ∷ alerted (120 * second) back_again
    ∷ []
