-- ===== src/Notifier/Told.antt =====
-- What a message tells, by what the chat was told before (internal/telegram/notifier.go).
use simple_mining_proxy.Base.{ℕ, Bool, ◌||◌, not, Text, Map, length, is_some, lookup, Unique, ◌==◌}
use simple_mining_proxy.Monitor.{Change}
use simple_mining_proxy.Notifier.{Reported, Notifier, recent_times}
use simple_mining_proxy.Notifier.Heard.{Heard, Known}

-- The notifier remembers enough of what the chat has heard.
abbrev Remembers : ℕ → Heard → Map Reported → Type 0
Remembers now g m = Unique m × ((k : Text) → Known now (lookup k g) (lookup k m))

abbrev stays : ℕ → Map Change → Text → Reported → Bool
stays now pending name r =
    is_some (lookup name pending) || (not (length (recent_times now r.times) == 0) || not r.online)
