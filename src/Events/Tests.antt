-- ===== src/Events/Tests.antt =====
-- A log of two events, and a throttled warning (internal/events/events.go).
use simple_mining_proxy.Base.{ℕ, ◌≡◌, refl, List, [], ◌∷◌, txt, take, filter, arith, map}
use simple_mining_proxy.Events.{Level, info, warn, new_log, add_event, list_from, list_at}
use simple_mining_proxy.Events.Ring.{passes}
use simple_mining_proxy.Events.Listed.{Report, add_all, history, limited, list_at_newest}

abbrev report : Level → ℕ → Report
report level time = record { level = level; time = time; type = txt "t"; message = txt "m" }

abbrev reports : List Report
reports = report warn 1 ∷ report info 2 ∷ report warn 3 ∷ []

newest_two : map (λ e. e.seq) (list_at 0 info (add_all reports (new_log 2))) ≡ 3 ∷ 2 ∷ []
unfolding list_at list_from add_all add_event new_log
newest_two = refl

list_at_newest_example :
    list_at 1 warn (add_all reports (new_log 2))
    ≡ limited 1 (filter (passes warn) (take 2 (history reports [])))
list_at_newest_example = list_at_newest 2 1 warn reports (omega arith)
