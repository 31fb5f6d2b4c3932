-- ===== src/Stats/Tests.antt =====
-- Runs of internal/stats/stats.go on concrete shares.
use simple_mining_proxy.Base.{ℕ, ◌*◌, ◌/◌, ◌≡◌, refl, false, List, [], ◌∷◌, txt, arith}
use simple_mining_proxy.Stats.{new_rate, new_collector, share, window_sum, bucket_len}
use simple_mining_proxy.Stats.Window.{Accepted, add_shares, recent_diff, window_exact}
use simple_mining_proxy.Stats.Sums.{
  IsBalanced, IsCounted, new_collector-IsBalanced, share-IsBalanced,
}

abbrev minute : ℕ
minute = 60000000000

abbrev sent : List Accepted
sent =
    record { at = 5 * minute; diff = 7 }
    ∷ record { at = 9 * minute; diff = 100 }
    ∷ record { at = 16 * minute; diff = 30 }
    ∷ []

sent_recent : recent_diff (18 * minute) sent ≡ 130
sent_recent = refl

window_exact_example :
    window_sum (18 * minute / bucket_len) (add_shares sent (new_rate (2 * minute))).buckets
    ≡ recent_diff (18 * minute) sent
window_exact_example = window_exact sent (2 * minute) (18 * minute) (ground arith)

share-IsBalanced_example :
    IsCounted
      (txt "a")
      (txt "rig")
      false
      8
      (new_collector 10)
      (share (txt "a") (txt "rig") false 8 (txt "stale") 40 (new_collector 10))
    × IsBalanced (share (txt "a") (txt "rig") false 8 (txt "stale") 40 (new_collector 10))
share-IsBalanced_example =
    share-IsBalanced (txt "a") (txt "rig") false 8 (txt "stale") 40 (new_collector 10)
      (new_collector-IsBalanced 10)
