-- ===== src/Monitor/Alerts.antt =====
-- The totals of an alert against the list of ASICs (internal/monitor/monitor.go).
use simple_mining_proxy.Base.{
  ℕ, ◌+◌, ◌≡◌, refl, ◌∙◌, sym, Bool, Option, none, some, List, [], ◌∷◌, Map, length, arith, leb,
  if◌then◌else◌,
}
use simple_mining_proxy.Monitor.{
  Info, Change, Alert, Miner, Worker, Monitor, Live, Found, see_all, update_workers, judge_workers,
  start_grace, shown_before, insert_sorted, sort_by, alert_of, check, list_miners, miners,
}

-- How many of a list are online.
abbrev pub count_online : List Miner → ℕ
count_online [] = 0
count_online (x ∷ xs) = (if x.online then 1 else 0) + count_online xs

module _ (before : Miner → Miner → Bool) where
  insert_sorted_counts :
      (x : Miner) (xs : List Miner)
      → (count_online (insert_sorted before x xs) ≡ count_online (x ∷ xs))
        × (length (insert_sorted before x xs) ≡ length (x ∷ xs))
  unfolding insert_sorted
  insert_sorted_counts x [] = (refl, refl)
  insert_sorted_counts x (y ∷ ys) = ground (arith, insert_sorted_counts x ys)

  sort_by_counts :
      (xs : List Miner)
      → (count_online (sort_by before xs) ≡ count_online xs)
        × (length (sort_by before xs) ≡ length xs)
  unfolding sort_by
  sort_by_counts [] = (refl, refl)
  sort_by_counts (x ∷ xs) =
      ground (arith, sort_by_counts xs, insert_sorted_counts x (sort_by before xs))

module _ (base now : ℕ) where
  judge_counts :
      (judge : Bool) (seen : Map Live) (m : Map Worker) (cs : List Change)
      → let j = judge_workers base now judge seen m cs in
        (count_online (list_miners base now j.workers) ≡ j.online)
        × (length (list_miners base now j.workers) ≡ length j.workers)
  unfolding judge_workers list_miners
  judge_counts judge seen [] cs = (refl, refl)
  judge_counts judge seen ((name, w) ∷ m) cs = ground (arith, judge_counts judge seen m cs)

  -- What an alert says of the whole.
  abbrev pub Totals : Option Alert → Monitor → Type 0
  Totals none m = Unit
  Totals (some a) m =
      (a.online ≡ count_online (miners base now m)) × (a.total ≡ length (miners base now m))

  alert-Totals :
      (cs : List Change) (m : Monitor) (online total : ℕ)
      → count_online (miners base now m) ≡ online
      → length (miners base now m) ≡ total
      → Totals (alert_of now cs online total) m
  alert-Totals [] m online total a b = tt
  alert-Totals (c ∷ cs) m online total a b = (sym a, sym b)

  -- An alert counts as online, and in total, exactly the ASICs that the list shows right after the
  -- check, also during the grace after the start, while no ASIC is reported.
  pub check-Totals :
      (infos : List Info) (m : Monitor) → let c = check base now infos m in Totals c.alert c.monitor
  unfolding check miners
  check-Totals infos m =
      let seen = see_all now infos [] in
      let start : Found = record { workers = m.workers; changes = []; dirty = m.dirty } in
      let f = update_workers seen start in
      let judge = leb (m.started + start_grace) now in
      let j = judge_workers base now judge seen f.workers f.changes in
      let c = judge_counts judge seen f.workers f.changes in
      let s =
        sort_by_counts (λ x y. shown_before x.online x.name y.online y.name)
          (list_miners base now j.workers) in
      alert-Totals j.changes _ j.online (length j.workers) (s.0 ∙ c.0) (s.1 ∙ c.1)
