-- ===== src/Settings/Agreed.antt =====
-- internal/settings/store.go: what a settled store says of the values.
use simple_mining_proxy.Base.{
  ◌≤◌, ◌<◌, ◌≡◌, refl, sym, subst, arith, Option, none, some, [], Text, Map, txt, lookup,
}
use simple_mining_proxy.State.Store.{Result, ok, err}
use simple_mining_proxy.Settings.{Value, string, Values, Def, amount}
use simple_mining_proxy.Settings.Registry.{by_key, Msg, cross_check}
use simple_mining_proxy.Settings.Codec.{Codec, IsFaithful, parse, Allowed}
use simple_mining_proxy.Settings.Sound.{parse-Allowed}
use simple_mining_proxy.Settings.Store.{Settings}
use simple_mining_proxy.Settings.Kept.{value_of, meant}
use simple_mining_proxy.Settings.Readable.{default-Allowed}
use simple_mining_proxy.Settings.Restart.{IsSettled}

-- The values agree: each may be what it is, and the rules between two settings hold.
pub record IsAgreed (v : Values) : Type 0 where
  pub allowed : (k : Text) (d : Def) → by_key k ≡ some d → Allowed d (v k)
  pub dial : amount (v (txt "upstream_dial_timeout")) ≤ amount (v (txt "upstream_connect_budget"))
  pub job : amount (v (txt "upstream_job_timeout")) ≤ amount (v (txt "upstream_idle_timeout"))
  pub pending : amount (v (txt "max_pending_connections")) ≤ amount (v (txt "max_connections"))
  pub margin : amount (v (txt "profit_return_margin")) ≤ amount (v (txt "profit_margin"))
  pub timed : amount (v (txt "timed_duration")) < amount (v (txt "timed_period"))
  pub history : amount (v (txt "history_detail_retention")) ≤ amount (v (txt "history_retention"))
  pub miners :
      amount (v (txt "history_detail_retention")) ≤ amount (v (txt "history_miner_retention"))

value_of-Allowed :
    (c : Codec) (d : Def) (o : Option Text) → Allowed d d.default → Allowed d (value_of c d o)
value_of-Allowed c d none a = a
value_of-Allowed c d (some raw) a = by_result (parse c d raw) refl
  where
    by_result :
        (r : Result Msg Value)
        → parse c d raw ≡ r
        → Allowed d (elim r [ ok v ↦ v | err e ↦ d.default ])
    by_result (ok v) e = parse-Allowed c d raw v e
    by_result (err x) e = a

meant-Allowed :
    (c : Codec)
    → IsFaithful c
    → (m : Map Text) (k : Text) (d : Def) → by_key k ≡ some d
    → Allowed d (meant c m k)
unfolding meant
meant-Allowed c f m k d e =
    subst (λ o. Allowed d (elim o [ none ↦ string [] | some x ↦ value_of c x (lookup k m) ]))
      (sym e) (value_of-Allowed c d (lookup k m) (default-Allowed c f k d e))

crossed-IsAgreed :
    (v : Values)
    → cross_check v ≡ []
    → ((k : Text) (d : Def) → by_key k ≡ some d → Allowed d (v k))
    → IsAgreed v
unfolding cross_check
crossed-IsAgreed v x a = ground arith

pub kept-IsAgreed : (c : Codec) → IsFaithful c → (s : Settings) → IsSettled c s → IsAgreed s.cur
kept-IsAgreed c f s t = crossed-IsAgreed s.cur t.crossed (
    subst (λ v. (k : Text) (d : Def) → by_key k ≡ some d → Allowed d (v k)) (sym t.values)
      (meant-Allowed c f s.overrides))
