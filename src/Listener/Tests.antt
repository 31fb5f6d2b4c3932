-- ===== src/Listener/Tests.antt =====
-- Runs of internal/listener/listener.go on concrete connections.
use simple_mining_proxy.Base.{
  ◌≡◌, refl, List, [], ◌∷◌, txt, text_eq, lookup, insert, delete, arith, length,
}
use simple_mining_proxy.Listener.{
  Bounds, new_limits, Step, connect, first_done, leave, forget, step, steps, acquire, is_full,
}
use simple_mining_proxy.Listener.Counts.{IsSound, steps-IsSound}

abbrev bounds : Bounds
bounds = record { max_connections = 3; max_pending = 2; max_per_ip = 1 }

abbrev turns : List Step
turns =
    connect (txt "10.0.0.1")
    ∷ connect (txt "10.0.0.1")
    ∷ connect (txt "10.0.0.2")
    ∷ leave 1
    ∷ first_done 0
    ∷ forget 1
    ∷ connect (txt "10.0.0.1")
    ∷ []

two_left : length (steps bounds turns new_limits).conns ≡ 2
unfolding steps step acquire is_full lookup insert delete text_eq
two_left = refl

steps-IsSound_example : IsSound bounds (steps bounds turns new_limits)
unfolding lookup
steps-IsSound_example = steps-IsSound bounds turns new_limits (
  record { total = refl; pending = refl; per_ip = λ ip. refl },
  record { total = ground arith; pending = ground arith; per_ip = λ q ip. ground arith },
)
