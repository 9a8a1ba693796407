-- ===== src/Server/Examples.antt =====
-- Runs of the drain of src/server/mod.rs.
use ferrum_proxy.Common.{
  ◌≡◌, ◌⊎◌, refl, arith, ◌+◌, Bool, String, List, [], ◌∷◌, ◌++◌, none, some, ok, err,
}
use ferrum_proxy.Config.Examples.{two_pools}
use ferrum_proxy.Http.State.{new_state}
use ferrum_proxy.Server.{ConnectionTracker, open_connection, ShutdownReason}
use ferrum_proxy.Server.Run.{
  ServerEvent, accepted, accept_failed, ended, signalled, Serving, DrainEvent, shut_down, serve,
}
use ferrum_proxy.Server.Traffic.{serve-traffic}
use ferrum_proxy.Server.Drain.{
  Phase, starting, checking, waiting, drained, timed_out, sees_zero, runs_out, Steps, tracking,
  drain-misses_wakeup, drain-sees_zero,
}

abbrev late : ConnectionTracker × Phase
late = (tracking 0, timed_out)

drain-misses_wakeup_example :
    Steps (tracking 2, starting) (tracking 0, waiting)
    × ((late ≡ (open_connection (tracking 0), waiting)) ⊎ (late ≡ late))
drain-misses_wakeup_example =
    drain-misses_wakeup 2 late (omega arith) (omega arith)
      (runs_out (tracking 0) waiting (λ e. ground (arith, e)) (λ e. ground (arith, e)))

drain-sees_zero_example : ((tracking 0).active ≡ 0) × (late.0 ≡ late.0)
drain-sees_zero_example =
    drain-sees_zero (tracking 0, checking) (tracking 0, drained) (sees_zero (tracking 0) refl)
      (λ e. ground (arith, e)) refl

abbrev idle : Serving
idle = record { state = new_state two_pools; tracker = tracking 0 }

-- Two connections come, and one of them breaks off.
abbrev two_come : List ServerEvent
two_come = accepted ∷ accepted ∷ ended ("10.0.0.1:80", some "reset") ∷ []

serve-traffic_example :
    (s' : Serving) × (s'.tracker.active + 1 ≡ 0 + 2)
    × (serve two_come idle ≡ (s', none))
    × ((reason : ShutdownReason) (during : List DrainEvent) (all : Bool) (later : List ServerEvent)
        → serve (two_come ++ signalled reason during all ∷ later) idle
          ≡ (shut_down reason during all s', some (ok tt)))
    × ((e : String) (later : List ServerEvent)
        → serve (two_come ++ accept_failed e ∷ later) idle ≡ (s', some (err e)))
serve-traffic_example =
    serve-traffic two_come idle (omega arith) (omega arith, (omega arith, (omega arith, tt)))
