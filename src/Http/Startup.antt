-- ===== src/Http/Startup.antt =====
-- `run_startup_health_check` of src/http/mod.rs. The order in which the set of checks and the clock
-- are read, and what a probe answers, are parameters.
use ferrum_proxy.Common.{
  ℕ, String, not, ◌&&◌, Option, List, [], ◌∷◌, length, is_empty, if◌then◌else◌, ◌⧺◌, show, Result,
  ok, err, Instant,
}
use ferrum_proxy.Telemetry.{Telemetry}
use ferrum_proxy.Telemetry.Lines.{log_startup_warning, log_background_task_failure}
use ferrum_proxy.Health.Manager.{Health, startup_dead_pools}
use ferrum_proxy.Health.Checks.{check_pass_beside, unique_backend_checks}
use ferrum_proxy.Http.State.{AppState}
use ferrum_proxy.Http.Respond.{told}

abbrev pub warn_all : List String → Telemetry → Telemetry
warn_all [] t = t
warn_all (pool ∷ rest) t = warn_all rest (log_startup_warning pool "all_backends_unavailable" t)

-- `join(", ")`
abbrev pub join_comma : List String → String
join_comma [] = ""
join_comma (s ∷ []) = s
join_comma (s ∷ t ∷ rest) = s ⧺ ", " ⧺ join_comma (t ∷ rest)

-- What the other tasks, such as the one of the background checks, do before the result of each check
-- is recorded, and before the pool of each route is looked at.
pub record StartupTasks : Type 0 where
  pub checking : ℕ → Health → Health
  pub looking : ℕ → Health → Health

module _ {Uri : Type 0} (probe_uri : String → String → Result String Uri)
    (answer : Uri → Option ℕ) where
  unfoldable pub run_startup_health_check :
      StartupTasks
      → (check_clock : ℕ → Instant) (pool_clocks : ℕ → ℕ → Instant) → AppState
      → AppState × Result String (Unit {0})
  run_startup_health_check tasks check_clock pool_clocks state =
      let checked =
        check_pass_beside probe_uri answer tasks.checking check_clock
          (unique_backend_checks state.config) state.health in
      let (health, dead_pools) =
        startup_dead_pools tasks.looking pool_clocks state.config.routes checked in
      let warned = record state {
        health = record health { shared = warn_all dead_pools health.shared };
      } in
      (
        warned,
        if state.config.server.fail_on_startup_dead_pool && not (is_empty dead_pools)
            then err (
                "startup aborted: "
                ⧺ show (length dead_pools)
                ⧺ " route(s) have no reachable backends: "
                ⧺ join_comma dead_pools)
            else ok tt,
      )

-- The task of `spawn_background_tasks` that waits for the end of the checks' task: an error is the
-- panic of that task.
unfoldable pub checks_ended : Result String (Unit {0}) → AppState → AppState
checks_ended (ok _) state = state
checks_ended (err panic) state = told (log_background_task_failure "health_checks" panic) state
