-- ===== src/Http/FirstPass.antt =====
-- The health check at the start, in src/http/mod.rs, of a new `AppState`, beside the background
-- checks that run from then on.
use ferrum_proxy.Common.{ℕ, ◌+◌, String, List, length, string_eq}
use ferrum_proxy.Config.{Config}
use ferrum_proxy.Health.Checks.{unique_backend_checks}
use ferrum_proxy.Health.Calls.{Call}
use ferrum_proxy.Health.Keeps.{perform_all}
use ferrum_proxy.Health.Fit.{failures_of, failures_during}
use ferrum_proxy.Http.State.{AppState, new_state}
use ferrum_proxy.Http.Startup.{StartupTasks}

-- What other tasks do during the start: before the check, in its pass, and while it looks at the
-- pools.
pub record OtherCalls : Type 0 where
  pub before : List Call
  pub checking : ℕ → List Call
  pub looking : ℕ → List Call

-- How often they record a failure of the backend.
abbrev pub failures_beside : Config → OtherCalls → String → ℕ
failures_beside config others b =
    failures_of b others.before
    + failures_during b (length (unique_backend_checks config)) others.checking
    + failures_during b (length config.routes) others.looking

abbrev pub tasks_of : OtherCalls → StartupTasks
tasks_of others = record {
  checking = λ i. perform_all (others.checking i);
  looking = λ i. perform_all (others.looking i);
}

-- A new state, when the other tasks have begun.
abbrev pub begun : Config → OtherCalls → AppState
begun config others =
    let state = new_state config in record state { health = perform_all others.before state.health }
