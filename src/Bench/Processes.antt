-- ===== src/Bench/Processes.antt =====
-- The processes that src/bin/benchmark_runner.rs starts and stops: `main`, `spawn_backend`,
-- `run_scenario`, `stop_children` and `stop_child`. What the single actions do is the environment's;
-- the model has their order, and that the first error ends a sequence of them.
use ferrum_proxy.Common.{
  ℕ, String, Bool, true, false, Option, none, some, List, [], ◌∷◌, ◌++◌, map, if◌then◌else◌, Result,
  ok, err, ◌>>◌, ◌==◌, string_eq, ◌⧺◌,
}
use ferrum_proxy.Bench.Scenarios.{BackendSpec, Scenario, backend_specs}
use ferrum_proxy.Bench.RunnerArgs.{Cli}

pub data Action : Type 0 where
  create_dir : String → Action
  create_file : String → Action
  write_file : String → Action
  copy_file : String → String → Action
  resolve : String → Action
  run_command : String → Action
  must_exist : String → Action
  pick_unused_port : String → Action
  spawn : String → Action
  try_wait : String → Action
  -- who is asked, the path, and the milliseconds that it has
  wait_until_ready : String → String → ℕ → Action
  -- the scenario, the value of `-d`, and the file for the output
  run_wrk : String → String → String → Action
  -- the path, and the file for the body
  fetch_http : String → String → Action

-- The children that run, the latest first, by their names.
pub record Machine : Type 0 where
  pub running : List String

abbrev pub remove_first : String → List String → List String
remove_first name [] = []
remove_first name (other ∷ rest) =
    let later = remove_first name rest in if other == name then rest else other ∷ later

-- The result of a function, and the machine after it.
abbrev pub Outcome : Type 0
Outcome = Result String (Unit {0}) × Machine

abbrev pub proxy : String
proxy = "ferrum-proxy"

module _ (perform : Action → Result String (Unit {0})) where
  -- Statements that leave the children alone, with `?` at each.
  unfoldable pub perform_each : List Action → Result String (Unit {0})
  perform_each [] = ok tt
  perform_each (a ∷ rest) = perform a >> perform_each rest

  -- The statements, then `spawn()?`: a child is started when all of them succeed.
  unfoldable pub start_after : List Action → String → Machine → Outcome
  unfolding perform_each
  start_after actions name m = elim (perform_each (actions ++ (spawn name ∷ []))) [
    | ok _ ↦ (ok tt, record { running = name ∷ m.running })
    | err e ↦ (err e, m)
  ]

  -- `stop_child`: a child that has not ended is killed and waited for.
  unfoldable pub stop_child : String → Machine → Machine
  stop_child name m = elim (perform (try_wait name)) [
    | ok _ ↦ record { running = remove_first name m.running }
    | err _ ↦ m
  ]

  -- `stop_children`, of the children with the latest first, as `rev` gives them.
  unfoldable pub stop_children : List String → Machine → Machine
  unfolding stop_child
  stop_children [] m = m
  stop_children (name ∷ rest) m = stop_children rest (stop_child name m)

  -- What follows a call and its `?`.
  abbrev pub and_then : Outcome → (Machine → Outcome) → Outcome
  and_then (ok _, m) next = next m
  and_then (err e, m) next = (err e, m)

  unfoldable pub spawn_backend : BackendSpec → Machine → Outcome
  unfolding start_after
  spawn_backend spec m =
      let logs =
        create_file (spec.name ⧺ ".stdout.log") ∷ create_file (spec.name ⧺ ".stderr.log") ∷ [] in
      and_then (start_after logs spec.name m)
        (λ after. (perform (wait_until_ready spec.name "/health" 10000), after))

  abbrev pub script_files : Option String → List Action
  script_files none = []
  script_files (some _) = write_file "post_upload.lua" ∷ []

  -- The body of the closure of `run_scenario`.
  unfoldable pub measure : Cli → Scenario → List Action
  measure cli scenario =
      wait_until_ready proxy "/health" 20000
      ∷ copy_file "config.yaml" "config.yaml"
      ∷ run_wrk scenario.name cli.warmup "warmup.txt"
      ∷ run_wrk scenario.name cli.duration "wrk.txt"
      ∷ copy_file "wrk.txt" "summary.txt"
      ∷ fetch_http "/metrics" "metrics.prom"
      ∷ fetch_http "/health/backends" "backend-health.txt"
      ∷ []

  -- The files that `run_scenario` writes before it starts the proxy.
  abbrev pub proxy_files : Scenario → List Action
  proxy_files scenario =
      (create_dir ("ferrum-proxy-bench-" ⧺ scenario.name) ∷ write_file "config.yaml" ∷ [])
      ++ script_files scenario.lua_script
      ++ (create_file (scenario.name ⧺ ".proxy.stdout.log")
          ∷ create_file (scenario.name ⧺ ".proxy.stderr.log")
          ∷ [])

  -- The measurement beside the running proxy, which is stopped whatever it gave.
  abbrev pub measured : Cli → Scenario → Machine → Outcome
  measured cli scenario m = (perform_each (measure cli scenario), stop_child proxy m)

  unfoldable pub run_scenario : Cli → Scenario → Machine → Outcome
  unfolding start_after stop_child perform_each measure
  run_scenario cli scenario m =
      and_then (start_after (proxy_files scenario) proxy m) (measured cli scenario)

  -- The closure of `main`, with its loop.
  unfoldable pub run_scenarios : Cli → List Scenario → Machine → Outcome
  unfolding run_scenario
  run_scenarios cli [] m = (ok tt, m)
  run_scenarios cli (scenario ∷ rest) m = elim (perform (create_dir scenario.name)) [
    | ok _ ↦ and_then (run_scenario cli scenario m) (λ after. run_scenarios cli rest after)
    | err e ↦ (err e, m)
  ]

  -- The loop over `BACKEND_SPECS`, and what follows it when it comes to its end: the scenarios,
  -- then `stop_children`, whatever the scenarios gave. `children` has the latest first.
  unfoldable pub with_backends : Cli → List BackendSpec → List String → Machine → Outcome
  unfolding spawn_backend run_scenarios stop_children
  with_backends cli [] children m =
      let (run_result, after) = run_scenarios cli cli.scenarios m in
      (run_result, stop_children children after)
  with_backends cli (spec ∷ rest) children m =
      and_then (spawn_backend spec m) (λ after. with_backends cli rest (spec.name ∷ children) after)

  abbrev pub build_steps : Bool → List Action
  build_steps true = []
  build_steps false = run_command "cargo build --release" ∷ []

  -- What `main` does before it starts a child.
  unfoldable pub prepare : Cli → List Action
  prepare cli =
      (create_dir cli.results_dir ∷ create_dir "logs" ∷ resolve cli.wrk_bin ∷ [])
      ++ build_steps cli.skip_build
      ++ (must_exist "target/release/ferrum-proxy"
          ∷ must_exist "target/release/benchmark_backend"
          ∷ [])
      ++ map (λ s. pick_unused_port s.0) backend_specs
      ++ (pick_unused_port proxy ∷ [])

  -- `main`, without its messages.
  unfoldable pub run_benchmarks : Result String Cli → Machine → Outcome
  unfolding prepare with_backends perform_each
  run_benchmarks (err e) m = (err e, m)
  run_benchmarks (ok cli) m = elim (perform_each (prepare cli)) [
    | ok _ ↦ with_backends cli (map (λ s. s.1) backend_specs) [] m
    | err e ↦ (err e, m)
  ]
