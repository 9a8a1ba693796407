-- ===== src/Bench/RunnerArgs.antt =====
-- The command line of src/bin/benchmark_runner.rs. A path stands as its text.
use ferrum_proxy.Common.{
  String, Bool, true, false, ◌||◌, Option, none, some, List, [], ◌∷◌, ◌==◌, string_eq,
  if◌then◌else◌, ◌⧺◌, Result, ok, err, ◌>>=◌,
}
use ferrum_proxy.Bench.BackendArgs.{required}
use ferrum_proxy.Bench.Scenarios.{Scenario, select_scenarios}

pub record Cli : Type 0 where
  pub duration : String
  pub warmup : String
  pub timeout : String
  pub results_dir : String
  pub scenarios : List Scenario
  pub skip_build : Bool
  pub wrk_bin : String

-- The variables of `parse_args` before its loop is done.
pub record Options : Type 0 where
  pub duration : String
  pub warmup : String
  pub timeout : String
  pub results_dir : String
  pub scenario_arg : String
  pub skip_build : Bool
  pub wrk_bin : String

abbrev pub default_options : Options
default_options = record {
  duration = "15s";
  warmup = "5s";
  timeout = "5s";
  results_dir = "benchmark-results";
  scenario_arg = "all";
  skip_build = false;
  wrk_bin = "wrk";
}

abbrev pub runner_usage : String
runner_usage =
    "usage: cargo run --release --bin benchmark_runner -- [--duration 15s] [--warmup 5s] [--timeout 5s] [--results-dir benchmark-results] [--scenarios all|healthy_get,retry_get] [--skip-build] [--wrk-bin /path/to/wrk]"

-- One round for a flag that takes a value. Parsing a text as a text cannot fail.
unfoldable pub set_option : String → Option String → Options → Result String Options
set_option arg value o =
    if arg == "--duration"
    then (do duration ← required value "--duration"; ok (record o { duration = duration }))
    else if arg == "--warmup"
    then (do warmup ← required value "--warmup"; ok (record o { warmup = warmup }))
    else if arg == "--timeout"
    then (do timeout ← required value "--timeout"; ok (record o { timeout = timeout }))
    else if arg == "--results-dir"
    then (do dir ← required value "--results-dir"; ok (record o { results_dir = dir }))
    else if arg == "--scenarios"
    then (do selection ← required value "--scenarios"; ok (record o { scenario_arg = selection }))
    else if arg == "--wrk-bin"
    then (do wrk_bin ← required value "--wrk-bin"; ok (record o { wrk_bin = wrk_bin }))
    else if arg == "--help" || arg == "-h"
    then err runner_usage
    else err ("unknown argument: " ⧺ arg ⧺ "\n\n" ⧺ runner_usage)

-- The loop over the arguments.
unfoldable pub set_options : List String → Options → Result String Options
unfolding set_option
set_options [] o = ok o
set_options (arg ∷ []) o =
    if arg == "--skip-build" then ok (record o { skip_build = true }) else set_option arg none o
set_options (arg ∷ value ∷ rest) o =
    let skipped = set_options (value ∷ rest) (record o { skip_build = true }) in
    let given = (do o' ← set_option arg (some value) o; set_options rest o') in
    if arg == "--skip-build" then skipped else given

-- `parse_args`, on the arguments behind the program's name
unfoldable pub parse_runner_args : List String → Result String Cli
unfolding set_options
parse_runner_args args = do
  o ← set_options args default_options
  selected ← select_scenarios o.scenario_arg
  ok (record {
    duration = o.duration;
    warmup = o.warmup;
    timeout = o.timeout;
    results_dir = o.results_dir;
    scenarios = selected;
    skip_build = o.skip_build;
    wrk_bin = o.wrk_bin;
  })
