-- ===== src/Bench/Examples.antt =====
-- The benchmark programs on small inputs: one backend that fails every second request, a date, and
-- a machine on which one backend does not get ready.
use ferrum_proxy.Common.{
  ℕ, ◌/◌, ◌≡◌, ◌≢◌, refl, ◌++◌, String, Bool, true, none, List, [], ◌∷◌, All, map, Result, ok, err,
  arith, length, leb, if◌then◌else◌, string_eq, ◌==◌,
}
use ferrum_proxy.Http.State.{get}
use ferrum_proxy.Bench.BackendArgs.{parse_backend_args}
use ferrum_proxy.Bench.Scenarios.{BackendSpec, scenarios, backend_specs}
use ferrum_proxy.Bench.Spawn.{backend_args}
use ferrum_proxy.Bench.CommandLines.{spec_config, parse_backend_args-backend_args}
use ferrum_proxy.Bench.Backend.{BackendState}
use ferrum_proxy.Bench.Replies.{BenchRequest, answer_all, with_status, answer_all-fails}
use ferrum_proxy.Bench.Dates.{DateParts, chrono_like_utc}
use ferrum_proxy.Bench.Dates.Stamp.{Shows, chrono_like_utc-Shows}
use ferrum_proxy.Bench.RunnerArgs.{Cli}
use ferrum_proxy.Bench.Processes.{Action, wait_until_ready, perform_each, prepare, run_benchmarks}
use ferrum_proxy.Bench.Leftovers.{is_ok, left_behind, run_benchmarks-running}

abbrev spec : BackendSpec
spec = record {
  name = "retry-bad";
  response_body_bytes = 4;
  status = 200;
  failure_status = 503;
  fail_every = 2;
  delay_ms = 0;
}

abbrev any_status : ℕ → Bool
any_status n = leb 100 n

parse_backend_args-backend_args_example :
    parse_backend_args any_status (backend_args spec 3000) ≡ ok (spec_config any_status spec 3000)
parse_backend_args-backend_args_example =
    parse_backend_args-backend_args any_status spec 3000 (omega arith) (record {
      status = refl;
      status_width = omega arith;
      failure_status = refl;
      failure_width = omega arith;
      fail_every = omega arith;
      delay = omega arith;
      body = omega arith;
    })

abbrev fresh : BackendState
fresh = record { config = spec_config any_status spec 3000; request_count = 0 }

abbrev root : String
root = "/"

not_health : root ≢ "/health"
not_health e = cc

abbrev get_root : BenchRequest
get_root = record { method = get; path = root; received = none; counted = not_health }

abbrev three_requests : List BenchRequest
three_requests = get_root ∷ get_root ∷ get_root ∷ []

answer_all-fails_example :
    (with_status 503 (answer_all three_requests fresh) ≡ 3 / 2)
    × All (λ r. length r.body ≡ 4) (answer_all three_requests fresh)
answer_all-fails_example =
    answer_all-fails three_requests fresh refl (omega arith) (omega arith) (omega arith)

chrono_like_utc-Shows_example :
    (tm : DateParts) × (chrono_like_utc 951787425 ≡ ok tm) × Shows 951787425 tm
chrono_like_utc-Shows_example = chrono_like_utc-Shows 951787425 (omega arith)

-- All goes well, but for the second backend, which does not get ready.
abbrev second_fails : Action → Result String (Unit {0})
second_fails (wait_until_ready name path timeout) =
    if name == "healthy-b" then err "service did not become ready" else ok tt
second_fails _ = ok tt

abbrev cli : Cli
cli = record {
  duration = "15s";
  warmup = "5s";
  timeout = "5s";
  results_dir = "benchmark-results";
  scenarios = scenarios;
  skip_build = true;
  wrk_bin = "wrk";
}

run_benchmarks-running_example :
    (run_benchmarks second_fails (ok cli) (record { running = [] })).1.running
    ≡ (if is_ok (perform_each second_fails (prepare second_fails cli))
        then left_behind second_fails (map (λ s. s.1) backend_specs) []
        else [])
      ++ []
run_benchmarks-running_example =
    run_benchmarks-running second_fails (λ name. refl) cli (record { running = [] })

two_are_left :
    (run_benchmarks second_fails (ok cli) (record { running = [] })).1.running
    ≡ "healthy-b" ∷ "healthy-a" ∷ []
unfolding run_benchmarks
two_are_left = refl
