-- ===== src/Bench/Leftovers.antt =====
-- The children of src/bin/benchmark_runner.rs that its `main` leaves running.
use ferrum_proxy.Common.{
  String, Bool, true, false, List, [], ◌∷◌, ◌++◌, map, if◌then◌else◌, Result, ok, err, string_eq,
  ◌≡◌, refl, ◌⧺◌, ap, ◌∙◌, Result-cases, inl, inr, ==_refl,
}
use ferrum_proxy.Bench.Scenarios.{BackendSpec, Scenario, backend_specs}
use ferrum_proxy.Bench.RunnerArgs.{Cli}
use ferrum_proxy.Bench.Processes.{
  Action, create_file, spawn, wait_until_ready, try_wait, Machine, Outcome, perform_each,
  stop_child, stop_children, start_after, run_scenario, run_scenarios, with_backends,
  run_benchmarks, prepare, proxy, and_then, proxy_files, measured, create_dir,
}

abbrev pub is_ok {ℓ κ} : {E : Type ℓ} {A : Type κ} → Result E A → Bool
is_ok (ok a) = true
is_ok (err e) = false

abbrev pub backend_start : BackendSpec → List Action
backend_start spec =
    create_file (spec.name ⧺ ".stdout.log")
    ∷ create_file (spec.name ⧺ ".stderr.log")
    ∷ spawn spec.name
    ∷ []

module _ (perform : Action → Result String (Unit {0})) where
  abbrev pub is_spawned : BackendSpec → Bool
  is_spawned spec = is_ok (perform_each perform (backend_start spec))

  abbrev pub is_ready : BackendSpec → Bool
  is_ready spec = is_ok (perform (wait_until_ready spec.name "/health" 10000))

  -- The children of the specifications before the first one that fails, which counts when only its
  -- readiness fails; no child when none fails.
  abbrev pub left_behind : List BackendSpec → List String → List String
  left_behind [] children = []
  left_behind (spec ∷ rest) children =
      let more = left_behind rest (spec.name ∷ children) in
      if is_spawned spec then if is_ready spec then more else spec.name ∷ children else children

  module _ (stops : (name : String) → perform (try_wait name) ≡ ok tt) where
    stop_latest :
        (name : String) (rest : List String)
        → stop_child perform name (record { running = name ∷ rest }) ≡ record { running = rest }
    unfolding stop_child
    stop_latest name rest = rw (stops name, stop_child) (rw (==_refl name) refl)

    stop_all :
        (children base : List String)
        → stop_children perform children (record { running = children ++ base })
          ≡ record { running = base }
    unfolding stop_children
    stop_all [] base = refl
    stop_all (name ∷ rest) base =
        ap (stop_children perform rest) (stop_latest name (rest ++ base)) ∙ stop_all rest base

    -- A child that what follows stops is gone, whether it was started or not.
    with_child :
        (actions : List Action) (name : String) (m : Machine) (next : Machine → Outcome)
        → (next (record { running = name ∷ m.running })).1 ≡ m
        → (and_then perform (start_after perform actions name m) next).1 ≡ m
    unfolding start_after
    with_child actions name m next h =
        elim (Result-cases (perform_each perform (actions ++ (spawn name ∷ [])))) [
          | inl (a, e) ↦ rw (e, start_after) h
          | inr (a, e) ↦ rw (e, start_after) refl
        ]

    run_scenario-keeps :
        (cli : Cli) (s : Scenario) (m : Machine) → (run_scenario perform cli s m).1 ≡ m
    unfolding run_scenario
    run_scenario-keeps cli s m =
        with_child (proxy_files perform s) proxy m (measured perform cli s)
          (stop_latest proxy m.running)

    keeps_on :
        (o : Outcome) (next : Machine → Outcome) {m : Machine}
        → o.1 ≡ m
        → (next m).1 ≡ m
        → (and_then perform o next).1 ≡ m
    keeps_on (ok _, n) next e h = rw e h
    keeps_on (err _, n) next e h = e

    run_scenarios-keeps :
        (cli : Cli) (scenarios : List Scenario) (m : Machine)
        → (run_scenarios perform cli scenarios m).1 ≡ m
    unfolding run_scenarios
    run_scenarios-keeps cli [] m = refl
    run_scenarios-keeps cli (s ∷ rest) m = elim (Result-cases (perform (create_dir s.name))) [
      | inl (a, e) ↦
          rw (e, run_scenarios)
            (keeps_on (run_scenario perform cli s m) (run_scenarios perform cli rest)
              (run_scenario-keeps cli s m) (run_scenarios-keeps cli rest m))
      | inr (a, e) ↦ rw (e, run_scenarios) refl
    ]

    abbrev start_backend : BackendSpec → Machine → Outcome
    start_backend spec m =
        start_after perform
          (create_file (spec.name ⧺ ".stdout.log") ∷ create_file (spec.name ⧺ ".stderr.log") ∷ [])
          spec.name m

    spawn_ok :
        (spec : BackendSpec) (m : Machine) (a : Unit {0})
        → perform_each perform (backend_start spec) ≡ ok a
        → start_backend spec m ≡ (ok tt, record { running = spec.name ∷ m.running })
    unfolding start_after
    spawn_ok spec m a e = rw (e, start_after) refl

    spawn_err :
        (spec : BackendSpec) (m : Machine) (e : String)
        → perform_each perform (backend_start spec) ≡ err e
        → start_backend spec m ≡ (err e, m)
    unfolding start_after
    spawn_err spec m e h = rw (h, start_after) refl

    with_backends-running :
        (cli : Cli) (specs : List BackendSpec) (children base : List String)
        → (with_backends perform cli specs children (record { running = children ++ base })).1
          ≡ record { running = left_behind specs children ++ base }
    unfolding with_backends
    with_backends-running cli [] children base =
        ap (stop_children perform children)
          (run_scenarios-keeps cli cli.scenarios (record { running = children ++ base }))
        ∙ stop_all children base
    with_backends-running cli (spec ∷ rest) children base =
        let ih = with_backends-running cli rest (spec.name ∷ children) base in
        let m : Machine = record { running = children ++ base } in
        elim (Result-cases (perform_each perform (backend_start spec))) [
          | inl (a, e) ↦
              elim (Result-cases (perform (wait_until_ready spec.name "/health" 10000))) [
                | inl (b, r) ↦ rw e (rw r (rw (spawn_ok spec m a e, with_backends) ih))
                | inr (b, r) ↦ rw e (rw r (rw (spawn_ok spec m a e, with_backends) refl))
              ]
          | inr (a, e) ↦ rw e (rw (spawn_err spec m a e, with_backends) refl)
        ]

    -- If a child can always be asked whether it has ended, the benchmark runner leaves no child
    -- running when its preparations fail or all its backends start; otherwise it leaves the
    -- backends before the first that fails to start, and that one too if it was spawned but did
    -- not get ready.
    pub run_benchmarks-running :
        (cli : Cli) (m : Machine)
        → (run_benchmarks perform (ok cli) m).1.running
          ≡ (if is_ok (perform_each perform (prepare perform cli))
              then left_behind (map (λ s. s.1) backend_specs) []
              else [])
            ++ m.running
    unfolding run_benchmarks
    run_benchmarks-running cli m =
        elim (Result-cases (perform_each perform (prepare perform cli))) [
          | inl (a, e) ↦
              rw (e, run_benchmarks)
                (ap (λ m. m.running)
                  (with_backends-running cli (map (λ s. s.1) backend_specs) [] m.running))
          | inr (a, e) ↦ rw (e, run_benchmarks) refl
        ]
