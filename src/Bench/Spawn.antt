-- ===== src/Bench/Spawn.antt =====
-- What src/bin/benchmark_runner.rs passes to the programs that it starts: the command lines, the
-- configuration file, and the paths of the files.
use ferrum_proxy.Common.{
  ℕ, String, Bool, ◌&&◌, Option, none, some, List, [], ◌∷◌, ◌++◌, if◌then◌else◌, ltb, ◌⧺◌, show,
}
use ferrum_proxy.Bench.Scenarios.{BackendSpec, Scenario}

-- The arguments of `spawn_backend`.
unfoldable pub backend_args : BackendSpec → ℕ → List String
backend_args spec port =
    "--port"
    ∷ show port
    ∷ "--name"
    ∷ spec.name
    ∷ "--status"
    ∷ show spec.status
    ∷ "--failure-status"
    ∷ show spec.failure_status
    ∷ "--fail-every"
    ∷ show spec.fail_every
    ∷ "--delay-ms"
    ∷ show spec.delay_ms
    ∷ "--response-body-bytes"
    ∷ show spec.response_body_bytes
    ∷ []

-- The arguments of `run_wrk`; `script` is the path of a script in the runtime directory.
unfoldable pub wrk_args : (String → String) → Scenario → ℕ → String → String → List String
wrk_args script scenario proxy_port duration timeout =
    ("-t" ⧺ show scenario.threads)
    ∷ ("-c" ⧺ show scenario.connections)
    ∷ ("-d" ⧺ duration)
    ∷ "--timeout"
    ∷ timeout
    ∷ "--latency"
    ∷ (script_args scenario.lua_script
        ++ (("http://127.0.0.1:" ⧺ show proxy_port ⧺ scenario.path) ∷ []))
  where
    script_args : Option String → List String
    script_args none = []
    script_args (some name) = "-s" ∷ script name ∷ []

-- The request of `fetch_http`.
unfoldable pub fetch_request : String → ℕ → String → String
fetch_request host port path =
    "GET " ⧺ path ⧺ " HTTP/1.1\r\nHost: " ⧺ host ⧺ ":" ⧺ show port ⧺ "\r\nConnection: close\r\n\r\n"

-- `render_config`; `port_of` is the map of the ports.
unfoldable pub render_config : ℕ → (String → ℕ) → String
render_config proxy_port port_of =
    "server:\n  port: "
    ⧺ show proxy_port
    ⧺ "\n  host: 127.0.0.1\n  graceful_shutdown_timeout_ms: 30000\n  client_header_timeout_ms: 10000\n  client_body_timeout_ms: 15000\n  fail_on_startup_dead_pool: false\n\nroutes:\n  - path_prefix: /api\n    backends:\n      - http://127.0.0.1:"
    ⧺ show (port_of "healthy_a")
    ⧺ "\n      - http://127.0.0.1:"
    ⧺ show (port_of "healthy_b")
    ⧺ "\n  - path_prefix: /large\n    backends:\n      - http://127.0.0.1:"
    ⧺ show (port_of "large_a")
    ⧺ "\n  - path_prefix: /retry\n    backends:\n      - http://127.0.0.1:"
    ⧺ show (port_of "retry_bad")
    ⧺ "\n      - http://127.0.0.1:"
    ⧺ show (port_of "retry_good")
    ⧺ "\n  - path_prefix: /upload\n    backends:\n      - http://127.0.0.1:"
    ⧺ show (port_of "upload_a")
    ⧺ "\n\nhealth_check:\n  interval_sec: 3600\n  endpoint: /health\n  check_timeout_ms: 1000\n  failure_threshold: 100000\n  recovery_threshold: 1\n  ejection_duration_ms: 1000\n  active_success_status_min: 200\n  active_success_status_max: 399\n  passive_failure_status_min: 500\n  passive_failure_status_max: 599\n\nupstream:\n  connect_timeout_ms: 3000\n  read_timeout_ms: 15000\n  max_request_body_bytes: 33554432\n  max_response_body_bytes: 268435456\n  max_buffered_bodies: 256\n\nretry:\n  max_attempts: 2\n  total_timeout_ms: 3000\n  backoff_ms: 0\n  retry_on_statuses: [503]\n  retry_idempotent_methods: false\n\ndebug:\n  expose_backend_health: true\n  expose_metrics: true\n"

-- `find(|full| full.exists())`
unfoldable pub first_existing : (String → Bool) → List String → Option String
first_existing exists [] = none
first_existing exists (full ∷ rest) =
    let later = first_existing exists rest in if exists full then some full else later

abbrev join_all : (String → String → String) → String → List String → List String
join_all join candidate [] = []
join_all join candidate (dir ∷ dirs) = join dir candidate ∷ join_all join candidate dirs

-- `resolve_executable`. The number of components of a path, the files that exist, the joining of
-- paths and the directories of `PATH` are the environment's.
unfoldable pub resolve_executable :
    (components : String → ℕ) (exists : String → Bool) (join : String → String → String)
    (path_dirs : Option (List String))
    → String
    → Option String
unfolding first_existing
resolve_executable components exists join path_dirs candidate =
    if ltb 1 (components candidate) && exists candidate then some candidate else elim path_dirs [
      | none ↦ none
      | some dirs ↦ first_existing exists (join_all join candidate dirs)
    ]
