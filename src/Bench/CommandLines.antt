-- ===== src/Bench/CommandLines.antt =====
-- The command line that src/bin/benchmark_runner.rs writes, read by src/bin/benchmark_backend.rs.
use ferrum_proxy.Common.{
  ℕ, ◌<◌, ◌≡◌, refl, String, Bool, true, some, string_eq, show, parse_uint-show, u64_mod, ok,
}
use ferrum_proxy.Bench.BackendArgs.{
  u16_mod, BackendConfig, parse_value, parse_status, set_flag, set_flags, parse_backend_args,
}
use ferrum_proxy.Bench.Scenarios.{BackendSpec}
use ferrum_proxy.Bench.Spawn.{backend_args}

parse_value-show :
    (bound n : ℕ) (flag : String) → n < bound → parse_value bound (some (show n)) flag ≡ ok n
unfolding parse_value
parse_value-show bound n flag h = rw (parse_uint-show bound n h) refl

-- A spec whose numbers fit the types that the backend reads them at.
pub record Fits (is_status : ℕ → Bool) (spec : BackendSpec) : Type 0 where
  pub status : is_status spec.status ≡ true
  pub status_width : spec.status < u16_mod
  pub failure_status : is_status spec.failure_status ≡ true
  pub failure_width : spec.failure_status < u16_mod
  pub fail_every : spec.fail_every < u64_mod
  pub delay : spec.delay_ms < u64_mod
  pub body : spec.response_body_bytes < u64_mod

module _ (is_status : ℕ → Bool) where
  parse_status-show :
      (n : ℕ) (flag : String)
      → n < u16_mod
      → is_status n ≡ true
      → parse_status is_status (some (show n)) flag ≡ ok n
  unfolding parse_status
  parse_status-show n flag h e = rw (parse_value-show u16_mod n flag h, e) refl

  -- The configuration that a backend is meant to run with.
  abbrev pub spec_config : BackendSpec → ℕ → BackendConfig
  spec_config spec port = record {
    name = spec.name;
    port = port;
    status = spec.status;
    failure_status = spec.failure_status;
    fail_every = spec.fail_every;
    delay_ms = spec.delay_ms;
    response_body_bytes = spec.response_body_bytes;
    health_status = 200;
  }

  -- The benchmark backend reads the command line that the runner writes for a specification as
  -- the configuration of that specification, for a port below 2^16 and a specification whose
  -- statuses are statuses and whose numbers fit their types.
  pub parse_backend_args-backend_args :
      (spec : BackendSpec) (port : ℕ)
      → port < u16_mod
      → Fits is_status spec
      → parse_backend_args is_status (backend_args spec port) ≡ ok (spec_config spec port)
  unfolding parse_backend_args set_flags set_flag backend_args
  parse_backend_args-backend_args spec port h v =
      rw
        (
          parse_value-show u16_mod port "--port" h,
          parse_status-show spec.status "--status" v.status_width v.status,
          parse_status-show spec.failure_status "--failure-status" v.failure_width v.failure_status,
          parse_value-show u64_mod spec.fail_every "--fail-every" v.fail_every,
          parse_value-show u64_mod spec.delay_ms "--delay-ms" v.delay,
          parse_value-show u64_mod spec.response_body_bytes "--response-body-bytes" v.body,
        )
        refl
