-- ===== src/Config/Defaults.antt =====
-- The default values of src/config/mod.rs.
use ferrum_proxy.Common.{ℕ, ◌*◌, Bool, true, false, none, List, [], ◌∷◌}
use ferrum_proxy.Config.Types.{
  HealthCheckConfig, ServerConfig, UpstreamConfig, RetryConfig, DebugConfig,
}

abbrev pub default_connect_timeout_ms : ℕ
default_connect_timeout_ms = 3_000

abbrev pub default_read_timeout_ms : ℕ
default_read_timeout_ms = 15_000

abbrev pub default_graceful_shutdown_timeout_ms : ℕ
default_graceful_shutdown_timeout_ms = 30_000

abbrev pub default_client_header_timeout_ms : ℕ
default_client_header_timeout_ms = 10_000

abbrev pub default_client_body_timeout_ms : ℕ
default_client_body_timeout_ms = 15_000

abbrev pub default_max_request_body_bytes : ℕ
default_max_request_body_bytes = 16 * 1024 * 1024

abbrev pub default_max_response_body_bytes : ℕ
default_max_response_body_bytes = 64 * 1024 * 1024

abbrev pub default_max_buffered_bodies : ℕ
default_max_buffered_bodies = 100

abbrev pub default_check_timeout_ms : ℕ
default_check_timeout_ms = 5_000

abbrev pub default_failure_threshold : ℕ
default_failure_threshold = 3

abbrev pub default_recovery_threshold : ℕ
default_recovery_threshold = 2

abbrev pub default_ejection_duration_ms : ℕ
default_ejection_duration_ms = 30_000

abbrev pub default_active_success_status_min : ℕ
default_active_success_status_min = 200

abbrev pub default_active_success_status_max : ℕ
default_active_success_status_max = 399

abbrev pub default_passive_failure_status_min : ℕ
default_passive_failure_status_min = 500

abbrev pub default_passive_failure_status_max : ℕ
default_passive_failure_status_max = 599

abbrev pub default_retry_max_attempts : ℕ
default_retry_max_attempts = 1

abbrev pub default_retry_total_timeout_ms : ℕ
default_retry_total_timeout_ms = 5_000

abbrev pub default_retry_backoff_ms : ℕ
default_retry_backoff_ms = 50

abbrev pub default_retry_on_statuses : List ℕ
default_retry_on_statuses = 502 ∷ 503 ∷ 504 ∷ []

abbrev pub default_expose_backend_health : Bool
default_expose_backend_health = true

abbrev pub default_expose_metrics : Bool
default_expose_metrics = true

abbrev pub default_health_check : HealthCheckConfig
default_health_check = record {
  interval_sec = 10;
  endpoint = "/health";
  check_timeout_ms = default_check_timeout_ms;
  failure_threshold = default_failure_threshold;
  recovery_threshold = default_recovery_threshold;
  ejection_duration_ms = default_ejection_duration_ms;
  active_success_status_min = default_active_success_status_min;
  active_success_status_max = default_active_success_status_max;
  passive_failure_status_min = default_passive_failure_status_min;
  passive_failure_status_max = default_passive_failure_status_max;
}

abbrev pub default_server : ServerConfig
default_server = record {
  port = 8080;
  host = "127.0.0.1";
  graceful_shutdown_timeout_ms = default_graceful_shutdown_timeout_ms;
  client_header_timeout_ms = default_client_header_timeout_ms;
  client_body_timeout_ms = default_client_body_timeout_ms;
  fail_on_startup_dead_pool = false;
}

abbrev pub default_upstream : UpstreamConfig
default_upstream = record {
  connect_timeout_ms = default_connect_timeout_ms;
  read_timeout_ms = default_read_timeout_ms;
  max_request_body_bytes = default_max_request_body_bytes;
  max_response_body_bytes = default_max_response_body_bytes;
  max_buffered_bodies = default_max_buffered_bodies;
}

abbrev pub default_retry : RetryConfig
default_retry = record {
  max_attempts = default_retry_max_attempts;
  total_timeout_ms = default_retry_total_timeout_ms;
  backoff_ms = default_retry_backoff_ms;
  retry_on_statuses = default_retry_on_statuses;
  retry_idempotent_methods = false;
}

abbrev pub default_debug : DebugConfig
default_debug = record {
  expose_backend_health = default_expose_backend_health;
  expose_metrics = default_expose_metrics;
  auth_token = none;
}
