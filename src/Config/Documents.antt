-- ===== src/Config/Documents.antt =====
-- How src/config/mod.rs has serde fill a configuration from a document: the fields that a document
-- may leave out, with their `#[serde(default)]`. A document without a required key, or with a value
-- of another type, is the parser's error and not modelled.
use ferrum_proxy.Common.{ℕ, String, Bool, false, Option, none, some, List, [], map}
use ferrum_proxy.Config.Types.{
  BalancingStrategy, round_robin, Config, ServerConfig, RouteConfig, HealthCheckConfig,
  UpstreamConfig, RetryConfig, DebugConfig,
}
use ferrum_proxy.Config.Defaults.{
  default_connect_timeout_ms, default_read_timeout_ms, default_graceful_shutdown_timeout_ms,
  default_client_header_timeout_ms, default_client_body_timeout_ms, default_max_request_body_bytes,
  default_max_response_body_bytes, default_max_buffered_bodies, default_check_timeout_ms,
  default_failure_threshold, default_recovery_threshold, default_ejection_duration_ms,
  default_active_success_status_min, default_active_success_status_max,
  default_passive_failure_status_min, default_passive_failure_status_max,
  default_retry_max_attempts, default_retry_total_timeout_ms, default_retry_backoff_ms,
  default_retry_on_statuses, default_expose_backend_health, default_expose_metrics,
  default_upstream, default_retry, default_debug,
}

pub record ServerDocument : Type 0 where
  pub port : ℕ
  pub host : String
  pub graceful_shutdown_timeout_ms : Option ℕ
  pub client_header_timeout_ms : Option ℕ
  pub client_body_timeout_ms : Option ℕ
  pub fail_on_startup_dead_pool : Option Bool

pub record RouteDocument : Type 0 where
  pub path_prefix : String
  pub backends : List String
  pub balancing : Option BalancingStrategy
  pub retry_on_statuses : Option (List ℕ)
  pub passive_failure_statuses : Option (List ℕ)
  pub health_check_endpoint : Option String
  pub connect_timeout_ms : Option ℕ
  pub read_timeout_ms : Option ℕ
  pub client_body_timeout_ms : Option ℕ

pub record HealthCheckDocument : Type 0 where
  pub interval_sec : ℕ
  pub endpoint : String
  pub check_timeout_ms : Option ℕ
  pub failure_threshold : Option ℕ
  pub recovery_threshold : Option ℕ
  pub ejection_duration_ms : Option ℕ
  pub active_success_status_min : Option ℕ
  pub active_success_status_max : Option ℕ
  pub passive_failure_status_min : Option ℕ
  pub passive_failure_status_max : Option ℕ

pub record UpstreamDocument : Type 0 where
  pub connect_timeout_ms : Option ℕ
  pub read_timeout_ms : Option ℕ
  pub max_request_body_bytes : Option ℕ
  pub max_response_body_bytes : Option ℕ
  pub max_buffered_bodies : Option ℕ

pub record RetryDocument : Type 0 where
  pub max_attempts : Option ℕ
  pub total_timeout_ms : Option ℕ
  pub backoff_ms : Option ℕ
  pub retry_on_statuses : Option (List ℕ)
  pub retry_idempotent_methods : Option Bool

pub record DebugDocument : Type 0 where
  pub expose_backend_health : Option Bool
  pub expose_metrics : Option Bool
  pub auth_token : Option String

pub record Document : Type 0 where
  pub server : ServerDocument
  pub routes : List RouteDocument
  pub health_check : HealthCheckDocument
  pub upstream : Option UpstreamDocument
  pub retry : Option RetryDocument
  pub debug : Option DebugDocument

-- A key that is left out has the default.
abbrev pub or_default {ℓ} : {A : Type ℓ} → A → Option A → A
or_default d none = d
or_default d (some a) = a

abbrev pub server_of : ServerDocument → ServerConfig
server_of d = record {
  port = d.port;
  host = d.host;
  graceful_shutdown_timeout_ms =
      or_default default_graceful_shutdown_timeout_ms d.graceful_shutdown_timeout_ms;
  client_header_timeout_ms = or_default default_client_header_timeout_ms d.client_header_timeout_ms;
  client_body_timeout_ms = or_default default_client_body_timeout_ms d.client_body_timeout_ms;
  fail_on_startup_dead_pool = or_default false d.fail_on_startup_dead_pool;
}

abbrev pub route_of : RouteDocument → RouteConfig
route_of d = record {
  path_prefix = d.path_prefix;
  backends = d.backends;
  balancing = or_default round_robin d.balancing;
  retry_on_statuses = or_default [] d.retry_on_statuses;
  passive_failure_statuses = or_default [] d.passive_failure_statuses;
  health_check_endpoint = d.health_check_endpoint;
  connect_timeout_ms = d.connect_timeout_ms;
  read_timeout_ms = d.read_timeout_ms;
  client_body_timeout_ms = d.client_body_timeout_ms;
}

abbrev pub health_check_of : HealthCheckDocument → HealthCheckConfig
health_check_of d = record {
  interval_sec = d.interval_sec;
  endpoint = d.endpoint;
  check_timeout_ms = or_default default_check_timeout_ms d.check_timeout_ms;
  failure_threshold = or_default default_failure_threshold d.failure_threshold;
  recovery_threshold = or_default default_recovery_threshold d.recovery_threshold;
  ejection_duration_ms = or_default default_ejection_duration_ms d.ejection_duration_ms;
  active_success_status_min =
      or_default default_active_success_status_min d.active_success_status_min;
  active_success_status_max =
      or_default default_active_success_status_max d.active_success_status_max;
  passive_failure_status_min =
      or_default default_passive_failure_status_min d.passive_failure_status_min;
  passive_failure_status_max =
      or_default default_passive_failure_status_max d.passive_failure_status_max;
}

abbrev pub upstream_of : UpstreamDocument → UpstreamConfig
upstream_of d = record {
  connect_timeout_ms = or_default default_connect_timeout_ms d.connect_timeout_ms;
  read_timeout_ms = or_default default_read_timeout_ms d.read_timeout_ms;
  max_request_body_bytes = or_default default_max_request_body_bytes d.max_request_body_bytes;
  max_response_body_bytes = or_default default_max_response_body_bytes d.max_response_body_bytes;
  max_buffered_bodies = or_default default_max_buffered_bodies d.max_buffered_bodies;
}

abbrev pub retry_of : RetryDocument → RetryConfig
retry_of d = record {
  max_attempts = or_default default_retry_max_attempts d.max_attempts;
  total_timeout_ms = or_default default_retry_total_timeout_ms d.total_timeout_ms;
  backoff_ms = or_default default_retry_backoff_ms d.backoff_ms;
  retry_on_statuses = or_default default_retry_on_statuses d.retry_on_statuses;
  retry_idempotent_methods = or_default false d.retry_idempotent_methods;
}

abbrev pub debug_of : DebugDocument → DebugConfig
debug_of d = record {
  expose_backend_health = or_default default_expose_backend_health d.expose_backend_health;
  expose_metrics = or_default default_expose_metrics d.expose_metrics;
  auth_token = d.auth_token;
}

-- A section that may be left out, with the `Default` of its type.
abbrev pub section {ℓ κ} : {D : Type ℓ} {A : Type κ} → (D → A) → A → Option D → A
section of default none = default
section of default (some d) = of d

unfoldable pub config_of : Document → Config
config_of d = record {
  server = server_of d.server;
  routes = map route_of d.routes;
  health_check = health_check_of d.health_check;
  upstream = section upstream_of default_upstream d.upstream;
  retry = section retry_of default_retry d.retry;
  debug = section debug_of default_debug d.debug;
}

abbrev pub minimal_route : String × List String → RouteDocument
minimal_route (prefix, backends) = record {
  path_prefix = prefix;
  backends = backends;
  balancing = none;
  retry_on_statuses = none;
  passive_failure_statuses = none;
  health_check_endpoint = none;
  connect_timeout_ms = none;
  read_timeout_ms = none;
  client_body_timeout_ms = none;
}

-- A document with the required keys alone.
abbrev pub minimal : ℕ → String → ℕ → String → List (String × List String) → Document
minimal port host interval endpoint routes = record {
  server = record {
    port = port;
    host = host;
    graceful_shutdown_timeout_ms = none;
    client_header_timeout_ms = none;
    client_body_timeout_ms = none;
    fail_on_startup_dead_pool = none;
  };
  routes = map minimal_route routes;
  health_check = record {
    interval_sec = interval;
    endpoint = endpoint;
    check_timeout_ms = none;
    failure_threshold = none;
    recovery_threshold = none;
    ejection_duration_ms = none;
    active_success_status_min = none;
    active_success_status_max = none;
    passive_failure_status_min = none;
    passive_failure_status_max = none;
  };
  upstream = none;
  retry = none;
  debug = none;
}
