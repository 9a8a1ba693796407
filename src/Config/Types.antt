-- ===== src/Config/Types.antt =====
-- The structs of src/config/mod.rs. A `u16`, `u64` or `usize` is a number; the deserialiser keeps
-- each within its width.
use ferrum_proxy.Common.{ℕ, String, Bool, Option, List, ◌⧺◌, Result, map_err, show}

pub data BalancingStrategy : Type 0 where
  round_robin first_healthy : BalancingStrategy

pub record ServerConfig : Type 0 where
  pub port : ℕ
  pub host : String
  pub graceful_shutdown_timeout_ms : ℕ
  pub client_header_timeout_ms : ℕ
  pub client_body_timeout_ms : ℕ
  pub fail_on_startup_dead_pool : Bool

pub record RouteConfig : Type 0 where
  pub path_prefix : String
  pub backends : List String
  pub balancing : BalancingStrategy
  pub retry_on_statuses : List ℕ
  pub passive_failure_statuses : List ℕ
  pub health_check_endpoint : Option String
  pub connect_timeout_ms : Option ℕ
  pub read_timeout_ms : Option ℕ
  pub client_body_timeout_ms : Option ℕ

pub record HealthCheckConfig : Type 0 where
  pub interval_sec : ℕ
  pub endpoint : String
  pub check_timeout_ms : ℕ
  pub failure_threshold : ℕ
  pub recovery_threshold : ℕ
  pub ejection_duration_ms : ℕ
  pub active_success_status_min : ℕ
  pub active_success_status_max : ℕ
  pub passive_failure_status_min : ℕ
  pub passive_failure_status_max : ℕ

pub record UpstreamConfig : Type 0 where
  pub connect_timeout_ms : ℕ
  pub read_timeout_ms : ℕ
  pub max_request_body_bytes : ℕ
  pub max_response_body_bytes : ℕ
  pub max_buffered_bodies : ℕ

pub record RetryConfig : Type 0 where
  pub max_attempts : ℕ
  pub total_timeout_ms : ℕ
  pub backoff_ms : ℕ
  pub retry_on_statuses : List ℕ
  pub retry_idempotent_methods : Bool

pub record DebugConfig : Type 0 where
  pub expose_backend_health : Bool
  pub expose_metrics : Bool
  pub auth_token : Option String

pub record Config : Type 0 where
  pub server : ServerConfig
  pub routes : List RouteConfig
  pub health_check : HealthCheckConfig
  pub upstream : UpstreamConfig
  pub retry : RetryConfig
  pub debug : DebugConfig

-- The texts of the errors of the file system and of the YAML parser are theirs.
pub data ConfigError : Type 0 where
  io : String → ConfigError
  parse : String → ConfigError
  validation : String → ConfigError

-- `Display` of the errors
abbrev pub display_error : ConfigError → String
display_error (io e) = "failed to read config file: " ⧺ e
display_error (parse e) = "failed to parse config file: " ⧺ e
display_error (validation e) = "invalid config: " ⧺ e

-- `socket_addr`; the parser of addresses is the standard library's.
unfoldable pub socket_addr :
    {Addr : Type 0} → (String → Result String Addr) → ServerConfig → Result ConfigError Addr
socket_addr parse_addr s =
    map_err (λ e. validation ("server host/port must form a valid socket address: " ⧺ e))
      (parse_addr (s.host ⧺ ":" ⧺ show s.port))
