-- ===== src/Http/State.antt =====
-- `AppState` of src/http/mod.rs, its settings for a route, and the tests on methods and statuses.
use ferrum_proxy.Common.{
  ℕ, zero, suc, ◌+◌, ◌/◌, ◌%◌, u64_mod, ◌⧺◌, hex_digit, String, Bool, true, false, not, ◌&&◌, ◌||◌,
  Option, none, some, ltb, nat_eq, contains, is_empty, if◌then◌else◌, Duration, from_millis,
}
use ferrum_proxy.Config.{Config, RouteConfig}
use ferrum_proxy.Balancing
use ferrum_proxy.Balancing.{LoadBalancer}
use ferrum_proxy.Telemetry
use ferrum_proxy.Health.Manager
use ferrum_proxy.Health.Manager.{Health, with_telemetry}
use ferrum_proxy.Upstream.Forward.{UpstreamClient, new_client}

-- `hyper::Method`
pub data Method : Type 0 where
  get head options trace put delete post patch connect : Method
  extension : String → Method

abbrev pub method_text : Method → String
method_text get = "GET"
method_text head = "HEAD"
method_text options = "OPTIONS"
method_text trace = "TRACE"
method_text put = "PUT"
method_text delete = "DELETE"
method_text post = "POST"
method_text patch = "PATCH"
method_text connect = "CONNECT"
method_text (extension name) = name

-- `health` holds the telemetry too; `permits` are the free ones of `buffer_semaphore`, and `next_id`
-- is the static `REQUEST_ID_COUNTER`.
pub record AppState : Type 0 where
  pub config : Config
  pub balancer : LoadBalancer
  pub health : Health
  pub upstream : UpstreamClient
  pub permits : ℕ
  pub next_id : ℕ

-- `AppState::new`
unfoldable pub new_state : Config → AppState
new_state config = record {
  config = config;
  balancer = Balancing.new config.routes;
  health = record {
    manager =
        with_telemetry config.routes config.health_check.failure_threshold
          config.health_check.recovery_threshold
          (from_millis config.health_check.ejection_duration_ms)
          config.health_check.active_success_status_min
          config.health_check.active_success_status_max
          config.health_check.passive_failure_status_min
          config.health_check.passive_failure_status_max true;
    shared = Telemetry.new config.routes;
  };
  upstream = new_client config.upstream;
  permits = config.upstream.max_buffered_bodies;
  next_id = 1;
}

abbrev pub unwrap_or : Option ℕ → ℕ → ℕ
unwrap_or none n = n
unwrap_or (some m) n = m

unfoldable pub shutdown_timeout : AppState → Duration
shutdown_timeout state = from_millis state.config.server.graceful_shutdown_timeout_ms

unfoldable pub client_header_timeout : AppState → Duration
client_header_timeout state = from_millis state.config.server.client_header_timeout_ms

unfoldable pub route_client_body_timeout : AppState → RouteConfig → Duration
route_client_body_timeout state route =
    from_millis (unwrap_or route.client_body_timeout_ms state.config.server.client_body_timeout_ms)

unfoldable pub route_connect_timeout : AppState → RouteConfig → Duration
route_connect_timeout state route =
    from_millis (unwrap_or route.connect_timeout_ms state.config.upstream.connect_timeout_ms)

unfoldable pub route_read_timeout : AppState → RouteConfig → Duration
route_read_timeout state route =
    from_millis (unwrap_or route.read_timeout_ms state.config.upstream.read_timeout_ms)

unfoldable pub should_retry_status : AppState → RouteConfig → ℕ → Bool
should_retry_status state route status =
    contains
      (if is_empty route.retry_on_statuses
        then state.config.retry.retry_on_statuses
        else route.retry_on_statuses)
      status

unfoldable pub is_passive_failure_status : AppState → RouteConfig → ℕ → Bool
is_passive_failure_status state route status =
    if not (is_empty route.passive_failure_statuses)
    then contains route.passive_failure_statuses status
    else Manager.is_passive_failure_status status state.health.manager

abbrev pub is_safe : Method → Bool
is_safe get = true
is_safe head = true
is_safe options = true
is_safe trace = true
is_safe _ = false

abbrev is_idempotent : Method → Bool
is_idempotent put = true
is_idempotent delete = true
is_idempotent _ = false

unfoldable pub is_retryable_method : Method → Bool → Bool
is_retryable_method method retry_idempotent =
    is_safe method || retry_idempotent && is_idempotent method

unfoldable pub should_retry_request : AppState → Method → Bool
unfolding is_retryable_method
should_retry_request state method =
    ltb 1 state.config.retry.max_attempts
    && is_retryable_method method state.config.retry.retry_idempotent_methods

unfoldable pub should_prebuffer_request : Method → Bool
should_prebuffer_request method = not (is_safe method)

-- `{n:0kx}` of a number with at most `k` digits
hex : ℕ → ℕ → String
hex zero n = ""
hex (suc k) n = hex k (n / 16) ⧺ hex_digit (n % 16)

unfoldable pub next_request_id : AppState → AppState × String
unfolding hex
next_request_id state =
    (record state { next_id = (state.next_id + 1) % u64_mod }, hex 16 state.next_id)
