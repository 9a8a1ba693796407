-- ===== src/Config/Validate/Parts.antt =====
-- What the validators of src/config/mod.rs accept, for the parts that stand alone.
use ferrum_proxy.Common.{
  ℕ, String, ◌≤◌, ◌<◌, ◌≡◌, refl, ◌↔◌, true, false, Option, none, some, List, [], ◌∷◌, All,
  is_blank, starts_with, ok, arith,
}
use ferrum_proxy.Config.Types.{
  ServerConfig, HealthCheckConfig, UpstreamConfig, RetryConfig, DebugConfig,
}
use ferrum_proxy.Config.Validate.{
  validate_server, validate_statuses, validate_timeout, validate_endpoint, validate_health_check,
  validate_upstream, validate_retry, validate_debug,
}

pub record ServerIsValid (s : ServerConfig) : Type 0 where
  pub port : 0 < s.port
  pub host : is_blank s.host ≡ false
  pub graceful_shutdown : 0 < s.graceful_shutdown_timeout_ms
  pub client_header : 0 < s.client_header_timeout_ms
  pub client_body : 0 < s.client_body_timeout_ms

-- `server` is accepted exactly when the port and the timeouts are positive and the host is not blank.
pub validate_server_iff : (s : ServerConfig) → (validate_server s ≡ ok tt) ↔ ServerIsValid s
unfolding validate_server
validate_server_iff s = (λ h. ground arith, λ v. ground arith)

abbrev pub AreStatuses : List ℕ → Type 0
AreStatuses = All (λ status. 100 ≤ status)

pub validate_statuses_iff :
    (message : String) (l : List ℕ) → (validate_statuses message l ≡ ok tt) ↔ AreStatuses l
unfolding validate_statuses
validate_statuses_iff message [] = ground arith
validate_statuses_iff message (status ∷ rest) =
    let ih = validate_statuses_iff message rest in ground (arith, ih)

-- An optional time-out is absent or positive.
abbrev pub IsTimeout : Option ℕ → Type 0
IsTimeout none = Unit
IsTimeout (some timeout) = 0 < timeout

pub validate_timeout_iff :
    (message : String) (o : Option ℕ) → (validate_timeout message o ≡ ok tt) ↔ IsTimeout o
unfolding validate_timeout
validate_timeout_iff message none = ground arith
validate_timeout_iff message (some timeout) = ground arith

-- An optional endpoint is absent or begins with a slash.
abbrev pub IsEndpoint : Option String → Type 0
IsEndpoint none = Unit
IsEndpoint (some endpoint) = starts_with endpoint "/" ≡ true

pub validate_endpoint_iff :
    (message : String) (o : Option String) → (validate_endpoint message o ≡ ok tt) ↔ IsEndpoint o
unfolding validate_endpoint
validate_endpoint_iff message none = ground arith
validate_endpoint_iff message (some endpoint) = ground arith

pub record HealthCheckIsValid (h : HealthCheckConfig) : Type 0 where
  pub interval : 0 < h.interval_sec
  pub endpoint : starts_with h.endpoint "/" ≡ true
  pub check_timeout : 0 < h.check_timeout_ms
  pub failure : 0 < h.failure_threshold
  pub recovery : 0 < h.recovery_threshold
  pub ejection : 0 < h.ejection_duration_ms
  pub active_positive : 0 < h.active_success_status_min
  pub active_range : h.active_success_status_min ≤ h.active_success_status_max
  pub passive_positive : 0 < h.passive_failure_status_min
  pub passive_range : h.passive_failure_status_min ≤ h.passive_failure_status_max

pub validate_health_check_iff :
    (h : HealthCheckConfig) → (validate_health_check h ≡ ok tt) ↔ HealthCheckIsValid h
unfolding validate_health_check
validate_health_check_iff h = (λ e. ground arith, λ v. ground arith)

pub record UpstreamIsValid (u : UpstreamConfig) : Type 0 where
  pub connect_timeout : 0 < u.connect_timeout_ms
  pub read_timeout : 0 < u.read_timeout_ms
  pub request_body : 0 < u.max_request_body_bytes
  pub response_body : 0 < u.max_response_body_bytes
  pub buffered : 0 < u.max_buffered_bodies

pub validate_upstream_iff : (u : UpstreamConfig) → (validate_upstream u ≡ ok tt) ↔ UpstreamIsValid u
unfolding validate_upstream
validate_upstream_iff u = (λ e. ground arith, λ v. ground arith)

pub record RetryIsValid (r : RetryConfig) : Type 0 where
  pub attempts : 0 < r.max_attempts
  pub total_timeout : 0 < r.total_timeout_ms
  pub statuses : AreStatuses r.retry_on_statuses

pub validate_retry_iff : (r : RetryConfig) → (validate_retry r ≡ ok tt) ↔ RetryIsValid r
unfolding validate_retry
validate_retry_iff r =
    let statuses =
      validate_statuses_iff "retry.retry_on_statuses contains invalid status code '"
        r.retry_on_statuses in
    (λ e. ground (arith, statuses), λ v. ground (arith, statuses.1 v.statuses))

abbrev pub DebugIsValid : DebugConfig → Type 0
DebugIsValid d = (token : String) → d.auth_token ≡ some token → is_blank token ≡ false

pub validate_debug_iff : (d : DebugConfig) → (validate_debug d ≡ ok tt) ↔ DebugIsValid d
unfolding validate_debug
validate_debug_iff d = (λ e token s. ground arith, λ v. go d.auth_token v)
  where
    go :
        (o : Option String)
        → ((token : String) → o ≡ some token → is_blank token ≡ false)
        → validate_debug (record d { auth_token = o }) ≡ ok tt
    go none v = refl
    go (some token) v = ground (arith, v token refl)
