-- ===== src/Config/Validate.antt =====
-- The validation of src/config/mod.rs. `Err` carries the source's message; the parser of URLs is
-- the `url` crate's and stands here as a parameter.
pub mod Parts
pub mod Routes
pub mod Endpoints
pub mod Whole
pub mod Minimal
use ferrum_proxy.Common.{
  ℕ, String, Bool, true, false, not, ◌||◌, Option, none, some, List, [], ◌∷◌, ltb, ◌==◌, string_eq,
  nat_eq, if◌then◌else◌, lookup, put, insert, contains, ◌⧺◌, show, is_blank, is_empty, starts_with,
  Result, ok, err, ◌>>=◌, ◌>>◌, map_err, reject_if,
}
use ferrum_proxy.Config.Types.{
  ServerConfig, RouteConfig, HealthCheckConfig, UpstreamConfig, RetryConfig, DebugConfig, Config,
  ConfigError, io, parse, validation,
}

-- What the program asks of `url::Url`.
pub record UrlApi (Url : Type 0) : Type 0 where
  pub parse : String → Result String Url
  pub scheme : Url → String
  pub host_str : Url → Option String

abbrev pub Checked : Type 0
Checked = Result ConfigError (Unit {0})

-- `if test { return Err(ConfigError::Validation(message)) }`
abbrev pub refuse : Bool → String → Checked
refuse test message = reject_if test (validation message)

unfoldable pub validate_server : ServerConfig → Checked
unfolding is_blank
validate_server s = do
  refuse (s.port == 0) "server.port must be greater than 0"
  refuse (is_blank s.host) "server.host must not be empty"
  refuse (s.graceful_shutdown_timeout_ms == 0)
      "server.graceful_shutdown_timeout_ms must be greater than 0"
  refuse (s.client_header_timeout_ms == 0) "server.client_header_timeout_ms must be greater than 0"
  refuse (s.client_body_timeout_ms == 0) "server.client_body_timeout_ms must be greater than 0"

-- `for status in statuses { if *status < 100 { return Err(..) } }`
pub validate_statuses : String → List ℕ → Checked
validate_statuses message [] = ok tt
validate_statuses message (status ∷ rest) = do
  refuse (ltb status 100) (message ⧺ show status ⧺ "'")
  validate_statuses message rest

-- `if let Some(timeout) = timeout { if timeout == 0 { return Err(..) } }`
pub validate_timeout : String → Option ℕ → Checked
validate_timeout message none = ok tt
validate_timeout message (some timeout) = refuse (timeout == 0) message

pub validate_endpoint : String → Option String → Checked
validate_endpoint message none = ok tt
validate_endpoint message (some endpoint) = refuse (not (starts_with endpoint "/")) message

-- The messages of a route's checks.
abbrev pub retry_message : String → String
retry_message prefix = "route '" ⧺ prefix ⧺ "' retry_on_statuses contains invalid status code '"

abbrev pub passive_message : String → String
passive_message prefix =
    "route '" ⧺ prefix ⧺ "' passive_failure_statuses contains invalid status code '"

abbrev pub endpoint_message : String → String
endpoint_message prefix = "route '" ⧺ prefix ⧺ "' health_check_endpoint must start with '/'"

abbrev pub connect_message : String → String
connect_message prefix = "route '" ⧺ prefix ⧺ "' connect_timeout_ms must be greater than 0"

abbrev pub read_message : String → String
read_message prefix = "route '" ⧺ prefix ⧺ "' read_timeout_ms must be greater than 0"

abbrev pub client_body_message : String → String
client_body_message prefix = "route '" ⧺ prefix ⧺ "' client_body_timeout_ms must be greater than 0"

abbrev pub is_none {ℓ} : {A : Type ℓ} → Option A → Bool
is_none none = true
is_none (some a) = false

module _ {Url : Type 0} (urls : UrlApi Url) where
  -- `match parsed.scheme()`
  pub validate_scheme : String → String → String → Checked
  validate_scheme prefix backend scheme =
      if scheme == "http"
      then ok tt
      else if scheme == "https"
      then err (
          validation (
            "route '" ⧺ prefix ⧺ "' backend '" ⧺ backend
            ⧺ "' uses https, but ferrum-proxy does not terminate or originate TLS yet; place it behind a trusted TLS-terminating proxy or use plain http upstreams"))
      else err (
          validation (
            "route '" ⧺ prefix ⧺ "' uses unsupported backend scheme '" ⧺ scheme ⧺ "' in '" ⧺ backend
            ⧺ "'"))

  pub validate_backend : String → String → Checked
  unfolding validate_scheme
  validate_backend prefix backend = do
    parsed ←
        map_err
          (λ e.
            validation ("route '" ⧺ prefix ⧺ "' has invalid backend URL '" ⧺ backend ⧺ "': " ⧺ e))
          (urls.parse backend)
    validate_scheme prefix backend (urls.scheme parsed)
    refuse (is_none (urls.host_str parsed))
        ("route '" ⧺ prefix ⧺ "' backend '" ⧺ backend ⧺ "' must include a host")

  pub validate_backends : String → List String → Checked
  validate_backends prefix [] = ok tt
  validate_backends prefix (backend ∷ rest) = do
    validate_backend prefix backend
    validate_backends prefix rest

  pub validate_route : RouteConfig → Checked
  validate_route r = do
    refuse (not (starts_with r.path_prefix "/"))
        ("route prefix '" ⧺ r.path_prefix ⧺ "' must start with '/'")
    refuse (is_empty r.backends) ("route '" ⧺ r.path_prefix ⧺ "' must define at least one backend")
    validate_statuses (retry_message r.path_prefix) r.retry_on_statuses
    validate_statuses (passive_message r.path_prefix) r.passive_failure_statuses
    validate_endpoint (endpoint_message r.path_prefix) r.health_check_endpoint
    validate_timeout (connect_message r.path_prefix) r.connect_timeout_ms
    validate_timeout (read_message r.path_prefix) r.read_timeout_ms
    validate_timeout (client_body_message r.path_prefix) r.client_body_timeout_ms
    validate_backends r.path_prefix r.backends

  -- The loop of `Config::validate`; `seen` is the set of the prefixes so far.
  pub validate_routes : List String → List RouteConfig → Checked
  validate_routes seen [] = ok tt
  validate_routes seen (r ∷ rest) = do
    validate_route r
    refuse (contains seen r.path_prefix) ("duplicate route prefix '" ⧺ r.path_prefix ⧺ "'")
    validate_routes (insert r.path_prefix seen) rest

pub validate_health_check : HealthCheckConfig → Checked
validate_health_check h = do
  refuse (h.interval_sec == 0) "health_check.interval_sec must be greater than 0"
  refuse (not (starts_with h.endpoint "/")) "health_check.endpoint must start with '/'"
  refuse (h.check_timeout_ms == 0) "health_check.check_timeout_ms must be greater than 0"
  refuse (h.failure_threshold == 0) "health_check.failure_threshold must be greater than 0"
  refuse (h.recovery_threshold == 0) "health_check.recovery_threshold must be greater than 0"
  refuse (h.ejection_duration_ms == 0) "health_check.ejection_duration_ms must be greater than 0"
  refuse
      (h.active_success_status_min == 0
        || ltb h.active_success_status_max h.active_success_status_min)
      "health_check active success status range must be valid"
  refuse
      (h.passive_failure_status_min == 0
        || ltb h.passive_failure_status_max h.passive_failure_status_min)
      "health_check passive failure status range must be valid"

pub validate_upstream : UpstreamConfig → Checked
validate_upstream u = do
  refuse (u.connect_timeout_ms == 0) "upstream.connect_timeout_ms must be greater than 0"
  refuse (u.read_timeout_ms == 0) "upstream.read_timeout_ms must be greater than 0"
  refuse (u.max_request_body_bytes == 0) "upstream.max_request_body_bytes must be greater than 0"
  refuse (u.max_response_body_bytes == 0) "upstream.max_response_body_bytes must be greater than 0"
  refuse (u.max_buffered_bodies == 0) "upstream.max_buffered_bodies must be greater than 0"

pub validate_retry : RetryConfig → Checked
validate_retry r = do
  refuse (r.max_attempts == 0) "retry.max_attempts must be greater than 0"
  refuse (r.total_timeout_ms == 0) "retry.total_timeout_ms must be greater than 0"
  validate_statuses "retry.retry_on_statuses contains invalid status code '" r.retry_on_statuses

pub validate_debug : DebugConfig → Checked
validate_debug d = elim d.auth_token [
  | none ↦ ok tt
  | some token ↦ refuse (is_blank token) "debug.auth_token must not be empty when provided"
]

-- `route.health_check_endpoint.as_deref().unwrap_or(global)`
abbrev pub route_endpoint : String → RouteConfig → String
route_endpoint global r = elim r.health_check_endpoint [ none ↦ global | some e ↦ e ]

-- `if let Some(previous) = .. { if previous != endpoint { return Err(..) } }`
pub check_previous : String → String → Option String → Checked
check_previous backend endpoint none = ok tt
check_previous backend endpoint (some previous) = refuse (not (previous == endpoint)) (
    "backend '" ⧺ backend
    ⧺ "' is used by multiple routes with conflicting health check endpoints ('" ⧺ previous
    ⧺ "' vs '" ⧺ endpoint ⧺ "')")

-- The inner loop of `validate_route_health_endpoint_overrides`, over the backends of one route. It
-- returns the map `endpoint_by_backend`.
pub override_backends :
    String → List String → List (String × String) → Result ConfigError (List (String × String))
override_backends endpoint [] seen = ok seen
override_backends endpoint (backend ∷ rest) seen = do
  check_previous backend endpoint (lookup backend seen)
  override_backends endpoint rest (put backend endpoint seen)

pub override_routes : String → List RouteConfig → List (String × String) → Checked
override_routes global [] seen = ok tt
override_routes global (r ∷ rest) seen = do
  seen' ← override_backends (route_endpoint global r) r.backends seen
  override_routes global rest seen'

pub validate_route_health_endpoint_overrides : Config → Checked
validate_route_health_endpoint_overrides c = override_routes c.health_check.endpoint c.routes []

module _ {Url : Type 0} (urls : UrlApi Url) where
  pub validate : Config → Checked
  validate c = do
    validate_server c.server
    refuse (is_empty c.routes) "at least one route must be configured"
    validate_routes urls [] c.routes
    validate_health_check c.health_check
    validate_upstream c.upstream
    validate_retry c.retry
    validate_debug c.debug
    validate_route_health_endpoint_overrides c

  -- `load_from_file`: what the file system answers, and the YAML parser, are the environment's.
  pub load_from_file :
      Result String String → (String → Result String Config) → Result ConfigError Config
  load_from_file read from_str = do
    contents ← map_err io read
    config ← map_err parse (from_str contents)
    validate config
    ok config
