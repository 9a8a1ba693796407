-- ===== src/Http/Respond.antt =====
-- The responses that src/http/mod.rs makes itself, and the internal routes. A response that is done
-- counts and is logged; `latency` is what `started.elapsed()` reads.
use ferrum_proxy.Common.{
  ℕ, String, Bool, true, false, Option, none, some, List, [], ◌∷◌, length, if◌then◌else◌, ◌==◌,
  string_eq, ◌⧺◌, show, Duration, Instant,
}
use ferrum_proxy.Telemetry.{Telemetry, record_response_status, record_proxy_error}
use ferrum_proxy.Telemetry.Lines.{log_request_complete}
use ferrum_proxy.Telemetry.Render.{render_prometheus}
use ferrum_proxy.Health.Manager.{backend_statuses}
use ferrum_proxy.Upstream.Headers.{HeaderApi, set_text}
use ferrum_proxy.Upstream.Body.{Frame}
use ferrum_proxy.Http.State.{Method, get, method_text, AppState}

pub data ReplyBody : Type 0 where
  text : String → ReplyBody
  stream : List (Frame String) → ReplyBody

pub record Reply (Map : Type 0) : Type 0 where
  pub status : ℕ
  pub headers : Map
  pub body : ReplyBody

-- A change of the telemetry that the state shares.
abbrev pub told : (Telemetry → Telemetry) → AppState → AppState
told change state = record state {
  health = record state.health { shared = change state.health.shared };
}

-- What the log says of a request.
pub record Asked : Type 0 where
  pub method : Method
  pub path : String
  pub request_id : String

abbrev pub status_word : Bool → String
status_word true = "healthy"
status_word false = "unhealthy"

abbrev pub status_lines_text : List (String × Bool) → String
status_lines_text [] = ""
status_lines_text ((backend, healthy) ∷ rest) =
    backend ⧺ " " ⧺ status_word healthy ⧺ "\n" ⧺ status_lines_text rest

abbrev pub header_text : {Map Value : Type 0} → HeaderApi Map Value → Option Value → Option String
header_text api none = none
header_text api (some value) = api.to_str value

abbrev pub is_text : Option String → String → Bool
is_text none expected = false
is_text (some given) expected = given == expected

-- `no_headers` is a new header map.
module _ {Map Value : Type 0} (api : HeaderApi Map Value) (no_headers : Map) where
  abbrev pub text_response : ℕ → String → Reply Map
  text_response status body = record { status = status; headers = no_headers; body = text body }

  unfoldable pub complete_request :
      AppState → Asked → Option String → Duration → Reply Map → Option String → AppState × Reply Map
  unfolding set_text log_request_complete
  complete_request state asked backend latency response error_kind = (
    told
        (λ t.
          log_request_complete (method_text asked.method) asked.path backend response.status latency
            error_kind asked.request_id (record_response_status response.status t))
        state,
    record response { headers = set_text api "x-request-id" asked.request_id response.headers },
  )

  unfoldable pub no_healthy_backends_response : AppState → Asked → Duration → AppState × Reply Map
  unfolding complete_request
  no_healthy_backends_response state asked latency =
      complete_request (told (record_proxy_error "no_healthy_backends") state) asked none latency
        (text_response 503 "no healthy backends available\n") (some "no_healthy_backends")

  unfoldable pub root_response : AppState → Reply Map
  root_response state = text_response 200 (
      "ferrum-proxy is running with "
      ⧺ show (length state.config.routes)
      ⧺ " configured route(s)\n")

  -- To ask for the statuses ends the windows that are over.
  unfoldable pub backend_health_response : (ℕ → Instant) → AppState → AppState × Reply Map
  backend_health_response clock state =
      let (manager, statuses) = backend_statuses clock state.health.manager in
      (
        record state { health = record state.health { manager = manager } },
        text_response 200 (status_lines_text statuses),
      )

  unfoldable pub metrics_response : (ℕ → Instant) → AppState → AppState × Reply Map
  metrics_response clock state =
      let (manager, statuses) = backend_statuses clock state.health.manager in
      (
        record state { health = record state.health { manager = manager } },
        record {
          status = 200;
          headers = api.set "content-type" (api.from_static "text/plain; version=0.0.4") no_headers;
          body = text (render_prometheus state.health.shared statuses);
        },
      )

  unfoldable pub unauthorized_debug_response : Reply Map
  unauthorized_debug_response = record {
    status = 401;
    headers = api.set "www-authenticate" (api.from_static "Bearer") no_headers;
    body = text "debug endpoint requires bearer authentication\n";
  }

  unfoldable pub debug_request_authorized : Map → AppState → Bool
  debug_request_authorized headers state = elim state.config.debug.auth_token [
    | none ↦ true
    | some expected_token ↦
        is_text (header_text api (api.get "authorization" headers)) ("Bearer " ⧺ expected_token)
  ]

  -- `if !exposed { None } else if !authorized { Some(unauthorized) } else { Some(..) }`
  abbrev guarded : Bool → Bool → AppState → AppState × Reply Map → Option (AppState × Reply Map)
  guarded false authorized state answer = none
  guarded true false state answer = some (state, unauthorized_debug_response)
  guarded true true state answer = some answer

  -- The arms of the match for a `GET`.
  unfoldable pub internal_page :
      (ℕ → Instant) → String → Map → AppState → Option (AppState × Reply Map)
  internal_page clock path headers state =
      if path == "/"
      then some (state, root_response state)
      else if path == "/health"
      then some (state, text_response 200 "ok\n")
      else if path == "/health/backends"
      then guarded state.config.debug.expose_backend_health (debug_request_authorized headers state)
          state (backend_health_response clock state)
      else if path == "/metrics"
      then guarded state.config.debug.expose_metrics (debug_request_authorized headers state) state
          (metrics_response clock state)
      else none

  unfoldable pub handle_internal_route :
      (ℕ → Instant) → Method → String → Map → AppState → Option (AppState × Reply Map)
  unfolding internal_page
  handle_internal_route clock get path headers state = internal_page clock path headers state
  handle_internal_route clock _ path headers state = none
