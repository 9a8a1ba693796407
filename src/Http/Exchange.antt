-- ===== src/Http/Exchange.antt =====
-- The choice of a backend and one exchange with it, from src/http/mod.rs.
use ferrum_proxy.Common.{
  ℕ, String, not, Option, none, some, List, filter, contains, if◌then◌else◌, string_eq, Result, ok,
  err, Duration, Instant,
}
use ferrum_proxy.Config.{RouteConfig}
use ferrum_proxy.Balancing
use ferrum_proxy.Telemetry.{record_proxy_error, record_upstream_latency}
use ferrum_proxy.Health.Manager.{record_success, record_failure, healthy_backends}
use ferrum_proxy.Upstream.Error.{UpstreamError, kind, bad_gateway_status, bad_gateway_body}
use ferrum_proxy.Upstream.Headers.{HeaderApi}
use ferrum_proxy.Upstream.Body.{Item, Frame}
use ferrum_proxy.Upstream.Forward.{Message, Answer, Urls, RequestLine, forward}
use ferrum_proxy.Http.State.{
  AppState, route_connect_timeout, route_read_timeout, is_passive_failure_status,
}
use ferrum_proxy.Http.Respond.{Reply, stream, told, Asked, text_response, complete_request}

-- The backends that `select_backend` lets the balancer choose from.
abbrev pub eligible : Option (List String) → List String → List String
eligible none healthy = healthy
eligible (some attempted) healthy = filter (λ backend. not (contains attempted backend)) healthy

-- `select_backend`
unfoldable pub select_backend :
    (ℕ → Instant) → RouteConfig → Option (List String) → AppState → AppState × Option String
select_backend clock route attempted state =
    let (manager, healthy) = healthy_backends clock route state.health.manager in
    let (balancer, choice) =
      Balancing.select_backend state.balancer route (eligible attempted healthy) in
    (
      record state { health = record state.health { manager = manager }; balancer = balancer },
      choice,
    )

-- The hook of an error in the body of the request, and in that of the response.
unfoldable pub request_error_hook : String → AppState → AppState
request_error_hook error_kind = told (record_proxy_error error_kind)

unfoldable pub response_error_hook : Instant → String → String → AppState → AppState
response_error_hook now backend error_kind state =
    let counted = told (record_proxy_error error_kind) state in
    record counted { health = record_failure now backend counted.health }

-- What happens around one exchange: the answer of the HTTP client, what other tasks do meanwhile,
-- and what the clock reads when the latency is taken, when a failure is recorded and at the end.
pub record Wire (Sent Answered : Type 0) : Type 0 where
  pub send : Sent → Answer Answered
  pub meanwhile : AppState → AppState
  pub latency : Duration
  pub now : Instant
  pub completed : Duration

-- What the HTTP client is given, and what it answers.
abbrev pub Outgoing : Type 0 → Type 0 → Type 0 → Type 0
Outgoing Uri Rest Map = Message (RequestLine Uri Rest) Map (List (Frame String))

abbrev pub Incoming : Type 0 → Type 0
Incoming Map = Message ℕ Map (List (Item String))

module _ {Map Value : Type 0} (api : HeaderApi Map Value) (no_headers : Map) where
  -- What `forward_request` does with the result of `forward`.
  unfoldable pub conclude :
      RouteConfig
      → String
      → Asked
      → (latency : Duration) (now : Instant) (completed : Duration)
      → Result UpstreamError (Message ℕ Map (List (Frame String)))
      → AppState
      → AppState × Reply Map
  conclude route backend asked latency now completed (ok response) state =
      let timed = told (record_upstream_latency latency) state in
      let health =
        if is_passive_failure_status timed route response.line
        then record_failure now backend timed.health
        else record_success backend timed.health in
      complete_request api no_headers (record timed { health = health }) asked (some backend)
        completed
        (record { status = response.line; headers = response.headers; body = stream response.body })
        none
  conclude route backend asked latency now completed (err e) state =
      let timed = told (record_upstream_latency latency) state in
      let failed = record timed { health = record_failure now backend timed.health } in
      complete_request api no_headers (told (record_proxy_error (kind e)) failed) asked
        (some backend) completed
        (text_response api no_headers (bad_gateway_status e) (bad_gateway_body e)) (some (kind e))

module _ {Url Uri Map Value Rest : Type 0} (urls : Urls Url Uri) (api : HeaderApi Map Value)
    (no_headers : Map) where
  unfoldable pub forward_request :
      RouteConfig
      → String
      → Asked
      → Message (RequestLine Uri Rest) Map (List (Item String))
      → (client_addr : Option String) (client_body_timeout : Duration)
      → Wire (Outgoing Uri Rest Map) (Incoming Map)
      → AppState
      → AppState × Reply Map
  unfolding conclude
  forward_request route backend asked request client_addr client_body_timeout wire state =
      conclude api no_headers route backend asked wire.latency wire.now wire.completed
        (forward urls api state.upstream wire.send backend request client_addr
          (route_connect_timeout state route) (route_read_timeout state route) client_body_timeout)
        (wire.meanwhile state)
