-- ===== src/Http/Handle.antt =====
-- `handle_request` of src/http/mod.rs, from the request to the response.
use ferrum_proxy.Common.{
  ℕ, ◌+◌, ◌-◌, String, Option, none, some, List, [], ◌∷◌, nat_eq, string_eq, ◌==◌, if◌then◌else◌,
  ◌⧺◌, show, ok, err, Duration, Instant,
}
use ferrum_proxy.Config.{RouteConfig}
use ferrum_proxy.Routing.{match_route}
use ferrum_proxy.Telemetry.{record_request, record_proxy_error}
use ferrum_proxy.Upstream.Headers.{HeaderApi, set_text, content_length_exceeds}
use ferrum_proxy.Upstream.Body.{Item, bytes}
use ferrum_proxy.Upstream.Forward.{Message, Urls, RequestLine}
use ferrum_proxy.Http.State.{
  Method, AppState, next_request_id, route_client_body_timeout, should_retry_request,
  should_prebuffer_request,
}
use ferrum_proxy.Http.Buffer.{buffer_error_kind, buffer_error_response, buffer_request_body}
use ferrum_proxy.Http.Respond.{
  Reply, told, Asked, text_response, complete_request, no_healthy_backends_response,
  handle_internal_route,
}
use ferrum_proxy.Http.Exchange.{Wire, Outgoing, Incoming, select_backend, forward_request}
use ferrum_proxy.Http.Retries.{RoundEnv, Outcome, forward_with_retries}

-- What happens around one request: the readings of the clock, what other tasks do while the body is
-- read, the exchange, and the rounds of the retry loop.
pub record RequestEnv (Sent Answered : Type 0) : Type 0 where
  pub page_clock : ℕ → Instant
  pub choice_clock : ℕ → Instant
  pub latency : Duration
  pub client_addr : Option String
  pub reading : AppState → AppState
  pub wire : Wire Sent Answered
  pub tries : ℕ → RoundEnv Sent Answered

-- A permit of the semaphore is taken and given back.
abbrev pub acquire : AppState → AppState
acquire state = record state { permits = state.permits - 1 }

abbrev pub release : AppState → AppState
release state = record state { permits = state.permits + 1 }

abbrev pub full : List ℕ → List (Item String)
full [] = []
full (b ∷ bs) = bytes (b ∷ bs) ∷ []

module _ {Map Value : Type 0} (api : HeaderApi Map Value) where
  abbrev text_of : Option Value → Option String
  text_of none = none
  text_of (some value) = api.to_str value

  -- The `x-request-id` of the client, or a new one.
  unfoldable pub request_id_of : Map → AppState → AppState × String
  request_id_of headers state = elim (text_of (api.get "x-request-id" headers)) [
    | some given ↦ (state, given)
    | none ↦ next_request_id state
  ]

module _ {Url Uri Map Value Rest : Type 0} (urls : Urls Url Uri) (api : HeaderApi Map Value)
    (no_headers : Map) (method_of : Rest → Method)
    (env : RequestEnv (Outgoing Uri Rest Map) (Incoming Map)) where
  abbrev pub Request : Type 0 → Type 0
  Request Body = Message (RequestLine Uri Rest) Map Body

  -- A response that the proxy makes itself.
  abbrev pub own :
      AppState → Asked → Option String → ℕ → String → Option String → AppState × Reply Map
  own state asked backend status body error_kind =
      complete_request api no_headers state asked backend env.latency
        (text_response api no_headers status body) error_kind

  abbrev pub over_capacity : AppState → Asked → Option String → AppState × Reply Map
  over_capacity state asked backend =
      own (told (record_proxy_error "buffer_capacity_exceeded") state) asked backend 503
        "too many concurrent buffered requests\n" (some "buffer_capacity_exceeded")

  -- The permit is given back when the function returns.
  abbrev pub bad_body :
      AppState → Asked → Option String → String → ℕ × String → AppState × Reply Map
  bad_body state asked backend error_kind (status, body) =
      let (after, reply) =
        own (told (record_proxy_error error_kind) state) asked backend status body
          (some error_kind) in
      (release after, reply)

  abbrev pub end_of : Option (Outcome Map) → Option (AppState × Reply Map)
  end_of none = none
  end_of (some out) = some (out.state, out.reply)

  -- A request that may be sent again: its body is buffered first.
  unfoldable pub handle_retried :
      RouteConfig → Asked → Request (List (Item String)) → AppState → Option (AppState × Reply Map)
  handle_retried route asked request state =
      if state.permits == 0
      then some (over_capacity state asked none)
      else let timeout = route_client_body_timeout state route in
        let held = env.reading (acquire state) in
        elim (buffer_request_body state.upstream.max_request_body_bytes timeout request.body) [
          | ok body ↦ end_of (
              forward_with_retries urls api no_headers route asked
                (record { line = request.line; headers = request.headers; body = body })
                env.client_addr timeout env.tries (release held))
          | err e ↦ some (bad_body held asked none (buffer_error_kind e) (buffer_error_response e))
        ]

  -- A request with a body that is sent once: the backend is chosen, then the body is buffered.
  unfoldable pub handle_prebuffered :
      RouteConfig
      → Asked
      → Request (List (Item String))
      → AppState × Option String
      → AppState × Reply Map
  handle_prebuffered route asked request (state, none) =
      no_healthy_backends_response api no_headers state asked env.latency
  handle_prebuffered route asked request (state, some backend) =
      if state.permits == 0
      then over_capacity state asked (some backend)
      else let timeout = route_client_body_timeout state route in
        let held = env.reading (acquire state) in
        elim (buffer_request_body state.upstream.max_request_body_bytes timeout request.body) [
          | ok body ↦
              forward_request urls api no_headers route backend asked
                (record { line = request.line; headers = request.headers; body = full body })
                env.client_addr timeout env.wire (release held)
          | err e ↦
              bad_body held asked (some backend) (buffer_error_kind e) (buffer_error_response e)
        ]

  -- Any other request is streamed.
  unfoldable pub handle_streamed :
      RouteConfig
      → Asked
      → Request (List (Item String))
      → AppState × Option String
      → AppState × Reply Map
  handle_streamed route asked request (state, none) =
      no_healthy_backends_response api no_headers state asked env.latency
  handle_streamed route asked request (state, some backend) =
      forward_request urls api no_headers route backend asked request env.client_addr
        (route_client_body_timeout state route) env.wire state

  unfoldable pub handle_routed :
      RouteConfig → Asked → Request (List (Item String)) → AppState → Option (AppState × Reply Map)
  unfolding handle_retried handle_prebuffered handle_streamed
  handle_routed route asked request state =
      if should_retry_request state asked.method
      then handle_retried route asked request state
      else if should_prebuffer_request asked.method
      then some (
          handle_prebuffered route asked request (select_backend env.choice_clock route none state))
      else some
          (handle_streamed route asked request (select_backend env.choice_clock route none state))

  -- Behind the internal routes.
  unfoldable pub handle_external :
      Asked → Request (List (Item String)) → AppState → Option (AppState × Reply Map)
  unfolding handle_routed
  handle_external asked request state =
      elim (content_length_exceeds api request.headers state.upstream.max_request_body_bytes) [
        | some content_length ↦ some (
            own (told (record_proxy_error "request_body_too_large") state) asked none 413
              ("request body too large: content-length "
                ⧺ show content_length
                ⧺ " exceeds "
                ⧺ show state.upstream.max_request_body_bytes
                ⧺ " byte limit\n")
              (some "request_body_too_large"))
        | none ↦ elim (match_route asked.path state.config.routes) [
          | none ↦ some (own state asked none 404 "no route matched request path\n" none)
          | some route ↦ handle_routed route asked request state
        ]
      ]

  unfoldable pub handle_request :
      Request (List (Item String)) → AppState → Option (AppState × Reply Map)
  unfolding handle_external
  handle_request request state =
      let (named, request_id) = request_id_of api request.headers (told record_request state) in
      let headers = set_text api "x-request-id" request_id request.headers in
      let method = method_of request.line.method_version in
      let path = urls.path request.line.uri in
      let asked : Asked = record { method = method; path = path; request_id = request_id } in
      elim (handle_internal_route api no_headers env.page_clock method path headers named) [
        | some (answered, response) ↦
            some (complete_request api no_headers answered asked none env.latency response none)
        | none ↦
            handle_external asked
              (record { line = request.line; headers = headers; body = request.body }) named
      ]
