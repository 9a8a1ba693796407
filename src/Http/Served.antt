-- ===== src/Http/Served.antt =====
-- The paths of `handle_request` in src/http/mod.rs, to their response.
use ferrum_proxy.Common.{
  ℕ, ◌<◌, ◌≡◌, ◌≢◌, refl, sym, ◌∙◌, subst, inl, inr, String, Option, none, some, List, nat_eq,
  string_eq, ◌==◌, Bool-cases, Option-cases, Result-cases, Instant, arith,
}
use ferrum_proxy.Config.{RouteConfig}
use ferrum_proxy.Telemetry.{record_request}
use ferrum_proxy.Routing.{match_route}
use ferrum_proxy.Upstream.Headers.{HeaderApi, content_length_exceeds, set_text}
use ferrum_proxy.Upstream.Body.{Item}
use ferrum_proxy.Upstream.Forward.{Message, Urls, RequestLine}
use ferrum_proxy.Http.State.{
  Method, AppState, next_request_id, route_client_body_timeout, should_retry_request,
  should_prebuffer_request,
}
use ferrum_proxy.Http.Buffer.{buffer_request_body, buffer_error_kind, buffer_error_response}
use ferrum_proxy.Http.Respond.{
  Reply, told, Asked, complete_request, handle_internal_route, internal_page,
  backend_health_response, metrics_response,
}
use ferrum_proxy.Http.Exchange.{Outgoing, Incoming}
use ferrum_proxy.Http.Attempts.{forward_with_retries-ends}
use ferrum_proxy.Http.Permits.{
  IsSteady, KeepsSteady, IsSteady-trans, complete_request-IsSteady, no_healthy-IsSteady,
  select_backend-IsSteady, forward_request-IsSteady, KeepsRound, forward_with_retries-IsSteady,
}
use ferrum_proxy.Http.Handle.{
  RequestEnv, acquire, release, full, bad_body, over_capacity, request_id_of, handle_retried,
  handle_prebuffered, handle_streamed, handle_routed, handle_external, handle_request,
}

-- What the other tasks do around a request is steady.
pub record KeepsRequest {Sent Answered : Type 0} (env : RequestEnv Sent Answered) : Type 0 where
  pub reading : KeepsSteady env.reading
  pub meanwhile : KeepsSteady env.wire.meanwhile
  pub tries : (n : ℕ) → KeepsRound (env.tries n)

-- There is a response, with the configuration and the free permits as they were.
abbrev pub IsServed : {Map : Type 0} → AppState → Option (AppState × Reply Map) → Type 0
IsServed {Map} s o = (p : AppState × Reply Map) × (o ≡ some p) × IsSteady s p.0

-- A permit that was taken from a positive number and given back.
returned :
    (s held after : AppState)
    → s.permits ≢ 0
    → IsSteady (acquire s) held
    → IsSteady (release held) after
    → IsSteady s after
returned s held after some_left x y = record {
  config = y.config ∙ x.config;
  permits = let a = x.permits in let b = y.permits in ground arith;
}

module _ {Url Uri Map Value Rest : Type 0} (urls : Urls Url Uri) (api : HeaderApi Map Value)
    (no_headers : Map) (method_of : Rest → Method)
    (env : RequestEnv (Outgoing Uri Rest Map) (Incoming Map)) (keeps : KeepsRequest env) where
  bad_body-IsSteady :
      (s : AppState) (asked : Asked) (backend : Option String) (k : String) (response : ℕ × String)
      → IsSteady
          (release s)
          (bad_body urls api no_headers method_of env s asked backend k response).0
  unfolding complete_request
  bad_body-IsSteady s asked backend k (status, body) = record { config = refl; permits = refl }

  over_capacity-IsSteady :
      (s : AppState) (asked : Asked) (backend : Option String)
      → IsSteady s (over_capacity urls api no_headers method_of env s asked backend).0
  unfolding complete_request
  over_capacity-IsSteady s asked backend = record { config = refl; permits = refl }

  handle_retried-IsServed :
      (route : RouteConfig) (asked : Asked)
      (request : Message (RequestLine Uri Rest) Map (List (Item String))) (s : AppState)
      → 0 < s.config.retry.max_attempts
      → IsServed s (handle_retried urls api no_headers method_of env route asked request s)
  unfolding handle_retried
  handle_retried-IsServed route asked request s attempts =
      let held = env.reading (acquire s) in
      let timeout = route_client_body_timeout s route in
      let kept = keeps.reading (acquire s) in
      elim (Bool-cases (s.permits == 0)) [
        | inl full_up ↦ (
          over_capacity urls api no_headers method_of env s asked none,
          rw full_up refl,
          over_capacity-IsSteady s asked none,
        )
        | inr room ↦
            elim (Result-cases
              (buffer_request_body s.upstream.max_request_body_bytes timeout request.body)) [
                | inl (body, e) ↦
                    let (out, q, _, _, _) =
                      forward_with_retries-ends urls api no_headers route asked
                        (record { line = request.line; headers = request.headers; body = body })
                        env.client_addr timeout env.tries (release held)
                        (subst (λ c. 0 < c.retry.max_attempts) (sym kept.config) attempts) in
                    (
                      (out.state, out.reply),
                      rw room (rw e (rw q refl)),
                      returned s held out.state (ground arith) kept (
                          forward_with_retries-IsSteady urls api no_headers route asked
                            (record { line = request.line; headers = request.headers; body = body })
                            env.client_addr timeout env.tries (release held) out keeps.tries q),
                    )
                | inr (bad, e) ↦ (
                  bad_body urls api no_headers method_of env held asked none (buffer_error_kind bad)
                      (buffer_error_response bad),
                  rw room (rw e refl),
                  returned s held _ (ground arith) kept (
                      bad_body-IsSteady held asked none (buffer_error_kind bad)
                        (buffer_error_response bad)),
                )
              ]
      ]

  handle_prebuffered-IsSteady :
      (route : RouteConfig) (asked : Asked)
      (request : Message (RequestLine Uri Rest) Map (List (Item String))) (s : AppState)
      (choice : Option String)
      → IsSteady s
          (handle_prebuffered urls api no_headers method_of env route asked request (s, choice)).0
  unfolding handle_prebuffered
  handle_prebuffered-IsSteady route asked request s none =
      no_healthy-IsSteady api no_headers s asked env.latency
  handle_prebuffered-IsSteady route asked request s (some b) =
      let held = env.reading (acquire s) in
      let timeout = route_client_body_timeout s route in
      let kept = keeps.reading (acquire s) in
      elim (Bool-cases (s.permits == 0)) [
        | inl full_up ↦ rw full_up (over_capacity-IsSteady s asked (some b))
        | inr room ↦
            rw room
              (elim (Result-cases
                (buffer_request_body s.upstream.max_request_body_bytes timeout request.body)) [
                  | inl (body, e) ↦ rw e (
                      returned s held _ (ground arith) kept (
                        forward_request-IsSteady urls api no_headers route asked b
                          (record {
                            line = request.line;
                            headers = request.headers;
                            body = full body;
                          })
                          env.client_addr timeout env.wire (release held) keeps.meanwhile))
                  | inr (bad, e) ↦ rw e (
                      returned s held _ (ground arith) kept (
                        bad_body-IsSteady held asked (some b) (buffer_error_kind bad)
                          (buffer_error_response bad)))
                ])
      ]

  handle_streamed-IsSteady :
      (route : RouteConfig) (asked : Asked)
      (request : Message (RequestLine Uri Rest) Map (List (Item String))) (s : AppState)
      (choice : Option String)
      → IsSteady s
          (handle_streamed urls api no_headers method_of env route asked request (s, choice)).0
  unfolding handle_streamed
  handle_streamed-IsSteady route asked request s none =
      no_healthy-IsSteady api no_headers s asked env.latency
  handle_streamed-IsSteady route asked request s (some b) =
      forward_request-IsSteady urls api no_headers route asked b request env.client_addr
        (route_client_body_timeout s route) env.wire s keeps.meanwhile

  handle_routed-IsServed :
      (route : RouteConfig) (asked : Asked)
      (request : Message (RequestLine Uri Rest) Map (List (Item String))) (s : AppState)
      → IsServed s (handle_routed urls api no_headers method_of env route asked request s)
  unfolding handle_routed should_retry_request
  handle_routed-IsServed route asked request s =
      let chosen = select_backend-IsSteady env.choice_clock route none s in
      elim (Bool-cases (should_retry_request s asked.method)) [
        | inl again' ↦ rw again' (handle_retried-IsServed route asked request s (ground arith))
        | inr once ↦ rw once (elim (Bool-cases (should_prebuffer_request asked.method)) [
          | inl whole ↦ rw whole (
            _,
            refl,
            IsSteady-trans s _ _ chosen (handle_prebuffered-IsSteady route asked request _ _),
          )
          | inr piecewise ↦ rw piecewise (
            _,
            refl,
            IsSteady-trans s _ _ chosen (handle_streamed-IsSteady route asked request _ _),
          )
        ])
      ]

  handle_external-IsServed :
      (asked : Asked) (request : Message (RequestLine Uri Rest) Map (List (Item String)))
      (s : AppState)
      → IsServed s (handle_external urls api no_headers method_of env asked request s)
  unfolding handle_external complete_request
  handle_external-IsServed asked request s =
      elim (Option-cases
        (content_length_exceeds api request.headers s.upstream.max_request_body_bytes)) [
          | inr (n, e) ↦ rw (e, handle_external) (_, refl, record { config = refl; permits = refl })
          | inl e ↦
              rw (e, handle_external)
                (elim (Option-cases (match_route asked.path s.config.routes)) [
                  | inl f ↦ rw f (_, refl, record { config = refl; permits = refl })
                  | inr (route, f) ↦ rw f (handle_routed-IsServed route asked request s)
                ])
        ]

request_id_of-IsSteady :
    {Map Value : Type 0} (api : HeaderApi Map Value) (headers : Map) (s : AppState)
    → IsSteady s (request_id_of api headers s).0
unfolding request_id_of next_request_id
request_id_of-IsSteady api headers s = record { config = ground arith; permits = ground arith }

internal-IsSteady :
    {Map Value : Type 0} (api : HeaderApi Map Value) (no_headers : Map) (clock : ℕ → Instant)
    (method : Method) (path : String) (headers : Map) (s : AppState) (p : AppState × Reply Map)
    → handle_internal_route api no_headers clock method path headers s ≡ some p
    → IsSteady s p.0
unfolding handle_internal_route internal_page backend_health_response metrics_response
internal-IsSteady api no_headers clock method path headers s p h = record {
  config = ground (arith, h);
  permits = ground (arith, h);
}

-- Every request is answered; afterwards the free permits of the semaphore and the configuration
-- are what they were, if the other tasks give back the permits that they take and leave the
-- configuration alone.
pub handle_request-IsServed :
    {Url Uri Map Value Rest : Type 0} (urls : Urls Url Uri) (api : HeaderApi Map Value)
    (no_headers : Map) (method_of : Rest → Method)
    (env : RequestEnv (Outgoing Uri Rest Map) (Incoming Map))
    (request : Message (RequestLine Uri Rest) Map (List (Item String))) (s : AppState)
    → KeepsRequest env
    → IsServed s (handle_request urls api no_headers method_of env request s)
unfolding handle_request
handle_request-IsServed urls api no_headers method_of env request s keeps =
    let line = request.line in
    let counted = told record_request s in
    let named = request_id_of api request.headers counted in
    let v : IsSteady s named.0 =
      let w = request_id_of-IsSteady api request.headers counted in
      record { config = w.config; permits = w.permits } in
    let headers = set_text api "x-request-id" named.1 request.headers in
    let method = method_of line.method_version in
    let path = urls.path line.uri in
    let asked : Asked = record { method = method; path = path; request_id = named.1 } in
    elim (Option-cases
      (handle_internal_route api no_headers env.page_clock method path headers named.0)) [
        | inr ((t, response), e) ↦ (
          complete_request api no_headers t asked none env.latency response none,
          rw (e, handle_request) refl,
          IsSteady-trans s t _
              (IsSteady-trans s named.0 t v (
                internal-IsSteady api no_headers env.page_clock method path headers named.0
                  (t, response) e))
              (complete_request-IsSteady api no_headers t asked none env.latency response none),
        )
        | inl e ↦
            let (p, q, w) =
              handle_external-IsServed urls api no_headers method_of env keeps asked
                (record { line = line; headers = headers; body = request.body }) named.0 in
            (p, rw (e, handle_request) q, IsSteady-trans s named.0 p.0 v w)
      ]
