-- ===== src/Http/Examples.antt =====
-- Requests for src/http/mod.rs, with the header map, the URLs and the client of the upstream
-- examples, and no other task at work.
use ferrum_proxy.Common.{
  ℕ, show, err, ◌≡◌, ◌⊎◌, ◌≤◌, ◌<◌, ◌+◌, ◌++◌, refl, String, none, some, List, [], ◌∷◌, In, All,
  length, map_err, arith, Option, true, Result, ok, Instant,
}
use ferrum_proxy.Config.{Config}
use ferrum_proxy.Config.Examples.{route_of, two_pools}
use ferrum_proxy.Upstream.Body.{limit_body_stream}
use ferrum_proxy.Upstream.Limits.{read_frames}
use ferrum_proxy.Upstream.Forward.{Message, RequestLine}
use ferrum_proxy.Upstream.Examples.{HeaderMap, api, urls, send, request, body}
use ferrum_proxy.Health.Calls.{fails, looks, perform}
use ferrum_proxy.Health.Checks.{check_one, check_pass_beside, unique_backend_checks}
use ferrum_proxy.Health.Manager.{
  with_telemetry, startup_dead_pools, is_active_success_status, record_failure,
}
use ferrum_proxy.Health.Keeps.{perform_all}
use ferrum_proxy.Health.State.{on_failure, check_ejected}
use ferrum_proxy.Http.State.{Method, get, AppState, new_state}
use ferrum_proxy.Http.Buffer.{buffer_error_kind, buffer_request_body, kind-buffer_request_body}
use ferrum_proxy.Http.Respond.{
  Reply, Asked, unauthorized_debug_response, handle_internal_route, internal_page,
  debug_request_authorized,
}
use ferrum_proxy.Http.Exchange.{Wire, Outgoing, Incoming}
use ferrum_proxy.Http.Retries.{sent_list, RoundEnv, Outcome, budget_of, forward_with_retries}
use ferrum_proxy.Http.Attempts.{NoRepeat, forward_with_retries-ends}
use ferrum_proxy.Http.Ends.{insert_all, forward_with_retries-why}
use ferrum_proxy.Http.Reasons.{Reason, GoesOn}
use ferrum_proxy.Http.Startup.{run_startup_health_check}
use ferrum_proxy.Http.FirstPass.{OtherCalls, tasks_of, begun}
use ferrum_proxy.Http.Handle.{RequestEnv, handle_request}
use ferrum_proxy.Http.Permits.{KeepsSteady}
use ferrum_proxy.Http.Served.{IsServed, KeepsRequest, handle_request-IsServed}
use ferrum_proxy.Http.Guard.{internal-guarded}

kind-buffer_request_body_example :
    map_err buffer_error_kind (buffer_request_body 2 1000 body)
    ≡ read_frames (limit_body_stream 2 1000 "client request body" body)
kind-buffer_request_body_example = kind-buffer_request_body 2 1000 body (omega arith)

abbrev three_tries : Config
three_tries = record two_pools {
  retry = record two_pools.retry { max_attempts = 3 };
  debug = record two_pools.debug { auth_token = some "secret" };
}

abbrev state : AppState
state = new_state three_tries

abbrev wire : Wire (Outgoing String String HeaderMap) (Incoming HeaderMap)
wire = record { send = send; meanwhile = λ s. s; latency = 3; now = 8; completed = 4 }

abbrev round_env : ℕ → RoundEnv (Outgoing String String HeaderMap) (Incoming HeaderMap)
round_env _ = record {
  elapsed = 1;
  elapsed_at_end = 2;
  clock = λ _. 5;
  wire = wire;
  elapsed_after = 6;
  elapsed_before_sleep = 7;
  asleep = λ s. s;
}

abbrev env : RequestEnv (Outgoing String String HeaderMap) (Incoming HeaderMap)
env = record {
  page_clock = λ _. 5;
  choice_clock = λ _. 5;
  latency = 1;
  client_addr = some "10.0.0.1";
  reading = λ s. s;
  wire = wire;
  tries = round_env;
}

same-KeepsSteady : KeepsSteady (λ s. s)
same-KeepsSteady s = record { config = refl; permits = refl }

env-KeepsRequest : KeepsRequest env
env-KeepsRequest = record {
  reading = same-KeepsSteady;
  meanwhile = same-KeepsSteady;
  tries = λ _. record { meanwhile = same-KeepsSteady; asleep = same-KeepsSteady };
}

abbrev no_headers : HeaderMap
no_headers _ = none

abbrev get_api : Asked
get_api = record { method = get; path = "/api"; request_id = "1" }

abbrev buffered : Message (RequestLine String String) HeaderMap (List ℕ)
buffered = record { line = request.line; headers = request.headers; body = 1 ∷ [] }

forward_with_retries-ends_example :
    (out : Outcome HeaderMap) × (forward_with_retries urls api no_headers
        (route_of "/api" ("b" ∷ "a" ∷ []))
        get_api
        buffered
        none
        9
        round_env
        state
      ≡ some out)
    × NoRepeat out.sent
    × All (λ b. In b ("b" ∷ "a" ∷ [])) out.sent
    × (length out.sent ≤ 3)
unfolding new_state
forward_with_retries-ends_example =
    forward_with_retries-ends urls api no_headers (route_of "/api" ("b" ∷ "a" ∷ [])) get_api
      buffered none 9 round_env state (omega arith)

forward_with_retries-why_example :
    (out : Outcome HeaderMap) × (forward_with_retries urls api no_headers
        (route_of "/api" ("b" ∷ "a" ∷ []))
        get_api
        buffered
        none
        9
        round_env
        state
      ≡ some out)
    × (earlier : List String) × (last : Option String) × (out.sent ≡ earlier ++ sent_list last)
    × (1 + length earlier ≤ 3)
    × ((j : ℕ) → 1 ≤ j → j < 1 + length earlier → GoesOn (budget_of state) j (round_env j))
    × Reason
        (route_of "/api" ("b" ∷ "a" ∷ []))
        (budget_of state)
        (1 + length earlier)
        (insert_all earlier [])
        (round_env (1 + length earlier))
        last
        out.state
        out.reply
unfolding new_state
forward_with_retries-why_example =
    forward_with_retries-why urls api no_headers (route_of "/api" ("b" ∷ "a" ∷ [])) get_api buffered
      none 9 round_env state (omega arith)

abbrev all_get : String → Method
all_get _ = get

handle_request-IsServed_example :
    IsServed state (handle_request urls api no_headers all_get env request state)
handle_request-IsServed_example =
    handle_request-IsServed urls api no_headers all_get env request state env-KeepsRequest

abbrev page : String
page = "/metrics"

abbrev denied : AppState × Reply HeaderMap
denied = (state, unauthorized_debug_response api no_headers)

internal-guarded_example : (page ≡ "/") ⊎ ((page ≡ "/health") ⊎ (denied ≡ denied))
unfolding handle_internal_route internal_page debug_request_authorized new_state
internal-guarded_example =
    internal-guarded api no_headers (λ _. 5) get page no_headers state "secret" denied refl
      (λ e. cc) refl

abbrev strict : Config
strict = record two_pools { server = record two_pools.server { fail_on_startup_dead_pool = true } }

abbrev probed : String → String → Result String String
probed backend endpoint = ok backend

abbrev no_answer : String → Option ℕ
no_answer _ = none

abbrev clock : ℕ → Instant
clock i = i

-- The background checks have recorded a failure before the check at the start.
abbrev background : OtherCalls
background = record {
  before = fails 1 "http://a" ∷ looks 2 "http://b" ∷ [];
  checking = λ _. [];
  looking = λ _. [];
}

-- With a threshold of 2 that failure and the one of the check at the start are enough.
abbrev hasty : Config
hasty = record strict { health_check = record strict.health_check { failure_threshold = 2 } }

hasty_aborts :
    (run_startup_health_check probed no_answer
      (tasks_of background)
      clock
      (λ _. clock)
      (begun hasty background)).1
    ≡ err "startup aborted: 1 route(s) have no reachable backends: /"
unfolding run_startup_health_check new_state with_telemetry startup_dead_pools perform_all
    check_pass_beside unique_backend_checks check_one is_active_success_status perform
    record_failure on_failure check_ejected show
hasty_aborts = refl
