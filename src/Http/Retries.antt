-- ===== src/Http/Retries.antt =====
-- `forward_with_retries` of src/http/mod.rs. The loop runs on fuel, one round more than
-- `max_attempts`.
use ferrum_proxy.Common.{
  ℕ, zero, suc, ◌+◌, ◌-◌, ◌*◌, ◌^◌, min, String, not, ◌||◌, Option, none, some, List, [], ◌∷◌,
  length, leb, ltb, insert, if◌then◌else◌, nat_eq, string_eq, ◌==◌, show, Duration, Instant,
  from_millis, u64_mod,
}
use ferrum_proxy.Config.{RouteConfig}
use ferrum_proxy.Telemetry.{record_proxy_error}
use ferrum_proxy.Telemetry.Lines.{log_retry_attempt}
use ferrum_proxy.Upstream.Headers.{HeaderApi, set_text}
use ferrum_proxy.Upstream.Body.{Item, bytes}
use ferrum_proxy.Upstream.Forward.{Message, Urls, RequestLine}
use ferrum_proxy.Http.State.{AppState, method_text, should_retry_status}
use ferrum_proxy.Http.Respond.{
  Reply, told, Asked, text_response, complete_request, no_healthy_backends_response,
}
use ferrum_proxy.Http.Exchange.{Wire, Outgoing, Incoming, select_backend, forward_request}

-- `base_backoff_ms.saturating_mul(1u64 << (attempt - 1).min(10))`, as a duration
unfoldable pub backoff : ℕ → ℕ → Duration
backoff base_backoff_ms attempt =
    from_millis (min (base_backoff_ms * 2 ^ min (attempt - 1) 10) (u64_mod - 1))

-- What happens around one round: the readings of `started.elapsed()`, those of the clock for the
-- ejection windows, the exchange, and what other tasks do during the sleep.
pub record RoundEnv (Sent Answered : Type 0) : Type 0 where
  pub elapsed : Duration
  pub elapsed_at_end : Duration
  pub clock : ℕ → Instant
  pub wire : Wire Sent Answered
  pub elapsed_after : Duration
  pub elapsed_before_sleep : Duration
  pub asleep : AppState → AppState

-- What the loop captures before its first round.
pub record Budget : Type 0 where
  pub max_attempts : ℕ
  pub total_timeout : Duration
  pub base_backoff_ms : ℕ

unfoldable pub budget_of : AppState → Budget
budget_of state = record {
  max_attempts = state.config.retry.max_attempts;
  total_timeout = from_millis state.config.retry.total_timeout_ms;
  base_backoff_ms = state.config.retry.backoff_ms;
}

-- A round ends the loop or goes on. Either way it says which backend the request was sent to.
pub data Round (Map : Type 0) : Type 0 where
  finish : (sent : Option String) → AppState × Reply Map → Round Map
  again : (sent : String) → AppState → Round Map

-- The state and the reply at the end, and the backends that the request was sent to, in order.
pub record Outcome (Map : Type 0) : Type 0 where
  pub sent : List String
  pub state : AppState
  pub reply : Reply Map

abbrev pub sent_list : Option String → List String
sent_list none = []
sent_list (some backend) = backend ∷ []

abbrev pub put_first : {Map : Type 0} → String → Option (Outcome Map) → Option (Outcome Map)
put_first backend none = none
put_first backend (some out) = some (record out { sent = backend ∷ out.sent })

-- `ReplayableRequest::to_request`: the request with the buffered body and its length.
unfoldable pub to_request :
    {Uri Map Value Rest : Type 0} (api : HeaderApi Map Value)
    → Message (RequestLine Uri Rest) Map (List ℕ)
    → Message (RequestLine Uri Rest) Map (List (Item String))
to_request api request = record {
  line = request.line;
  headers = set_text api "content-length" (show (length request.body)) request.headers;
  body = elim request.body [ [] ↦ [] | _ ∷ _ ↦ bytes request.body ∷ [] ];
}

module _ {Url Uri Map Value Rest : Type 0} (urls : Urls Url Uri) (api : HeaderApi Map Value)
    (no_headers : Map) (route : RouteConfig) (asked : Asked)
    (request : Message (RequestLine Uri Rest) Map (List ℕ)) (client_addr : Option String)
    (client_body_timeout : Duration) (budget : Budget) where
  -- The round behind the exchange.
  unfoldable pub after_exchange :
      ℕ
      → String
      → RoundEnv (Outgoing Uri Rest Map) (Incoming Map)
      → AppState × Reply Map
      → Round Map
  unfolding backoff
  after_exchange attempt backend e (state, response) =
      if not (should_retry_status state route response.status)
        || leb budget.max_attempts attempt
        || leb budget.total_timeout e.elapsed_after
      then finish (some backend) (state, response)
      else let logged =
          told
            (log_retry_attempt (method_text asked.method) asked.path backend (attempt + 1)
              "retryable_status")
            state in
        if ltb 0 budget.base_backoff_ms
        then if leb (budget.total_timeout - e.elapsed_before_sleep)
            (backoff budget.base_backoff_ms attempt)
          then finish (some backend) (logged, response)
          else again backend (e.asleep logged)
        else again backend logged

  -- The round behind the choice of a backend.
  unfoldable pub after_choice :
      ℕ → RoundEnv (Outgoing Uri Rest Map) (Incoming Map) → AppState × Option String → Round Map
  unfolding after_exchange
  after_choice attempt e (state, none) =
      if attempt == 1
      then finish none (no_healthy_backends_response api no_headers state asked e.elapsed_at_end)
      else finish none (
          complete_request api no_headers (told (record_proxy_error "retry_exhausted") state) asked
            none e.elapsed_at_end
            (text_response api no_headers 503
              "retry attempts exhausted with no healthy backends remaining\n")
            (some "retry_exhausted"))
  after_choice attempt e (state, some backend) = after_exchange attempt backend e (
      forward_request urls api no_headers route backend asked (to_request api request) client_addr
        client_body_timeout e.wire state)

  unfoldable pub round :
      ℕ → List String → RoundEnv (Outgoing Uri Rest Map) (Incoming Map) → AppState → Round Map
  unfolding after_choice
  round attempt attempted_backends e state =
      if leb budget.total_timeout e.elapsed
      then finish none (
          complete_request api no_headers (told (record_proxy_error "retry_budget_exhausted") state)
            asked none e.elapsed_at_end
            (text_response api no_headers 504
              "retry budget exhausted before a successful upstream response\n")
            (some "retry_budget_exhausted"))
      else after_choice attempt e (select_backend e.clock route (some attempted_backends) state)

  -- The loop; the `attempt`-th round meets `envs attempt`.
  unfoldable pub rounds :
      (fuel attempt : ℕ)
      → List String
      → (ℕ → RoundEnv (Outgoing Uri Rest Map) (Incoming Map))
      → AppState
      → Option (Outcome Map)
  unfolding round
  rounds zero attempt attempted_backends envs state = none
  rounds (suc fuel) attempt attempted_backends envs state =
      elim (round attempt attempted_backends (envs attempt) state) [
        | finish sent (state', reply) ↦
            some (record { sent = sent_list sent; state = state'; reply = reply })
        | again backend state' ↦
            put_first backend
              (rounds fuel (attempt + 1) (insert backend attempted_backends) envs state')
      ]

module _ {Url Uri Map Value Rest : Type 0} (urls : Urls Url Uri) (api : HeaderApi Map Value)
    (no_headers : Map) where
  unfoldable pub forward_with_retries :
      RouteConfig
      → Asked
      → Message (RequestLine Uri Rest) Map (List ℕ)
      → Option String
      → Duration
      → (ℕ → RoundEnv (Outgoing Uri Rest Map) (Incoming Map))
      → AppState
      → Option (Outcome Map)
  unfolding rounds
  forward_with_retries route asked request client_addr client_body_timeout envs state =
      rounds urls api no_headers route asked request client_addr client_body_timeout
        (budget_of state) (suc state.config.retry.max_attempts) 1 [] envs state
