-- ===== src/Telemetry.antt =====
-- src/telemetry/mod.rs: the counters, the record of health transitions and the log. A log line is
-- kept without its time stamp and before its fields are quoted; `log` holds the lines of stderr,
-- the newest at the head.
pub mod Lines
pub mod OneLine
pub mod Render
pub mod Labels
pub mod Quote
pub mod Counts
pub mod Examples
use ferrum_proxy.Common.{
  ℕ, String, ◌+◌, ◌%◌, ◌/◌, Option, none, some, List, [], ◌∷◌, ◌++◌, string_eq, nat_eq, bump,
  or_insert, modify, length, leb, if◌then◌else◌, u64_mod, Duration, as_micros,
}
use ferrum_proxy.Config.{RouteConfig}

abbrev pub max_transitions : ℕ
max_transitions = 32

pub record HealthTransition : Type 0 where
  pub backend : String
  pub from : String
  pub to : String
  pub reason : String

pub record LogLine : Type 0 where
  pub level : String
  pub event : String
  pub fields : List (String × String)

pub record Telemetry : Type 0 where
  pub request_count : ℕ
  pub upstream_latency_count : ℕ
  pub upstream_latency_total_micros : ℕ
  pub backend_failures : List (String × ℕ)
  pub health_transitions_total : ℕ
  pub response_statuses : List (ℕ × ℕ)
  pub proxy_errors : List (String × ℕ)
  pub health_transitions : List HealthTransition
  pub log : List LogLine

-- The map with an entry for each backend of each route.
module _ {ℓ} {V : Type ℓ} (value : V) where
  abbrev pub entries_of : List String → List (String × V) → List (String × V)
  entries_of [] m = m
  entries_of (backend ∷ rest) m = entries_of rest (or_insert backend value m)

  abbrev pub entries_of_routes : List RouteConfig → List (String × V) → List (String × V)
  entries_of_routes [] m = m
  entries_of_routes (route ∷ rest) m = entries_of_routes rest (entries_of route.backends m)

pub new : List RouteConfig → Telemetry
new routes = record {
  request_count = 0;
  upstream_latency_count = 0;
  upstream_latency_total_micros = 0;
  backend_failures = entries_of_routes 0 routes [];
  health_transitions_total = 0;
  response_statuses = [];
  proxy_errors = [];
  health_transitions = [];
  log = [];
}

unfoldable pub record_request : Telemetry → Telemetry
record_request t = record t { request_count = (t.request_count + 1) % u64_mod }

unfoldable pub record_upstream_latency : Duration → Telemetry → Telemetry
record_upstream_latency latency t = record t {
  upstream_latency_count = (t.upstream_latency_count + 1) % u64_mod;
  upstream_latency_total_micros =
      (t.upstream_latency_total_micros + as_micros latency % u64_mod) % u64_mod;
}

unfoldable pub record_backend_failure : String → Telemetry → Telemetry
record_backend_failure backend t = record t {
  backend_failures = modify backend (λ n. (n + 1) % u64_mod) t.backend_failures;
}

unfoldable pub record_response_status : ℕ → Telemetry → Telemetry
record_response_status status t = record t { response_statuses = bump status t.response_statuses }

unfoldable pub record_proxy_error : String → Telemetry → Telemetry
record_proxy_error kind t = record t { proxy_errors = bump kind t.proxy_errors }

-- `Telemetry::log`
unfoldable pub write_log : String → String → List (String × String) → Telemetry → Telemetry
write_log level event fields t = record t {
  log = record { level = level; event = event; fields = fields } ∷ t.log;
}

pop_front : List HealthTransition → List HealthTransition
pop_front [] = []
pop_front (_ ∷ rest) = rest

-- The queue of the last transitions, oldest first.
unfoldable pub push_transition : HealthTransition → List HealthTransition → List HealthTransition
unfolding pop_front
push_transition transition transitions =
    (if leb max_transitions (length transitions) then pop_front transitions else transitions)
    ++ transition ∷ []

unfoldable pub record_health_transition : String → String → String → String → Telemetry → Telemetry
unfolding write_log push_transition
record_health_transition backend from to reason t =
    let transition : HealthTransition = record {
      backend = backend;
      from = from;
      to = to;
      reason = reason;
    } in
    let counted = record t {
      health_transitions_total = (t.health_transitions_total + 1) % u64_mod;
    } in
    let logged =
      write_log "INFO" "health_transition"
        (("backend", backend) ∷ ("from", from) ∷ ("to", to) ∷ ("reason", reason) ∷ []) counted in
    record logged { health_transitions = push_transition transition logged.health_transitions }
