-- ===== src/Telemetry/Render.antt =====
-- The Prometheus text of src/telemetry/mod.rs.
use Prim.Native.Char.{code}
use ferrum_proxy.Common.{
  ℕ, String, Bool, ◌≡◌, refl, List, [], ◌∷◌, nat_beq, leb, if◌then◌else◌, sort, str_le, show, ◌⧺◌,
}
use ferrum_proxy.Telemetry.{Telemetry}

-- `str::replace` of one character
unfoldable pub replace : ℕ → String → String → String
replace c by String.[] = ""
replace c by (String.◌∷◌ d s) =
    let rest = replace c by s in (if nat_beq (code d) c then by else String.◌∷◌ d "") ⧺ rest

unfoldable pub escape_label_value : String → String
unfolding replace
escape_label_value value = replace b'"' "\\\"" (replace b'\\' "\\\\" value)

-- `writeln!` of each line
unfoldable pub lines : List String → String
lines [] = ""
lines (line ∷ rest) = line ⧺ "\n" ⧺ lines rest

abbrev one_or_zero : Bool → String
one_or_zero b = if b then "1" else "0"

pub failure_lines : List (String × ℕ) → List String
failure_lines [] = []
failure_lines ((backend, count) ∷ rest) =
    ("ferrum_proxy_backend_failures_total{backend=\""
      ⧺ escape_label_value backend
      ⧺ "\"} "
      ⧺ show count)
    ∷ failure_lines rest

pub health_lines : List (String × Bool) → List String
health_lines [] = []
health_lines ((backend, healthy) ∷ rest) =
    ("ferrum_proxy_backend_healthy{backend=\""
      ⧺ escape_label_value backend
      ⧺ "\"} "
      ⧺ one_or_zero healthy)
    ∷ health_lines rest

pub status_lines : List (ℕ × ℕ) → List String
status_lines [] = []
status_lines ((status, count) ∷ rest) =
    ("ferrum_proxy_responses_total{status_code=\"" ⧺ show status ⧺ "\"} " ⧺ show count)
    ∷ status_lines rest

pub error_lines : List (String × ℕ) → List String
error_lines [] = []
error_lines ((kind, count) ∷ rest) =
    ("ferrum_proxy_errors_total{kind=\"" ⧺ escape_label_value kind ⧺ "\"} " ⧺ show count)
    ∷ error_lines rest

unfoldable pub render_prometheus : Telemetry → List (String × Bool) → String
unfolding escape_label_value lines failure_lines health_lines status_lines error_lines
render_prometheus t backend_statuses =
    lines (
      "# HELP ferrum_proxy_requests_total Total HTTP requests handled by the proxy."
      ∷ "# TYPE ferrum_proxy_requests_total counter"
      ∷ ("ferrum_proxy_requests_total " ⧺ show t.request_count)
      ∷ "# HELP ferrum_proxy_upstream_request_duration_microseconds Total upstream request latency in microseconds."
      ∷ "# TYPE ferrum_proxy_upstream_request_duration_microseconds summary"
      ∷ ("ferrum_proxy_upstream_request_duration_microseconds_sum "
          ⧺ show t.upstream_latency_total_micros)
      ∷ ("ferrum_proxy_upstream_request_duration_microseconds_count "
          ⧺ show t.upstream_latency_count)
      ∷ "# HELP ferrum_proxy_health_transitions_total Total health state transitions."
      ∷ "# TYPE ferrum_proxy_health_transitions_total counter"
      ∷ ("ferrum_proxy_health_transitions_total " ⧺ show t.health_transitions_total)
      ∷ "# HELP ferrum_proxy_backend_failures_total Total passive or active backend failures."
      ∷ "# TYPE ferrum_proxy_backend_failures_total counter"
      ∷ [])
    ⧺ lines (failure_lines (sort (λ left right. str_le left.0 right.0) t.backend_failures))
    ⧺ lines (
        "# HELP ferrum_proxy_backend_healthy Current backend health state."
        ∷ "# TYPE ferrum_proxy_backend_healthy gauge" ∷ [])
    ⧺ lines (health_lines backend_statuses)
    ⧺ lines (
        "# HELP ferrum_proxy_responses_total Total responses sent by status code."
        ∷ "# TYPE ferrum_proxy_responses_total counter" ∷ [])
    ⧺ lines (status_lines (sort (λ left right. leb left.0 right.0) t.response_statuses))
    ⧺ lines (
        "# HELP ferrum_proxy_errors_total Total proxy errors by classification."
        ∷ "# TYPE ferrum_proxy_errors_total counter" ∷ [])
    ⧺ lines (error_lines (sort (λ left right. str_le left.0 right.0) t.proxy_errors))

escape_test : escape_label_value "a\"b\\" ≡ "a\\\"b\\\\"
unfolding escape_label_value
escape_test = refl
