-- ===== src/Telemetry/Lines.antt =====
-- The log lines of src/telemetry/mod.rs.
use Prim.Native.Char.{Char}
use ferrum_proxy.Common.{
  ℕ, String, ◌⧺◌, List, Bool, Option, none, some, [], ◌∷◌, show, if◌then◌else◌, Duration, as_millis,
}
use ferrum_proxy.Telemetry.Quote.{quote}
use ferrum_proxy.Telemetry.{Telemetry, LogLine, write_log}

-- `value.unwrap_or("-")`
abbrev or_dash : Option String → String
or_dash none = "-"
or_dash (some s) = s

unfoldable pub log_server_start : String → ℕ → Telemetry → Telemetry
log_server_start bind_addr route_count =
    write_log "INFO" "server_start"
      (("bind_addr", bind_addr) ∷ ("route_count", show route_count) ∷ [])

unfoldable pub log_shutdown_started : Duration → Telemetry → Telemetry
log_shutdown_started timeout =
    write_log "INFO" "shutdown_started" (("drain_timeout_ms", show (as_millis timeout)) ∷ [])

unfoldable pub log_shutdown_complete : Bool → ℕ → Telemetry → Telemetry
log_shutdown_complete drained remaining = write_log "INFO" "shutdown_complete" (
    ("drained", if drained then "true" else "false")
    ∷ ("remaining_connections", show remaining)
    ∷ [])

unfoldable pub log_connection_error : String → String → Telemetry → Telemetry
log_connection_error remote_addr err =
    write_log "ERROR" "connection_error" (("remote_addr", remote_addr) ∷ ("error", err) ∷ [])

unfoldable pub log_background_task_failure : String → String → Telemetry → Telemetry
log_background_task_failure task err =
    write_log "ERROR" "background_task_failed" (("task", task) ∷ ("error", err) ∷ [])

unfoldable pub log_startup_warning : String → String → Telemetry → Telemetry
log_startup_warning route reason =
    write_log "WARN" "startup_warning" (("route", route) ∷ ("reason", reason) ∷ [])

unfoldable pub log_retry_attempt : String → String → String → ℕ → String → Telemetry → Telemetry
log_retry_attempt method path backend attempt reason = write_log "INFO" "retry_attempt" (
    ("method", method)
    ∷ ("path", path)
    ∷ ("backend", backend)
    ∷ ("attempt", show attempt)
    ∷ ("reason", reason)
    ∷ [])

unfoldable pub log_control_signal : String → String → Telemetry → Telemetry
log_control_signal signal action =
    write_log "INFO" "control_signal" (("signal", signal) ∷ ("action", action) ∷ [])

unfoldable pub log_request_complete :
    String → String → Option String → ℕ → Duration → Option String → String → Telemetry → Telemetry
unfolding write_log
log_request_complete method path backend status latency error_kind request_id =
    write_log "INFO" "request_complete" (
      ("request_id", request_id)
      ∷ ("method", method)
      ∷ ("path", path)
      ∷ ("backend", or_dash backend)
      ∷ ("status", show status)
      ∷ ("latency_ms", show (as_millis latency))
      ∷ ("error_kind", or_dash error_kind)
      ∷ [])

-- The text of a line, which `log` prints. `is_printable` is that of `quote`, and `ts_millis` the
-- clock.
unfoldable pub fields_text : (Char → Bool) → List (String × String) → String
unfolding quote
fields_text is_printable [] = ""
fields_text is_printable ((key, value) ∷ rest) =
    " " ⧺ key ⧺ "=" ⧺ quote is_printable value ⧺ fields_text is_printable rest

unfoldable pub line_text : (Char → Bool) → ℕ → LogLine → String
unfolding fields_text
line_text is_printable ts_millis entry =
    "ts="
    ⧺ show ts_millis
    ⧺ " level="
    ⧺ entry.level
    ⧺ " event="
    ⧺ entry.event
    ⧺ fields_text is_printable entry.fields
