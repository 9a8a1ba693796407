-- ===== src/Telemetry/Examples.antt =====
-- Runs of src/telemetry/mod.rs on new counters.
use ferrum_proxy.Common.{
  ◌+◌, ◌≡◌, refl, [], ◌∷◌, count, nat_eq, arith, String, some, false, true, ◌⧺◌, contains_char,
}
use ferrum_proxy.Telemetry.{HealthTransition, LogLine, new}
use ferrum_proxy.Telemetry.Render.{escape_label_value}
use ferrum_proxy.Telemetry.Lines.{line_text}
use ferrum_proxy.Telemetry.OneLine.{IsOneLine, line_text-IsOneLine}
use ferrum_proxy.Telemetry.Labels.{read_label, read_label-escape}
use ferrum_proxy.Telemetry.Counts.{
  newest, record_all, record_all_lem, record_statuses, occurrences, record_statuses-count,
}

abbrev gone : HealthTransition
gone = record { backend = "a"; from = "healthy"; to = "unhealthy"; reason = "failure_threshold" }

record_all_lem_example :
    (record_all (gone ∷ gone ∷ []) (new [])).health_transitions ≡ newest (gone ∷ gone ∷ [])
unfolding new
record_all_lem_example = record_all_lem (gone ∷ gone ∷ []) (new []) refl

record_statuses-count_example :
    count 200 (record_statuses (200 ∷ 502 ∷ 200 ∷ []) (new [])).response_statuses
    ≡ count 200 (new []).response_statuses + occurrences 200 (200 ∷ 502 ∷ 200 ∷ [])
unfolding new
record_statuses-count_example =
    record_statuses-count (200 ∷ 502 ∷ 200 ∷ []) 200 (new []) (omega arith)

abbrev quoted : String
quoted = "a\\b\"c"

read_label-escape_example :
    read_label false (escape_label_value quoted ⧺ "\"" ⧺ "} 1") ≡ some (quoted, "} 1")
read_label-escape_example = read_label-escape quoted "} 1" (unfold contains_char in refl)

abbrev refused : LogLine
refused = record {
  level = "ERROR";
  event = "connection_error";
  fields = ("error", "refused\nlevel=INFO") ∷ [];
}

line_text-IsOneLine_example : IsOneLine (line_text (λ _. true) 12 refused)
line_text-IsOneLine_example =
    line_text-IsOneLine (λ _. true) 12 refused (unfold contains_char in refl)
      (unfold contains_char in refl) (unfold contains_char in refl, tt)
