-- ===== src/Bench/Scenarios.antt =====
-- The scenarios and the backends of src/bin/benchmark_runner.rs, and the choice of scenarios.
use ferrum_proxy.Common.{
  ℕ, ◌*◌, String, not, Option, none, some, List, [], ◌∷◌, map, filter, ◌==◌, string_eq,
  if◌then◌else◌, ◌⧺◌, nat_eq, is_empty, split, trim, Result, ok, err, ◌>>=◌,
}

pub record BackendSpec : Type 0 where
  pub name : String
  pub response_body_bytes : ℕ
  pub status : ℕ
  pub failure_status : ℕ
  pub fail_every : ℕ
  pub delay_ms : ℕ

pub record Scenario : Type 0 where
  pub name : String
  pub path : String
  pub description : String
  pub connections : ℕ
  pub threads : ℕ
  pub lua_script : Option String

abbrev pub scenarios : List Scenario
scenarios =
    record {
      name = "healthy_get";
      path = "/api/users";
      description = "Small response, healthy round-robin fast path.";
      connections = 128;
      threads = 4;
      lua_script = none;
    }
    ∷ record {
      name = "large_response";
      path = "/large/blob";
      description = "Large streamed response to surface response-body overhead.";
      connections = 64;
      threads = 4;
      lua_script = none;
    }
    ∷ record {
      name = "retry_get";
      path = "/retry/items";
      description = "One failing backend plus one healthy backend to exercise retry cost.";
      connections = 64;
      threads = 4;
      lua_script = none;
    }
    ∷ record {
      name = "upload_post";
      path = "/upload/object";
      description = "64 KiB POST body to measure request buffering and forwarding.";
      connections = 48;
      threads = 4;
      lua_script = some "post_upload.lua";
    }
    ∷ []

abbrev pub backend_specs : List (String × BackendSpec)
backend_specs =
    (
      "healthy_a",
      record {
        name = "healthy-a";
        response_body_bytes = 1024;
        status = 200;
        failure_status = 503;
        fail_every = 0;
        delay_ms = 0;
      },
    )
    ∷ (
      "healthy_b",
      record {
        name = "healthy-b";
        response_body_bytes = 1024;
        status = 200;
        failure_status = 503;
        fail_every = 0;
        delay_ms = 0;
      },
    )
    ∷ (
      "large_a",
      record {
        name = "large-a";
        response_body_bytes = 256 * 1024;
        status = 200;
        failure_status = 503;
        fail_every = 0;
        delay_ms = 0;
      },
    )
    ∷ (
      "retry_bad",
      record {
        name = "retry-bad";
        response_body_bytes = 128;
        status = 200;
        failure_status = 503;
        fail_every = 1;
        delay_ms = 0;
      },
    )
    ∷ (
      "retry_good",
      record {
        name = "retry-good";
        response_body_bytes = 128;
        status = 200;
        failure_status = 503;
        fail_every = 0;
        delay_ms = 0;
      },
    )
    ∷ (
      "upload_a",
      record {
        name = "upload-a";
        response_body_bytes = 64;
        status = 200;
        failure_status = 503;
        fail_every = 0;
        delay_ms = 0;
      },
    )
    ∷ []

-- `iter().find(..)`
unfoldable pub find_scenario : String → List Scenario → Option Scenario
find_scenario name [] = none
find_scenario name (s ∷ rest) =
    let later = find_scenario name rest in if s.name == name then some s else later

abbrev pub known : String → Option Scenario → Result String Scenario
known name none = err ("unknown scenario: " ⧺ name)
known name (some s) = ok s

-- The loop over the names.
unfoldable pub select_all : List String → Result String (List Scenario)
unfolding find_scenario
select_all [] = ok []
select_all (name ∷ rest) = do
  s ← known name (find_scenario name scenarios)
  more ← select_all rest
  ok (s ∷ more)

-- The names of the selection: the parts between commas, trimmed, that are not empty.
unfoldable pub selected_names : String → List String
selected_names selection = filter (λ s. not (s == "")) (map trim (split b',' selection))

unfoldable pub select_scenarios : String → Result String (List Scenario)
unfolding select_all selected_names
select_scenarios selection = if selection == "all" then ok scenarios else (do
  selected ← select_all (selected_names selection)
  if is_empty selected then err "no scenarios selected" else ok selected)
