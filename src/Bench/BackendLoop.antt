-- ===== src/Bench/BackendLoop.antt =====
-- `main` of src/bin/benchmark_backend.rs, over what the listener and the connections do.
use ferrum_proxy.Common.{
  ℕ, String, Bool, Option, none, some, List, [], ◌∷◌, if◌then◌else◌, Result, ok, ◌⧺◌, ◌>>=◌, ◌>>◌,
}
use ferrum_proxy.Http.State.{Method}
use ferrum_proxy.Bench.BackendArgs.{parse_backend_args}
use ferrum_proxy.Bench.Backend.{BackendState, BackendReply, answer_request, is_expected_disconnect}

pub data BackendEvent : Type 0 where
  -- a request: its method, its path, and its body, if it arrives whole
  asked : Method → String → Option (List ℕ) → BackendEvent
  connection_failed : String → BackendEvent
  accept_failed : String → BackendEvent

-- The replies, the lines on the error output, and the error that ends the loop, if one did.
pub record BackendRun : Type 0 where
  pub state : BackendState
  pub replies : List BackendReply
  pub errors : List String
  pub ended : Option String

unfoldable pub serve_backend : List BackendEvent → BackendState → BackendRun
unfolding answer_request is_expected_disconnect
serve_backend [] state = record { state = state; replies = []; errors = []; ended = none }
serve_backend (asked method path received ∷ rest) state =
    let (state', reply) = answer_request method path received state in
    let run = serve_backend rest state' in record run { replies = reply ∷ run.replies }
serve_backend (connection_failed err_text ∷ rest) state =
    let run = serve_backend rest state in
    if is_expected_disconnect err_text
    then run
    else record run { errors = ("benchmark backend connection error: " ⧺ err_text) ∷ run.errors }
serve_backend (accept_failed e ∷ rest) state = record {
  state = state;
  replies = [];
  errors = [];
  ended = some e;
}

-- `main`; `bind` is the listener's.
unfoldable pub run_backend :
    (is_status : ℕ → Bool) (bind : ℕ → Result String (Unit {0}))
    → List String
    → List BackendEvent
    → Result String BackendRun
unfolding parse_backend_args serve_backend
run_backend is_status bind args events = do
  config ← parse_backend_args is_status args
  bind config.port
  ok (serve_backend events (record { config = config; request_count = 0 }))
