-- ===== src/Bench/Backend.antt =====
-- The service of src/bin/benchmark_backend.rs. The wait of `delay_ms` changes nothing here.
use ferrum_proxy.Common.{
  ℕ, zero, suc, ◌+◌, ◌-◌, ◌%◌, String, ◌&&◌, ◌||◌, Bool, contains_text, Option, none, some, List,
  [], ◌∷◌, ◌++◌, ◌==◌, nat_eq, string_eq, if◌then◌else◌, ltb, leb, length, take, ◌⧺◌, show,
  to_bytes, u64_mod,
}
use ferrum_proxy.Http.State.{Method, method_text}
use ferrum_proxy.Bench.BackendArgs.{BackendConfig}

-- `AppState`
pub record BackendState : Type 0 where
  pub config : BackendConfig
  pub request_count : ℕ

-- A response: its status, its headers in order, and the bytes of its body.
pub record BackendReply : Type 0 where
  pub status : ℕ
  pub headers : List (String × String)
  pub body : List ℕ

abbrev backend_header : Option String → List (String × String)
backend_header none = []
backend_header (some name) = ("x-benchmark-backend", name) ∷ []

-- `text_response`
unfoldable pub backend_response : ℕ → List ℕ → Option String → BackendReply
backend_response status body backend_name = record {
  status = status;
  headers =
      ("content-type", "text/plain; charset=utf-8")
      ∷ ("content-length", show (length body))
      ∷ backend_header backend_name;
  body = body;
}

abbrev pub repeat : ℕ → ℕ → List ℕ
repeat zero byte = []
repeat (suc n) byte = byte ∷ repeat n byte

-- `truncate` or `resize`, to the size that is asked for.
unfoldable pub fit_to : ℕ → List ℕ → List ℕ
fit_to response_size body =
    if leb response_size (length body)
    then take response_size body
    else body ++ repeat (response_size - length body) b'x'

unfoldable pub build_response_body : String → Method → String → ℕ → ℕ → ℕ → List ℕ
unfolding fit_to
build_response_body name method path request_number received_bytes response_size =
    fit_to response_size (
      to_bytes (
        "name="
        ⧺ name
        ⧺ " method="
        ⧺ method_text method
        ⧺ " path="
        ⧺ path
        ⧺ " request="
        ⧺ show request_number
        ⧺ " received_bytes="
        ⧺ show received_bytes
        ⧺ "\n"))

-- `read_request_body_size`: none when the body cannot be read.
abbrev pub read_request_body_size : Option (List ℕ) → ℕ
read_request_body_size none = 0
read_request_body_size (some bytes) = length bytes

-- The status of the request with this number.
unfoldable pub status_of : BackendConfig → ℕ → ℕ
status_of config request_number =
    if ltb 0 config.fail_every && request_number % config.fail_every == 0
    then config.failure_status
    else config.status

-- `handle_request`
unfoldable pub answer_request :
    Method → String → Option (List ℕ) → BackendState → BackendState × BackendReply
unfolding status_of build_response_body backend_response
answer_request method path received state =
    let config = state.config in
    if path == "/health"
    then (state, backend_response config.health_status (to_bytes "ok\n") (some config.name))
    else let request_number = (state.request_count + 1) % u64_mod in
      (
        record state { request_count = request_number },
        backend_response (status_of config request_number)
            (build_response_body config.name method path request_number
              (read_request_body_size received) config.response_body_bytes)
            (some config.name),
      )

unfoldable pub is_expected_disconnect : String → Bool
unfolding contains_text
is_expected_disconnect err_text =
    contains_text "broken pipe" err_text
    || contains_text "connection reset" err_text
    || contains_text "connection closed" err_text
