-- ===== src/Upstream/Error.antt =====
-- The errors of src/upstream/mod.rs. Of an error of the HTTP client the code sees whether it came
-- from connecting, its text, and the chain of its sources.
use ferrum_proxy.Common.{
  ℕ, String, Bool, false, not, ◌&&◌, ◌||◌, List, [], ◌∷◌, if◌then◌else◌, ◌⧺◌, show, Duration,
  as_millis,
}

-- One error of the chain that `source()` walks, as the two downcasts see it.
pub data Link : Type 0 where
  -- an `std::io::Error`, and whether its kind is `ConnectionRefused`
  io_error : (refused : Bool) → Link
  -- a `hyper::Error`, with `is_parse` and `is_incomplete_message`
  hyper_error : (is_parse is_incomplete : Bool) → Link
  other_error : Link

pub record ClientError : Type 0 where
  pub is_connect : Bool
  pub text : String
  -- the error itself, then its sources
  pub chain : List Link

pub data UpstreamError : Type 0 where
  invalid_backend_url : String → UpstreamError
  invalid_uri : String → UpstreamError
  connect_timeout : Duration → UpstreamError
  connection_refused : ClientError → UpstreamError
  invalid_response : ClientError → UpstreamError
  request : ClientError → UpstreamError
  response_too_large : (limit content_length : ℕ) → UpstreamError

unfoldable pub kind : UpstreamError → String
kind (invalid_backend_url _) = "invalid_backend_url"
kind (invalid_uri _) = "invalid_upstream_uri"
kind (connect_timeout _) = "upstream_connect_timeout"
kind (connection_refused _) = "upstream_connection_refused"
kind (invalid_response _) = "invalid_upstream_response"
kind (request _) = "upstream_request_failed"
kind (response_too_large _ _) = "response_body_too_large"

-- `Display`
unfoldable pub message : UpstreamError → String
message (invalid_backend_url err) = "invalid backend URL: " ⧺ err
message (invalid_uri err) = "invalid upstream request URI: " ⧺ err
message (connect_timeout duration) =
    "upstream connect or response-header timeout after " ⧺ show (as_millis duration) ⧺ " ms"
message (connection_refused _) = "upstream connection refused"
message (invalid_response _) = "upstream sent an invalid HTTP response"
message (request err) = "upstream request failed: " ⧺ err.text
message (response_too_large limit content_length) =
    "upstream response body exceeds limit: content-length "
    ⧺ show content_length
    ⧺ " bytes over "
    ⧺ show limit
    ⧺ " byte limit"

abbrev is_refused : Link → Bool
is_refused (io_error refused) = refused
is_refused (hyper_error _ _) = false
is_refused other_error = false

abbrev is_invalid : Link → Bool
is_invalid (io_error _) = false
is_invalid (hyper_error is_parse is_incomplete) = is_parse || is_incomplete
is_invalid other_error = false

-- `source_has_io_kind(err, ConnectionRefused)`
unfoldable pub source_has_refused : List Link → Bool
source_has_refused [] = false
source_has_refused (link ∷ rest) = is_refused link || source_has_refused rest

unfoldable pub source_has_invalid_response : List Link → Bool
source_has_invalid_response [] = false
source_has_invalid_response (link ∷ rest) = is_invalid link || source_has_invalid_response rest

unfoldable pub classify_request_error : ClientError → UpstreamError
classify_request_error err =
    if err.is_connect && source_has_refused err.chain
    then connection_refused err
    else if not err.is_connect || source_has_invalid_response err.chain
    then invalid_response err
    else request err

abbrev pub gateway_timeout : ℕ
gateway_timeout = 504

abbrev pub bad_gateway : ℕ
bad_gateway = 502

-- The status and the text of `bad_gateway_response`.
unfoldable pub bad_gateway_status : UpstreamError → ℕ
bad_gateway_status (connect_timeout _) = gateway_timeout
bad_gateway_status _ = bad_gateway

unfoldable pub bad_gateway_body : UpstreamError → String
unfolding message
bad_gateway_body err = "bad gateway: " ⧺ message err ⧺ "\n"
