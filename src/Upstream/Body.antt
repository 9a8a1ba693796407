-- ===== src/Upstream/Body.antt =====
-- `limit_body_stream` of src/upstream/mod.rs and its errors. A body is the list of what its stream
-- yields in turn; `timeout(idle_timeout)` adds an item for each wait that is too long.
use ferrum_proxy.Common.{
  ℕ, ◌+◌, ◌%◌, String, List, [], ◌∷◌, if◌then◌else◌, ◌==◌, string_eq, ltb, length, u64_mod, ◌⧺◌,
  show, Duration, as_millis,
}

-- What the stream of a body yields, with the timeout around it.
pub data Item (Failure : Type 0) : Type 0 where
  bytes : List ℕ → Item Failure
  failed : Failure → Item Failure
  timed_out : Item Failure

-- The boxed errors of the stream that the proxy hands on.
pub data ProxyError (Failure : Type 0) : Type 0 where
  read_error : Failure → ProxyError Failure
  timeout_error : (duration : Duration) (context : String) → ProxyError Failure
  size_limit_error : (limit : ℕ) (context : String) → ProxyError Failure

-- The texts of the two `std::io::Error`s.
unfoldable pub timeout_error_text : Duration → String → String
timeout_error_text duration context =
    context ⧺ " idle timeout: no data received for " ⧺ show (as_millis duration) ⧺ " ms"

unfoldable pub size_limit_error_text : ℕ → String → String
size_limit_error_text limit context = context ⧺ " exceeded " ⧺ show limit ⧺ " byte limit"

unfoldable pub timeout_kind : String → String
timeout_kind context =
    if context == "client request body"
    then "client_body_timeout"
    else if context == "upstream response body"
    then "upstream_response_body_timeout"
    else "stream_timeout"

unfoldable pub read_failure_kind : String → String
read_failure_kind context =
    if context == "client request body"
    then "client_request_body_read_failed"
    else if context == "upstream response body"
    then "upstream_response_body_read_failed"
    else "stream_read_failed"

unfoldable pub size_limit_kind : String → String
size_limit_kind context =
    if context == "client request body"
    then "request_body_too_large"
    else if context == "upstream response body"
    then "response_body_too_large"
    else "stream_too_large"

-- What the new stream yields: a data frame or an error, with what the error hook is told.
pub data Frame (Failure : Type 0) : Type 0 where
  frame : List ℕ → Frame Failure
  error : (told : String) → ProxyError Failure → Frame Failure

module _ {Failure : Type 0} (max_bytes : ℕ) (idle_timeout : Duration) (context : String) where
  -- The closure of `map`: the new `seen`, and what is yielded.
  unfoldable pub seen_after : ℕ → Item Failure → ℕ
  seen_after seen (bytes chunk) = (seen + length chunk) % u64_mod
  seen_after seen (failed err) = seen
  seen_after seen timed_out = seen

  unfoldable pub yielded : ℕ → Item Failure → Frame Failure
  unfolding seen_after
  yielded seen (bytes chunk) =
      if ltb max_bytes (seen_after seen (bytes chunk))
      then error (size_limit_kind context) (size_limit_error max_bytes context)
      else frame chunk
  yielded seen (failed err) = error (read_failure_kind context) (read_error err)
  yielded seen timed_out = error (timeout_kind context) (timeout_error idle_timeout context)

  unfoldable pub limit_from : ℕ → List (Item Failure) → List (Frame Failure)
  unfolding yielded
  limit_from seen [] = []
  limit_from seen (item ∷ rest) = yielded seen item ∷ limit_from (seen_after seen item) rest

  unfoldable pub limit_body_stream : List (Item Failure) → List (Frame Failure)
  unfolding limit_from
  limit_body_stream body = limit_from 0 body
