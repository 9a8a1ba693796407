-- ===== src/Http/Buffer.antt =====
-- `buffer_request_body` of src/http/mod.rs. An error of the body stands as its text.
use mathlib.Core.List.{append_assoc, append-nil}
use ferrum_proxy.Common.{
  ap, ℕ, ◌+◌, ◌%◌, ◌<◌, ◌≤◌, ◌≡◌, refl, String, List, [], ◌∷◌, ◌++◌, if◌then◌else◌, ltb, length,
  length-append, u64_mod, ◌⧺◌, show, Result, ok, err, map_err, Duration, as_millis, arith,
  Bool-cases, Result-cases, inl, inr,
}
use ferrum_proxy.Upstream.Body.{
  Item, bytes, failed, timed_out, limit_body_stream, size_limit_kind, read_failure_kind,
  timeout_kind,
}
use ferrum_proxy.Upstream.Limits.{
  before, arriving, read_unlimited, read_frames, read-limit_body_stream,
}

pub data RequestBufferError : Type 0 where
  too_large : (limit : ℕ) → RequestBufferError
  timed_out_after : (timeout : Duration) → RequestBufferError
  read_failed : String → RequestBufferError

-- `RequestBufferError::kind`
unfoldable pub buffer_error_kind : RequestBufferError → String
buffer_error_kind (too_large _) = "request_body_too_large"
buffer_error_kind (timed_out_after _) = "client_body_timeout"
buffer_error_kind (read_failed _) = "client_request_body_read_failed"

-- The status and the text of `RequestBufferError::into_response`.
unfoldable pub buffer_error_response : RequestBufferError → ℕ × String
buffer_error_response (too_large limit) =
    (413, "request body exceeded " ⧺ show limit ⧺ " byte limit\n")
buffer_error_response (timed_out_after timeout) =
    (408, "client request body idle timeout after " ⧺ show (as_millis timeout) ⧺ " ms\n")
buffer_error_response (read_failed text) =
    (400, "failed to read client request body: " ⧺ text ⧺ "\n")

-- Pieces in front of what is read.
before-append :
    (buffered chunk : List ℕ) (r : Result String (List ℕ))
    → before (buffered ++ chunk) r ≡ before buffered (before chunk r)
before-append buffered chunk (ok rest) = ap ok (append_assoc buffered chunk rest)
before-append buffered chunk (err told) = refl

before-nil : (r : Result String (List ℕ)) → before [] r ≡ r
before-nil (ok rest) = refl
before-nil (err told) = refl

module _ (max_bytes : ℕ) (idle_timeout : Duration) where
  -- The loop over the stream of the body.
  unfoldable pub buffer_from : List ℕ → List (Item String) → Result RequestBufferError (List ℕ)
  buffer_from buffered [] = ok buffered
  buffer_from buffered (bytes chunk ∷ rest) =
      let more = buffer_from (buffered ++ chunk) rest in
      if ltb max_bytes ((length buffered + length chunk) % u64_mod)
      then err (too_large max_bytes)
      else more
  buffer_from buffered (failed text ∷ rest) = err (read_failed text)
  buffer_from buffered (timed_out ∷ rest) = err (timed_out_after idle_timeout)

  unfoldable pub buffer_request_body : List (Item String) → Result RequestBufferError (List ℕ)
  unfolding buffer_from
  buffer_request_body body = buffer_from [] body

  kind-buffer_from :
      (buffered : List ℕ) (body : List (Item String))
      → length buffered ≤ max_bytes
      → length buffered + length (arriving body) < u64_mod
      → map_err buffer_error_kind (buffer_from buffered body) ≡ (
          if ltb max_bytes (length buffered + length (arriving body))
          then err (size_limit_kind "client request body")
          else before buffered (read_unlimited "client request body" body))
  unfolding buffer_from buffer_error_kind size_limit_kind read_failure_kind timeout_kind
  kind-buffer_from buffered [] low small = let e = append-nil buffered in ground arith
  kind-buffer_from buffered (failed text ∷ rest) low small = ground arith
  kind-buffer_from buffered (timed_out ∷ rest) low small = ground arith
  kind-buffer_from buffered (bytes chunk ∷ rest) low small =
      let total = length-append chunk (arriving rest) in
      let longer = length-append buffered chunk in
      let next : (length buffered + length chunk) % u64_mod ≡ length buffered + length chunk =
        omega (arith, total) in
      let joined = before-append buffered chunk (read_unlimited "client request body" rest) in
      elim (Bool-cases (ltb max_bytes (length buffered + length chunk))) [
        | inl over ↦ rw next (ground arith)
        | inr fits ↦
            let x =
              kind-buffer_from (buffered ++ chunk) rest (ground arith)
                (omega (arith, total, longer)) in
            let y = Result-cases (buffer_from (buffered ++ chunk) rest) in rw next (ground arith)
      ]

  -- While fewer than 2^64 bytes arrive, a body that is buffered gives the bytes, or the kind of
  -- error, that a reader of the streamed body under the same limit gets.
  pub kind-buffer_request_body :
      (body : List (Item String))
      → length (arriving body) < u64_mod
      → map_err buffer_error_kind (buffer_request_body body)
        ≡ read_frames (limit_body_stream max_bytes idle_timeout "client request body" body)
  unfolding buffer_request_body
  kind-buffer_request_body body small =
      let streamed =
        read-limit_body_stream max_bytes idle_timeout "client request body" body small in
      let buffered = kind-buffer_from [] body (omega arith) (omega arith) in
      let plain = before-nil (read_unlimited "client request body" body) in ground arith
