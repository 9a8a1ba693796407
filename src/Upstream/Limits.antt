-- ===== src/Upstream/Limits.antt =====
-- What a reader of the stream of `limit_body_stream` in src/upstream/mod.rs gets.
use ferrum_proxy.Common.{
  ℕ, ◌+◌, ◌%◌, ◌≤◌, ◌<◌, ◌≡◌, String, List, [], ◌∷◌, ◌++◌, if◌then◌else◌, ltb, length,
  length-append, u64_mod, Duration, arith, Bool-cases, Result-cases, inl, inr, Result, ok, err,
}
use ferrum_proxy.Upstream.Body.{
  Item, bytes, failed, timed_out, Frame, frame, error, read_failure_kind, size_limit_kind,
  timeout_kind, seen_after, yielded, limit_from, limit_body_stream,
}

abbrev pub before : List ℕ → Result String (List ℕ) → Result String (List ℕ)
before chunk (ok rest) = ok (chunk ++ rest)
before chunk (err told) = err told

-- The bytes that a body yields before it fails or a wait is too long.
abbrev pub arriving : {Failure : Type 0} → List (Item Failure) → List ℕ
arriving [] = []
arriving (bytes chunk ∷ rest) = chunk ++ arriving rest
arriving (failed _ ∷ rest) = []
arriving (timed_out ∷ rest) = []

-- A body read to its end with no limit, or the kind of its first failure.
abbrev pub read_unlimited :
    {Failure : Type 0} → String → List (Item Failure) → Result String (List ℕ)
read_unlimited context [] = ok []
read_unlimited context (bytes chunk ∷ rest) = before chunk (read_unlimited context rest)
read_unlimited context (failed _ ∷ rest) = err (read_failure_kind context)
read_unlimited context (timed_out ∷ rest) = err (timeout_kind context)

-- What a reader of the new stream gets, which stops at the first error, with the kind of error
-- that the hook is told.
abbrev pub read_frames : {Failure : Type 0} → List (Frame Failure) → Result String (List ℕ)
read_frames [] = ok []
read_frames (frame chunk ∷ rest) = before chunk (read_frames rest)
read_frames (error told _ ∷ rest) = err told

module _ {Failure : Type 0} (max_bytes : ℕ) (idle_timeout : Duration) (context : String) where
  read-limit_from :
      (seen : ℕ) (body : List (Item Failure))
      → seen ≤ max_bytes
      → seen + length (arriving body) < u64_mod
      → read_frames (limit_from max_bytes idle_timeout context seen body) ≡ (
          if ltb max_bytes (seen + length (arriving body))
          then err (size_limit_kind context)
          else read_unlimited context body)
  unfolding limit_from yielded seen_after
  read-limit_from seen [] low small = ground arith
  read-limit_from seen (failed e ∷ rest) low small = ground arith
  read-limit_from seen (timed_out ∷ rest) low small = ground arith
  read-limit_from seen (bytes chunk ∷ rest) low small =
      let total = length-append chunk (arriving rest) in
      let next : (seen + length chunk) % u64_mod ≡ seen + length chunk = omega (arith, total) in
      elim (Bool-cases (ltb max_bytes (seen + length chunk))) [
        | inl over ↦ ground arith
        | inr fits ↦
            let x =
              read-limit_from (seen + length chunk) rest (ground arith) (omega (arith, total)) in
            let y = Result-cases (read_unlimited context rest) in rw (next) (ground arith)
      ]

  -- While the bytes that arrive number fewer than 2^64, a reader of the limited stream gets what
  -- a reader of the body gets, its failure included, exactly when the bytes that arrive are
  -- within the limit, and otherwise the error of the size limit.
  pub read-limit_body_stream :
      (body : List (Item Failure))
      → length (arriving body) < u64_mod
      → read_frames (limit_body_stream max_bytes idle_timeout context body) ≡ (
          if ltb max_bytes (length (arriving body))
          then err (size_limit_kind context)
          else read_unlimited context body)
  unfolding limit_body_stream
  read-limit_body_stream body small =
      let x = read-limit_from 0 body (omega arith) (omega arith) in ground arith
