-- ===== src/Bench/Wait.antt =====
-- `wait_until_ready` of src/bin/benchmark_runner.rs. The loop runs on fuel; `clock k` is the reading
-- before the `k`-th round, in milliseconds, and `fetch k` what `fetch_http` gives in it.
use ferrum_proxy.Common.{
  ℕ, zero, suc, ◌+◌, ◌*◌, ◌≤◌, ◌<◌, ◌≡◌, refl, String, Bool, false, ◌||◌, Option, none, some,
  if◌then◌else◌, ltb, Bool-cases, inl, inr, Result, ok, err, starts_with, contains_text, ◌⧺◌, show,
  arith,
}

abbrev shows_ready : Result String String → Bool
shows_ready (err e) = false
shows_ready (ok response) =
    starts_with response "ok" || contains_text "ferrum_proxy_requests_total" response

module _ (host : String) (port deadline : ℕ) (clock : ℕ → ℕ)
    (fetch : ℕ → Result String String) where
  unfoldable pub await_ready : (fuel round : ℕ) → Option (Result String (Unit {0}))
  await_ready zero round = none
  await_ready (suc fuel) round =
      let later = await_ready fuel (round + 1) in
      if ltb (clock round) deadline
      then (if shows_ready (fetch round) then some (ok tt) else later)
      else some (err ("service did not become ready at " ⧺ host ⧺ ":" ⧺ show port))

  -- Each round that goes on sleeps 100 ms, so fuel for the rest of the time is enough.
  await_ready-ends :
      (fuel round : ℕ)
      → ((k : ℕ) → clock k + 100 ≤ clock (k + 1))
      → 0 < fuel
      → deadline + 100 ≤ clock round + 100 * fuel
      → (r : Result String (Unit {0})) × (await_ready fuel round ≡ some r)
  unfolding await_ready
  await_ready-ends zero round sleeps p room = absurd (omega arith)
  await_ready-ends (suc fuel) round sleeps p room = elim (Bool-cases (ltb (clock round) deadline)) [
    | inr over ↦ (err ("service did not become ready at " ⧺ host ⧺ ":" ⧺ show port), rw over refl)
    | inl early ↦ elim (Bool-cases (shows_ready (fetch round))) [
      | inl there ↦ (ok tt, rw early (rw there refl))
      | inr not_yet ↦
          let (r, e) =
            await_ready-ends fuel (round + 1) sleeps (ground arith)
              (ground (arith, sleeps round)) in
          (r, rw early (rw not_yet e))
    ]
  ]
