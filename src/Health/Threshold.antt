-- ===== src/Health/Threshold.antt =====
-- When `HealthManager` of src/health/mod.rs takes a backend out of service.
use mathlib.Core.List.{map-append}
use text.Mathlib.TextPositions.{eq_refl}
use ferrum_proxy.Common.{
  ℕ, String, ◌+◌, ◌≤◌, ◌<◌, ◌≡◌, refl, ◌∙◌, ap, true, false, none, some, List, [], ◌∷◌, ◌++◌, map,
  length, leb, string_eq, lookup, Duration, Instant, arith, u64_mod,
}
use ferrum_proxy.Health.State.{BackendHealth, on_failure}
use ferrum_proxy.Health.Breaker.{Event, failure, after, after_all, open_until, view}
use ferrum_proxy.Health.Manager.{Health}
use ferrum_proxy.Health.Eligible.{in_service, usable, usable_state}
use ferrum_proxy.Health.Calls.{Call, fails}
use ferrum_proxy.Health.Keeps.{perform_all, events_of, react_all, lookup-perform_all}

-- In use, with `n` failures in a row so far.
pub record InUse (n : ℕ) (s : BackendHealth) : Type 0 where
  pub healthy : s.healthy ≡ true
  pub probing : s.probing ≡ false
  pub ejected : s.ejected_until ≡ none
  pub failures : s.consecutive_failures ≡ n

module _ (threshold recovery : ℕ) (duration : Duration) where
  failure-InUse :
      (now : Instant) (n : ℕ) (s : BackendHealth)
      → n + 1 < threshold
      → threshold ≤ u64_mod
      → InUse n s
      → InUse (n + 1) (after threshold recovery duration (failure now) s)
  unfolding after on_failure
  failure-InUse now n s h w v = ground arith

  failure-open :
      (now : Instant) (n : ℕ) (s : BackendHealth)
      → n + 1 ≡ threshold
      → InUse n s
      → view (after threshold recovery duration (failure now) s) ≡ open_until (now + duration)
  unfolding after on_failure
  failure-open now n s h v = ground arith

  failures-InUse :
      (ts : List Instant) (n : ℕ) (s : BackendHealth)
      → n + length ts < threshold
      → threshold ≤ u64_mod
      → InUse n s
      → InUse (n + length ts) (after_all threshold recovery duration (map failure ts) s)
  unfolding after_all
  failures-InUse [] n s h w v = let e : n + 0 ≡ n = omega arith in rw e v
  failures-InUse (t ∷ ts) n s h w v =
      let e : n + length (t ∷ ts) ≡ n + 1 + length ts = omega arith in
      rw e (
        failures-InUse ts (n + 1) (after threshold recovery duration (failure t) s) (omega arith) w
          (failure-InUse t n s (omega arith) w v))

  after_all-append :
      (es fs : List Event) (s : BackendHealth)
      → after_all threshold recovery duration (es ++ fs) s
        ≡ after_all threshold recovery duration fs (after_all threshold recovery duration es s)
  unfolding after_all
  after_all-append [] fs s = refl
  after_all-append (e ∷ es) fs s = after_all-append es fs (after threshold recovery duration e s)

  failures-open :
      (ts : List Instant) (t : Instant) (s : BackendHealth)
      → length ts + 1 ≡ threshold
      → threshold ≤ u64_mod
      → InUse 0 s
      → view (after_all threshold recovery duration (map failure ts ++ failure t ∷ []) s)
        ≡ open_until (t + duration)
  unfolding after_all
  failures-open ts t s h w v = rw (after_all-append (map failure ts) (failure t ∷ []) s) (
      failure-open t (length ts) (after_all threshold recovery duration (map failure ts) s) h (
        let z : 0 + length ts ≡ length ts = omega arith in
        rw z at (failures-InUse ts 0 s (omega arith) w v)))

abbrev pub failures_of : String → List Instant → List Call
failures_of b = map (λ t. fails t b)

events_of-failures_of :
    (b : String) (ts : List Instant) → events_of b (failures_of b ts) ≡ map failure ts
events_of-failures_of b [] = refl
events_of-failures_of b (t ∷ ts) =
    rw (eq_refl b) (ap (λ l. failure t ∷ l) (events_of-failures_of b ts))

in_service-InUse :
    (now : Instant) (n : ℕ) (s : BackendHealth) → InUse n s → in_service now (view s) ≡ true
in_service-InUse now n s v = ground arith

module _ (b : String) (s : BackendHealth) (h : Health) (known : lookup b h.backend_health ≡ some s)
    (fresh : InUse 0 s) (width : h.failure_threshold ≤ u64_mod) where
  -- For a known backend in use without failures so far and a threshold of at most 2^64, fewer
  -- failures in a row than the threshold leave the backend in service.
  pub few_failures :
      (ts : List Instant) (now : Instant)
      → length ts < h.failure_threshold
      → usable now b (perform_all (failures_of b ts) h).manager ≡ true
  unfolding react_all
  few_failures ts now few =
      ap (usable_state now) (lookup-perform_all (failures_of b ts) h b)
      ∙ rw (known, events_of-failures_of b ts)
          (in_service-InUse now (0 + length ts) _ (
            failures-InUse h.failure_threshold h.recovery_threshold h.ejection_duration ts 0 s
              (omega arith) width fresh))

  -- For a known backend in use without failures so far and a threshold of at most 2^64, as many
  -- failures in a row as the threshold take the backend out of service until exactly the
  -- ejection duration after the last of them.
  pub last_failure :
      (ts : List Instant) (t now : Instant)
      → length ts + 1 ≡ h.failure_threshold
      → usable now b (perform_all (failures_of b (ts ++ t ∷ [])) h).manager
        ≡ leb (t + h.ejection_duration) now
  unfolding react_all
  last_failure ts t now full =
      ap (usable_state now) (lookup-perform_all (failures_of b (ts ++ t ∷ [])) h b)
      ∙ rw (known, events_of-failures_of b (ts ++ t ∷ []), map-append failure ts (t ∷ []))
          (ap (in_service now) (
            failures-open h.failure_threshold h.recovery_threshold h.ejection_duration ts t s full
              width fresh))
