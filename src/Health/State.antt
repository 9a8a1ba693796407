-- ===== src/Health/State.antt =====
-- One backend of src/health/mod.rs: its state, and what a success, a failure and a look at the
-- ejection window make of it.
-- A count is taken modulo 2^64 when it is stored. The sum that is compared with a threshold is not:
-- where the comparison decides, the count is below the threshold, which is itself below 2^64.
use ferrum_proxy.Common.{
  ℕ, String, ◌+◌, ◌%◌, Bool, true, false, not, ◌&&◌, ◌||◌, Option, none, some, leb, ltb,
  if◌then◌else◌, u64_mod, Duration, Instant,
}

pub record BackendHealth : Type 0 where
  pub healthy : Bool
  pub consecutive_failures : ℕ
  pub consecutive_successes : ℕ
  pub ejected_until : Option Instant
  pub probing : Bool

-- `BackendHealth::healthy`
abbrev pub healthy_backend : BackendHealth
healthy_backend = record {
  healthy = true;
  consecutive_failures = 0;
  consecutive_successes = 0;
  ejected_until = none;
  probing = false;
}

-- The arguments of a call of `record_transition`.
pub record Change : Type 0 where
  pub from : String
  pub to : String
  pub reason : String

-- The body of `record_success` for a known backend.
unfoldable pub on_success : ℕ → BackendHealth → BackendHealth × Option Change
on_success recovery_threshold state =
    let cleared = record state { consecutive_failures = 0 } in
    if cleared.probing
    then (
      record cleared { probing = false; healthy = true; consecutive_successes = 0 },
      some (record { from = "probing"; to = "healthy"; reason = "probe_succeeded" }),
    )
    else let counted = record cleared {
      consecutive_successes = (cleared.consecutive_successes + 1) % u64_mod;
    } in
      if not counted.healthy && leb recovery_threshold (cleared.consecutive_successes + 1)
      then (
        record counted { healthy = true; consecutive_successes = 0 },
        some (record { from = "unhealthy"; to = "healthy"; reason = "success_threshold" }),
      )
      else (counted, none)

-- `eject_backend`
unfoldable pub eject : Duration → Instant → BackendHealth → BackendHealth
eject ejection_duration now state = record state { ejected_until = some (now + ejection_duration) }

-- The body of `record_failure` for a known backend, behind the count of the failure.
unfoldable pub on_failure : ℕ → Duration → Instant → BackendHealth → BackendHealth × Option Change
unfolding eject
on_failure failure_threshold ejection_duration now state =
    let cleared = record state { consecutive_successes = 0 } in
    if cleared.probing
    then (
      eject ejection_duration now (record cleared { probing = false }),
      some (record { from = "probing"; to = "ejected"; reason = "probe_failed" }),
    )
    else let counted = record cleared {
      consecutive_failures = (cleared.consecutive_failures + 1) % u64_mod;
    } in
      if counted.healthy && leb failure_threshold (cleared.consecutive_failures + 1)
      then (
        eject ejection_duration now (record counted { healthy = false; consecutive_failures = 0 }),
        some (record { from = "healthy"; to = "unhealthy"; reason = "failure_threshold" }),
      )
      else (counted, none)

-- The body of `is_backend_ejected` for a known backend. A window that is over opens the half-open
-- state.
unfoldable pub check_ejected : Instant → BackendHealth → BackendHealth × Bool
check_ejected now state = elim state.ejected_until [
  | none ↦ (state, false)
  | some until ↦
      if ltb now until
      then (state, true)
      else (record state { ejected_until = none; probing = true }, false)
]

-- The test of `healthy_backends`, with the state that it leaves.
unfoldable pub offer : Instant → BackendHealth → BackendHealth × Bool
unfolding check_ejected
offer now state =
    let (state', ejected) = check_ejected now state in
    (state', not ejected && (state'.healthy || state'.probing))
