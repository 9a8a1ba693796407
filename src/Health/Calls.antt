-- ===== src/Health/Calls.antt =====
-- The calls of `HealthManager` of src/health/mod.rs, backend by backend.
use text.Mathlib.TextEquality.{eq_iff}
use ferrum_proxy.Common.{
  String, ◌≡◌, refl, inl, inr, Option, none, some, List, if◌then◌else◌, string_eq, ◌==◌, lookup,
  lookup-put, on_value, Instant, arith, Option-cases,
}
use ferrum_proxy.Health.State.{BackendHealth, Change}
use ferrum_proxy.Health.Breaker.{Event, success, failure, look, after}
use ferrum_proxy.Health.Manager.{
  HealthManager, Health, store, record_transition, record_success, record_failure,
  is_backend_ejected,
}

-- A call that may change the state of a backend.
pub data Call : Type 0 where
  succeeds : String → Call
  fails looks : Instant → String → Call

abbrev pub target : Call → String
target (succeeds b) = b
target (fails now b) = b
target (looks now b) = b

abbrev pub event : Call → Event
event (succeeds b) = success
event (fails now b) = failure now
event (looks now b) = look now

unfoldable pub perform : Call → Health → Health
perform (succeeds b) h = record_success b h
perform (fails now b) h = record_failure now b h
perform (looks now b) h = record h { manager = (is_backend_ejected now b h.manager).0 }

record_transition-manager :
    (backend : String) (c : Option Change) (h : Health)
    → (record_transition backend c h).manager ≡ h.manager
unfolding record_transition
record_transition-manager backend none h = refl
record_transition-manager backend (some c) h = ground arith

-- The event of a call, with the thresholds of the manager.
abbrev pub react : HealthManager → Event → BackendHealth → BackendHealth
react m = after m.failure_threshold m.recovery_threshold m.ejection_duration

pub perform-manager :
    (c : Call) (h : Health) (s : BackendHealth)
    → lookup (target c) h.backend_health ≡ some s
    → (perform c h).manager ≡ store (target c) (react h.manager (event c) s) h.manager
unfolding perform after record_success record_failure is_backend_ejected
perform-manager (succeeds b) h s e = rw (e, record_success) (record_transition-manager b _ _)
perform-manager (fails now b) h s e = rw (e, record_failure) (record_transition-manager b _ _)
perform-manager (looks now b) h s e = rw (e, is_backend_ejected)

pub perform_unknown :
    (c : Call) (h : Health)
    → lookup (target c) h.backend_health ≡ none
    → (perform c h).manager ≡ h.manager
unfolding perform record_success record_failure is_backend_ejected
perform_unknown (succeeds b) h e = rw (e, record_success)
perform_unknown (fails now b) h e = rw (e, record_failure)
perform_unknown (looks now b) h e = rw (e, is_backend_ejected)

-- A call is its event on the state of its backend, and touches nothing else of the manager.
pub lookup-perform :
    (c : Call) (h : Health) (b : String)
    → lookup b (perform c h).backend_health ≡ (
        if target c == b
        then on_value (react h.manager (event c)) (lookup b h.backend_health)
        else lookup b h.backend_health)
lookup-perform c h b = elim (Option-cases (lookup (target c) h.backend_health)) [
  | inl e ↦ rw (perform_unknown c h e) (ground (arith, e, eq_iff (target c) b))
  | inr (s, e) ↦
      rw
        (
          perform-manager c h s e,
          lookup-put (target c) b (react h.manager (event c) s) h.backend_health,
        )
        (ground (arith, e, eq_iff (target c) b))
]

-- The settings of a manager.
pub record SameSettings (m m' : HealthManager) : Type 0 where
  pub failure : m'.failure_threshold ≡ m.failure_threshold
  pub recovery : m'.recovery_threshold ≡ m.recovery_threshold
  pub ejection : m'.ejection_duration ≡ m.ejection_duration
  pub success_min : m'.active_success_status_min ≡ m.active_success_status_min
  pub success_max : m'.active_success_status_max ≡ m.active_success_status_max

same_settings :
    (m : HealthManager) (entries : List (String × BackendHealth))
    → SameSettings m (record m { backend_health = entries })
same_settings m entries = record {
  failure = refl;
  recovery = refl;
  ejection = refl;
  success_min = refl;
  success_max = refl;
}

pub perform-SameSettings : (c : Call) (h : Health) → SameSettings h.manager (perform c h).manager
perform-SameSettings c h = elim (Option-cases (lookup (target c) h.backend_health)) [
  | inl e ↦ rw (perform_unknown c h e) (same_settings h.manager h.backend_health)
  | inr (s, e) ↦ rw (perform-manager c h s e) (same_settings h.manager _)
]
