-- ===== src/Health/Up.antt =====
-- Managers of src/health/mod.rs whose backends all take requests.
use text.Mathlib.TextEquality.{eq_iff}
use ferrum_proxy.Common.{
  ℕ, suc, ◌≡◌, ◌≢◌, refl, sym, ◌∙◌, inl, inr, String, true, false, none, some, List, [], ◌∷◌, All,
  string_eq, is_empty, lookup, lookup-put, Instant, Option-cases, arith,
}
use ferrum_proxy.Config.{RouteConfig}
use ferrum_proxy.Health.State.{BackendHealth, check_ejected}
use ferrum_proxy.Health.Manager.{
  HealthManager, store, is_backend_ejected, is_backend_healthy, is_offered, offered_backends,
  healthy_backends,
}

-- Every backend that is known takes requests.
abbrev pub IsUp : HealthManager → Type 0
IsUp m =
    (b : String) (s : BackendHealth)
    → lookup b m.backend_health ≡ some s
    → (s.healthy ≡ true) × (s.ejected_until ≡ none)

-- The states are the same.
abbrev pub SameStates : HealthManager → HealthManager → Type 0
SameStates m m' = (b : String) → lookup b m'.backend_health ≡ lookup b m.backend_health

abbrev pub IsKnown : HealthManager → String → Type 0
IsKnown m b = (s : BackendHealth) × (lookup b m.backend_health ≡ some s)

ejected_unknown :
    (now : Instant) (b : String) (m : HealthManager)
    → lookup b m.backend_health ≡ none
    → is_backend_ejected now b m ≡ (m, false)
unfolding is_backend_ejected
ejected_unknown now b m e = rw (e, is_backend_ejected) refl

ejected_known :
    (now : Instant) (b : String) (m : HealthManager) (s : BackendHealth)
    → lookup b m.backend_health ≡ some s
    → s.ejected_until ≡ none
    → is_backend_ejected now b m ≡ (store b s m, false)
unfolding is_backend_ejected check_ejected
ejected_known now b m s e open_now = rw (e, is_backend_ejected) (rw open_now refl)

healthy_known :
    (b : String) (m : HealthManager) (s : BackendHealth)
    → lookup b m.backend_health ≡ some s
    → is_backend_healthy b m ≡ s.healthy
unfolding is_backend_healthy
healthy_known b m s e = rw (e, is_backend_healthy) refl

store-SameStates :
    (b : String) (s : BackendHealth) (m : HealthManager)
    → lookup b m.backend_health ≡ some s
    → SameStates m (store b s m)
store-SameStates b s m e c = ground (arith, e, lookup-put b c s m.backend_health, eq_iff b c)

offered_state :
    (now : Instant) (b : String) (m : HealthManager)
    → (is_offered now b m).0 ≡ (is_backend_ejected now b m).0
unfolding is_offered
offered_state now b m = refl

is_offered-SameStates :
    (now : Instant) (b : String) (m : HealthManager) → IsUp m → SameStates m (is_offered now b m).0
is_offered-SameStates now b m up = elim (Option-cases (lookup b m.backend_health)) [
  | inl e ↦ rw (offered_state now b m) (rw (ejected_unknown now b m e) (λ c. refl))
  | inr (s, e) ↦
      rw (offered_state now b m)
        (rw (ejected_known now b m s e (up b s e).1) (store-SameStates b s m e))
]

is_offered_known :
    (now : Instant) (b : String) (m : HealthManager)
    → IsUp m
    → IsKnown m b
    → (is_offered now b m).1 ≡ true
unfolding is_offered
is_offered_known now b m up (s, e) =
    let kept = store-SameStates b s m e b ∙ e in
    rw (ejected_known now b m s e (up b s e).1, is_offered)
      (rw (healthy_known b (store b s m) s kept) (rw ((up b s e).0) refl))

SameStates-IsUp : (m m' : HealthManager) → SameStates m m' → IsUp m → IsUp m'
SameStates-IsUp m m' same up b s e = up b s (sym (same b) ∙ e)

pub offered_backends-SameStates :
    (clock : ℕ → Instant) (l : List String) (m : HealthManager)
    → IsUp m
    → SameStates m (offered_backends clock l m).0
unfolding offered_backends
offered_backends-SameStates clock [] m up = λ c. refl
offered_backends-SameStates clock (b ∷ rest) m up =
    let same = is_offered-SameStates (clock 0) b m up in
    let later =
      offered_backends-SameStates (λ i. clock (suc i)) rest (is_offered (clock 0) b m).0
        (SameStates-IsUp m (is_offered (clock 0) b m).0 same up) in
    λ c. later c ∙ same c

-- A route whose first backend is known has a backend.
pub healthy_backends_some :
    (clock : ℕ → Instant) (r : RouteConfig) (m : HealthManager)
    → IsUp m
    → r.backends ≢ []
    → All (IsKnown m) r.backends
    → is_empty (healthy_backends clock r m).1 ≡ false
unfolding healthy_backends
healthy_backends_some clock r m up ne known = go r.backends ne known
  where
    go :
        (l : List String)
        → l ≢ []
        → All (IsKnown m) l
        → is_empty (offered_backends clock l m).1 ≡ false
    go [] n k = absurd (n refl)
    go (b ∷ rest) n (k, ks) =
        unfold offered_backends in rw (is_offered_known (clock 0) b m up k) refl

is_offered-threshold :
    (now : Instant) (b : String) (m : HealthManager)
    → (is_offered now b m).0.failure_threshold ≡ m.failure_threshold
unfolding is_backend_ejected
is_offered-threshold now b m = elim (Option-cases (lookup b m.backend_health)) [
  | inl e ↦ rw (offered_state now b m) (rw (e, is_backend_ejected) refl)
  | inr (s, e) ↦ rw (offered_state now b m) (rw (e, is_backend_ejected) refl)
]

pub offered_backends-threshold :
    (clock : ℕ → Instant) (l : List String) (m : HealthManager)
    → (offered_backends clock l m).0.failure_threshold ≡ m.failure_threshold
unfolding offered_backends
offered_backends-threshold clock [] m = refl
offered_backends-threshold clock (b ∷ rest) m =
    offered_backends-threshold (λ i. clock (suc i)) rest (is_offered (clock 0) b m).0
    ∙ is_offered-threshold (clock 0) b m
