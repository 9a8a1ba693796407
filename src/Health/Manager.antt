-- ===== src/Health/Manager.antt =====
-- The operations of `HealthManager` in src/health/mod.rs.
use ferrum_proxy.Common.{
  ℕ, suc, String, Bool, false, not, ◌&&◌, ◌||◌, Option, none, some, List, [], ◌∷◌, leb,
  if◌then◌else◌, string_eq, lookup, put, is_empty, sort, str_le, Duration, Instant,
}
use ferrum_proxy.Config.{RouteConfig}
use ferrum_proxy.Telemetry.{
  Telemetry, entries_of_routes, record_backend_failure, record_health_transition,
}
use ferrum_proxy.Health.State.{
  BackendHealth, healthy_backend, Change, on_success, on_failure, check_ejected,
}

-- `telemetry` says whether the manager was given one.
pub record HealthManager : Type 0 where
  pub backend_health : List (String × BackendHealth)
  pub telemetry : Bool
  pub failure_threshold : ℕ
  pub recovery_threshold : ℕ
  pub ejection_duration : Duration
  pub active_success_status_min : ℕ
  pub active_success_status_max : ℕ
  pub passive_failure_status_min : ℕ
  pub passive_failure_status_max : ℕ

-- A manager beside the telemetry that it shares with the rest of the program.
pub record Health : Type 0 where
  pub manager : HealthManager
  pub open manager use *
  pub shared : Telemetry

unfoldable pub with_telemetry :
    List RouteConfig → ℕ → ℕ → Duration → ℕ → ℕ → ℕ → ℕ → Bool → HealthManager
with_telemetry routes failure recovery ejection active_min active_max passive_min passive_max
      telemetry =
    record {
      backend_health = entries_of_routes healthy_backend routes [];
      telemetry = telemetry;
      failure_threshold = failure;
      recovery_threshold = recovery;
      ejection_duration = ejection;
      active_success_status_min = active_min;
      active_success_status_max = active_max;
      passive_failure_status_min = passive_min;
      passive_failure_status_max = passive_max;
    }

-- The state of a backend is written back under its key.
abbrev pub store : String → BackendHealth → HealthManager → HealthManager
store backend state m = record m { backend_health = put backend state m.backend_health }

-- `record_transition`
unfoldable pub record_transition : String → Option Change → Health → Health
record_transition backend none h = h
record_transition backend (some c) h =
    if h.telemetry
    then record h { shared = record_health_transition backend c.from c.to c.reason h.shared }
    else h

unfoldable pub record_success : String → Health → Health
unfolding record_transition
record_success backend h = elim (lookup backend h.backend_health) [
  | none ↦ h
  | some state ↦
      let (state', change) = on_success h.recovery_threshold state in
      record_transition backend change (record h { manager = store backend state' h.manager })
]

unfoldable pub record_failure : Instant → String → Health → Health
unfolding record_transition
record_failure now backend h = elim (lookup backend h.backend_health) [
  | none ↦ h
  | some state ↦
      let told = if h.telemetry then record_backend_failure backend h.shared else h.shared in
      let (state', change) = on_failure h.failure_threshold h.ejection_duration now state in
      record_transition backend change
        (record { manager = store backend state' h.manager; shared = told })
]

unfoldable pub is_backend_ejected : Instant → String → HealthManager → HealthManager × Bool
is_backend_ejected now backend m = elim (lookup backend m.backend_health) [
  | none ↦ (m, false)
  | some state ↦
      let (state', ejected) = check_ejected now state in (store backend state' m, ejected)
]

unfoldable pub is_backend_healthy : String → HealthManager → Bool
is_backend_healthy backend m = elim (lookup backend m.backend_health) [
  | none ↦ false
  | some state ↦ state.healthy
]

unfoldable pub is_backend_probing : String → HealthManager → Bool
is_backend_probing backend m = elim (lookup backend m.backend_health) [
  | none ↦ false
  | some state ↦ state.probing
]

-- The closure of `healthy_backends`.
unfoldable pub is_offered : Instant → String → HealthManager → HealthManager × Bool
unfolding is_backend_ejected is_backend_healthy is_backend_probing
is_offered now backend m =
    let (m', ejected) = is_backend_ejected now backend m in
    (m', not ejected && (is_backend_healthy backend m' || is_backend_probing backend m'))

abbrev pub keep_if : Bool → String → List String → List String
keep_if test backend rest = if test then backend ∷ rest else rest

-- The iteration of `healthy_backends`; the `i`-th backend reads the clock as `clock i`.
unfoldable pub offered_backends :
    (ℕ → Instant) → List String → HealthManager → HealthManager × List String
unfolding is_offered
offered_backends clock [] m = (m, [])
offered_backends clock (backend ∷ rest) m =
    let (m', offered) = is_offered (clock 0) backend m in
    let (m'', more) = offered_backends (λ i. clock (suc i)) rest m' in
    (m'', keep_if offered backend more)

unfoldable pub healthy_backends :
    (ℕ → Instant) → RouteConfig → HealthManager → HealthManager × List String
unfolding offered_backends
healthy_backends clock route m = offered_backends clock route.backends m

-- The iteration of `startup_dead_pools`. The `i`-th route reads the clock as `clocks i`, and before
-- it the other tasks do `meanwhile i`.
unfoldable pub dead_pools_from :
    (meanwhile : ℕ → Health → Health)
    → (ℕ → ℕ → Instant)
    → List RouteConfig
    → Health
    → Health × List String
unfolding healthy_backends
dead_pools_from meanwhile clocks [] h = (h, [])
dead_pools_from meanwhile clocks (route ∷ rest) h =
    let met = meanwhile 0 h in
    let (m', healthy) = healthy_backends (clocks 0) route met.manager in
    let (h', more) =
      dead_pools_from (λ i. meanwhile (suc i)) (λ i. clocks (suc i)) rest
        (record met { manager = m' }) in
    (h', keep_if (is_empty healthy) route.path_prefix more)

unfoldable pub startup_dead_pools :
    (meanwhile : ℕ → Health → Health)
    → (ℕ → ℕ → Instant)
    → List RouteConfig
    → Health
    → Health × List String
unfolding dead_pools_from
startup_dead_pools = dead_pools_from

-- The iteration of `backend_statuses`, over the entries of the map in some order.
unfoldable pub statuses_from :
    (ℕ → Instant) → List String → HealthManager → HealthManager × List (String × Bool)
unfolding is_backend_ejected is_backend_healthy is_backend_probing
statuses_from clock [] m = (m, [])
statuses_from clock (backend ∷ rest) m =
    let (m', ejected) = is_backend_ejected (clock 0) backend m in
    let healthy = is_backend_healthy backend m' && not ejected in
    let probing = is_backend_probing backend m' && not ejected in
    let (m'', more) = statuses_from (λ i. clock (suc i)) rest m' in
    (m'', (backend, healthy || probing) ∷ more)

-- `sort_by(|left, right| left.0.cmp(&right.0))`
unfoldable pub sort_by_key : {V : Type 0} → List (String × V) → List (String × V)
sort_by_key = sort (λ left right. str_le left.0 right.0)

abbrev pub keys : {V : Type 0} → List (String × V) → List String
keys [] = []
keys ((k, _) ∷ rest) = k ∷ keys rest

unfoldable pub backend_statuses :
    (ℕ → Instant) → HealthManager → HealthManager × List (String × Bool)
unfolding statuses_from sort_by_key
backend_statuses clock m =
    let (m', statuses) = statuses_from clock (keys m.backend_health) m in (m', sort_by_key statuses)

unfoldable pub is_passive_failure_status : ℕ → HealthManager → Bool
is_passive_failure_status status m =
    leb m.passive_failure_status_min status && leb status m.passive_failure_status_max

unfoldable pub is_active_success_status : ℕ → HealthManager → Bool
is_active_success_status status m =
    leb m.active_success_status_min status && leb status m.active_success_status_max
