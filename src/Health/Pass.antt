-- ===== src/Health/Pass.antt =====
-- A pass of active checks of src/health/mod.rs as a history of calls.
use ferrum_proxy.Common.{
  ℕ, suc, String, ◌⊎◌, Bool, false, ◌≡◌, ◌≢◌, refl, sym, ap, ◌∙◌, subst, inl, inr, List, [], ◌∷◌,
  if◌then◌else◌, ◌==◌, string_eq, lookup, on_value, Instant, Result, ok, In, contains, In-contains,
  ==_of_ne, Bool-cases, Option,
}
use mathlib.Core.Path.{ap₂}
use text.Mathlib.TextEquality.{eq_iff}
use ferrum_proxy.Config.{Config}
use ferrum_proxy.Config.Validate.{validate_route_health_endpoint_overrides}
use ferrum_proxy.Config.Validate.Endpoints.{validate_overrides_iff}
use ferrum_proxy.Health.Breaker.{after_all, Event, success, failure}
use ferrum_proxy.Health.Manager.{HealthManager, Health, is_active_success_status}
use ferrum_proxy.Health.Calls.{
  Call, succeeds, fails, target, event, perform, react, SameSettings, perform-SameSettings,
}
use ferrum_proxy.Health.Keeps.{perform_all, events_of, react_all, lookup-perform_all}
use ferrum_proxy.Health.CheckSet.{
  Distinct, OfRoutes, OfRoutes-one, unique_backend_checks-Distinct, unique_backend_checks_iff,
}
use ferrum_proxy.Health.Checks.{
  check_backend, check_one, check_pass, unique_backend_checks, pair_eq,
}

-- A member of a set is not among those behind it.
twice :
    (check other : String × String) (rest : List (String × String))
    → contains rest check ≡ false
    → In other rest
    → other ≢ check
twice check other rest d i e = let there = In-contains check rest (subst (λ c. In c rest) e i) in cc

react_all-one : (m : HealthManager) (e : Event) → react_all m (e ∷ []) ≡ react m e
unfolding react_all after_all
react_all-one m e = refl

module _ {Uri : Type 0} (probe_uri : String → String → Result String Uri)
    (answer : Uri → Option ℕ) where
  abbrev pub passes : HealthManager → String × String → Bool
  passes m (backend, endpoint) =
      is_active_success_status (check_backend probe_uri answer backend endpoint) m

  -- The call that a check comes to.
  abbrev pub call_of : HealthManager → Instant → String × String → Call
  call_of m now check = if passes m check then succeeds check.0 else fails now check.0

  abbrev pub calls_of : HealthManager → (ℕ → Instant) → List (String × String) → List Call
  calls_of m clock [] = []
  calls_of m clock (check ∷ rest) = call_of m (clock 0) check ∷ calls_of m (λ i. clock (suc i)) rest

  pub check_one-perform :
      (now : Instant) (check : String × String) (h : Health)
      → check_one probe_uri answer now check h ≡ perform (call_of h.manager now check) h
  unfolding check_one perform
  check_one-perform now (b, e) h = elim (Bool-cases (passes h.manager (b, e))) [
    | inl t ↦ rw t refl
    | inr t ↦ rw t refl
  ]

  passes_same :
      (m m' : HealthManager) (check : String × String)
      → SameSettings m m'
      → passes m' check ≡ passes m check
  unfolding is_active_success_status
  passes_same m m' check v = rw (v.success_min) (rw (v.success_max) refl)

  calls_of_same :
      (m m' : HealthManager) (clock : ℕ → Instant) (checks : List (String × String))
      → SameSettings m m'
      → calls_of m' clock checks ≡ calls_of m clock checks
  calls_of_same m m' clock [] v = refl
  calls_of_same m m' clock (check ∷ rest) v =
      rw (passes_same m m' check v)
        (ap (◌∷◌ (call_of m (clock 0) check)) (calls_of_same m m' (λ i. clock (suc i)) rest v))

  check_pass-perform_all :
      (clock : ℕ → Instant) (checks : List (String × String)) (h : Health)
      → check_pass probe_uri answer clock checks h ≡ perform_all (calls_of h.manager clock checks) h
  unfolding check_pass perform_all
  check_pass-perform_all clock [] h = refl
  check_pass-perform_all clock (check ∷ rest) h =
      let call = call_of h.manager (clock 0) check in
      ap (check_pass probe_uri answer (λ i. clock (suc i)) rest)
        (check_one-perform (clock 0) check h)
      ∙ check_pass-perform_all (λ i. clock (suc i)) rest (perform call h)
      ∙ ap (λ calls. perform_all calls (perform call h))
          (calls_of_same h.manager (perform call h).manager (λ i. clock (suc i)) rest
            (perform-SameSettings call h))

  pub target_of :
      (m : HealthManager) (now : Instant) (check : String × String)
      → target (call_of m now check) ≡ check.0
  target_of m now check = elim (Bool-cases (passes m check)) [
    | inl t ↦ rw t refl
    | inr t ↦ rw t refl
  ]

  abbrev pub event_of : HealthManager → Instant → String × String → Event
  event_of m now check = if passes m check then success else failure now

  event_of-call :
      (m : HealthManager) (now : Instant) (check : String × String)
      → event (call_of m now check) ≡ event_of m now check
  event_of-call m now check = elim (Bool-cases (passes m check)) [
    | inl t ↦ rw t refl
    | inr t ↦ rw t refl
  ]

  -- A backend that no check names has no event, and one that one check names has one.
  events-nil :
      (b : String) (m : HealthManager) (clock : ℕ → Instant) (checks : List (String × String))
      → ((check : String × String) → In check checks → check.0 ≢ b)
      → events_of b (calls_of m clock checks) ≡ []
  events-nil b m clock [] h = refl
  events-nil b m clock (check ∷ rest) h = rw (target_of m (clock 0) check) (
      rw (==_of_ne check.0 b (h check (inl refl)))
        (events-nil b m (λ i. clock (suc i)) rest (λ c i. h c (inr i))))

  events-once :
      (b e : String) (m : HealthManager) (clock : ℕ → Instant) (checks : List (String × String))
      → Distinct checks
      → In (b, e) checks
      → ((f : String) → In (b, f) checks → f ≡ e)
      → (i : ℕ) × (events_of b (calls_of m clock checks) ≡ event_of m (clock i) (b, e) ∷ [])
  events-once b e m clock [] d i only = elim i [ ]
  events-once b e m clock (check ∷ rest) (d, ds) (inl here) only =
      let none_left =
        events-nil b m (λ i. clock (suc i)) rest
          (λ c i q.
            twice check c rest d i
              (same here c q (only c.1 (inr (subst (λ x. In (x, c.1) rest) q i))))) in
      (
        0,
        rw (target_of m (clock 0) check) (
            rw ((eq_iff check.0 b).1 (sym (ap (λ c. c.0) here))) (
              rw none_left (
                ap (λ v. v ∷ [])
                  (event_of-call m (clock 0) check ∙ ap (event_of m (clock 0)) (sym here))))),
      )
    where
      same : (b, e) ≡ check → (c : String × String) → c.0 ≡ b → c.1 ≡ e → c ≡ check
      same here c p q = ap₂ (λ x y. (x, y)) p q ∙ here
  events-once b e m clock (check ∷ rest) (d, ds) (inr there) only =
      elim (Bool-cases (check.0 == b)) [
        | inl named ↦
            let p = (eq_iff check.0 b).0 named in
            let q = only check.1 (inl (ap (λ x. (x, check.1)) (sym p))) in
            absurd (twice check (b, e) rest d there (sym (ap₂ (λ x y. (x, y)) p q)))
        | inr other ↦
            let (i, found) =
              events-once b e m (λ i. clock (suc i)) rest ds there (λ f j. only f (inr j)) in
            (suc i, rw (target_of m (clock 0) check) (rw other found))
      ]

  -- When the check of the health endpoints accepts the configuration, a pass of active checks
  -- moves the state of each backend of a route exactly once, by the result of the check at the
  -- endpoint of that backend, at one of the readings of the clock.
  pub check_pass-once :
      (config : Config) (clock : ℕ → Instant) (h : Health) (b e : String)
      → validate_route_health_endpoint_overrides config ≡ ok tt
      → OfRoutes config.health_check.endpoint (b, e) config.routes
      → (i : ℕ) × (lookup b
            (check_pass probe_uri answer clock (unique_backend_checks config) h).backend_health
          ≡ on_value
              (react h.manager (event_of h.manager (clock i) (b, e)))
              (lookup b h.backend_health))
  check_pass-once config clock h b e valid of =
      let checks = unique_backend_checks config in
      let agree = (validate_overrides_iff config).0 valid in
      let (i, found) =
        events-once b e h.manager clock checks (unique_backend_checks-Distinct config)
          ((unique_backend_checks_iff config (b, e)).1 of)
          (λ f j.
            OfRoutes-one config.health_check.endpoint b e f config.routes agree of
              ((unique_backend_checks_iff config (b, f)).0 j)) in
      (
        i,
        ap (λ x. lookup b x.backend_health) (check_pass-perform_all clock checks h)
            ∙ lookup-perform_all (calls_of h.manager clock checks) h b
            ∙ ap (λ es. on_value (react_all h.manager es) (lookup b h.backend_health)) found
            ∙ ap (λ f. on_value f (lookup b h.backend_health))
                (react_all-one h.manager (event_of h.manager (clock i) (b, e))),
      )

  -- A backend of which all checks are the same has one event at most.
  pub events-few :
      (b : String) (m : HealthManager) (clock : ℕ → Instant) (checks : List (String × String))
      → Distinct checks
      → ((e f : String) → In (b, e) checks → In (b, f) checks → f ≡ e)
      → (events_of b (calls_of m clock checks) ≡ [])
        ⊎ ((i : ℕ) × (check : String × String) × (events_of b (calls_of m clock checks)
              ≡ event_of m (clock i) check ∷ []))
  events-few b m clock [] d only = inl refl
  events-few b m clock (check ∷ rest) (d, ds) only = elim (Bool-cases (check.0 == b)) [
    | inl named ↦
        let p = (eq_iff check.0 b).0 named in
        let (i, found) =
          events-once b check.1 m clock (check ∷ rest) (d, ds)
            (inl (ap (λ x. (x, check.1)) (sym p)))
            (λ f j. only check.1 f (inl (ap (λ x. (x, check.1)) (sym p))) j) in
        inr (i, (b, check.1), found)
    | inr other ↦
        let skip : events_of b (calls_of m clock (check ∷ rest))
            ≡ events_of b (calls_of m (λ i. clock (suc i)) rest) =
          rw (target_of m (clock 0) check) (rw other refl) in
        elim (events-few b m (λ i. clock (suc i)) rest ds (λ e f i j. only e f (inr i) (inr j))) [
          | inl none_found ↦ inl (skip ∙ none_found)
          | inr (i, c, found) ↦ inr (suc i, c, skip ∙ found)
        ]
  ]
