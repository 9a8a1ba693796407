-- ===== src/Health/Keeps.antt =====
-- Histories of calls of `HealthManager` of src/health/mod.rs.
use mathlib.Core.Path.{ap₂}
use ferrum_proxy.Common.{
  String, ◌≤◌, ◌<◌, ◌≡◌, refl, sym, subst, ◌∙◌, ap, ◌⊎◌, inl, inr, Bool, true, false, Option, none,
  some, List, [], ◌∷◌, if◌then◌else◌, string_eq, ◌==◌, lookup, or_insert, lookup-or_insert,
  on_value, arith, Option-cases, u64_mod,
}
use ferrum_proxy.Config.{RouteConfig}
use ferrum_proxy.Telemetry.{entries_of, entries_of_routes}
use ferrum_proxy.Health.State.{BackendHealth, healthy_backend}
use ferrum_proxy.Health.Breaker.{
  Event, after_all, after-IsSound, closed, view, Run, history-Run, healthy_backend-IsSound,
}
use ferrum_proxy.Health.Manager.{HealthManager, Health}
use ferrum_proxy.Health.Eligible.{AllSound, store-AllSound}
use ferrum_proxy.Health.Calls.{
  Call, target, event, perform, react, perform-manager, perform_unknown, lookup-perform,
  SameSettings, perform-SameSettings,
}

unfoldable pub perform_all : List Call → Health → Health
perform_all [] h = h
perform_all (c ∷ cs) h = perform_all cs (perform c h)

-- The events of one backend in a history.
abbrev pub events_of : String → List Call → List Event
events_of b [] = []
events_of b (c ∷ cs) = let rest = events_of b cs in if target c == b then event c ∷ rest else rest

unfoldable pub react_all : HealthManager → List Event → BackendHealth → BackendHealth
react_all m = after_all m.failure_threshold m.recovery_threshold m.ejection_duration

react_all-same :
    (m m' : HealthManager) (es : List Event) → SameSettings m m' → react_all m' es ≡ react_all m es
unfolding react_all
react_all-same m m' es v = rw (v.failure, v.recovery, v.ejection)

react_all-nil : (m : HealthManager) (s : BackendHealth) → s ≡ react_all m [] s
unfolding react_all after_all
react_all-nil m s = refl

react_all-step :
    (m : HealthManager) (t : Bool) (e : Event) (es : List Event) (o : Option BackendHealth)
    → on_value (react_all m es) (if t then on_value (react m e) o else o)
      ≡ on_value (react_all m (if t then e ∷ es else es)) o
unfolding react_all after_all
react_all-step m true e es none = refl
react_all-step m true e es (some s) = refl
react_all-step m false e es o = refl

-- After a history of calls the state of each backend is what its own events make of its first
-- state, in order, and a backend that is not known stays unknown.
pub lookup-perform_all :
    (cs : List Call) (h : Health) (b : String)
    → lookup b (perform_all cs h).backend_health
      ≡ on_value (react_all h.manager (events_of b cs)) (lookup b h.backend_health)
unfolding perform_all
lookup-perform_all [] h b = on_nil (lookup b h.backend_health)
  where
    on_nil : (o : Option BackendHealth) → o ≡ on_value (react_all h.manager []) o
    on_nil none = refl
    on_nil (some s) = ap some (react_all-nil h.manager s)
lookup-perform_all (c ∷ cs) h b =
    lookup-perform_all cs (perform c h) b
    ∙ ap₂ on_value
        (react_all-same h.manager (perform c h).manager (events_of b cs) (perform-SameSettings c h))
        (lookup-perform c h b)
    ∙ react_all-step h.manager (target c == b) (event c) (events_of b cs)
        (lookup b h.backend_health)

-- A new manager knows the backends of the routes, all in the first state.
entries_of-value :
    {V : Type 0} (v w : V) (b : String) (l : List String) (m : List (String × V))
    → lookup b (entries_of v l m) ≡ some w
    → (w ≡ v) ⊎ (lookup b m ≡ some w)
entries_of-value v w b [] m h = inr h
entries_of-value v w b (k ∷ l) m h = elim (entries_of-value v w b l (or_insert k v m) h) [
  | inl e ↦ inl e
  | inr e ↦ ground (arith, e, lookup-or_insert k b v m)
]

pub entries_of_routes-value :
    {V : Type 0} (v w : V) (b : String) (routes : List RouteConfig) (m : List (String × V))
    → lookup b (entries_of_routes v routes m) ≡ some w
    → (w ≡ v) ⊎ (lookup b m ≡ some w)
entries_of_routes-value v w b [] m h = inr h
entries_of_routes-value v w b (r ∷ routes) m h =
    elim (entries_of_routes-value v w b routes (entries_of v r.backends m) h) [
      | inl e ↦ inl e
      | inr e ↦ entries_of-value v w b r.backends m e
    ]

-- The manager at the start, with the settings of a configuration.
abbrev pub IsFresh : List RouteConfig → HealthManager → Type 0
IsFresh routes m = m.backend_health ≡ entries_of_routes healthy_backend routes []

-- In every history of calls of a new manager whose failure threshold is positive and at most
-- 2^64, the state of a known backend follows the moves of a circuit breaker along the events of
-- that backend, from closed with no failures.
pub perform_all-Run :
    (routes : List RouteConfig) (cs : List Call) (h : Health) (b : String) (s : BackendHealth)
    → IsFresh routes h.manager
    → 0 < h.failure_threshold
    → h.failure_threshold ≤ u64_mod
    → lookup b (perform_all cs h).backend_health ≡ some s
    → Run h.failure_threshold h.ejection_duration (events_of b cs) (closed 0) (view s)
perform_all-Run routes cs h b s fresh p w e = go (lookup b h.backend_health) refl
  where
    go :
        (o : Option BackendHealth)
        → lookup b h.backend_health ≡ o
        → Run h.failure_threshold h.ejection_duration (events_of b cs) (closed 0) (view s)
    go none q =
        let told =
          sym e
          ∙ lookup-perform_all cs h b
          ∙ ap (on_value (react_all h.manager (events_of b cs))) q in
        cc
    go (some s₀) q =
        let told =
          sym e
          ∙ lookup-perform_all cs h b
          ∙ ap (on_value (react_all h.manager (events_of b cs))) q in
        let start : s₀ ≡ healthy_backend =
          elim (entries_of_routes-value healthy_backend s₀ b routes []
            (sym (ap (lookup b) fresh) ∙ q)) [ inl same ↦ same | inr none' ↦ cc ] in
        let now : after_all h.failure_threshold h.recovery_threshold h.ejection_duration
              (events_of b cs) healthy_backend
            ≡ s =
          unfold react_all in ground (arith, told, start) in
        subst
          (λ x. Run h.failure_threshold h.ejection_duration (events_of b cs) (closed 0) (view x))
          now
          (history-Run h.failure_threshold h.recovery_threshold h.ejection_duration (events_of b cs)
            p w)

pub perform-AllSound :
    (c : Call) (h : Health)
    → 0 < h.failure_threshold
    → AllSound h.manager
    → AllSound (perform c h).manager
perform-AllSound c h p all = elim (Option-cases (lookup (target c) h.backend_health)) [
  | inl e ↦ rw (perform_unknown c h e) all
  | inr (s, e) ↦ rw (perform-manager c h s e) (
      store-AllSound (target c) (react h.manager (event c) s) h.manager all
        (after-IsSound h.recovery_threshold h.ejection_duration p (event c) s (all (target c) s e)))
]

-- With a positive failure threshold, no history of calls breaks the invariant of the backends: a
-- probing backend has no window, a backend out of use that is not probing has one, and a backend
-- in use has failed less often in a row than the threshold.
pub perform_all-AllSound :
    (cs : List Call) (h : Health)
    → 0 < h.failure_threshold
    → AllSound h.manager
    → AllSound (perform_all cs h).manager
unfolding perform_all
perform_all-AllSound [] h p all = all
perform_all-AllSound (c ∷ cs) h p all =
    perform_all-AllSound cs (perform c h) (rw ((perform-SameSettings c h).failure) p)
      (perform-AllSound c h p all)

-- A new manager meets it.
pub fresh-AllSound :
    (routes : List RouteConfig) (m : HealthManager)
    → IsFresh routes m
    → 0 < m.failure_threshold
    → AllSound m
fresh-AllSound routes m fresh p b s e =
    elim (entries_of_routes-value healthy_backend s b routes [] (sym (ap (lookup b) fresh) ∙ e)) [
      | inl same ↦ rw same (healthy_backend-IsSound m.failure_threshold p)
      | inr none' ↦ absurd (cc none')
    ]
