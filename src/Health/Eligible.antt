-- ===== src/Health/Eligible.antt =====
-- Which backends `HealthManager` of src/health/mod.rs offers to a request.
use mathlib.Core.Path.{ap₂}
use native.Mathlib.Nat.{le_trans, le_refl}
use text.Mathlib.TextEquality.{eq_iff}
use ferrum_proxy.Common.{
  ℕ, suc, zero, String, ◌≤◌, ◌≡◌, refl, subst, length, ◌∙◌, inl, inr, Bool, true, false, Option,
  none, some, List, [], ◌∷◌, leb, string_eq, ◌==◌, ==_refl, lookup, lookup-put, Instant, arith,
  Bool-cases, Option-cases, In,
}
use ferrum_proxy.Config.{RouteConfig}
use ferrum_proxy.Health.State.{BackendHealth, check_ejected, offer}
use ferrum_proxy.Health.Breaker.{IsSound, Breaker, closed, open_until, half_open, view}
use ferrum_proxy.Health.Manager.{
  HealthManager, store, is_offered, keep_if, offered_backends, healthy_backends,
}

-- A backend is in service unless its window is still running.
abbrev pub in_service : Instant → Breaker → Bool
in_service now (closed n) = true
in_service now (open_until until) = leb until now
in_service now half_open = true

offer-in_service :
    {threshold : ℕ} (now : Instant) (s : BackendHealth)
    → IsSound threshold s
    → (offer now s).1 ≡ in_service now (view s)
unfolding offer
offer-in_service now s v = ground arith

-- To look at a window does not change who is in service from then on.
view-offer :
    (now later : Instant) (s : BackendHealth)
    → now ≤ later
    → in_service later (view (offer now s).0) ≡ in_service later (view s)
unfolding offer
view-offer now later s h = ground arith

abbrev pub AllSound : HealthManager → Type 0
AllSound m =
    (b : String) (s : BackendHealth)
    → lookup b m.backend_health ≡ some s
    → IsSound m.failure_threshold s

-- The specification: a known backend in service.
abbrev pub usable_state : Instant → Option BackendHealth → Bool
usable_state now none = false
usable_state now (some s) = in_service now (view s)

abbrev pub usable : Instant → String → HealthManager → Bool
usable now backend m = usable_state now (lookup backend m.backend_health)

is_offered-none :
    (now : Instant) (backend : String) (m : HealthManager)
    → lookup backend m.backend_health ≡ none
    → is_offered now backend m ≡ (m, false)
unfolding is_offered
is_offered-none now backend m e = ground arith

is_offered-some :
    (now : Instant) (backend : String) (m : HealthManager) (s : BackendHealth)
    → lookup backend m.backend_health ≡ some s
    → is_offered now backend m ≡ (store backend (offer now s).0 m, (offer now s).1)
unfolding is_offered offer
is_offered-some now backend m s e =
    ground
      (arith, lookup-put backend backend (check_ejected now s).0 m.backend_health, ==_refl backend)

offer-IsSound :
    {threshold : ℕ} (now : Instant) (s : BackendHealth)
    → IsSound threshold s
    → IsSound threshold (offer now s).0
unfolding offer
offer-IsSound now s v = ground arith

pub store-AllSound :
    (backend : String) (s : BackendHealth) (m : HealthManager)
    → AllSound m
    → IsSound m.failure_threshold s
    → AllSound (store backend s m)
store-AllSound backend s m all v b s' e = elim (Bool-cases (backend == b)) [
  | inl same ↦
      let own : s ≡ s' = ground (arith, e, lookup-put backend b s m.backend_health) in
      subst (IsSound m.failure_threshold) own v
  | inr other ↦ all b s' (ground (arith, e, lookup-put backend b s m.backend_health))
]

pub is_offered-AllSound :
    (now : Instant) (backend : String) (m : HealthManager)
    → AllSound m
    → AllSound (is_offered now backend m).0
is_offered-AllSound now backend m all = elim (Option-cases (lookup backend m.backend_health)) [
  | inl e ↦ rw (is_offered-none now backend m e) all
  | inr (s, e) ↦
      rw (is_offered-some now backend m s e)
        (store-AllSound backend (offer now s).0 m all (offer-IsSound now s (all backend s e)))
]

is_offered-usable :
    (now : Instant) (backend : String) (m : HealthManager)
    → AllSound m
    → (is_offered now backend m).1 ≡ usable now backend m
is_offered-usable now backend m all = elim (Option-cases (lookup backend m.backend_health)) [
  | inl e ↦ rw (is_offered-none now backend m e, e)
  | inr (s, e) ↦
      rw (is_offered-some now backend m s e, e) (offer-in_service now s (all backend s e))
]

-- From `t` on, the two managers have the same backends in service.
abbrev pub SameFrom : Instant → HealthManager → HealthManager → Type 0
SameFrom t m m' = (later : Instant) (b : String) → t ≤ later → usable later b m' ≡ usable later b m

pub is_offered-SameFrom :
    (now : Instant) (backend : String) (m : HealthManager)
    → SameFrom now m (is_offered now backend m).0
is_offered-SameFrom now backend m later b h =
    elim (Option-cases (lookup backend m.backend_health)) [
      | inl e ↦ rw (is_offered-none now backend m e)
      | inr (s, e) ↦
          rw
            (
              is_offered-some now backend m s e,
              lookup-put backend b (offer now s).0 m.backend_health,
            )
            (elim (Bool-cases (backend == b)) [
              | inl same ↦ rw (same, ← ((eq_iff backend b).0 same), e) (view-offer now later s h)
              | inr other ↦ rw other
            ])
    ]

-- The backends in service, each looked at when its turn comes.
abbrev pub in_turn : (ℕ → Instant) → HealthManager → List String → List String
in_turn clock m [] = []
in_turn clock m (b ∷ rest) = keep_if (usable (clock 0) b m) b (in_turn (λ i. clock (suc i)) m rest)

abbrev pub IsClock : (ℕ → Instant) → Type 0
IsClock clock = (i : ℕ) → clock i ≤ clock (suc i)

offered-in_turn :
    (clock : ℕ → Instant) (l : List String) (start m : HealthManager)
    → IsClock clock
    → AllSound m
    → SameFrom (clock 0) start m
    → (offered_backends clock l m).1 ≡ in_turn clock start l
unfolding offered_backends
offered-in_turn clock [] start m mono all same = refl
offered-in_turn clock (b ∷ rest) start m mono all same =
    let m' = (is_offered (clock 0) b m).0 in
    let next : SameFrom (clock 1) start m' = λ later c h.
      is_offered-SameFrom (clock 0) b m later c (le_trans (mono 0) h)
      ∙ same later c (le_trans (mono 0) h) in
    let ih =
      offered-in_turn (λ i. clock (suc i)) rest start m' (λ i. mono (suc i))
        (is_offered-AllSound (clock 0) b m all) next in
    let here = is_offered-usable (clock 0) b m all ∙ same (clock 0) b (le_refl _) in
    ap₂ (λ t r. keep_if t b r) here ih

-- While the clock does not go back and each state is sound, the healthy backends are those
-- backends of the route, in its order, that are known and have no ejection window running when
-- their turn comes.
pub healthy_backends-in_turn :
    (clock : ℕ → Instant) (route : RouteConfig) (m : HealthManager)
    → IsClock clock
    → AllSound m
    → (healthy_backends clock route m).1 ≡ in_turn clock m route.backends
unfolding healthy_backends
healthy_backends-in_turn clock route m mono all =
    offered-in_turn clock route.backends m m mono all (λ later b h. refl)

clock-le : (clock : ℕ → Instant) → IsClock clock → (n : ℕ) → clock 0 ≤ clock n
clock-le clock mono zero = le_refl _
clock-le clock mono (suc n) = le_trans (clock-le clock mono n) (mono n)

offered-keeps :
    (clock : ℕ → Instant) (l : List String) (m : HealthManager)
    → IsClock clock
    → AllSound m
    → AllSound (offered_backends clock l m).0
      × SameFrom (clock (length l)) m (offered_backends clock l m).0
unfolding offered_backends
offered-keeps clock [] m mono all = (all, λ later b h. refl)
offered-keeps clock (b ∷ rest) m mono all =
    let m' = (is_offered (clock 0) b m).0 in
    let (a, s) =
      offered-keeps (λ i. clock (suc i)) rest m' (λ i. mono (suc i))
        (is_offered-AllSound (clock 0) b m all) in
    (
      a,
      λ later c h.
          s later c h
          ∙ is_offered-SameFrom (clock 0) b m later c
              (le_trans (clock-le clock mono (suc (length rest))) h),
    )

-- While the clock does not go back, asking a sound manager for the healthy backends keeps it
-- sound and changes for no later instant which backends are in service.
pub healthy_backends-SameFrom :
    (clock : ℕ → Instant) (route : RouteConfig) (m : HealthManager)
    → IsClock clock
    → AllSound m
    → AllSound (healthy_backends clock route m).0
      × SameFrom (clock (length route.backends)) m (healthy_backends clock route m).0
unfolding healthy_backends
healthy_backends-SameFrom clock route m mono all = offered-keeps clock route.backends m mono all

-- The end of the window, if there is one.
abbrev pub window_end : Option Instant → Instant
window_end none = 0
window_end (some until) = until

in_service-window :
    (s : BackendHealth) (now : Instant)
    → window_end s.ejected_until ≤ now
    → in_service now (view s) ≡ true
in_service-window s now h = ground arith

In-in_turn :
    (clock : ℕ → Instant) (m : HealthManager) (backend : String) (l : List String)
    → ((i : ℕ) → usable (clock i) backend m ≡ true)
    → In backend l
    → In backend (in_turn clock m l)
In-in_turn clock m backend [] u i = elim i [ ]
In-in_turn clock m backend (b ∷ rest) u (inl here) = let now = u 0 in rw (← here, now) (inl refl)
In-in_turn clock m backend (b ∷ rest) u (inr there) =
    let ih = In-in_turn (λ i. clock (suc i)) m backend rest (λ i. u (suc i)) there in ground arith

-- While the clock does not go back, the healthy backends of a sound manager contain each known
-- backend of the route whose ejection window, if there is one, is over, with no success needed.
pub healthy_backends-returns :
    (clock : ℕ → Instant) (route : RouteConfig) (backend : String) (s : BackendHealth)
    (m : HealthManager)
    → IsClock clock
    → AllSound m
    → lookup backend m.backend_health ≡ some s
    → In backend route.backends
    → window_end s.ejected_until ≤ clock 0
    → In backend (healthy_backends clock route m).1
healthy_backends-returns clock route backend s m mono all e listed h =
    rw (healthy_backends-in_turn clock route m mono all) (
      In-in_turn clock m backend route.backends
        (λ i. rw e (in_service-window s (clock i) (le_trans h (clock-le clock mono i)))) listed)
