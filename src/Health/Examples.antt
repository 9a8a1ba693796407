-- ===== src/Health/Examples.antt =====
-- Histories of the health of src/health/mod.rs, for a pool of two backends.
use ferrum_proxy.Common.{
  string_eq, ◌==◌, if◌then◌else◌, String, Option, Result, ok, ℕ, ◌+◌, ◌≡◌, refl, true, false, none,
  leb, some, [], ◌∷◌, ◌++◌, lookup, on_value, In, inl, inr, Instant, arith,
}
use ferrum_proxy.Config.{RouteConfig}
use ferrum_proxy.Config.Examples.{route_of, two_routes, two_pools}
use ferrum_proxy.Config.Validate.{validate_route_health_endpoint_overrides}
use ferrum_proxy.Config.Validate.Endpoints.{validate_overrides_iff}
use ferrum_proxy.Health.Checks.{check_pass, unique_backend_checks}
use ferrum_proxy.Health.Pass.{event_of, check_pass-once}
use ferrum_proxy.Telemetry
use ferrum_proxy.Health.State.{BackendHealth, healthy_backend, on_failure}
use ferrum_proxy.Health.Manager.{
  HealthManager, Health, store, with_telemetry, record_failure, record_transition, healthy_backends,
}
use ferrum_proxy.Health.Breaker.{Run, closed, view}
use ferrum_proxy.Health.Eligible.{
  AllSound, SameFrom, usable, store-AllSound, in_turn, IsClock, healthy_backends-in_turn,
  healthy_backends-SameFrom, healthy_backends-returns,
}
use ferrum_proxy.Health.Calls.{perform, fails, succeeds, react}
use ferrum_proxy.Health.Keeps.{
  perform_all, events_of, react_all, lookup-perform_all, perform_all-Run, perform_all-AllSound,
  fresh-AllSound,
}
use ferrum_proxy.Health.Threshold.{InUse, failures_of, few_failures, last_failure}

abbrev pool : RouteConfig
pool = route_of "/" ("a" ∷ "b" ∷ [])

abbrev manager : HealthManager
manager = with_telemetry (pool ∷ []) 3 2 30 200 399 500 599 false

abbrev start : Health
start = record { manager = manager; shared = Telemetry.new (pool ∷ []) }

manager-AllSound : AllSound manager
unfolding with_telemetry
manager-AllSound = fresh-AllSound (pool ∷ []) manager refl (omega arith)

abbrev clock : ℕ → Instant
clock i = i

clock-IsClock : IsClock clock
clock-IsClock i = omega arith

listed : In "b" pool.backends
listed = inr (inl refl)

known : lookup "b" start.backend_health ≡ some healthy_backend
unfolding with_telemetry
known = refl

fresh : InUse 0 healthy_backend
fresh = record { healthy = refl; probing = refl; ejected = refl; failures = refl }

abbrev after_one : BackendHealth
after_one = record {
  healthy = true;
  consecutive_failures = 1;
  consecutive_successes = 0;
  ejected_until = none;
  probing = false;
}

one_failure : lookup "b" (perform_all (fails 5 "b" ∷ []) start).backend_health ≡ some after_one
unfolding with_telemetry perform_all perform record_failure record_transition on_failure
one_failure = refl

perform_all-Run_example : Run 3 30 (events_of "b" (fails 5 "b" ∷ [])) (closed 0) (view after_one)
unfolding with_telemetry
perform_all-Run_example =
    perform_all-Run (pool ∷ []) (fails 5 "b" ∷ []) start "b" after_one refl (omega arith)
      (omega arith) one_failure

lookup-perform_all_example :
    lookup "b" (perform_all (fails 5 "a" ∷ succeeds "b" ∷ []) start).backend_health
    ≡ on_value
        (react_all manager (events_of "b" (fails 5 "a" ∷ succeeds "b" ∷ [])))
        (lookup "b" manager.backend_health)
lookup-perform_all_example = lookup-perform_all (fails 5 "a" ∷ succeeds "b" ∷ []) start "b"

perform_all-AllSound_example :
    AllSound (perform_all (fails 5 "a" ∷ succeeds "b" ∷ []) start).manager
unfolding with_telemetry
perform_all-AllSound_example =
    perform_all-AllSound (fails 5 "a" ∷ succeeds "b" ∷ []) start (omega arith) manager-AllSound

healthy_backends-in_turn_example :
    (healthy_backends clock pool manager).1 ≡ in_turn clock manager ("a" ∷ "b" ∷ [])
healthy_backends-in_turn_example =
    healthy_backends-in_turn clock pool manager clock-IsClock manager-AllSound

healthy_backends-SameFrom_example :
    AllSound (healthy_backends clock pool manager).0
    × SameFrom 2 manager (healthy_backends clock pool manager).0
healthy_backends-SameFrom_example =
    healthy_backends-SameFrom clock pool manager clock-IsClock manager-AllSound

abbrev out_until_five : BackendHealth
out_until_five = record healthy_backend { healthy = false; ejected_until = some 5 }

abbrev one_out : HealthManager
one_out = store "b" out_until_five manager

one_out-AllSound : AllSound one_out
one_out-AllSound =
    store-AllSound "b" out_until_five manager manager-AllSound
      (record { window = λ e. cc; returns = λ _ _ e. cc; below = λ e. cc })

abbrev later : ℕ → Instant
later i = i + 6

later-IsClock : IsClock later
later-IsClock i = omega arith

out : lookup "b" one_out.backend_health ≡ some out_until_five
unfolding with_telemetry
out = refl

healthy_backends-returns_example : In "b" (healthy_backends later pool one_out).1
healthy_backends-returns_example =
    healthy_backends-returns later pool "b" out_until_five one_out later-IsClock one_out-AllSound
      out listed (omega arith)

few_failures_example :
    usable 9 "b" (perform_all (failures_of "b" (4 ∷ 5 ∷ [])) start).manager ≡ true
unfolding with_telemetry
few_failures_example =
    few_failures "b" healthy_backend start known fresh (omega arith) (4 ∷ 5 ∷ []) 9 (omega arith)

last_failure_example :
    usable 9 "b" (perform_all (failures_of "b" ((4 ∷ 5 ∷ []) ++ 6 ∷ [])) start).manager
    ≡ leb (6 + 30) 9
unfolding with_telemetry
last_failure_example =
    last_failure "b" healthy_backend start known fresh (omega arith) (4 ∷ 5 ∷ []) 6 9 refl

abbrev probed : String → String → Result String String
probed backend endpoint = ok backend

abbrev answers : String → Option ℕ
answers uri = if uri == "http://a" then some 200 else none

abbrev known_pools : Health
known_pools = record {
  manager = with_telemetry two_routes 3 2 30 200 399 500 599 false;
  shared = Telemetry.new two_routes;
}

two_pools-IsOneEndpoint : validate_route_health_endpoint_overrides two_pools ≡ ok tt
two_pools-IsOneEndpoint = (validate_overrides_iff two_pools).1 ((λ b i j. refl, tt), (tt, tt))

check_pass-once_example :
    (i : ℕ) × (lookup "http://a"
        (check_pass probed answers clock
          (unique_backend_checks two_pools)
          known_pools).backend_health
      ≡ on_value
          (react known_pools.manager
            (event_of probed answers known_pools.manager (clock i) ("http://a", "/health")))
          (lookup "http://a" known_pools.backend_health))
check_pass-once_example =
    check_pass-once probed answers two_pools clock known_pools "http://a" "/health"
      two_pools-IsOneEndpoint (inl (inl refl, refl))
