-- ===== src/Health/Checks.antt =====
-- The active health checks of src/health/mod.rs. The network is a parameter: `answer` is the status
-- that a backend's endpoint answers in time, if it does. `probe_uri` is `build_healthcheck_uri` where
-- that does not panic.
use ferrum_proxy.Common.{
  ℕ, suc, String, Bool, true, false, ◌||◌, Option, none, some, List, [], ◌∷◌, if◌then◌else◌, ◌&&◌,
  Eq, ◌==◌, string_eq, insert, Result, ok, err, Instant, ◌≡◌, ◌↔◌,
}
use mathlib.Core.Option
use ferrum_proxy.Config.{Config, RouteConfig}
use ferrum_proxy.Config.Validate.{route_endpoint}
use ferrum_proxy.Health.Manager.{Health, record_success, record_failure, is_active_success_status}
use ferrum_proxy.Common.{arith}
use text.Mathlib.TextEquality.{eq_iff}

abbrev pub pair_beq : String × String → String × String → Bool
pair_beq (a, b) (c, d) = a == c && b == d

pub pair_beq_iff : (x y : String × String) → (pair_beq x y ≡ true) ↔ (x ≡ y)
pair_beq_iff (a, b) (c, d) = ground (arith, eq_iff a c, eq_iff b d)

instance abbrev pub pair_eq : Eq (String × String)
pair_eq = record { beq = pair_beq; decides = pair_beq_iff }

abbrev pub bad_gateway : ℕ
bad_gateway = 502

module _ {Uri : Type 0} (probe_uri : String → String → Result String Uri)
    (answer : Uri → Option ℕ) where
  -- `check_backend`
  unfoldable pub check_backend : String → String → ℕ
  check_backend backend endpoint = elim (probe_uri backend endpoint) [
    | err _ ↦ bad_gateway
    | ok uri ↦ elim (answer uri) [ none ↦ bad_gateway | some status ↦ status ]
  ]

  -- One round of the loop of `run_active_check_pass_with_client`.
  unfoldable pub check_one : Instant → String × String → Health → Health
  unfolding check_backend
  check_one now (backend, endpoint) h =
      if is_active_success_status (check_backend backend endpoint) h.manager
      then record_success backend h
      else record_failure now backend h

  -- The pass over the checks, in the order in which the set yields them. What the other tasks do
  -- before the result of the `i`-th check is recorded is `meanwhile i`.
  unfoldable pub check_pass_beside :
      (meanwhile : ℕ → Health → Health) → (ℕ → Instant) → List (String × String) → Health → Health
  check_pass_beside meanwhile clock [] h = h
  check_pass_beside meanwhile clock (check ∷ rest) h =
      check_pass_beside (λ i. meanwhile (suc i)) (λ i. clock (suc i)) rest
        (check_one (clock 0) check (meanwhile 0 h))

  -- The pass while no other task acts.
  unfoldable pub check_pass : (ℕ → Instant) → List (String × String) → Health → Health
  unfolding check_pass_beside
  check_pass clock checks h = check_pass_beside (λ i h. h) clock checks h

-- The loops of `unique_backend_checks`; the set is the list of its members.
unfoldable pub checks_of : String → List String → List (String × String) → List (String × String)
checks_of endpoint [] checks = checks
checks_of endpoint (backend ∷ rest) checks =
    checks_of endpoint rest (insert (backend, endpoint) checks)

unfoldable pub checks_of_routes :
    String → List RouteConfig → List (String × String) → List (String × String)
unfolding checks_of
checks_of_routes global [] checks = checks
checks_of_routes global (route ∷ rest) checks =
    checks_of_routes global rest (checks_of (route_endpoint global route) route.backends checks)

unfoldable pub unique_backend_checks : Config → List (String × String)
unfolding checks_of_routes
unique_backend_checks config = checks_of_routes config.health_check.endpoint config.routes []

-- `build_healthcheck_uri`: the parsers of URLs and URIs and the setters of their parts are the `url`
-- and `http` crates'. `none` is the panic for a URL that is no URI.
unfoldable pub build_healthcheck_uri :
    {Url Uri : Type 0} (parse : String → Result String Url) (set_path : String → Url → Url)
    (clear_query : Url → Url) (to_uri : Url → Option Uri)
    → String
    → String
    → Option (Result String Uri)
build_healthcheck_uri parse set_path clear_query to_uri backend endpoint = elim (parse backend) [
  | err e ↦ some (err e)
  | ok url ↦ Option.map ok (to_uri (clear_query (set_path endpoint url)))
]

-- What wakes the task of `spawn_active_checks`: its interval, with what the clock reads, the
-- backends answer and the other tasks do in the pass; or the watch for the shutdown, which may be
-- closed, and its value.
pub data Wakeup (Uri : Type 0) : Type 0 where
  tick : (ℕ → Instant) → (Uri → Option ℕ) → (meanwhile : ℕ → Health → Health) → Wakeup Uri
  changed : (closed value : Bool) → Wakeup Uri

-- The loop of the task, and whether it has ended.
unfoldable pub active_checks :
    {Uri : Type 0}
    → (String → String → Result String Uri)
    → Config
    → List (Wakeup Uri)
    → Health
    → Health × Bool
unfolding check_pass_beside unique_backend_checks
active_checks probe_uri config [] h = (h, false)
active_checks probe_uri config (tick clock answer meanwhile ∷ rest) h =
    active_checks probe_uri config rest
      (check_pass_beside probe_uri answer meanwhile clock (unique_backend_checks config) h)
active_checks probe_uri config (changed closed value ∷ rest) h =
    let more = active_checks probe_uri config rest h in if closed || value then (h, true) else more
