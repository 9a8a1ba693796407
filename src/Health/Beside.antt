-- ===== src/Health/Beside.antt =====
-- A pass of active checks and a look at the pools of src/health/mod.rs, while other tasks record
-- results and look at backends.
use ferrum_proxy.Common.{
  ℕ, suc, ◌+◌, ◌≤◌, ◌≡◌, ◌≢◌, refl, sym, ap, subst, ◌∙◌, inl, inr, Option, String, List, [], ◌∷◌,
  All, length, if◌then◌else◌, ◌==◌, string_eq, Instant, Result, ok, Bool-cases, arith,
}
use ferrum_proxy.Config.{Config, RouteConfig}
use ferrum_proxy.Config.Validate.{validate_route_health_endpoint_overrides}
use ferrum_proxy.Config.Validate.Endpoints.{validate_overrides_iff}
use ferrum_proxy.Health.Manager.{HealthManager, Health, healthy_backends, dead_pools_from}
use ferrum_proxy.Health.Checks.{check_one, check_pass_beside, unique_backend_checks}
use ferrum_proxy.Health.CheckSet.{
  OfRoutes-one, unique_backend_checks-Distinct, unique_backend_checks_iff,
}
use ferrum_proxy.Health.Calls.{Call}
use ferrum_proxy.Health.Keeps.{perform_all, events_of}
use ferrum_proxy.Health.Pass.{passes, call_of, calls_of, check_one-perform, target_of, events-few}
use ferrum_proxy.Health.Up.{
  IsKnown, offered_backends-SameStates, offered_backends-threshold, healthy_backends_some,
}
use ferrum_proxy.Health.Fit.{
  IsReady, IsReady-IsUp, IsReady-le, failures_of, failures_during, perform-IsReady,
  perform_all-IsReady,
}

-- How many checks name the backend.
abbrev pub checks_on : String → List (String × String) → ℕ
checks_on b [] = 0
checks_on b (check ∷ rest) = let n = checks_on b rest in if check.0 == b then suc n else n

module _ {Uri : Type 0} (probe_uri : String → String → Result String Uri)
    (answer : Uri → Option ℕ) where
  failures_of-call_of :
      (b : String) (m : HealthManager) (now : Instant) (check : String × String)
      (rest : List (String × String))
      → failures_of b (call_of probe_uri answer m now check ∷ []) + checks_on b rest
        ≤ checks_on b (check ∷ rest)
  failures_of-call_of b m now check rest = elim (Bool-cases (passes probe_uri answer m check)) [
    | inl t ↦ rw t (ground arith)
    | inr t ↦ rw t (ground arith)
  ]

  -- A pass uses up one failure for each check that names the backend, beside those of the others.
  pub check_pass_beside-IsReady :
      (first : HealthManager) (others : ℕ → List Call) (clock : ℕ → Instant)
      (checks : List (String × String)) (h : Health) (n : String → ℕ)
      → IsReady first
          (λ b. failures_during b (length checks) others + checks_on b checks + n b)
          h.manager
      → IsReady first n
          (check_pass_beside probe_uri answer (λ i. perform_all (others i)) clock checks h).manager
  unfolding check_pass_beside
  check_pass_beside-IsReady first others clock [] h n v =
      IsReady-le first n (λ b. 0 + 0 + n b) h.manager (λ b. omega arith) v
  check_pass_beside-IsReady first others clock (check ∷ rest) h n v =
      let later : ℕ → List Call = λ i. others (suc i) in
      let h' = perform_all (others 0) h in
      let call = call_of probe_uri answer h'.manager (clock 0) check in
      let left : String → ℕ = λ b. failures_during b (length rest) later + checks_on b rest + n b in
      let met =
        perform_all-IsReady first (others 0) h (λ b. failures_of b (call ∷ []) + left b)
          (IsReady-le first (λ b. failures_of b (others 0) + (failures_of b (call ∷ []) + left b))
            (λ b. failures_during b (suc (length rest)) others + checks_on b (check ∷ rest) + n b)
            h.manager
            (λ b.
              let own = failures_of-call_of b h'.manager (clock 0) check rest in omega (arith, own))
            v) in
      check_pass_beside-IsReady first later (λ i. clock (suc i)) rest
        (check_one probe_uri answer (clock 0) check h') n
        (subst (λ x. IsReady first left x.manager)
          (sym (check_one-perform probe_uri answer (clock 0) check h'))
          (perform-IsReady first call h' left met))

  length-events_of :
      (b : String) (m : HealthManager) (clock : ℕ → Instant) (checks : List (String × String))
      → length (events_of b (calls_of probe_uri answer m clock checks)) ≡ checks_on b checks
  length-events_of b m clock [] = refl
  length-events_of b m clock (check ∷ rest) =
      let ih = length-events_of b m (λ i. clock (suc i)) rest in
      rw (target_of probe_uri answer m (clock 0) check) (elim (Bool-cases (check.0 == b)) [
        | inl own ↦ rw own (ap suc ih)
        | inr other ↦ rw other ih
      ])

  -- When the endpoints agree, a pass checks each backend once at most.
  pub checks_on_few :
      (config : Config) (m : HealthManager) (clock : ℕ → Instant) (b : String)
      → validate_route_health_endpoint_overrides config ≡ ok tt
      → checks_on b (unique_backend_checks config) ≤ 1
  checks_on_few config m clock b valid =
      let checks = unique_backend_checks config in
      let global = config.health_check.endpoint in
      let agree = (validate_overrides_iff config).0 valid in
      let counted = length-events_of b m clock checks in
      elim (events-few probe_uri answer b m clock checks (unique_backend_checks-Distinct config)
        (λ e f i j.
          OfRoutes-one global b e f config.routes agree
            ((unique_backend_checks_iff config (b, e)).0 i)
            ((unique_backend_checks_iff config (b, f)).0 j))) [
              | inl none_found ↦ let e = ap length none_found in omega (arith, e, counted)
              | inr (i, c, found) ↦ let e = ap length found in omega (arith, e, counted)
            ]

healthy_backends-IsReady :
    (first : HealthManager) (clock : ℕ → Instant) (r : RouteConfig) (m : HealthManager)
    (n : String → ℕ)
    → IsReady first n m
    → IsReady first n (healthy_backends clock r m).0
unfolding healthy_backends
healthy_backends-IsReady first clock r m n v =
    let same = offered_backends-SameStates clock r.backends m (IsReady-IsUp first n m v) in
    record {
      fit = λ b s e.
          rw (offered_backends-threshold clock r.backends m) (v.fit b s (sym (same b) ∙ e));
      known = λ b k. let (s, e) = v.known b k in (s, same b ∙ e);
    }

known_on :
    (first m : HealthManager) (l : List String)
    → ((b : String) → IsKnown first b → IsKnown m b)
    → All (IsKnown first) l
    → All (IsKnown m) l
known_on first m [] known k = tt
known_on first m (b ∷ l) known (k, ks) = (known b k, known_on first m l known ks)

-- No pool is dead while the failures of the others leave the backends of its route in use.
pub dead_pools_from-nil :
    (first : HealthManager) (others : ℕ → List Call) (clocks : ℕ → ℕ → Instant)
    (routes : List RouteConfig) (h : Health)
    → IsReady first (λ b. failures_during b (length routes) others) h.manager
    → All (λ r. r.backends ≢ []) routes
    → All (λ r. All (IsKnown first) r.backends) routes
    → (dead_pools_from (λ i. perform_all (others i)) clocks routes h).1 ≡ []
unfolding dead_pools_from
dead_pools_from-nil first others clocks [] h v ne k = refl
dead_pools_from-nil first others clocks (r ∷ rest) h v (ne, nes) (k, ks) =
    let later : ℕ → List Call = λ i. others (suc i) in
    let left : String → ℕ = λ b. failures_during b (length rest) later in
    let met = perform_all-IsReady first (others 0) h left v in
    let m = (perform_all (others 0) h).manager in
    let m' = (healthy_backends (clocks 0) r m).0 in
    let some_left =
      healthy_backends_some (clocks 0) r m (IsReady-IsUp first left m met) ne
        (known_on first m r.backends met.known k) in
    rw some_left (
      dead_pools_from-nil first later (λ i. clocks (suc i)) rest
        (record (perform_all (others 0) h) { manager = m' })
        (healthy_backends-IsReady first (clocks 0) r m left met) nes ks)
