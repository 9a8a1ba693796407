-- ===== src/Health/Fit.antt =====
-- Histories of src/health/mod.rs with too few failures to take a backend out of service: what the
-- active checks and the other tasks may do before the manager ejects a backend.
use ferrum_proxy.Common.{
  ℕ, zero, suc, ◌+◌, ◌≤◌, ◌<◌, ◌≡◌, sym, subst, ◌∙◌, inl, inr, String, true, false, none, some,
  List, [], ◌∷◌, if◌then◌else◌, ◌==◌, string_eq, lookup, Option-cases, Bool-cases, some_inj, arith,
  Duration,
}
use ferrum_proxy.Health.State.{BackendHealth, on_success, on_failure, check_ejected}
use ferrum_proxy.Health.Breaker.{Event, success, failure, look, after}
use ferrum_proxy.Health.Manager.{HealthManager, Health}
use ferrum_proxy.Health.Calls.{
  Call, target, event, perform, react, lookup-perform, perform-SameSettings,
}
use ferrum_proxy.Health.Keeps.{perform_all}
use ferrum_proxy.Health.Up.{IsUp, IsKnown}

-- In use, and `n` more failures leave it so.
pub record Fits (threshold n : ℕ) (s : BackendHealth) : Type 0 where
  pub healthy : s.healthy ≡ true
  pub probing : s.probing ≡ false
  pub ejected : s.ejected_until ≡ none
  pub room : s.consecutive_failures + n < threshold

abbrev pub cost : Event → ℕ
cost success = 0
cost (failure now) = 1
cost (look now) = 0

module _ (threshold recovery : ℕ) (duration : Duration) where
  after-Fits :
      (e : Event) (n : ℕ) (s : BackendHealth)
      → Fits threshold (cost e + n) s
      → Fits threshold n (after threshold recovery duration e s)
  unfolding after on_success on_failure check_ejected
  after-Fits success n s v = ground arith
  after-Fits (failure now) n s v = ground arith
  after-Fits (look now) n s v = ground arith

-- The failures of a backend in a history, and in the histories of the first `k` steps.
abbrev pub failures_of : String → List Call → ℕ
failures_of b [] = 0
failures_of b (c ∷ cs) =
    let rest = failures_of b cs in if target c == b then cost (event c) + rest else rest

abbrev pub failures_during : String → ℕ → (ℕ → List Call) → ℕ
failures_during b zero others = 0
failures_during b (suc k) others =
    failures_of b (others 0) + failures_during b k (λ i. others (suc i))

-- Every known backend is in use, and `n` more failures of each leave it so; and the backends that
-- `first` knows are known.
pub record IsReady (first : HealthManager) (n : String → ℕ) (m : HealthManager) : Type 0 where
  pub fit :
      (b : String) (s : BackendHealth)
      → lookup b m.backend_health ≡ some s
      → Fits m.failure_threshold (n b) s
  pub known : (b : String) → IsKnown first b → IsKnown m b

pub IsReady-IsUp :
    (first : HealthManager) (n : String → ℕ) (m : HealthManager) → IsReady first n m → IsUp m
IsReady-IsUp first n m v b s e = ((v.fit b s e).healthy, (v.fit b s e).ejected)

Fits-le : (t n n' : ℕ) (s : BackendHealth) → n ≤ n' → Fits t n' s → Fits t n s
Fits-le t n n' s h v = ground arith

pub IsReady-le :
    (first : HealthManager) (n n' : String → ℕ) (m : HealthManager)
    → ((b : String) → n b ≤ n' b)
    → IsReady first n' m
    → IsReady first n m
IsReady-le first n n' m h v = record {
  fit = λ b s e. Fits-le m.failure_threshold (n b) (n' b) s (h b) (v.fit b s e);
  known = v.known;
}

perform-Fits :
    (c : Call) (h : Health) (n : ℕ) (b : String) (s s' : BackendHealth)
    → lookup b h.backend_health ≡ some s
    → lookup b (perform c h).backend_health ≡ some s'
    → Fits h.failure_threshold (failures_of b (c ∷ []) + n) s
    → Fits (perform c h).failure_threshold n s'
perform-Fits c h n b s s' e e' v =
    rw ((perform-SameSettings c h).failure) (elim (Bool-cases (target c == b)) [
      | inl own ↦
          let same : react h.manager (event c) s ≡ s' =
            some_inj (ground (arith, e, e', own, lookup-perform c h b)) in
          subst (Fits h.failure_threshold n) same (
            after-Fits h.failure_threshold h.recovery_threshold h.ejection_duration (event c) n s
              (ground (arith, own)))
      | inr other ↦
          let same : s ≡ s' = some_inj (ground (arith, e, e', other, lookup-perform c h b)) in
          subst (Fits h.failure_threshold n) same (ground (arith, other))
    ])

known_before :
    (c : Call) (h : Health) (b : String)
    → lookup b h.backend_health ≡ none
    → lookup b (perform c h).backend_health ≡ none
known_before c h b e = ground (arith, e, lookup-perform c h b)

known_after :
    (c : Call) (h : Health) (b : String) → IsKnown h.manager b → IsKnown (perform c h).manager b
known_after c h b (s, e) = elim (Bool-cases (target c == b)) [
  | inl own ↦ (react h.manager (event c) s, ground (arith, e, own, lookup-perform c h b))
  | inr other ↦ (s, ground (arith, e, other, lookup-perform c h b))
]

pub perform-IsReady :
    (first : HealthManager) (c : Call) (h : Health) (n : String → ℕ)
    → IsReady first (λ b. failures_of b (c ∷ []) + n b) h.manager
    → IsReady first n (perform c h).manager
perform-IsReady first c h n v = record {
  fit = λ b s' e'. elim (Option-cases (lookup b h.backend_health)) [
    | inl e ↦ absurd (cc (sym (known_before c h b e) ∙ e'))
    | inr (s, e) ↦ perform-Fits c h (n b) b s s' e e' (v.fit b s e)
  ];
  known = λ b k. known_after c h b (v.known b k);
}

failures_of-cons :
    (b : String) (c : Call) (cs : List Call)
    → failures_of b (c ∷ []) + failures_of b cs ≡ failures_of b (c ∷ cs)
failures_of-cons b c cs = ground arith

pub perform_all-IsReady :
    (first : HealthManager) (cs : List Call) (h : Health) (n : String → ℕ)
    → IsReady first (λ b. failures_of b cs + n b) h.manager
    → IsReady first n (perform_all cs h).manager
unfolding perform_all
perform_all-IsReady first [] h n v =
    IsReady-le first n (λ b. 0 + n b) h.manager (λ b. omega arith) v
perform_all-IsReady first (c ∷ cs) h n v = perform_all-IsReady first cs (perform c h) n (
    perform-IsReady first c h (λ b. failures_of b cs + n b)
      (IsReady-le first (λ b. failures_of b (c ∷ []) + (failures_of b cs + n b))
        (λ b. failures_of b (c ∷ cs) + n b) h.manager
        (λ b. let e = failures_of-cons b c cs in omega (arith, e)) v))
