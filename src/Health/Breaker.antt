-- ===== src/Health/Breaker.antt =====
-- A backend of src/health/mod.rs as a circuit breaker.
use ferrum_proxy.Common.{
  ℕ, ◌+◌, ◌%◌, ◌≤◌, ◌<◌, ◌≡◌, refl, subst, ◌≢◌, inl, inr, Bool, true, false, Option, none, some,
  List, [], ◌∷◌, leb, ltb, u64_mod, Duration, Instant, arith, Bool-cases,
}
use ferrum_proxy.Health.State.{
  BackendHealth, healthy_backend, on_success, on_failure, check_ejected,
}

-- What is asked of a backend: the result of a request or of a check, or whether it may be used.
pub data Event : Type 0 where
  success : Event
  failure : Instant → Event
  look : Instant → Event

module _ (failure_threshold recovery_threshold : ℕ) (ejection_duration : Duration) where
  unfoldable pub after : Event → BackendHealth → BackendHealth
  after success state = (on_success recovery_threshold state).0
  after (failure now) state = (on_failure failure_threshold ejection_duration now state).0
  after (look now) state = (check_ejected now state).0

  unfoldable pub after_all : List Event → BackendHealth → BackendHealth
  after_all [] state = state
  after_all (e ∷ es) state = after_all es (after e state)

-- The invariant of a backend. No backend out of use lacks the window whose end brings it back.
pub record IsSound (failure_threshold : ℕ) (s : BackendHealth) : Type 0 where
  pub window : s.probing ≡ true → s.ejected_until ≡ none
  pub returns : s.healthy ≡ false → s.probing ≡ false → s.ejected_until ≢ none
  pub below : s.healthy ≡ true → s.consecutive_failures < failure_threshold

module _ {failure_threshold : ℕ} (recovery_threshold : ℕ) (ejection_duration : Duration)
    (positive : 0 < failure_threshold) where
  pub after-IsSound :
      (e : Event) (s : BackendHealth)
      → IsSound failure_threshold s
      → IsSound failure_threshold (after failure_threshold recovery_threshold ejection_duration e s)
  unfolding after on_success on_failure check_ejected
  after-IsSound success s v = ground arith
  after-IsSound (failure now) s v = ground arith
  after-IsSound (look now) s v = ground arith

  -- From a new backend on, no sequence of events breaks the invariant.
  pub after_all-IsSound :
      (es : List Event) (s : BackendHealth)
      → IsSound failure_threshold s
      → IsSound failure_threshold
          (after_all failure_threshold recovery_threshold ejection_duration es s)
  unfolding after_all
  after_all-IsSound [] s v = v
  after_all-IsSound (e ∷ es) s v = after_all-IsSound es _ (after-IsSound e s v)

pub data Breaker : Type 0 where
  closed : ℕ → Breaker
  open_until : Instant → Breaker
  half_open : Breaker

abbrev pub view_of : Option Instant → Bool → ℕ → Breaker
view_of (some until) probing failures = open_until until
view_of none true failures = half_open
view_of none false failures = closed failures

abbrev pub view : BackendHealth → Breaker
view s = view_of s.ejected_until s.probing s.consecutive_failures

-- The moves of the breaker. Failures in a row open it; while it is open they may open it anew.
pub data Move (threshold : ℕ) (duration : Duration) : Event → Breaker → Breaker → Type 0 where
  reset : (n : ℕ) → Move threshold duration success (closed n) (closed 0)
  restore : Move threshold duration success half_open (closed 0)
  wait : (until : Instant) → Move threshold duration success (open_until until) (open_until until)
  count :
      (now : Instant) (n : ℕ)
      → n + 1 < threshold
      → Move threshold duration (failure now) (closed n) (closed (n + 1))
  trip :
      (now : Instant) (n : ℕ)
      → n + 1 ≡ threshold
      → Move threshold duration (failure now) (closed n) (open_until (now + duration))
  retrip :
      (now : Instant)
      → Move threshold duration (failure now) half_open (open_until (now + duration))
  ignore :
      (now until : Instant)
      → Move threshold duration (failure now) (open_until until) (open_until until)
  renew :
      (now until : Instant)
      → Move threshold duration (failure now) (open_until until) (open_until (now + duration))
  pass : (now : Instant) (n : ℕ) → Move threshold duration (look now) (closed n) (closed n)
  probe : (now : Instant) → Move threshold duration (look now) half_open half_open
  hold :
      (now until : Instant)
      → now < until
      → Move threshold duration (look now) (open_until until) (open_until until)
  expire :
      (now until : Instant)
      → until ≤ now
      → Move threshold duration (look now) (open_until until) half_open

abbrev state_of : Bool → ℕ → ℕ → Option Instant → Bool → BackendHealth
state_of h f s e p = record {
  healthy = h;
  consecutive_failures = f;
  consecutive_successes = s;
  ejected_until = e;
  probing = p;
}

module _ (threshold recovery : ℕ) (duration : Duration) where
  abbrev Moves : Event → BackendHealth → Type 0
  Moves e s = Move threshold duration e (view s) (view (after threshold recovery duration e s))

  arrive :
      {e : Event} {b c c' : Breaker}
      → Move threshold duration e b c
      → c ≡ c'
      → Move threshold duration e b c'
  arrive {e} {b} m same = subst (Move threshold duration e b) same m

  success-Move :
      (h : Bool) (f s : ℕ) (e : Option Instant) (p : Bool)
      → IsSound threshold (state_of h f s e p)
      → Moves success (state_of h f s e p)
  unfolding after on_success
  success-Move h f s none true v = restore
  success-Move h f s (some u) true v = absurd (ground (arith, v.window))
  success-Move true f s none false v = reset f
  success-Move false f s none false v = absurd (v.returns refl refl refl)
  success-Move true f s (some u) false v = wait u
  success-Move false f s (some u) false v = arrive (wait u) (ground arith)

  failure-Move :
      (now : Instant) (h : Bool) (f s : ℕ) (e : Option Instant) (p : Bool)
      → threshold ≤ u64_mod
      → IsSound threshold (state_of h f s e p)
      → Moves (failure now) (state_of h f s e p)
  unfolding after on_failure
  failure-Move now h f s none true w v = retrip now
  failure-Move now h f s (some u) true w v = absurd (ground (arith, v.window))
  failure-Move now false f s none false w v = absurd (v.returns refl refl refl)
  failure-Move now false f s (some u) false w v = ignore now u
  failure-Move now true f s none false w v = elim (Bool-cases (leb threshold (f + 1))) [
    | inl full ↦ arrive (trip now f (ground (arith, v.below))) (ground arith)
    | inr room ↦
        let small : (f + 1) % u64_mod ≡ f + 1 = ground arith in
        arrive (count now f (ground arith)) (ground arith)
  ]
  failure-Move now true f s (some u) false w v = elim (Bool-cases (leb threshold (f + 1))) [
    | inl full ↦ arrive (renew now u) (ground arith)
    | inr room ↦ arrive (ignore now u) (ground arith)
  ]

  look-Move :
      (now : Instant) (h : Bool) (f s : ℕ) (e : Option Instant) (p : Bool)
      → Moves (look now) (state_of h f s e p)
  unfolding after check_ejected
  look-Move now h f s none true = probe now
  look-Move now h f s none false = pass now f
  look-Move now h f s (some u) p = elim (Bool-cases (ltb now u)) [
    | inl early ↦ arrive (hold now u (ground arith)) (ground arith)
    | inr late ↦ arrive (expire now u (ground arith)) (ground arith)
  ]

  -- Each event moves the state of a backend as the breaker moves.
  pub after-Move :
      (e : Event) (s : BackendHealth) → threshold ≤ u64_mod → IsSound threshold s → Moves e s
  after-Move success s w v =
      success-Move s.healthy s.consecutive_failures s.consecutive_successes s.ejected_until
        s.probing v
  after-Move (failure now) s w v =
      failure-Move now s.healthy s.consecutive_failures s.consecutive_successes s.ejected_until
        s.probing w v
  after-Move (look now) s w v =
      look-Move now s.healthy s.consecutive_failures s.consecutive_successes s.ejected_until
        s.probing

-- A run of the breaker along a list of events.
pub data Run (threshold : ℕ) (duration : Duration) : List Event → Breaker → Breaker → Type 0 where
  done : (b : Breaker) → Run threshold duration [] b b
  step :
      {e : Event} {es : List Event} {b c d : Breaker}
      → Move threshold duration e b c
      → Run threshold duration es c d
      → Run threshold duration (e ∷ es) b d

module _ (threshold recovery : ℕ) (duration : Duration) where
  runs_from :
      (es : List Event) (s : BackendHealth)
      → 0 < threshold
      → threshold ≤ u64_mod
      → IsSound threshold s
      → Run threshold duration es (view s) (view (after_all threshold recovery duration es s))
  unfolding after_all
  runs_from [] s p w v = done (view s)
  runs_from (e ∷ es) s p w v = step (after-Move threshold recovery duration e s w v) (
      runs_from es (after threshold recovery duration e s) p w
        (after-IsSound recovery duration p e s v))

pub healthy_backend-IsSound : (threshold : ℕ) → 0 < threshold → IsSound threshold healthy_backend
healthy_backend-IsSound threshold h = record { window = λ e. cc; returns = λ e. cc; below = λ _. h }

-- Every history of a backend, from its start, is a run of the breaker from `closed 0`.
pub history-Run :
    (threshold recovery : ℕ) (duration : Duration) (es : List Event)
    → 0 < threshold
    → threshold ≤ u64_mod
    → Run threshold duration es
        (closed 0)
        (view (after_all threshold recovery duration es healthy_backend))
history-Run threshold recovery duration es p w =
    runs_from threshold recovery duration es healthy_backend p w
      (healthy_backend-IsSound threshold p)
