-- ===== src/Telemetry/Counts.antt =====
-- What the records of src/telemetry/mod.rs add up to.
use mathlib.Core.List.{append-nil, append_assoc}
use native.Mathlib.Decide.{dec_lt}
use ferrum_proxy.Common.{
  ℕ, suc, zero, ◌+◌, ◌-◌, ◌%◌, ◌≤◌, ◌<◌, ◌≡◌, refl, sym, ◌∙◌, ap, inl, inr, true, false, List, [],
  ◌∷◌, ◌++◌, length, length-append, drop, drop-append, length-drop, Bool-cases, if◌then◌else◌,
  arith, u64_mod, count, count-bump, ◌==◌, nat_eq, nat_beq_iff, Bool,
}
use ferrum_proxy.Telemetry.{
  max_transitions, HealthTransition, Telemetry, pop_front, push_transition,
  record_health_transition, record_response_status,
}

-- The last `max_transitions` of a history.
abbrev pub newest : List HealthTransition → List HealthTransition
newest l = drop (length l - max_transitions) l

pop_front-drop :
    (n : ℕ) (l : List HealthTransition) → n < length l → pop_front (drop n l) ≡ drop (suc n) l
unfolding pop_front
pop_front-drop n [] h = absurd (omega arith)
pop_front-drop zero (x ∷ l) h = refl
pop_front-drop (suc n) (x ∷ l) h = pop_front-drop n l (omega arith)

push_transition-room :
    (x : HealthTransition) (q : List HealthTransition)
    → length q < max_transitions
    → push_transition x q ≡ q ++ x ∷ []
unfolding push_transition
push_transition-room x q h = ground arith

push_transition-full :
    (x : HealthTransition) (q : List HealthTransition)
    → max_transitions ≤ length q
    → push_transition x q ≡ pop_front q ++ x ∷ []
unfolding push_transition
push_transition-full x q h = ground arith

push-newest :
    (x : HealthTransition) (past : List HealthTransition)
    → push_transition x (newest past) ≡ newest (past ++ x ∷ [])
push-newest x past = elim (dec_lt (length past) max_transitions) [
  | yes room ↦
      let none' : length past - max_transitions ≡ 0 = omega arith in
      let still : length (past ++ x ∷ []) - max_transitions ≡ 0 =
        omega (arith, length-append past (x ∷ [])) in
      rw (none', still) (push_transition-room x past room)
  | no full ↦
      let n : ℕ = length past - max_transitions in
      let on : length (past ++ x ∷ []) - max_transitions ≡ suc n =
        omega (arith, length-append past (x ∷ [])) in
      push_transition-full x (newest past) (omega (arith, length-drop n past))
      ∙ ap (λ l. l ++ x ∷ []) (pop_front-drop n past (omega arith))
      ∙ sym (drop-append (suc n) past (x ∷ []) (omega arith))
      ∙ ap (λ k. drop k (past ++ x ∷ [])) (sym on)
]

-- The calls of `record_health_transition` for a list of transitions.
pub record_all : List HealthTransition → Telemetry → Telemetry
record_all [] t = t
record_all (x ∷ xs) t = record_all xs (record_health_transition x.backend x.from x.to x.reason t)

record_all-newest :
    (xs past : List HealthTransition) (t : Telemetry)
    → t.health_transitions ≡ newest past
    → (record_all xs t).health_transitions ≡ newest (past ++ xs)
unfolding record_all record_health_transition
record_all-newest [] past t h = h ∙ ap newest (sym (append-nil past))
record_all-newest (x ∷ xs) past t h =
    record_all-newest xs (past ++ x ∷ [])
      (record_health_transition x.backend x.from x.to x.reason t)
      (ap (push_transition x) h ∙ push-newest x past)
    ∙ ap newest (append_assoc past (x ∷ []) xs)

-- From an empty record on, the kept health transitions are the last 32 of those recorded, in
-- order.
pub record_all_lem :
    (xs : List HealthTransition) (t : Telemetry)
    → t.health_transitions ≡ []
    → (record_all xs t).health_transitions ≡ newest xs
record_all_lem xs t h = record_all-newest xs [] t h

pub length-newest : (xs : List HealthTransition) → length (newest xs) ≤ max_transitions
length-newest xs = omega (arith, length-drop (length xs - max_transitions) xs)

-- The total counts every transition, modulo 2 ^ 64.
record_all-total :
    (xs : List HealthTransition) (t : Telemetry)
    → t.health_transitions_total < u64_mod
    → (record_all xs t).health_transitions_total
      ≡ (t.health_transitions_total + length xs) % u64_mod
unfolding record_all record_health_transition
record_all-total [] t h = omega arith
record_all-total (x ∷ xs) t h =
    record_all-total xs (record_health_transition x.backend x.from x.to x.reason t) (omega arith)
    ∙ omega arith

-- The calls of `record_response_status` for a list of statuses.
pub record_statuses : List ℕ → Telemetry → Telemetry
record_statuses [] t = t
record_statuses (s ∷ ss) t = record_statuses ss (record_response_status s t)

abbrev pub occurrences : ℕ → List ℕ → ℕ
occurrences s [] = 0
occurrences s (x ∷ xs) = let rest = occurrences s xs in if x == s then suc rest else rest

one_if : Bool → ℕ
one_if true = 1
one_if false = 0

count-record_response_status :
    (x s : ℕ) (t : Telemetry)
    → count s t.response_statuses + 1 < u64_mod
    → count s (record_response_status x t).response_statuses
      ≡ count s t.response_statuses + one_if (x == s)
unfolding record_response_status one_if
count-record_response_status x s t h = elim (Bool-cases (x == s)) [
  | inl same ↦
      let e : x ≡ s = (nat_beq_iff x s).0 same in
      count-bump x s t.response_statuses ∙ rw (same, e) (omega arith)
  | inr other ↦ count-bump x s t.response_statuses ∙ rw other (omega arith)
]

occurrences-cons :
    (x s : ℕ) (ss : List ℕ) → occurrences s (x ∷ ss) ≡ occurrences s ss + one_if (x == s)
unfolding one_if
occurrences-cons x s ss = ground arith

one_if-le : (b : Bool) → one_if b ≤ 1
unfolding one_if
one_if-le b = ground arith

-- While its sum with the number of responses stays below 2^64, the count of a status grows by
-- the number of responses with that status.
pub record_statuses-count :
    (ss : List ℕ) (s : ℕ) (t : Telemetry)
    → count s t.response_statuses + length ss < u64_mod
    → count s (record_statuses ss t).response_statuses
      ≡ count s t.response_statuses + occurrences s ss
unfolding record_statuses
record_statuses-count [] s t h = omega arith
record_statuses-count (x ∷ ss) s t h =
    let now = count-record_response_status x s t (omega arith) in
    record_statuses-count ss s (record_response_status x t) (omega (arith, now, one_if-le (x == s)))
    ∙ omega (arith, now, occurrences-cons x s ss)
