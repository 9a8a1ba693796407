-- ===== src/Server/Drain.antt =====
-- `wait_for_zero` of src/server/mod.rs beside the tasks of the connections, step by step. Of tokio's
-- `Notify` it uses that `notify_waiters` wakes the waits that have begun, and keeps nothing for later.
use ferrum_proxy.Common.{
  ℕ, zero, suc, ◌+◌, ◌-◌, ◌%◌, ◌<◌, ◌≡◌, ◌≢◌, ◌⊎◌, inl, inr, refl, ap, subst, Bool, true, false,
  nat_eq, if◌then◌else◌, u64_mod, arith,
}
use ferrum_proxy.Server.{ConnectionTracker, open_connection, close_connection}

-- Where `wait_for_zero` stands: before its first reading of the counter, before a reading in the
-- loop under the timer, between that and the call of `notified`, in the wait, or at its end.
pub data Phase : Type 0 where
  starting : Phase
  checking : Phase
  about_to_wait : Phase
  waiting : Phase
  drained : Phase
  timed_out : Phase

-- `notify_waiters`
unfoldable pub woken : Phase → Phase
woken starting = starting
woken checking = checking
woken about_to_wait = about_to_wait
woken waiting = checking
woken drained = drained
woken timed_out = timed_out

unfoldable pub after_close : ConnectionTracker × Bool → Phase → ConnectionTracker × Phase
after_close (t, told) p = (t, if told then woken p else p)

-- One step: of a connection, of the waiting task, or of its timer.
pub data Step : ConnectionTracker × Phase → ConnectionTracker × Phase → Type 0 where
  opens : (t : ConnectionTracker) (p : Phase) → Step (t, p) (open_connection t, p)
  closes :
      (t : ConnectionTracker) (p : Phase)
      → 0 < t.active
      → Step (t, p) (after_close (close_connection t) p)
  returns_at_once : (t : ConnectionTracker) → t.active ≡ 0 → Step (t, starting) (t, drained)
  enters_loop : (t : ConnectionTracker) → t.active ≢ 0 → Step (t, starting) (t, checking)
  sees_zero : (t : ConnectionTracker) → t.active ≡ 0 → Step (t, checking) (t, drained)
  sees_more : (t : ConnectionTracker) → t.active ≢ 0 → Step (t, checking) (t, about_to_wait)
  waits : (t : ConnectionTracker) → Step (t, about_to_wait) (t, waiting)
  runs_out :
      (t : ConnectionTracker) (p : Phase) → p ≢ drained → p ≢ starting → Step (t, p) (t, timed_out)

pub data Steps : ConnectionTracker × Phase → ConnectionTracker × Phase → Type 0 where
  stay : (s : ConnectionTracker × Phase) → Steps s s
  then_on : {s t u : ConnectionTracker × Phase} → Step s t → Steps t u → Steps s u

abbrev pub tracking : ℕ → ConnectionTracker
tracking n = record { active = n }

close-about_to_wait :
    (n : ℕ)
    → suc n < u64_mod
    → after_close (close_connection (tracking (suc n))) about_to_wait ≡ (tracking n, about_to_wait)
unfolding close_connection after_close woken
close-about_to_wait n h =
    let e : (suc n + (u64_mod - 1)) % u64_mod ≡ n = omega arith in ground (arith, e)

all_close : (n : ℕ) → n < u64_mod → Steps (tracking n, about_to_wait) (tracking 0, waiting)
all_close zero h = then_on (waits (tracking 0)) (stay _)
all_close (suc n) h =
    then_on
      (subst (λ s. Step (tracking (suc n), about_to_wait) s) (close-about_to_wait n h)
        (closes (tracking (suc n)) about_to_wait (omega arith)))
      (all_close n (omega arith))

close-drained :
    (c : ConnectionTracker × Bool) (p : Phase) → (after_close c p).1 ≡ drained → p ≡ drained
unfolding after_close woken
close-drained (t, true) p e = ground (arith, e)
close-drained (t, false) p e = e

-- The steps of a task that waits while no connection is left.
from_waiting :
    {a s : ConnectionTracker × Phase}
    → Step a s
    → a ≡ (tracking 0, waiting)
    → (s ≡ (open_connection (tracking 0), waiting)) ⊎ (s ≡ (tracking 0, timed_out))
from_waiting (opens t p) e = inl (ap (λ x. (open_connection x.0, x.1)) e)
from_waiting (closes t p some_open) e =
    let none_open = ap (λ x. x.0.active) e in absurd (ground (arith, none_open, some_open))
from_waiting (returns_at_once t z) e = absurd (ground (arith, e))
from_waiting (enters_loop t z) e = absurd (ground (arith, e))
from_waiting (sees_zero t z) e = absurd (ground (arith, e))
from_waiting (sees_more t z) e = absurd (ground (arith, e))
from_waiting (waits t) e = absurd (ground (arith, e))
from_waiting (runs_out t p z y) e = inr (ap (λ x. (x.0, timed_out)) e)

-- From any positive number of active connections below 2^64 the drain can come to wait with none
-- left, when they all close between its reading of the counter and its wait; every next step
-- from there is the opening of a connection or the end of the time, so the wait does not end as
-- drained.
pub drain-misses_wakeup :
    (n : ℕ) (next : ConnectionTracker × Phase)
    → 0 < n
    → n < u64_mod
    → Step (tracking 0, waiting) next
    → Steps (tracking n, starting) (tracking 0, waiting)
      × ((next ≡ (open_connection (tracking 0), waiting)) ⊎ (next ≡ (tracking 0, timed_out)))
drain-misses_wakeup n next p h x = (
  then_on (enters_loop (tracking n) (λ e. omega arith))
      (then_on (sees_more (tracking n) (λ e. omega arith)) (all_close n h)),
  from_waiting x refl,
)

-- The drain at shutdown only ends as drained in the step in which it reads that no connection is
-- active.
pub drain-sees_zero :
    (a s : ConnectionTracker × Phase)
    → Step a s
    → a.1 ≢ drained
    → s.1 ≡ drained
    → (a.0.active ≡ 0) × (s.0 ≡ a.0)
drain-sees_zero a s x = go x
  where
    go :
        {b c : ConnectionTracker × Phase}
        → Step b c
        → b.1 ≢ drained
        → c.1 ≡ drained
        → (b.0.active ≡ 0) × (c.0 ≡ b.0)
    go (opens t p) n e = absurd (n e)
    go (closes t p some_open) n e = absurd (n (close-drained (close_connection t) p e))
    go (returns_at_once t z) n e = (z, refl)
    go (enters_loop t z) n e = absurd (ground (arith, e))
    go (sees_zero t z) n e = (z, refl)
    go (sees_more t z) n e = absurd (ground (arith, e))
    go (waits t) n e = absurd (ground (arith, e))
    go (runs_out t p z y) n e = absurd (ground (arith, e))
