-- ===== src/Server/Traffic.antt =====
-- The loop of `run_with_shutdown_kind` of src/server/mod.rs while connections come and go.
use ferrum_proxy.Common.{
  ℕ, suc, ◌+◌, ◌-◌, ◌%◌, ◌<◌, ◌≡◌, refl, ap, sym, ◌∙◌, String, Bool, none, some, List, [], ◌∷◌,
  ◌++◌, ok, err, arith, u64_mod,
}
use mathlib.Core.List.{append-nil}
use ferrum_proxy.Server.{open_connection, close_connection, ShutdownReason}
use ferrum_proxy.Server.Run.{
  ServerEvent, accepted, accept_failed, handled, ended, signalled, Serving, DrainEvent,
  end_connection, shut_down, serve,
}

-- Events of connections, when `n` are open: no more than the counter holds, and none ends that is
-- not open.
abbrev pub IsTraffic : ℕ → List ServerEvent → Type 0
IsTraffic n [] = Unit
IsTraffic n (accepted ∷ rest) = (n + 1 < u64_mod) × IsTraffic (n + 1) rest
IsTraffic n (accept_failed e ∷ rest) = ⊥
IsTraffic n (handled f ∷ rest) = IsTraffic n rest
IsTraffic n (ended end ∷ rest) = (0 < n) × IsTraffic (n - 1) rest
IsTraffic n (signalled reason during drained ∷ rest) = ⊥

abbrev pub accepts : List ServerEvent → ℕ
accepts [] = 0
accepts (accepted ∷ rest) = suc (accepts rest)
accepts (_ ∷ rest) = accepts rest

abbrev pub endings : List ServerEvent → ℕ
endings [] = 0
endings (ended end ∷ rest) = suc (endings rest)
endings (_ ∷ rest) = endings rest

-- The loop comes through the traffic to a state that counts it.
serve-append :
    (events : List ServerEvent) (s : Serving)
    → IsTraffic s.tracker.active events
    → s.tracker.active < u64_mod
    → (s' : Serving) × (s'.tracker.active + endings events ≡ s.tracker.active + accepts events)
      × ((more : List ServerEvent) → serve (events ++ more) s ≡ serve more s')
unfolding serve end_connection open_connection close_connection
serve-append [] s t b = (s, refl, λ more. refl)
serve-append (accepted ∷ rest) s (room, t) b =
    let e : (s.tracker.active + 1) % u64_mod ≡ s.tracker.active + 1 = omega arith in
    let (s', count, run) =
      serve-append rest (record s { tracker = open_connection s.tracker }) (rw e t) (omega arith) in
    (s', omega (arith, count, e), run)
serve-append (accept_failed e ∷ rest) s t b = elim t [ ]
serve-append (handled f ∷ rest) s t b =
    let (s', count, run) = serve-append rest (record s { state = f s.state }) t b in
    (s', count, run)
serve-append (ended end ∷ rest) s (some_open, t) b =
    let e : (s.tracker.active + (u64_mod - 1)) % u64_mod ≡ s.tracker.active - 1 = omega arith in
    let (s', count, run) = serve-append rest (end_connection end s) (rw e t) (omega arith) in
    (s', omega (arith, count, e, some_open), run)
serve-append (signalled reason during drained ∷ rest) s t b = elim t [ ]

-- While connections come and end, none of them before it came and fewer than 2^64 of them at a
-- time, the loop of the server goes on and its tracker counts the open connections; a signal
-- then runs the shutdown and ends the loop with success, whereas a failure to accept ends it
-- with that error and the state as it is.
pub serve-traffic :
    (events : List ServerEvent) (s : Serving)
    → s.tracker.active < u64_mod
    → IsTraffic s.tracker.active events
    → (s' : Serving) × (s'.tracker.active + endings events ≡ s.tracker.active + accepts events)
      × (serve events s ≡ (s', none))
      × ((reason : ShutdownReason) (during : List DrainEvent) (drained : Bool)
            (later : List ServerEvent)
          → serve (events ++ signalled reason during drained ∷ later) s
            ≡ (shut_down reason during drained s', some (ok tt)))
      × ((e : String) (later : List ServerEvent)
          → serve (events ++ accept_failed e ∷ later) s ≡ (s', some (err e)))
unfolding serve
serve-traffic events s b t =
    let (s', count, run) = serve-append events s t b in
    (
      s',
      count,
      ap (λ l. serve l s) (sym (append-nil events)) ∙ run [],
      λ reason during drained later. run (signalled reason during drained ∷ later),
      λ e later. run (accept_failed e ∷ later),
    )
