-- ===== src/Server/Run.antt =====
-- `run_with_shutdown_kind` of src/server/mod.rs: the start, and the loop that accepts connections
-- until a signal comes. What the listener, the tasks of the connections and the drain do arrives as
-- a list of events, in the order in which they happen.
use ferrum_proxy.Common.{
  ℕ, String, Bool, Option, none, some, List, [], ◌∷◌, length, Result, ok, err, Instant, nat_eq,
}
use ferrum_proxy.Config.{Config, socket_addr, display_error}
use ferrum_proxy.Telemetry.Lines.{
  log_server_start, log_connection_error, log_control_signal, log_shutdown_started,
  log_shutdown_complete,
}
use ferrum_proxy.Health.Manager.{Health}
use ferrum_proxy.Http.State.{AppState, new_state, shutdown_timeout}
use ferrum_proxy.Http.Respond.{told}
use ferrum_proxy.Http.Startup.{StartupTasks, run_startup_health_check}
use ferrum_proxy.Server.{
  ConnectionTracker, open_connection, close_connection, ShutdownReason, terminate, reload,
  signal_name, action_name,
}

-- The end of a connection: the address of the peer, and the error, if there is one.
abbrev pub Ended : Type 0
Ended = String × Option String

-- What the tasks of open connections and the timer task do during the drain: a request goes on or
-- arrives on an open connection, a check is recorded, or a connection ends.
pub data DrainEvent : Type 0 where
  goes_on : (AppState → AppState) → DrainEvent
  closes : Ended → DrainEvent

pub data ServerEvent : Type 0 where
  accepted : ServerEvent
  accept_failed : String → ServerEvent
  -- a request of a connection, a check of the timer task, or the end of such a task
  handled : (AppState → AppState) → ServerEvent
  ended : Ended → ServerEvent
  -- the reason, what the tasks do during the drain, and the result of `wait_for_zero`
  signalled : ShutdownReason → List DrainEvent → Bool → ServerEvent

pub record Serving : Type 0 where
  pub state : AppState
  pub tracker : ConnectionTracker

abbrev pub log_if_failed : Ended → AppState → AppState
log_if_failed (remote_addr, none) state = state
log_if_failed (remote_addr, some e) state = told (log_connection_error remote_addr e) state

-- The arm of a finished connection in the loop of its task.
unfoldable pub end_connection : Ended → Serving → Serving
end_connection end s = record {
  state = log_if_failed end s.state;
  tracker = (close_connection s.tracker).0;
}

unfoldable pub drain_all : List DrainEvent → Serving → Serving
unfolding end_connection
drain_all [] s = s
drain_all (goes_on f ∷ rest) s = drain_all rest (record s { state = f s.state })
drain_all (closes end ∷ rest) s = drain_all rest (end_connection end s)

-- The arm of the signal.
unfoldable pub shut_down : ShutdownReason → List DrainEvent → Bool → Serving → Serving
unfolding drain_all
shut_down reason events drained s =
    let announced =
      told
        (λ t.
          log_shutdown_started (shutdown_timeout s.state)
            (log_control_signal (signal_name reason) (action_name reason) t))
        s.state in
    let rest = drain_all events (record s { state = announced }) in
    record rest { state = told (log_shutdown_complete drained rest.tracker.active) rest.state }

-- The loop. `none` is the result of a loop that still runs.
unfoldable pub serve : List ServerEvent → Serving → Serving × Option (Result String (Unit {0}))
unfolding end_connection shut_down
serve [] s = (s, none)
serve (accepted ∷ rest) s = serve rest (record s { tracker = open_connection s.tracker })
serve (accept_failed e ∷ rest) s = (s, some (err e))
serve (handled f ∷ rest) s = serve rest (record s { state = f s.state })
serve (ended end ∷ rest) s = serve rest (end_connection end s)
serve (signalled reason events drained ∷ rest) s = (shut_down reason events drained s, some (ok tt))

module _ {Addr Uri : Type 0} (parse_addr : String → Result String Addr) (show_addr : Addr → String)
    (bind : Addr → Result String (Unit {0})) (probe_uri : String → String → Result String Uri)
    (answer : Uri → Option ℕ) (check_clock : ℕ → Instant) (pool_clocks : ℕ → ℕ → Instant) where
  abbrev loop_after :
      Addr
      → ℕ
      → List ServerEvent
      → AppState × Result String (Unit {0})
      → Serving × Option (Result String (Unit {0}))
  loop_after addr route_count events (state, err e) =
      (record { state = state; tracker = record { active = 0 } }, some (err e))
  loop_after addr route_count events (state, ok _) = serve events (record {
    state = told (log_server_start (show_addr addr) route_count) state;
    tracker = record { active = 0 };
  })

  -- The function, with the errors of its start. The background checks are spawned before the
  -- listener is bound: `binding` is what they do until it is, `tasks` what they do during the check
  -- at the start; later they are among the events.
  unfoldable pub run_with_shutdown_kind :
      (binding : Health → Health)
      → StartupTasks
      → Config
      → List ServerEvent
      → Serving × Option (Result String (Unit {0}))
  unfolding run_startup_health_check serve
  run_with_shutdown_kind binding tasks config events =
      let state = new_state config in
      let begun = record state { health = binding state.health } in
      let stopped : AppState → String → Serving × Option (Result String (Unit {0})) =
        λ s e. (record { state = s; tracker = record { active = 0 } }, some (err e)) in
      elim (socket_addr parse_addr config.server) [
        | err e ↦ stopped state (display_error e)
        | ok addr ↦ elim (bind addr) [
          | err e ↦ stopped begun e
          | ok _ ↦
              loop_after addr (length config.routes) events
                (run_startup_health_check probe_uri answer tasks check_clock pool_clocks begun)
        ]
      ]

-- `wait_for_shutdown_signal` on Unix: the interrupt of the terminal, or SIGHUP.
pub data OsSignal : Type 0 where
  interrupt hangup : OsSignal

unfoldable pub wait_for_shutdown_signal : OsSignal → ShutdownReason
wait_for_shutdown_signal interrupt = terminate "ctrl_c"
wait_for_shutdown_signal hangup = reload "sighup"
