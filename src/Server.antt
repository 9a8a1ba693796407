-- ===== src/Server.antt =====
-- src/server/mod.rs: the tracker of connections and the reasons of a shutdown.
pub mod Drain
pub mod Run
pub mod Traffic
pub mod Examples
use ferrum_proxy.Common.{ℕ, ◌+◌, ◌-◌, ◌%◌, String, Bool, nat_eq, ◌==◌, u64_mod}

-- The atomic counter `active`. `usize` has 64 bits.
pub record ConnectionTracker : Type 0 where
  pub active : ℕ

unfoldable pub open_connection : ConnectionTracker → ConnectionTracker
open_connection t = record t { active = (t.active + 1) % u64_mod }

-- `close`, and whether it calls `notify_waiters`
unfoldable pub close_connection : ConnectionTracker → ConnectionTracker × Bool
close_connection t = (record t { active = (t.active + (u64_mod - 1)) % u64_mod }, t.active == 1)

pub data ShutdownReason : Type 0 where
  terminate reload : String → ShutdownReason

unfoldable pub signal_name : ShutdownReason → String
signal_name (terminate signal) = signal
signal_name (reload signal) = signal

unfoldable pub action_name : ShutdownReason → String
action_name (terminate _) = "shutdown"
action_name (reload _) = "graceful_shutdown"
