-- ===== src/Daemon/State.antt =====
-- include/DaemonState.h.
use Prim.Native.String.{String}
use edge_ipc_daemon.Prelude.{Bool, true, false, ◌≡◌, arith}

pub data DaemonState : Type 0 where
  idle running fault shutdown : DaemonState

unfoldable pub state_to_string : DaemonState → String
state_to_string idle = "IDLE"
state_to_string running = "RUNNING"
state_to_string fault = "FAULT"
state_to_string shutdown = "SHUTDOWN"

-- `==` of two states.
abbrev pub same : DaemonState → DaemonState → Bool
same idle idle = true
same running running = true
same fault fault = true
same shutdown shutdown = true
same _ _ = false

pub same_sound : (a b : DaemonState) → same a b ≡ true → a ≡ b
same_sound a b h = ground arith
