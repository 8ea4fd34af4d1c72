-- ===== src/Node/Life.antt =====
-- secure_distributed_node/src/TelemetryNode.cpp: the constructor, `Start`, `Stop` and the destructor.
-- The calls come one after another, from threads of the caller; the producer may raise a fault
-- between two of them.
pub mod Phases
use edge_ipc_daemon.Prelude.{
  ℕ, zero, Bool, true, false, ◌&&◌, List, [], ◌∷◌, Option, none, some, if◌then◌else◌,
}
use edge_ipc_daemon.Daemon.State.{DaemonState, idle, same, running, fault}
use edge_ipc_daemon.Daemon.Manager.{Pc, threw}
use edge_ipc_daemon.Daemon.Manager.Alone.{Call, start, shuts_down, promised}

-- How a call ends: it returns, throws the `std::logic_error` of the state machine, or ends the program
-- because a joinable thread is assigned to or destroyed.
pub data Ending : Type 0 where
  returned threw_logic_error terminated : Ending

-- The members that the life of a node is about: `running_`, the state machine, whether
-- `producer_thread_` is joinable and `grpc_server_` set, and `actual_port_`.
pub record Life : Type 0 where
  pub is_running : Bool
  pub fsm : DaemonState
  pub producer : Bool
  pub server : Bool
  pub actual_port : ℕ

-- The constructor.
unfoldable pub made : Life
made = record { is_running = false; fsm = idle; producer = false; server = false; actual_port = 0 }

-- The part of `Start` after the state machine has started, with the port that the server is bound to;
-- `none` is a `BuildAndStart` that returns no server.
unfoldable pub launch : Option ℕ → Life → Ending × Life
launch bound n = if n.producer then (terminated, n) else (
  returned,
  elim bound [
    | none ↦ record n { producer = true; server = false; actual_port = 0 }
    | some port ↦ record n { producer = true; server = true; actual_port = port }
  ],
)

-- After `fsm_->start()`.
unfoldable pub after_start : Option ℕ → Pc ℕ → Life → Ending × Life
after_start bound (threw state) n = (threw_logic_error, n)
after_start bound _ n = launch bound n

unfoldable pub start_node : Option ℕ → Life → Ending × Life
start_node bound n =
    if n.is_running
    then (returned, n)
    else let p = promised {V = ℕ} true true start n.fsm in
      after_start bound p.0 (record n { is_running = true; fsm = p.1 })

-- The server is shut down, and then the producer is joined, which ends as `running_` is not set.
unfoldable pub stop_node : Life → Life
stop_node n =
    if n.is_running
    then record n {
      is_running = false;
      server = false;
      producer = false;
      fsm = (promised {V = ℕ} true true shuts_down n.fsm).1;
    }
    else n

unfoldable pub destroy : Life → Ending × Life
destroy n = let s = stop_node n in if s.producer then (terminated, s) else (returned, s)

-- A call of `Start`, with the outcome of `BuildAndStart`, or of `Stop`, or a fault that the producer
-- raises.
pub data LifeEvent : Type 0 where
  starts : Option ℕ → LifeEvent
  stops : LifeEvent
  alarmed : LifeEvent

unfoldable pub live : Life → LifeEvent → Ending × Life
live n (starts bound) = start_node bound n
live n stops = (returned, stop_node n)
live n alarmed =
    (returned, if n.producer && same n.fsm running then record n { fsm = fault } else n)

unfoldable pub lives : Life → List LifeEvent → List Ending × Life
lives n [] = ([], n)
lives n (e ∷ es) = let r = live n e in let rest = lives r.1 es in (r.0 ∷ rest.0, rest.1)
