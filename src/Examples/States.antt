-- ===== src/Examples/States.antt =====
-- The state machine of src/StateManager.cpp under concrete schedules.
use Prim.{tt}
use edge_ipc_daemon.Prelude.{ℕ, Bool, true, false, List, [], ◌∷◌, ◌≡◌, refl}
use edge_ipc_daemon.Daemon.State.{idle, running, fault, shutdown}
use edge_ipc_daemon.Daemon.Manager.{
  Alarm, System, start_load, halt_load, fault_swap, shutdown_swap, returned, state_changed, step,
  advance, act, try_start, run,
}
use edge_ipc_daemon.Daemon.Manager.History.{Chain, run-Chain}
use edge_ipc_daemon.Daemon.Manager.Races.{races}
use edge_ipc_daemon.Daemon.Manager.Absorbing.{run_shutdown}
use edge_ipc_daemon.Daemon.Manager.Alone.{start, operations, alone, run-alone}

abbrev hot : Alarm ℕ
hot = record { sensor_id = "sensor0"; value = 95; threshold = 80 }

-- One thread starts the daemon, one halts it, one reports a fault and one shuts it down.
abbrev callers : System ℕ
callers = record {
  set_cb = true;
  set_alarm = true;
  threads = start_load ∷ halt_load ∷ fault_swap hot ∷ shutdown_swap ∷ [];
  state = idle;
  changes = [];
  notices = [];
}

-- The halt reads the state before the shutdown, and stores after it.
abbrev late_halt : List (ℕ × Bool)
late_halt =
    (0, false) ∷ (0, true) ∷ (0, false) ∷ (2, false) ∷ (1, false) ∷ (3, false) ∷ (1, false) ∷ []

-- The shutdown comes after the halt is over.
abbrev in_turn : List (ℕ × Bool)
in_turn =
    (0, false) ∷ (0, true) ∷ (0, false) ∷ (1, false) ∷ (1, false) ∷ (3, false) ∷ (1, false) ∷ []

run-Chain_example : Chain false (run callers in_turn).state (run callers in_turn).changes
unfolding step advance act try_start
run-Chain_example = run-Chain callers in_turn refl refl

races_test : races callers late_halt ≡ true
unfolding step advance act try_start
races_test = refl

late_halt_test :
    (run callers late_halt).changes
    ≡ (idle, shutdown) ∷ (shutdown, fault) ∷ (fault, running) ∷ (running, idle) ∷ []
unfolding run step advance act try_start
late_halt_test = refl

abbrev after_shutdown : System ℕ
after_shutdown = record {
  set_cb = true;
  set_alarm = true;
  threads = start_load ∷ halt_load ∷ fault_swap hot ∷ [];
  state = shutdown;
  changes = (shutdown, idle) ∷ [];
  notices = [];
}

run_shutdown_example : (run after_shutdown late_halt).state ≡ shutdown
run_shutdown_example = run_shutdown after_shutdown late_halt refl (refl, (refl, (refl, tt)))

run-alone_example :
    let s = run (alone {V = ℕ} true true start idle) (operations {V = ℕ} start 2) in
    (s.threads ≡ returned ∷ [])
    × (s.state ≡ running)
    × (s.notices ≡ state_changed running idle ∷ [])
run-alone_example = run-alone true true start idle 2
