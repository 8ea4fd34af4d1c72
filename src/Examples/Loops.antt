-- ===== src/Examples/Loops.antt =====
-- The main loop of the daemon at concrete inputs.
use edge_ipc_daemon.Prelude.{ℕ, true, false, List, [], ◌∷◌, some, ◌≡◌, refl, arith, replicate}
use edge_ipc_daemon.Daemon.State.{idle, running}
use edge_ipc_daemon.Daemon.Receiver
use edge_ipc_daemon.Daemon.Receiver.{Receiver}
use edge_ipc_daemon.Daemon.Receiver.Calls.{
  Call, pushed, calls, queue_call, queue_calls, Agrees, make-Agrees, calls-Agrees,
}
use edge_ipc_daemon.Daemon.Processor
use edge_ipc_daemon.Daemon.Processor.{TelemetryFrame}
use edge_ipc_daemon.Daemon.Processor.Metrics.{metrics, make-Settled}
use edge_ipc_daemon.Daemon.Bus.{closed}
use edge_ipc_daemon.Daemon.Loop.{Daemon, main, popping, testing, notified, run}
use edge_ipc_daemon.Daemon.Loop.Pass.{Passed, run-alarms}
use edge_ipc_daemon.Examples.Naturals.{naturals}

abbrev frame : ℕ → TelemetryFrame naturals
frame v = record { sensor_id = "sensor0"; value = v }

-- The daemon before its loop.
abbrev ready : Daemon naturals
ready = record {
  phase = testing;
  quit = false;
  fsm = idle;
  bus = record closed { bus = true; slot = true; running = true };
  receiver = Receiver.make (frame 0);
  processor = Processor.make naturals 10 80 20 3;
  last_watchdog = 0;
  outputs = notified "READY=1" ∷ [];
}

-- Three readings above the band are in the ring.
abbrev pushes : List (Call (TelemetryFrame naturals))
pushes = pushed (frame 90) ∷ pushed (frame 95) ∷ pushed (frame 99) ∷ []

abbrev filled : Receiver (TelemetryFrame naturals)
filled = (calls (Receiver.make (frame 0)) pushes).1

filled-Agrees : Agrees filled (frame 90 ∷ frame 95 ∷ frame 99 ∷ [], 0)
unfolding queue_calls queue_call
filled-Agrees = (calls-Agrees (Receiver.make (frame 0)) ([], 0) (make-Agrees (frame 0)) pushes).1

abbrev loaded : Daemon naturals
loaded = record ready { phase = popping; fsm = running; receiver = filled }

run-alarms_example :
    (e : Daemon naturals) × (run naturals 80 loaded (replicate 4 (main 7)) ≡ some e)
    × Passed naturals 80 7 0 loaded
        (metrics naturals 10 80 20 3 [] (frame 90 ∷ frame 95 ∷ frame 99 ∷ []))
        e
run-alarms_example =
    run-alarms naturals 80 80 20 [] (frame 90 ∷ frame 95 ∷ frame 99 ∷ []) loaded 7 0 refl refl
      filled-Agrees (omega arith) (make-Settled naturals 10 80 20 3 (omega arith))
