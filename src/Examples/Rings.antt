-- ===== src/Examples/Rings.antt =====
-- The ring of include/TelemetryReceiver.h on concrete calls and schedules.
use edge_ipc_daemon.Prelude.{ℕ, ◌<◌, true, List, [], ◌∷◌, ◌++◌, none, some, ◌≡◌, map, length}
use edge_ipc_daemon.Daemon.Receiver.{capacity, make}
use edge_ipc_daemon.Daemon.Receiver.Calls.{
  accepted, taken, pushed, popped, calls, queue_calls, queue_call, calls_queue,
}
use edge_ipc_daemon.Daemon.Receiver.Threads.{Turn, produces, consumes, begin, turns}
use edge_ipc_daemon.Daemon.Receiver.Fifo.{turns_fifo}

calls_queue_example :
    (calls {A = ℕ} (make 0) (pushed 7 ∷ pushed 8 ∷ popped ∷ popped ∷ popped ∷ [])).0
    ≡ accepted true ∷ accepted true ∷ taken (some 7) ∷ taken (some 8) ∷ taken none ∷ []
unfolding queue_calls queue_call
calls_queue_example = calls_queue 0 (pushed 7 ∷ pushed 8 ∷ popped ∷ popped ∷ popped ∷ [])

-- The consumer comes in between the parts of a push.
abbrev schedule : List (Turn ℕ)
schedule =
    produces 7
    ∷ consumes
    ∷ produces 0
    ∷ consumes
    ∷ produces 0
    ∷ consumes
    ∷ produces 8
    ∷ consumes
    ∷ consumes
    ∷ produces 0
    ∷ []

turns_fifo_example :
    (xs : List ℕ) × (map some (turns (begin 0) schedule).accepted
      ≡ (turns (begin 0) schedule).received ++ map some xs)
    × (length xs < capacity)
turns_fifo_example = turns_fifo 0 schedule
