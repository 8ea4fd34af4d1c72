-- ===== src/Examples/Nodes.antt =====
-- The node and the coordinator of secure_distributed_node, and a TLS session, at concrete inputs.
use Prim.Native.String.{String}
use edge_ipc_daemon.Prelude.{
  ℕ, ◌≤◌, ◌<◌, ◌++◌, ◌⊎◌, map, length, true, false, List, [], ◌∷◌, Option, none, some, ◌≡◌, refl,
  get_elem?,
}
use edge_ipc_daemon.Daemon.Processor.{TelemetryFrame}
use edge_ipc_daemon.Node.Stream.{Call, pushes, pops, run, fresh, Recent, run-Recent}
use edge_ipc_daemon.Node.Service.{Round, all_arrived, sample_of, stream_telemetry}
use edge_ipc_daemon.Node.Service.Delivery.{opened, stream_telemetry-Recent}
use edge_ipc_daemon.Node.Stream.{stream_queue_cap}
use edge_ipc_daemon.Node.Producer.{ProcessedSnapshot}
use mathlib.Core.List.{Sublistᴰ}
use edge_ipc_daemon.Node.Coordinator.{Status, connect, polls, polls-polled}
use edge_ipc_daemon.Examples.Naturals.{naturals}

abbrev snaps : List (Call ℕ)
snaps = pushes 1 ∷ pushes 2 ∷ pops ∷ pushes 3 ∷ pops ∷ pops ∷ pops ∷ []

run-Recent_example : (gone : List ℕ) × Recent (run fresh snaps) gone
run-Recent_example = run-Recent snaps

abbrev reading : ℕ → TelemetryFrame naturals
reading v = record { sensor_id = "node1_sensor"; value = v }

-- Three readings in a row above the band.
abbrev readings : List (Option (TelemetryFrame naturals))
readings = some (reading 50) ∷ none ∷ some (reading 90) ∷ some (reading 95) ∷ some (reading 99) ∷ []

abbrev blank : Status ℕ
blank = record { node_id = ""; fsm_state = ""; processed_count = 0; last_value = 0 }

abbrev answer : String → ℕ → Status ℕ
answer state n = record {
  node_id = "worker2";
  fsm_state = state;
  processed_count = n;
  last_value = 50;
}

-- Worker 1 answers twice and is then not reached, and worker 0 is.
abbrev answers : List (ℕ × Option (Status ℕ))
answers =
    (1, some (answer "RUNNING" 3))
    ∷ (0, some (answer "RUNNING" 2))
    ∷ (1, some (answer "FAULT" 4))
    ∷ (1, none)
    ∷ []

polls-polled_example :
    get_elem? (polls (connect blank ("worker1" ∷ "worker2" ∷ [])) answers) 1
    ≡ some (record { node_id = "worker2"; last_status = answer "FAULT" 4; reachable = false })
unfolding connect
polls-polled_example =
    polls-polled (connect blank ("worker1" ∷ "worker2" ∷ [])) answers 1
      (record { node_id = "worker2"; last_status = blank; reachable = false }) refl

abbrev snap : ℕ → ProcessedSnapshot ℕ
snap v = record {
  node_id = "node1";
  raw_value = v;
  filtered_value = v;
  alarm_active = false;
  fsm_state = "RUNNING";
}

-- Two snapshots come, then none; the second write fails.
abbrev stream_rounds : List (Round ℕ)
stream_rounds =
    record { cancelled = false; now = 0; arrived = snap 1 ∷ snap 2 ∷ []; written = true }
    ∷ record { cancelled = false; now = 1; arrived = []; written = false }
    ∷ record { cancelled = false; now = 2; arrived = snap 3 ∷ []; written = true }
    ∷ []

stream_telemetry-Recent_example :
    let s = stream_telemetry 30 stream_rounds opened in
    (gone : List (ProcessedSnapshot ℕ)) × (popped : List (ProcessedSnapshot ℕ)) × (later : List
      (ProcessedSnapshot ℕ))
    × ((gone ++ s.queue) ++ later ≡ all_arrived stream_rounds)
    × (map sample_of popped ≡ s.samples ++ s.unsent)
    × (length s.unsent ≤ 1)
    × Sublistᴰ popped gone
    × ((popped ≡ gone) ⊎ (stream_queue_cap < length (all_arrived stream_rounds)))
stream_telemetry-Recent_example = stream_telemetry-Recent 30 stream_rounds
