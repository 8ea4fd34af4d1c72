-- ===== src/Node/Rounds.antt =====
-- secure_distributed_node/src/TelemetryNode.cpp: `ProducerLoop` handles each frame in the round
-- that reads it.
use Prim.Native.String.{String}
use edge_ipc_daemon.Prelude.{List, [], ◌∷◌, Option, none, some}
use edge_ipc_daemon.Daemon.Real.{Real}
use edge_ipc_daemon.Daemon.Receiver.{Receiver}
use edge_ipc_daemon.Daemon.Receiver.Calls.{Agrees}
use edge_ipc_daemon.Daemon.Processor.{TelemetryFrame}
use edge_ipc_daemon.Node.Producer.{TelemetryNode}
use edge_ipc_daemon.Node.Reports.{Reports}

module _ {A : Type 0} where
  -- A ring with these frames that has refused none.
  abbrev pub Rings : Receiver A → List A → Type 0
  Rings q xs = Agrees q (xs, 0)

module _ (r : Real) (high low : r.Value) where
  -- A node between two rounds, after these frames, latest first.
  pub record Between (n : TelemetryNode r) (frames : List (TelemetryFrame r)) : Type 0 where
    pub reports : Reports r high low n frames
    pub rings : Rings n.receiver []

  abbrev with_ring : TelemetryNode r → Receiver (TelemetryFrame r) → TelemetryNode r
  with_ring n q = record n { receiver = q }

  -- The frames after a read.
  abbrev pub heard : Option (TelemetryFrame r) → List (TelemetryFrame r) → List (TelemetryFrame r)
  heard none frames = frames
  heard (some f) frames = f ∷ frames

  abbrev pub heard_all :
      List (Option (TelemetryFrame r)) → List (TelemetryFrame r) → List (TelemetryFrame r)
  heard_all [] frames = frames
  heard_all (read ∷ reads) frames = heard_all reads (heard read frames)
