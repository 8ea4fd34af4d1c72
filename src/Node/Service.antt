-- ===== src/Node/Service.antt =====
-- secure_distributed_node/src/TelemetryNode.cpp: `StreamTelemetry`, for one client of the stream.
pub mod Delivery
use Prim.Native.String.{String}
use mathlib.Core.List.{Sublistᴰ, append-nil, append_assoc}
use mathlib.Core.Path.{subst}
use edge_ipc_daemon.Prelude.{
  ℕ, ◌≤◌, ◌<◌, ◌≡◌, ◌∙◌, ap, sym, refl, Bool, true, false, not, ◌&&◌, List, [], ◌∷◌, ◌++◌, ◌⊎◌, inl,
  inr, Option, none, some, arith, ltb, length, length-append, map, if◌then◌else◌, Bool-cases,
}
use edge_ipc_daemon.Node.Stream.{
  push_snapshot, pop_snapshot, stream_queue_cap, Call, pushes, pops, Log, step, run, fresh,
  run-Recent,
}
use edge_ipc_daemon.Node.Producer.{ProcessedSnapshot}

-- Without the time stamp, as the snapshot.
pub record TelemetrySample (V : Type 0) : Type 0 where
  pub node_id : String
  pub raw_value : V
  pub filtered_value : V
  pub alarm_active : Bool
  pub fsm_state : String

-- A round of the loop: what its two tests see, the snapshots that the node has pushed until
-- PopSnapshot takes one or times out, and whether the write succeeds.
pub record Round (V : Type 0) : Type 0 where
  pub cancelled : Bool
  pub now : ℕ
  pub arrived : List (ProcessedSnapshot V)
  pub written : Bool

-- The samples that were written, the one that could not be written, and the queue.
pub record Streamed (V : Type 0) : Type 0 where
  pub samples : List (TelemetrySample V)
  pub unsent : List (TelemetrySample V)
  pub queue : List (ProcessedSnapshot V)

module _ {V : Type 0} where
  unfoldable pub sample_of : ProcessedSnapshot V → TelemetrySample V
  sample_of snap = record {
    node_id = snap.node_id;
    raw_value = snap.raw_value;
    filtered_value = snap.filtered_value;
    alarm_active = snap.alarm_active;
    fsm_state = snap.fsm_state;
  }

  abbrev pub push_all :
      List (ProcessedSnapshot V) → List (ProcessedSnapshot V) → List (ProcessedSnapshot V)
  push_all queue [] = queue
  push_all queue (x ∷ xs) = push_all (push_snapshot queue x) xs

  unfoldable pub after_pop :
      Bool
      → (Streamed V → Streamed V)
      → Streamed V
      → Option (ProcessedSnapshot V) × List (ProcessedSnapshot V)
      → Streamed V
  after_pop written rest s (none, queue) = rest (record s { queue = queue })
  after_pop true rest s (some snap, queue) =
      rest (record s { samples = s.samples ++ sample_of snap ∷ []; queue = queue })
  after_pop false rest s (some snap, queue) = record s {
    unsent = sample_of snap ∷ [];
    queue = queue;
  }

  -- The call, as far as these rounds go.
  unfoldable pub stream_telemetry : ℕ → List (Round V) → Streamed V → Streamed V
  stream_telemetry deadline [] s = s
  stream_telemetry deadline (r ∷ rs) s =
      if not r.cancelled && ltb r.now deadline
      then after_pop r.written (stream_telemetry deadline rs) s
          (pop_snapshot (push_all s.queue r.arrived))
      else s

  abbrev pub all_arrived : List (Round V) → List (ProcessedSnapshot V)
  all_arrived [] = []
  all_arrived (r ∷ rs) = r.arrived ++ all_arrived rs
