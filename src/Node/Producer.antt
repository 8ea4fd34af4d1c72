-- ===== src/Node/Producer.antt =====
-- secure_distributed_node/src/TelemetryNode.cpp: the rounds of `ProducerLoop`. Between `Start` and
-- the end of the loop no other thread calls the state machine, so that each of its calls is alone.
use Prim.Native.String.{String}
use edge_ipc_daemon.Prelude.{
  ℕ, zero, suc, ◌+◌, ◌%◌, ◌^◌, Bool, true, false, List, [], ◌∷◌, Option, none, some, if◌then◌else◌,
}
use edge_ipc_daemon.Daemon.Real.{Real}
use edge_ipc_daemon.Daemon.State.{DaemonState, idle, running, fault, same, state_to_string}
use edge_ipc_daemon.Daemon.Manager.{Alarm, Notice, state_changed, alarm_raised}
use edge_ipc_daemon.Daemon.Manager.Alone.{start, faults, promised}
use edge_ipc_daemon.Daemon.Receiver.{Receiver, push, pop}
use edge_ipc_daemon.Daemon.Receiver
use edge_ipc_daemon.Daemon.Processor.{TelemetryFrame, ProcessedMetric, Processor, process}
use edge_ipc_daemon.Daemon.Processor
use edge_ipc_daemon.Node.Stream.{push_snapshot}

-- Without the time stamp, which the code under secure_distributed_node/ only hands on.
pub record ProcessedSnapshot (V : Type 0) : Type 0 where
  pub node_id : String
  pub raw_value : V
  pub filtered_value : V
  pub alarm_active : Bool
  pub fsm_state : String

module _ {V : Type 0} where
  -- The callbacks that the constructor sets, on `alarm_active_`.
  unfoldable pub on_notice : Notice V → Bool → Bool
  on_notice (state_changed fault prev) active = active
  on_notice (state_changed next prev) active = false
  on_notice (alarm_raised alarm) active = true

  -- The calls of the callbacks come latest first.
  unfoldable pub on_notices : List (Notice V) → Bool → Bool
  on_notices [] active = active
  on_notices (n ∷ ns) active = on_notice n (on_notices ns active)

module _ (r : Real) where
  open r use {Value}

  pub record TelemetryNode : Type 0 where
    pub node_id : String
    pub fsm : DaemonState
    pub receiver : Receiver (TelemetryFrame r)
    pub processor : Processor r
    pub processed_count : ℕ
    pub last_raw : Value
    pub last_filtered : Value
    pub alarm_active : Bool
    pub stream_queue : List (ProcessedSnapshot Value)

  -- `fsm_->fault(sensor_id, value, 80.0)`, with its callbacks.
  unfoldable pub raise_fault : TelemetryNode → Alarm Value → TelemetryNode
  raise_fault n alarm =
      let (pc, next, notices) = promised true true (faults alarm) n.fsm in
      record n { fsm = next; alarm_active = on_notices notices n.alarm_active }

  unfoldable pub on_alarm : Value → TelemetryNode → ProcessedMetric r → Value → TelemetryNode
  on_alarm limit n m raw =
      let flagged = record n { alarm_active = true } in
      if same n.fsm running
      then raise_fault flagged (record { sensor_id = m.sensor_id; value = raw; threshold = limit })
      else flagged

  unfoldable pub snapshot : TelemetryNode → ProcessedMetric r → Value → ProcessedSnapshot Value
  snapshot n m raw = record {
    node_id = n.node_id;
    raw_value = raw;
    filtered_value = m.filtered_value;
    alarm_active = m.alarm_flag;
    fsm_state = state_to_string n.fsm;
  }

  unfoldable pub publish_metric : TelemetryNode → ProcessedMetric r → Value → TelemetryNode
  publish_metric n m raw = record n {
    processed_count = (n.processed_count + 1) % 2 ^ 64;
    stream_queue = push_snapshot n.stream_queue (snapshot n m raw);
  }

  -- The body of the inner loop, after `process`. `limit` is the 80.0 that the alarm names.
  unfoldable pub observe :
      Value → TelemetryNode → Processor r → TelemetryFrame r → ProcessedMetric r → TelemetryNode
  observe limit n processor frame m =
      let stored = record n {
        processor = processor;
        last_raw = frame.value;
        last_filtered = m.filtered_value;
      } in
      publish_metric (if m.alarm_flag then on_alarm limit stored m frame.value else stored) m
        frame.value

  unfoldable pub handle : Value → TelemetryNode → TelemetryFrame r → Option TelemetryNode
  handle limit n frame = elim (process r n.processor frame) [
    | none ↦ none
    | some (m, processor) ↦ some (observe limit n processor frame m)
  ]

  -- The inner loop. `none` is an access out of a buffer, or the end of the fuel.
  unfoldable pub drain_next :
      Value
      → (TelemetryNode → Option TelemetryNode)
      → TelemetryNode
      → Option (TelemetryFrame r) × Receiver (TelemetryFrame r)
      → Option TelemetryNode
  drain_next limit rest n (none, receiver) = some (record n { receiver = receiver })
  drain_next limit rest n (some frame, receiver) =
      elim (handle limit (record n { receiver = receiver }) frame) [ none ↦ none | some m ↦ rest m ]

  unfoldable pub drain : Value → ℕ → TelemetryNode → Option TelemetryNode
  drain limit zero n = none
  drain limit (suc fuel) n = drain_next limit (drain limit fuel) n (pop n.receiver)

  unfoldable pub receive : TelemetryNode → Option (TelemetryFrame r) → TelemetryNode
  receive n none = n
  receive n (some frame) = record n { receiver = (push n.receiver frame).1 }

  -- A round of the outer loop, with what the source has read. The ring holds fewer frames than the
  -- fuel.
  unfoldable pub round : Value → TelemetryNode → Option (TelemetryFrame r) → Option TelemetryNode
  round limit n frame = drain limit 1024 (receive n frame)

  unfoldable pub rounds :
      Value → TelemetryNode → List (Option (TelemetryFrame r)) → Option TelemetryNode
  rounds limit n [] = some n
  rounds limit n (frame ∷ frames) = elim (round limit n frame) [
    | none ↦ none
    | some m ↦ rounds limit m frames
  ]

  -- The node when `Start` starts its producer: the constructor, and `fsm_->start()`. `high` and
  -- `low` are the defaults 80.0 and 20.0 of the processor.
  unfoldable pub started : String → TelemetryFrame r → Value → Value → TelemetryNode
  started node_id blank high low =
      let (pc, next, notices) = promised {V = Value} true true start idle in
      record {
        node_id = node_id;
        fsm = next;
        receiver = Receiver.make blank;
        processor = Processor.make r 10 high low 3;
        processed_count = 0;
        last_raw = r.zero;
        last_filtered = r.zero;
        alarm_active = on_notices notices false;
        stream_queue = [];
      }

  -- The answer of `GetNodeStatus`.
  pub record NodeStatus : Type 0 where
    pub node_id : String
    pub fsm_state : String
    pub processed_count : ℕ
    pub last_value : Value

  unfoldable pub get_node_status : TelemetryNode → NodeStatus
  get_node_status n = record {
    node_id = n.node_id;
    fsm_state = state_to_string n.fsm;
    processed_count = n.processed_count;
    last_value = n.last_filtered;
  }
