-- ===== src/Node/Reports.antt =====
-- secure_distributed_node/src/TelemetryNode.cpp: what a node has done and reports after any rounds
-- of its producer.
use Prim.Native.String.{String}
use mathlib.Core.Path.{subst}
use edge_ipc_daemon.Prelude.{
  suc, ◌+◌, ◌<◌, ◌%◌, ◌^◌, ◌≡◌, ◌∙◌, ap, sym, Bool, true, false, ◌||◌, List, [], ◌∷◌, some, refl,
  arith, map, length, if◌then◌else◌,
}
use edge_ipc_daemon.Daemon.Real.{Real}
use edge_ipc_daemon.Daemon.State.{DaemonState, running, fault, state_to_string}
use edge_ipc_daemon.Daemon.Filter.Average.{average}
use edge_ipc_daemon.Daemon.Detector.{raised}
use edge_ipc_daemon.Daemon.Processor.{TelemetryFrame, ProcessedMetric, Processor}
use edge_ipc_daemon.Daemon.Processor.Metrics.{explained, Settled, process-Settled}
use edge_ipc_daemon.Node.Stream.{push_snapshot}
use edge_ipc_daemon.Node.Producer.{
  ProcessedSnapshot, TelemetryNode, on_notice, on_notices, raise_fault, on_alarm, snapshot,
  publish_metric, observe, handle,
}

module _ (r : Real) (high low : r.Value) where
  open r use {Value}

  -- All lists of frames have the latest frame first.
  abbrev pub values : List (TelemetryFrame r) → List Value
  values frames = map (λ f. f.value) frames

  -- Did one of the frames raise the alarm?
  abbrev pub ever_raised : List (TelemetryFrame r) → Bool
  ever_raised [] = false
  ever_raised (f ∷ frames) = raised r high low 3 (values (f ∷ frames)) || ever_raised frames

  abbrev pub state_after : List (TelemetryFrame r) → DaemonState
  state_after frames = if ever_raised frames then fault else running

  -- The snapshot of the latest frame.
  abbrev pub snapshot_of :
      String → TelemetryFrame r → List (TelemetryFrame r) → ProcessedSnapshot Value
  snapshot_of node_id f frames = record {
    node_id = node_id;
    raw_value = f.value;
    filtered_value = average r 10 (values (f ∷ frames));
    alarm_active = raised r high low 3 (values (f ∷ frames));
    fsm_state = state_to_string (state_after (f ∷ frames));
  }

  abbrev pub streamed : String → List (TelemetryFrame r) → List (ProcessedSnapshot Value)
  streamed node_id [] = []
  streamed node_id (f ∷ frames) =
      push_snapshot (streamed node_id frames) (snapshot_of node_id f frames)

  abbrev pub latest_average : List (TelemetryFrame r) → Value
  latest_average [] = r.zero
  latest_average (f ∷ frames) = average r 10 (values (f ∷ frames))

  -- What a node reports that has processed these frames.
  pub record Reports (n : TelemetryNode r) (frames : List (TelemetryFrame r)) : Type 0 where
    pub counted : n.processed_count ≡ length frames % 2 ^ 64
    pub state_ok : n.fsm ≡ state_after frames
    pub alarm_ok : n.alarm_active ≡ ever_raised frames
    pub filtered_ok : n.last_filtered ≡ latest_average frames
    pub streamed_ok : n.stream_queue ≡ streamed n.node_id frames
    pub settled : Settled r n.processor 10 high low 3 (values frames)

  -- A node in a state and with a flag that say whether the alarm was ever raised.
  abbrev flagged : TelemetryNode r → Bool → TelemetryNode r
  flagged n b = record n { fsm = if b then fault else running; alarm_active = b }

  on_alarm_lem :
      (limit : Value) (n : TelemetryNode r) (m : ProcessedMetric r) (raw : Value) (b ever : Bool)
      → n.fsm ≡ (if ever then fault else running)
      → n.alarm_active ≡ ever
      → (if b then on_alarm r limit n m raw else n) ≡ flagged n (b || ever)
  unfolding on_alarm raise_fault on_notices on_notice
  on_alarm_lem limit n m raw false ever e a =
      ap {B = TelemetryNode r} (λ s. record n { fsm = s }) e
      ∙ ap {B = TelemetryNode r}
          (λ x. record n { fsm = if ever then fault else running; alarm_active = x }) a
  on_alarm_lem limit n m raw true false e a = rw e refl
  on_alarm_lem limit n m raw true true e a = rw e refl

  observe-Reports :
      (limit : Value) (n : TelemetryNode r) (p : Processor r) (f : TelemetryFrame r)
      (frames : List (TelemetryFrame r))
      → Settled r p 10 high low 3 (values (f ∷ frames))
      → Reports n frames
      → Reports (observe r limit n p f (explained r 10 high low 3 (values frames) f)) (f ∷ frames)
  unfolding observe publish_metric snapshot
  observe-Reports limit n p f frames s h =
      let m = explained r 10 high low 3 (values frames) f in
      let stored : TelemetryNode r = record n {
        processor = p;
        last_raw = f.value;
        last_filtered = m.filtered_value;
      } in
      let e =
        on_alarm_lem limit stored m f.value (raised r high low 3 (values (f ∷ frames)))
          (ever_raised frames) h.state_ok h.alarm_ok in
      subst (λ k. Reports (publish_metric r k m f.value) (f ∷ frames)) (sym e)
        (record {
          counted = omega (arith, h.counted);
          state_ok = refl;
          alarm_ok = refl;
          filtered_ok = refl;
          streamed_ok = ap (λ q. push_snapshot q (snapshot_of n.node_id f frames)) h.streamed_ok;
          settled = s;
        })

  observe_receiver :
      (limit : Value) (n : TelemetryNode r) (p : Processor r) (f : TelemetryFrame r)
      (m : ProcessedMetric r)
      → (observe r limit n p f m).receiver ≡ n.receiver
  unfolding observe publish_metric on_alarm raise_fault
  observe_receiver limit n p f m = ground arith

  length-values : (frames : List (TelemetryFrame r)) → length (values frames) ≡ length frames
  length-values [] = refl
  length-values (f ∷ frames) = ap suc (length-values frames)

  values-fit :
      (frames : List (TelemetryFrame r))
      → length frames + 1 < 2 ^ 31
      → length (values frames) + 1 < 2 ^ 31
  values-fit frames fits = omega (arith, length-values frames)

  pub handle-Reports :
      (limit : Value) (n : TelemetryNode r) (f : TelemetryFrame r)
      (frames : List (TelemetryFrame r))
      → length frames + 1 < 2 ^ 31
      → Reports n frames
      → (m : TelemetryNode r) × (handle r limit n f ≡ some m)
        × Reports m (f ∷ frames)
        × (m.receiver ≡ n.receiver)
  unfolding handle
  handle-Reports limit n f frames fits h =
      let (q, e, s) =
        process-Settled r n.processor 10 high low 3 (values frames) f (omega arith)
          (values-fit frames fits) h.settled in
      let metric = explained r 10 high low 3 (values frames) f in
      (
        observe r limit n q f metric,
        rw (e, handle) refl,
        observe-Reports limit n q f frames s h,
        observe_receiver limit n q f metric,
      )
