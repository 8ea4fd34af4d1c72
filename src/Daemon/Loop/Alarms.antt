-- ===== src/Daemon/Loop/Alarms.antt =====
-- src/main.cpp: what a metric of a pass does to the state and the signals.
use edge_ipc_daemon.Prelude.{
  ℕ, ◌+◌, ◌≡◌, ◌∙◌, ap, refl, Bool, true, false, List, [], ◌∷◌, if◌then◌else◌, leb,
}
use edge_ipc_daemon.Daemon.Real.{Real}
use edge_ipc_daemon.Daemon.State.{DaemonState, idle, running, fault, shutdown, state_to_string}
use edge_ipc_daemon.Daemon.Manager.{Alarm}
use edge_ipc_daemon.Daemon.Manager.Alone.{Call, faults, promised, run-alone_first}
use edge_ipc_daemon.Daemon.Processor.{ProcessedMetric}
use edge_ipc_daemon.Daemon.Loop.{
  Output, state_signal, alarm_signal, notified, emit_state_changed, emit_alarm_raised, on_notice,
  on_notices, Daemon, call_manager, on_metric,
}

module _ (r : Real) (threshold : r.Value) where
  open r use {Value}

  -- The signals of a run of metrics, latest first: the first one that is flagged raises the alarm,
  -- if the state is RUNNING, and no later one does.
  abbrev pub alarms :
      DaemonState → List (ProcessedMetric r) → List (Output Value) → List (Output Value)
  alarms running [] out = out
  alarms running (m ∷ ms) out =
      if m.alarm_flag
      then alarm_signal m.sensor_id m.filtered_value threshold
        ∷ state_signal "FAULT" "RUNNING"
        ∷ out
      else alarms running ms out
  alarms idle ms out = out
  alarms fault ms out = out
  alarms shutdown ms out = out

  -- The state after it.
  abbrev pub state_after : DaemonState → List (ProcessedMetric r) → DaemonState
  state_after running [] = running
  state_after running (m ∷ ms) = if m.alarm_flag then fault else state_after running ms
  state_after idle ms = idle
  state_after fault ms = fault
  state_after shutdown ms = shutdown

  -- A reminder to the watchdog, if the last one was five seconds ago.
  abbrev pub reminded : ℕ → ℕ → List (Output Value) → List (Output Value)
  reminded now last out = if leb (last + 5000000000) now then notified "WATCHDOG=1" ∷ out else out

  -- What a metric does to the rest of the pass.
  pub record Noted (d : Daemon r) (m : ProcessedMetric r) (e : Daemon r) : Type 0 where
    pub phase_ok : e.phase ≡ d.phase
    pub bus_ok : e.bus.bus ≡ d.bus.bus
    pub receiver_ok : e.receiver ≡ d.receiver
    pub processor_ok : e.processor ≡ d.processor
    pub last_ok : e.last_watchdog ≡ d.last_watchdog
    pub alarms_ok :
        (ms : List (ProcessedMetric r))
        → alarms e.fsm ms e.outputs ≡ alarms d.fsm (m ∷ ms) d.outputs
    pub state_ok :
        (ms : List (ProcessedMetric r)) → state_after e.fsm ms ≡ state_after d.fsm (m ∷ ms)

  abbrev alarm_of : ProcessedMetric r → Alarm Value
  alarm_of m = record { sensor_id = m.sensor_id; value = m.filtered_value; threshold = threshold }

  -- The state and the signals of a fault that a flagged metric raises.
  faulted :
      (i : edge_ipc_daemon.Daemon.Bus.Impl) (fsm : DaemonState) (m : ProcessedMetric r)
      (ms : List (ProcessedMetric r)) (out : List (Output Value))
      → m.alarm_flag ≡ true
      → i.bus ≡ true
      → let p = promised true true (faults (alarm_of m)) fsm in
        (alarms p.1 ms (on_notices i p.2 out) ≡ alarms fsm (m ∷ ms) out)
        × (state_after p.1 ms ≡ state_after fsm (m ∷ ms))
  unfolding on_notices on_notice emit_state_changed emit_alarm_raised state_to_string
  faulted i idle m ms out a b = (refl, refl)
  faulted i running m ms out a b = rw (a, b) (refl, refl)
  faulted i fault m ms out a b = (refl, refl)
  faulted i shutdown m ms out a b = (refl, refl)

  unflagged :
      (fsm : DaemonState) (m : ProcessedMetric r) (ms : List (ProcessedMetric r))
      (out : List (Output Value))
      → m.alarm_flag ≡ false
      → (alarms fsm ms out ≡ alarms fsm (m ∷ ms) out)
        × (state_after fsm ms ≡ state_after fsm (m ∷ ms))
  unflagged idle m ms out a = (refl, refl)
  unflagged running m ms out a = rw a (refl, refl)
  unflagged fault m ms out a = (refl, refl)
  unflagged shutdown m ms out a = (refl, refl)

  -- A call alone does what include/StateManager.h says of it.
  call_manager-promised :
      (c : Call Value) (d : Daemon r)
      → let p = promised true true c d.fsm in
        ((call_manager r c d).fsm ≡ p.1)
        × ((call_manager r c d).outputs ≡ on_notices d.bus p.2 d.outputs)
  unfolding call_manager
  call_manager-promised c d =
      let alone_lem = run-alone_first true true c d.fsm in
      (alone_lem.1, ap (λ ns. on_notices d.bus ns d.outputs) alone_lem.2)

  noted :
      (d : Daemon r) (m : ProcessedMetric r) (b : Bool)
      → m.alarm_flag ≡ b
      → d.bus.bus ≡ true
      → Noted d m (if b then call_manager r (faults (alarm_of m)) d else d)
  unfolding call_manager
  noted d m true a o =
      let called = call_manager-promised (faults (alarm_of m)) d in
      record {
        phase_ok = refl;
        bus_ok = refl;
        receiver_ok = refl;
        processor_ok = refl;
        last_ok = refl;
        alarms_ok = λ ms.
            ap (λ fsm. alarms fsm ms (call_manager r (faults (alarm_of m)) d).outputs) called.0
            ∙ ap (alarms (promised true true (faults (alarm_of m)) d.fsm).1 ms) called.1
            ∙ (faulted d.bus d.fsm m ms d.outputs a o).0;
        state_ok = λ ms.
            ap (λ fsm. state_after fsm ms) called.0 ∙ (faulted d.bus d.fsm m ms d.outputs a o).1;
      }
  noted d m false a o = record {
    phase_ok = refl;
    bus_ok = refl;
    receiver_ok = refl;
    processor_ok = refl;
    last_ok = refl;
    alarms_ok = λ ms. (unflagged d.fsm m ms d.outputs a).0;
    state_ok = λ ms. (unflagged d.fsm m ms d.outputs a).1;
  }

  pub on_metric-Noted :
      (d : Daemon r) (m : ProcessedMetric r)
      → d.bus.bus ≡ true
      → Noted d m (on_metric r threshold d m)
  unfolding on_metric
  on_metric-Noted d m o = noted d m m.alarm_flag refl o
