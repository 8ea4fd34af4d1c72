-- ===== src/Daemon/Loop.antt =====
-- src/main.cpp with the signals of src/DaemonBus.cpp: the main thread, the producer and the signal
-- handler, call by call, while no client calls a method of the bus: what interleaves inside the calls of
-- the state machine is in Manager, inside one of the receiver in Receiver/Threads. Sleeping is
-- left out.
pub mod Alarms
pub mod Pass
use Prim.Native.String.{String}
use edge_ipc_daemon.Prelude.{
  ℕ, ◌+◌, Bool, true, false, List, [], ◌∷◌, Option, none, some, if◌then◌else◌, leb,
}
use edge_ipc_daemon.Daemon.Real.{Real}
use edge_ipc_daemon.Daemon.State.{DaemonState, idle, state_to_string}
use edge_ipc_daemon.Daemon.Manager.{Notice, state_changed, alarm_raised}
use edge_ipc_daemon.Daemon.Manager
use edge_ipc_daemon.Daemon.Manager.Alone.{Call, faults, shuts_down, alone, rounds as ops}
use edge_ipc_daemon.Daemon.Receiver.{Receiver, push, pop}
use edge_ipc_daemon.Daemon.Receiver
use edge_ipc_daemon.Daemon.Processor.{TelemetryFrame, ProcessedMetric, Processor, process}
use edge_ipc_daemon.Daemon.Processor
use edge_ipc_daemon.Daemon.Bus.{Impl, closed, bus_start, bus_stop}

-- What leaves the daemon: the signals StateChanged and AlarmRaised, and the calls of `sd_notify`.
pub data Output (V : Type 0) : Type 0 where
  state_signal : String → String → Output V
  alarm_signal : String → V → V → Output V
  notified : String → Output V

module _ {V : Type 0} where
  unfoldable pub emit_state_changed :
      Impl → DaemonState → DaemonState → List (Output V) → List (Output V)
  emit_state_changed i next prev out =
      if i.bus then state_signal (state_to_string next) (state_to_string prev) ∷ out else out

  unfoldable pub emit_alarm_raised : Impl → String → V → V → List (Output V) → List (Output V)
  emit_alarm_raised i sensor_id value threshold out =
      if i.bus then alarm_signal sensor_id value threshold ∷ out else out

  -- The callbacks that `main` sets.
  unfoldable pub on_notice : Impl → Notice V → List (Output V) → List (Output V)
  on_notice i (state_changed next prev) out = emit_state_changed i next prev out
  on_notice i (alarm_raised a) out = emit_alarm_raised i a.sensor_id a.value a.threshold out

  -- The calls of the callbacks come latest first.
  unfoldable pub on_notices : Impl → List (Notice V) → List (Output V) → List (Output V)
  on_notices i [] out = out
  on_notices i (n ∷ ns) out = on_notice i n (on_notices i ns out)

-- Where the main thread is: before the test of `g_quit`, before a `pop`, before the `join`, or at
-- its end.
pub data Phase : Type 0 where
  testing popping joining ended : Phase

module _ (r : Real) where
  open r use {Value}

  -- `outputs` has the latest first; times are nanoseconds.
  pub record Daemon : Type 0 where
    pub phase : Phase
    pub quit : Bool
    pub fsm : DaemonState
    pub bus : Impl
    pub receiver : Receiver (TelemetryFrame r)
    pub processor : Processor r
    pub last_watchdog : ℕ
    pub outputs : List (Output Value)

  -- A call of the state machine by the main thread, operation by operation, while no method of the bus is
  -- called. The callbacks are called in the order in which the state machine calls them.
  unfoldable pub call_manager : Call Value → Daemon → Daemon
  call_manager c d =
      let s = Manager.run (alone true true c d.fsm) (ops 4) in
      record d { fsm = s.state; outputs = on_notices d.bus s.notices d.outputs }

  -- `threshold` is the 80.0 of the source.
  unfoldable pub on_metric : Value → Daemon → ProcessedMetric r → Daemon
  on_metric threshold d m =
      if m.alarm_flag
      then call_manager
          (faults
            (record { sensor_id = m.sensor_id; value = m.filtered_value; threshold = threshold }))
          d
      else d

  abbrev five_seconds : ℕ
  five_seconds = 5000000000

  unfoldable pub watchdog : ℕ → Daemon → Daemon
  watchdog now d =
      if leb (d.last_watchdog + five_seconds) now
      then record d { last_watchdog = now; outputs = notified "WATCHDOG=1" ∷ d.outputs }
      else d

  -- After a `pop`. `none` is an access out of the filter's buffer.
  unfoldable pub after_pop :
      Value → ℕ → Daemon → Option (TelemetryFrame r) × Receiver (TelemetryFrame r) → Option Daemon
  after_pop threshold now d (none, q) =
      some (record (watchdog now (record d { receiver = q })) { phase = testing })
  after_pop threshold now d (some frame, q) = elim (process r d.processor frame) [
    | none ↦ none
    | some (m, p) ↦ some (on_metric threshold (record d { receiver = q; processor = p }) m)
  ]

  unfoldable pub test_quit : Daemon → Daemon
  test_quit d =
      if d.quit
      then record d { phase = joining; outputs = notified "STOPPING=1" ∷ d.outputs }
      else record d { phase = popping }

  -- After the producer was joined.
  unfoldable pub finish : Daemon → Daemon
  finish d = let s = call_manager shuts_down d in record s { phase = ended; bus = bus_stop s.bus }

  unfoldable pub main_step : Value → ℕ → Phase → Daemon → Option Daemon
  main_step threshold now testing d = some (test_quit d)
  main_step threshold now popping d = after_pop threshold now d (pop d.receiver)
  main_step threshold now joining d = some (finish d)
  main_step threshold now ended d = some d

  -- The producer has read something; a signal has come; the main thread goes on, at a time.
  pub data Event : Type 0 where
    produced : Option (TelemetryFrame r) → Event
    signalled : Event
    main : ℕ → Event

  unfoldable pub produce : Option (TelemetryFrame r) → Phase → Daemon → Daemon
  produce none phase d = d
  produce (some frame) ended d = d
  produce (some frame) phase d = record d { receiver = (push d.receiver frame).1 }

  unfoldable pub step : Value → Daemon → Event → Option Daemon
  step threshold d (produced frame) = some (produce frame d.phase d)
  step threshold d signalled = some (record d { quit = true })
  step threshold d (main now) = main_step threshold now d.phase d

  unfoldable pub run : Value → Daemon → List Event → Option Daemon
  run threshold d [] = some d
  run threshold d (e ∷ es) = elim (step threshold d e) [ none ↦ none | some n ↦ run threshold n es ]

  -- `main` up to its loop, with the outcomes of `DaemonBus::start`; `none` is the exit with 1.
  -- `high` and `low` are 80.0 and 20.0.
  unfoldable pub begin : Bool → Bool → Bool → TelemetryFrame r → Value → Value → ℕ → Option Daemon
  begin opened added named blank high low now =
      let b = bus_start opened added named closed in
      if b.0
      then some (record {
        phase = testing;
        quit = false;
        fsm = idle;
        bus = b.1;
        receiver = Receiver.make blank;
        processor = Processor.make r 10 high low 3;
        last_watchdog = now;
        outputs = notified "READY=1" ∷ [];
      })
      else none
