-- ===== src/Daemon/Manager.antt =====
-- include/StateManager.h and src/StateManager.cpp: the state machine, at the grain of its atomic
-- operations. Threads call `start`, `halt`, `fault` and `shutdown` at any time.
pub mod Alone
pub mod Races
pub mod History
pub mod Absorbing
use Prim.Native.String.{String}
use edge_ipc_daemon.Prelude.{
  ℕ, zero, suc, Bool, true, false, not, ◌&&◌, List, [], ◌∷◌, ◌++◌, Option, none, some, get_elem?,
  set, if◌then◌else◌,
}
use edge_ipc_daemon.Daemon.State.{DaemonState, idle, running, fault, shutdown, same}

-- The arguments of the alarm callback; a double is one of a type `V`.
pub record Alarm (V : Type 0) : Type 0 where
  pub sensor_id : String
  pub value : V
  pub threshold : V

-- Where a thread stands in a call. `notify` is about to call the state callback, with the arguments
-- `next` and `prev`, and then the alarm callback if an alarm is given.
pub data Pc (V : Type 0) : Type 0 where
  start_load : Pc V
  start_swap : DaemonState → Pc V
  halt_load : Pc V
  halt_swap : Pc V
  fault_swap : Alarm V → Pc V
  shutdown_swap : Pc V
  notify : DaemonState → DaemonState → Option (Alarm V) → Pc V
  raise : Alarm V → Pc V
  returned : Pc V
  -- the `std::logic_error` of `start`, with the state it names
  threw : DaemonState → Pc V

-- What the callbacks are called with.
pub data Notice (V : Type 0) : Type 0 where
  state_changed : DaemonState → DaemonState → Notice V
  alarm_raised : Alarm V → Notice V

-- One atomic operation: the thread's next place, the state, the change of the state if there is one
-- (next, prev), and the callbacks that were called.
pub record Effect (V : Type 0) : Type 0 where
  pub pc : Pc V
  pub state : DaemonState
  pub change : Option (DaemonState × DaemonState)
  pub notices : List (Notice V)

module _ {V : Type 0} where
  abbrev quiet : Pc V → DaemonState → Effect V
  quiet pc state = record { pc = pc; state = state; change = none; notices = [] }

  abbrev swapped : DaemonState → DaemonState → Option (Alarm V) → Effect V
  swapped next prev alarm = record {
    pc = notify next prev alarm;
    state = next;
    change = some (next, prev);
    notices = [];
  }

  -- `compare_exchange_weak(prev, RUNNING)`, after the tests that throw; `spurious` is the failure
  -- that it may have for no reason.
  unfoldable pub try_start : Bool → DaemonState → DaemonState → Effect V
  try_start spurious running state = quiet (threw running) state
  try_start spurious shutdown state = quiet (threw shutdown) state
  try_start spurious prev state =
      if same prev state && not spurious
      then swapped running prev none
      else quiet (start_swap state) state

  abbrev after_notify : Option (Alarm V) → Pc V
  after_notify none = returned
  after_notify (some alarm) = raise alarm

  -- `set_cb` and `set_alarm` say whether the callbacks are set.
  unfoldable pub act : Bool → Bool → Bool → Pc V → DaemonState → Effect V
  act set_cb set_alarm spurious start_load state = quiet (start_swap state) state
  act set_cb set_alarm spurious (start_swap prev) state = try_start spurious prev state
  act set_cb set_alarm spurious halt_load state =
      quiet (if same state shutdown then returned else halt_swap) state
  act set_cb set_alarm spurious halt_swap state = swapped idle state none
  act set_cb set_alarm spurious (fault_swap alarm) state =
      if same state running then swapped fault running (some alarm) else quiet returned state
  act set_cb set_alarm spurious shutdown_swap state = swapped shutdown state none
  act set_cb set_alarm spurious (notify next prev alarm) state = record {
    pc = after_notify alarm;
    state = state;
    change = none;
    notices = if set_cb then state_changed next prev ∷ [] else [];
  }
  act set_cb set_alarm spurious (raise alarm) state = record {
    pc = returned;
    state = state;
    change = none;
    notices = if set_alarm then alarm_raised alarm ∷ [] else [];
  }
  act set_cb set_alarm spurious returned state = quiet returned state
  act set_cb set_alarm spurious (threw e) state = quiet (threw e) state

-- The threads, the state, the changes of the state and the calls of the callbacks, latest first.
pub record System (V : Type 0) : Type 0 where
  pub set_cb : Bool
  pub set_alarm : Bool
  pub threads : List (Pc V)
  pub state : DaemonState
  pub changes : List (DaemonState × DaemonState)
  pub notices : List (Notice V)

abbrev pub record_change :
    Option (DaemonState × DaemonState)
    → List (DaemonState × DaemonState)
    → List (DaemonState × DaemonState)
record_change none cs = cs
record_change (some c) cs = c ∷ cs

module _ {V : Type 0} where
  unfoldable pub advance : Bool → System V → ℕ → Option (Pc V) → System V
  advance spurious s i none = s
  advance spurious s i (some pc) =
      let e = act s.set_cb s.set_alarm spurious pc s.state in
      record s {
        threads = set s.threads i e.pc;
        state = e.state;
        changes = record_change e.change s.changes;
        notices = e.notices ++ s.notices;
      }

  -- The thread `i` makes its next atomic operation.
  unfoldable pub step : System V → ℕ × Bool → System V
  step s (i, spurious) = advance spurious s i (get_elem? s.threads i)

  unfoldable pub run : System V → List (ℕ × Bool) → System V
  run s [] = s
  run s (c ∷ cs) = run (step s c) cs
