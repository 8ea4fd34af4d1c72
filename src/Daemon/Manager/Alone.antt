-- ===== src/Daemon/Manager/Alone.antt =====
-- What the calls of src/StateManager.cpp do when no other thread interferes.
use edge_ipc_daemon.Prelude.{
  ℕ, zero, suc, refl, ap, ◌∙◌, Bool, true, false, List, [], ◌∷◌, ◌++◌, ◌≡◌, arith, replicate,
  if◌then◌else◌,
}
use edge_ipc_daemon.Daemon.State.{DaemonState, idle, running, fault, shutdown}
use edge_ipc_daemon.Daemon.Manager.{
  Pc, Alarm, Notice, state_changed, alarm_raised, System, start_load, halt_load, fault_swap,
  shutdown_swap, returned, threw, try_start, act, advance, step, run,
}

-- The four calls of the class.
pub data Call (V : Type 0) : Type 0 where
  start : Call V
  halt : Call V
  faults : Alarm V → Call V
  shuts_down : Call V

-- The operations of thread 0 alone, without spurious failures.
abbrev pub rounds : ℕ → List (ℕ × Bool)
rounds n = replicate n (0, false)

-- Failures for no reason of `compare_exchange_weak`.
abbrev pub failures : ℕ → List (ℕ × Bool)
failures n = replicate n (0, true)

module _ {V : Type 0} where
  -- The first operation of a call.
  abbrev pub entry : Call V → Pc V
  entry start = start_load
  entry halt = halt_load
  entry (faults alarm) = fault_swap alarm
  entry shuts_down = shutdown_swap

  -- The calls of the callbacks for a change of the state, latest first.
  abbrev reported : Bool → DaemonState → DaemonState → List (Notice V)
  reported set_cb next prev = if set_cb then state_changed next prev ∷ [] else []

  abbrev raised : Bool → Alarm V → List (Notice V)
  raised set_alarm alarm = if set_alarm then alarm_raised alarm ∷ [] else []

  -- What include/StateManager.h says of a call: how it ends, the state, and the notices.
  abbrev pub promised : Bool → Bool → Call V → DaemonState → Pc V × DaemonState × List (Notice V)
  promised set_cb set_alarm start idle = (returned, running, reported set_cb running idle)
  promised set_cb set_alarm start fault = (returned, running, reported set_cb running fault)
  promised set_cb set_alarm start running = (threw running, running, [])
  promised set_cb set_alarm start shutdown = (threw shutdown, shutdown, [])
  promised set_cb set_alarm halt shutdown = (returned, shutdown, [])
  promised set_cb set_alarm halt state = (returned, idle, reported set_cb idle state)
  promised set_cb set_alarm (faults alarm) running =
      (returned, fault, raised set_alarm alarm ++ reported set_cb fault running)
  promised set_cb set_alarm (faults alarm) state = (returned, state, [])
  promised set_cb set_alarm shuts_down state = (returned, shutdown, reported set_cb shutdown state)

  abbrev pub alone : Bool → Bool → Call V → DaemonState → System V
  alone set_cb set_alarm call state = record {
    set_cb = set_cb;
    set_alarm = set_alarm;
    threads = entry call ∷ [];
    state = state;
    changes = [];
    notices = [];
  }

  -- What `run-alone` says of a system.
  abbrev pub Ends : Bool → Bool → Call V → DaemonState → System V → Type 0
  Ends set_cb set_alarm call state s =
      let (pc, next, notices) = promised set_cb set_alarm call state in
      (s.threads ≡ pc ∷ []) × (s.state ≡ next) × (s.notices ≡ notices)

  -- Without spurious failures.
  pub run-alone_first :
      (set_cb set_alarm : Bool) (call : Call V) (state : DaemonState)
      → Ends set_cb set_alarm call state (run (alone set_cb set_alarm call state) (rounds 4))
  unfolding run step advance act try_start
  run-alone_first a b start idle = ground arith
  run-alone_first a b start running = ground arith
  run-alone_first a b start fault = ground arith
  run-alone_first a b start shutdown = ground arith
  run-alone_first a b halt idle = ground arith
  run-alone_first a b halt running = ground arith
  run-alone_first a b halt fault = ground arith
  run-alone_first a b halt shutdown = ground arith
  run-alone_first a b (faults alarm) idle = ground arith
  run-alone_first a b (faults alarm) running = ground arith
  run-alone_first a b (faults alarm) fault = ground arith
  run-alone_first a b (faults alarm) shutdown = ground arith
  run-alone_first a b shuts_down idle = ground arith
  run-alone_first a b shuts_down running = ground arith
  run-alone_first a b shuts_down fault = ground arith
  run-alone_first a b shuts_down shutdown = ground arith

  run-failures :
      (s : System V) (n : ℕ)
      → step s (0, true) ≡ s
      → (rest : List (ℕ × Bool)) → run s (failures n ++ rest) ≡ run s rest
  unfolding run
  run-failures s zero e rest = refl
  run-failures s (suc n) e rest = ap (λ t. run t (failures n ++ rest)) e ∙ run-failures s n e rest

  -- Four operations; `start`, which alone calls `compare_exchange_weak`, tries it again after so many
  -- spurious failures.
  abbrev pub operations : Call V → ℕ → List (ℕ × Bool)
  operations start n = (0, false) ∷ (failures n ++ rounds 3)
  operations call n = rounds 4

  after_failures :
      (call : Call V) (set_cb set_alarm : Bool) (state : DaemonState) (s : System V) (n : ℕ)
      → step s (0, true) ≡ s
      → Ends set_cb set_alarm call state (run s (rounds 3))
      → Ends set_cb set_alarm call state (run s (failures n ++ rounds 3))
  after_failures call a b state s n e h = rw (run-failures s n e (rounds 3)) h

  -- A call that no other thread interferes with ends as include/StateManager.h says, within four
  -- operations and, in `start`, the spurious failures of its `compare_exchange_weak`, however many there
  -- are: `start` leads from IDLE and FAULT to RUNNING and throws in the other two states, `halt`
  -- leads to IDLE and does nothing in SHUTDOWN, `fault` leads from RUNNING to FAULT and does nothing in
  -- the other states, `shutdown` leads to SHUTDOWN; each change of the state calls the state callback
  -- once, if it is set, and a fault calls the alarm callback after it.
  pub run-alone :
      (set_cb set_alarm : Bool) (call : Call V) (state : DaemonState) (n : ℕ)
      → Ends set_cb set_alarm call state
          (run (alone set_cb set_alarm call state) (operations call n))
  unfolding run step advance act try_start
  run-alone a b start idle n =
      after_failures start a b idle _ n refl (run-alone_first a b start idle)
  run-alone a b start fault n =
      after_failures start a b fault _ n refl (run-alone_first a b start fault)
  run-alone a b start running zero = run-alone_first a b start running
  run-alone a b start running (suc n) = after_failures start a b running _ n refl (refl, refl, refl)
  run-alone a b start shutdown zero = run-alone_first a b start shutdown
  run-alone a b start shutdown (suc n) =
      after_failures start a b shutdown _ n refl (refl, refl, refl)
  run-alone a b halt state n = run-alone_first a b halt state
  run-alone a b (faults alarm) state n = run-alone_first a b (faults alarm) state
  run-alone a b shuts_down state n = run-alone_first a b shuts_down state
