-- ===== src/Daemon/Manager/History.antt =====
-- The changes of the state under every interleaving of the callers of src/StateManager.cpp.
use edge_ipc_daemon.Prelude.{
  ℕ, Bool, true, false, ◌||◌, List, [], ◌∷◌, Option, none, some, ◌≡◌, refl, ◌⊎◌, inl, inr, arith,
  get_elem?, Bool-cases, ◌&&◌, not,
}
use edge_ipc_daemon.Daemon.State.{DaemonState, idle, running, fault, shutdown, same, same_sound}
use edge_ipc_daemon.Daemon.Manager.{
  Pc, Effect, System, start_load, start_swap, halt_load, halt_swap, fault_swap, shutdown_swap,
  notify, raise, returned, threw, try_start, act, advance, step, run, record_change,
}
use edge_ipc_daemon.Daemon.Manager.Absorbing.{in_halt}
use edge_ipc_daemon.Daemon.Manager.Races.{
  Held, races, any_in_halt, shuts_down, advance-Held, halt_swap-Held,
}

-- A change that include/StateManager.h allows: to RUNNING from IDLE or FAULT, to FAULT from
-- RUNNING, to SHUTDOWN from everywhere, and to IDLE from everywhere but SHUTDOWN; after a race, from
-- SHUTDOWN too.
abbrev pub Allowed : Bool → DaemonState → DaemonState → Type 0
Allowed raced running prev = (prev ≡ idle) ⊎ (prev ≡ fault)
Allowed raced fault prev = prev ≡ running
Allowed raced idle prev = (same prev shutdown && not raced) ≡ false
Allowed raced shutdown prev = Unit {0}

-- The changes lead from IDLE to the state, each from where the one before it led.
abbrev pub Chain : Bool → DaemonState → List (DaemonState × DaemonState) → Type 0
Chain raced state [] = state ≡ idle
Chain raced state ((next, prev) ∷ cs) =
    (next ≡ state) × Allowed raced next prev × Chain raced prev cs

abbrev Extends : {V : Type 0} → Bool → List (DaemonState × DaemonState) → Effect V → Type 0
Extends raced cs e = Chain raced e.state (record_change e.change cs)

try_start-Extends :
    (V : Type 0) (raced spurious : Bool) (prev state : DaemonState)
    (cs : List (DaemonState × DaemonState))
    → Chain raced state cs
    → Extends raced cs (try_start {V = V} spurious prev state)
unfolding try_start
try_start-Extends V raced spurious running state cs h = h
try_start-Extends V raced spurious shutdown state cs h = h
try_start-Extends V raced spurious idle state cs h =
    elim (Bool-cases (same idle state && not spurious)) [
      | inl won ↦ rw won (refl, inl refl, rw (same_sound idle state (ground arith)) h)
      | inr lost ↦ rw lost h
    ]
try_start-Extends V raced spurious fault state cs h =
    elim (Bool-cases (same fault state && not spurious)) [
      | inl won ↦ rw won (refl, inr refl, rw (same_sound fault state (ground arith)) h)
      | inr lost ↦ rw lost h
    ]

module _ {V : Type 0} (raced : Bool) where
  act-Extends :
      (a b spurious : Bool) (pc : Pc V) (state : DaemonState)
      (cs : List (DaemonState × DaemonState))
      → (in_halt pc && same state shutdown && not raced) ≡ false
      → Chain raced state cs
      → Extends raced cs (act a b spurious pc state)
  unfolding act
  act-Extends a b spurious start_load state cs k h = h
  act-Extends a b spurious (start_swap prev) state cs k h =
      try_start-Extends V raced spurious prev state cs h
  act-Extends a b spurious halt_load state cs k h = h
  act-Extends a b spurious halt_swap state cs k h = (refl, k, h)
  act-Extends a b spurious (fault_swap alarm) idle cs k h = h
  act-Extends a b spurious (fault_swap alarm) running cs k h = (refl, refl, h)
  act-Extends a b spurious (fault_swap alarm) fault cs k h = h
  act-Extends a b spurious (fault_swap alarm) shutdown cs k h = h
  act-Extends a b spurious shutdown_swap state cs k h = (refl, tt, h)
  act-Extends a b spurious (notify next prev alarm) state cs k h = h
  act-Extends a b spurious (raise alarm) state cs k h = h
  act-Extends a b spurious returned state cs k h = h
  act-Extends a b spurious (threw e) state cs k h = h

  -- After a race anything may be; before it the threads are held back.
  abbrev Ready : Bool → System V → Type 0
  Ready true s = Unit {0}
  Ready false s = Held s.state s.threads

  halts_open :
      (s : System V) (i : ℕ) (pc : Pc V)
      → get_elem? s.threads i ≡ some pc
      → Held s.state s.threads
      → (in_halt pc && same s.state shutdown) ≡ false
  halts_open s i halt_swap e h = halt_swap-Held s i e h
  halts_open s i start_load e h = refl
  halts_open s i (start_swap prev) e h = refl
  halts_open s i halt_load e h = refl
  halts_open s i (fault_swap alarm) e h = refl
  halts_open s i shutdown_swap e h = refl
  halts_open s i (notify next prev alarm) e h = refl
  halts_open s i (raise alarm) e h = refl
  halts_open s i returned e h = refl
  halts_open s i (threw x) e h = refl

  stores_open :
      (s : System V) (i : ℕ) (pc : Pc V)
      → get_elem? s.threads i ≡ some pc
      → Ready raced s
      → (in_halt pc && same s.state shutdown && not raced) ≡ false
  stores_open s i pc e h =
      elim raced as (λ r. Ready r s → (in_halt pc && same s.state shutdown && not r) ≡ false) [
        | true ↦ λ _. ground arith
        | false ↦ λ held.
            let free : (in_halt pc && same s.state shutdown) ≡ false = halts_open s i pc e held in
            ground arith
      ]
        h

  advance-Chain :
      (spurious : Bool) (s : System V) (i : ℕ) (pc : Option (Pc V))
      → get_elem? s.threads i ≡ pc
      → Ready raced s
      → Chain raced s.state s.changes
      → let t = advance spurious s i pc in Chain raced t.state t.changes
  unfolding advance
  advance-Chain spurious s i none e r h = h
  advance-Chain spurious s i (some pc) e r h =
      act-Extends s.set_cb s.set_alarm spurious pc s.state s.changes (stores_open s i pc e r) h

module _ {V : Type 0} where
  advance-Ready :
      (raced spurious : Bool) (s : System V) (i : ℕ) (rest : Bool)
      → (((shuts_down (get_elem? s.threads i) && any_in_halt s.threads) || rest) && not raced)
        ≡ false
      → Ready raced raced s
      → Ready raced raced (advance spurious s i (get_elem? s.threads i))
  advance-Ready true spurious s i rest calm h = tt
  advance-Ready false spurious s i rest calm h =
      advance-Held spurious s i (get_elem? s.threads i) (ground arith) h

  run-Chain_from :
      (raced : Bool) (s : System V) (schedule : List (ℕ × Bool))
      → (races s schedule && not raced) ≡ false
      → Ready raced raced s
      → Chain raced s.state s.changes
      → let t = run s schedule in Chain raced t.state t.changes
  unfolding run step
  run-Chain_from raced s [] calm r h = h
  run-Chain_from raced s ((i, spurious) ∷ cs) calm r h =
      run-Chain_from raced (step s (i, spurious)) cs (ground arith)
        (advance-Ready raced spurious s i (races (step s (i, spurious)) cs) calm r)
        (advance-Chain raced spurious s i (get_elem? s.threads i) refl r h)

  new-Ready : (raced : Bool) (s : System V) → s.state ≡ idle → Ready raced raced s
  new-Ready true s e = tt
  new-Ready false s e = rw e (inl refl)

  -- From a new machine, under every interleaving of the atomic operations of any threads and with any
  -- spurious failures: each change of the state starts where the one before it ended, the first from
  -- IDLE, and is one that is allowed. `start` leads from IDLE or FAULT to RUNNING, `fault` from
  -- RUNNING to FAULT, `shutdown` from anywhere to SHUTDOWN, and `halt` from anywhere but SHUTDOWN to
  -- IDLE. Only if, somewhere in the schedule, a `shutdown` stores while a thread stands between the
  -- load and the store of `halt`, a change may lead from SHUTDOWN to IDLE.
  pub run-Chain :
      (s : System V) (schedule : List (ℕ × Bool))
      → s.state ≡ idle
      → s.changes ≡ []
      → let t = run s schedule in Chain (races s schedule) t.state t.changes
  run-Chain s schedule e new =
      run-Chain_from (races s schedule) s schedule (ground arith) (new-Ready (races s schedule) s e)
        (rw new e)
