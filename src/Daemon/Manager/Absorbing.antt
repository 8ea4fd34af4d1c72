-- ===== src/Daemon/Manager/Absorbing.antt =====
-- SHUTDOWN in src/StateManager.cpp: it is final unless a call of `halt` is between its two atomic
-- operations.
use edge_ipc_daemon.Prelude.{
  ℕ, zero, suc, Bool, true, false, List, [], ◌∷◌, Option, none, some, ◌≡◌, refl, arith, get_elem?,
  set,
}
use edge_ipc_daemon.Daemon.State.{idle, running, fault, shutdown}
use edge_ipc_daemon.Daemon.Manager.{
  Pc, System, start_load, start_swap, halt_load, halt_swap, fault_swap, shutdown_swap, notify,
  raise, returned, threw, try_start, act, advance, step, run,
}

module _ {V : Type 0} where
  abbrev pub in_halt : Pc V → Bool
  in_halt halt_swap = true
  in_halt _ = false

  -- No thread is between the two operations of `halt`.
  abbrev pub NoneInHalt : List (Pc V) → Type 0
  NoneInHalt [] = Unit {0}
  NoneInHalt (pc ∷ pcs) = (in_halt pc ≡ false) × NoneInHalt pcs

  pub set-NoneInHalt :
      (pcs : List (Pc V)) (i : ℕ) (pc : Pc V)
      → NoneInHalt pcs
      → in_halt pc ≡ false
      → NoneInHalt (set pcs i pc)
  set-NoneInHalt [] i pc h e = tt
  set-NoneInHalt (p ∷ pcs) zero pc h e = (e, h.1)
  set-NoneInHalt (p ∷ pcs) (suc i) pc h e = (h.0, set-NoneInHalt pcs i pc h.1 e)

  pub get-in_halt :
      (pcs : List (Pc V)) (i : ℕ) {pc : Pc V}
      → NoneInHalt pcs
      → get_elem? pcs i ≡ some pc
      → in_halt pc ≡ false
  get-in_halt [] i h e = cc
  get-in_halt (p ∷ pcs) zero h e = ground arith
  get-in_halt (p ∷ pcs) (suc i) h e = get-in_halt pcs i h.1 e

  -- What an operation does in SHUTDOWN, other than the second one of `halt`.
  act-final :
      (a b spurious : Bool) (pc : Pc V)
      → in_halt pc ≡ false
      → let e = act a b spurious pc shutdown in (e.state ≡ shutdown) × (in_halt e.pc ≡ false)
  unfolding act try_start
  act-final a b spurious start_load h = (refl, refl)
  act-final a b spurious (start_swap idle) h = (refl, refl)
  act-final a b spurious (start_swap running) h = (refl, refl)
  act-final a b spurious (start_swap fault) h = (refl, refl)
  act-final a b spurious (start_swap shutdown) h = (refl, refl)
  act-final a b spurious halt_load h = (refl, refl)
  act-final a b spurious halt_swap h = cc
  act-final a b spurious (fault_swap alarm) h = (refl, refl)
  act-final a b spurious shutdown_swap h = (refl, refl)
  act-final a b spurious (notify next prev none) h = (refl, refl)
  act-final a b spurious (notify next prev (some alarm)) h = (refl, refl)
  act-final a b spurious (raise alarm) h = (refl, refl)
  act-final a b spurious returned h = (refl, refl)
  act-final a b spurious (threw e) h = (refl, refl)

  abbrev Final : System V → Type 0
  Final s = (s.state ≡ shutdown) × NoneInHalt s.threads

  advance-Final :
      (spurious : Bool) (s : System V) (i : ℕ) (pc : Option (Pc V))
      → get_elem? s.threads i ≡ pc
      → Final s
      → Final (advance spurious s i pc)
  unfolding advance
  advance-Final spurious s i none e h = h
  advance-Final spurious s i (some pc) e h =
      let keeps = act-final s.set_cb s.set_alarm spurious pc (get-in_halt s.threads i h.1 e) in
      rw h.0 (keeps.0, set-NoneInHalt s.threads i _ h.1 keeps.1)

  run-Final : (s : System V) (schedule : List (ℕ × Bool)) → Final s → Final (run s schedule)
  unfolding run step
  run-Final s [] h = h
  run-Final s ((i, spurious) ∷ cs) h =
      run-Final (step s (i, spurious)) cs
        (advance-Final spurious s i (get_elem? s.threads i) refl h)

  -- Once the state is SHUTDOWN and no thread is between the two operations of `halt`, it stays
  -- SHUTDOWN under every schedule of the threads, calls of `start`, `halt`, `fault` and `shutdown`
  -- that have yet to begin included.
  pub run_shutdown :
      (s : System V) (schedule : List (ℕ × Bool))
      → s.state ≡ shutdown
      → NoneInHalt s.threads
      → (run s schedule).state ≡ shutdown
  run_shutdown s schedule e h = (run-Final s schedule (e, h)).0

  -- A call of `halt` that read the state before a call of `shutdown` changed it leads from SHUTDOWN
  -- back to IDLE, and any thread may then start the daemon again.
  pub halt_undoes_shutdown :
      (s : System V) (i : ℕ) (spurious : Bool)
      → s.state ≡ shutdown
      → get_elem? s.threads i ≡ some halt_swap
      → (step s (i, spurious)).state ≡ idle
  unfolding step advance act
  halt_undoes_shutdown s i spurious e h = rw h refl
