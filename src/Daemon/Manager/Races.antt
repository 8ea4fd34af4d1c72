-- ===== src/Daemon/Manager/Races.antt =====
-- The race of `halt` and `shutdown` of src/StateManager.cpp: whether a schedule has it.
use edge_ipc_daemon.Prelude.{
  ℕ, Bool, true, false, not, ◌&&◌, ◌||◌, List, [], ◌∷◌, Option, none, some, ◌≡◌, refl, ◌⊎◌, inl,
  inr, arith, get_elem?, set, Bool-cases,
}
use edge_ipc_daemon.Daemon.State.{DaemonState, idle, running, fault, shutdown, same}
use edge_ipc_daemon.Daemon.Manager.{
  Pc, System, start_load, start_swap, halt_load, halt_swap, fault_swap, shutdown_swap, notify,
  raise, returned, threw, try_start, act, advance, step,
}
use edge_ipc_daemon.Daemon.Manager.Absorbing.{in_halt, NoneInHalt, set-NoneInHalt, get-in_halt}

module _ {V : Type 0} where
  abbrev pub any_in_halt : List (Pc V) → Bool
  any_in_halt [] = false
  any_in_halt (pc ∷ pcs) = in_halt pc || any_in_halt pcs

  abbrev pub shuts_down : Option (Pc V) → Bool
  shuts_down (some shutdown_swap) = true
  shuts_down _ = false

  -- A call of `shutdown` stores while a call of `halt` is between its load and its store.
  abbrev pub races : System V → List (ℕ × Bool) → Bool
  races s [] = false
  races s ((i, spurious) ∷ cs) =
      (shuts_down (get_elem? s.threads i) && any_in_halt s.threads)
      || races (step s (i, spurious)) cs

  -- As long as there was no race: in SHUTDOWN, no thread is between the operations of `halt`.
  abbrev pub Held : DaemonState → List (Pc V) → Type 0
  Held state threads = (same state shutdown ≡ false) ⊎ NoneInHalt threads

  none_in_halt : (pcs : List (Pc V)) → any_in_halt pcs ≡ false → NoneInHalt pcs
  none_in_halt [] h = tt
  none_in_halt (pc ∷ pcs) h = (ground arith, none_in_halt pcs (ground arith))

  keeps-Held :
      (state : DaemonState) (threads : List (Pc V)) (i : ℕ) (pc : Pc V)
      → in_halt pc ≡ false
      → Held state threads
      → Held state (set threads i pc)
  keeps-Held state threads i pc e (inl open_state) = inl open_state
  keeps-Held state threads i pc e (inr h) = inr (set-NoneInHalt threads i pc h e)

  try_start-Held :
      (spurious : Bool) (prev state : DaemonState) (threads : List (Pc V)) (i : ℕ)
      → Held state threads
      → let e = try_start {V = V} spurious prev state in Held e.state (set threads i e.pc)
  unfolding try_start
  try_start-Held spurious running state threads i h = keeps-Held state threads i _ refl h
  try_start-Held spurious shutdown state threads i h = keeps-Held state threads i _ refl h
  try_start-Held spurious idle state threads i h =
      elim (Bool-cases (same idle state && not spurious)) [
        | inl won ↦ rw won (inl refl)
        | inr lost ↦ rw lost (keeps-Held state threads i _ refl h)
      ]
  try_start-Held spurious fault state threads i h =
      elim (Bool-cases (same fault state && not spurious)) [
        | inl won ↦ rw won (inl refl)
        | inr lost ↦ rw lost (keeps-Held state threads i _ refl h)
      ]

  act-Held :
      (a b spurious : Bool) (pc : Pc V) (state : DaemonState) (threads : List (Pc V)) (i : ℕ)
      → (shuts_down (some pc) && any_in_halt threads) ≡ false
      → Held state threads
      → let e = act a b spurious pc state in Held e.state (set threads i e.pc)
  unfolding act
  act-Held a b spurious start_load state threads i calm h = keeps-Held state threads i _ refl h
  act-Held a b spurious (start_swap prev) state threads i calm h =
      try_start-Held spurious prev state threads i h
  act-Held a b spurious halt_load idle threads i calm h = inl refl
  act-Held a b spurious halt_load running threads i calm h = inl refl
  act-Held a b spurious halt_load fault threads i calm h = inl refl
  act-Held a b spurious halt_load shutdown threads i calm h = keeps-Held shutdown threads i _ refl h
  act-Held a b spurious halt_swap state threads i calm h = inl refl
  act-Held a b spurious (fault_swap alarm) idle threads i calm h = inl refl
  act-Held a b spurious (fault_swap alarm) running threads i calm h = inl refl
  act-Held a b spurious (fault_swap alarm) fault threads i calm h = inl refl
  act-Held a b spurious (fault_swap alarm) shutdown threads i calm h =
      keeps-Held shutdown threads i _ refl h
  act-Held a b spurious shutdown_swap state threads i calm h =
      inr (set-NoneInHalt threads i _ (none_in_halt threads calm) refl)
  act-Held a b spurious (notify next prev none) state threads i calm h =
      keeps-Held state threads i _ refl h
  act-Held a b spurious (notify next prev (some alarm)) state threads i calm h =
      keeps-Held state threads i _ refl h
  act-Held a b spurious (raise alarm) state threads i calm h = keeps-Held state threads i _ refl h
  act-Held a b spurious returned state threads i calm h = keeps-Held state threads i _ refl h
  act-Held a b spurious (threw e) state threads i calm h = keeps-Held state threads i _ refl h

  pub advance-Held :
      (spurious : Bool) (s : System V) (i : ℕ) (pc : Option (Pc V))
      → (shuts_down pc && any_in_halt s.threads) ≡ false
      → Held s.state s.threads
      → let t = advance spurious s i pc in Held t.state t.threads
  unfolding advance
  advance-Held spurious s i none calm h = h
  advance-Held spurious s i (some pc) calm h =
      act-Held s.set_cb s.set_alarm spurious pc s.state s.threads i calm h

  -- What a call of `halt` that is about to store finds.
  pub halt_swap-Held :
      (s : System V) (i : ℕ)
      → get_elem? s.threads i ≡ some halt_swap
      → Held s.state s.threads
      → same s.state shutdown ≡ false
  halt_swap-Held s i e (inl open_state) = open_state
  halt_swap-Held s i e (inr h) = let none_there : true ≡ false = get-in_halt s.threads i h e in cc
