-- ===== src/Hil/Kernel/Steps.antt =====
-- A call of `solver_top` against `VscNetwork::step`.
use mathlib.Core.Option
use edge_ipc_daemon.Prelude.{
  ℕ, zero, suc, ◌+◌, ◌≤◌, ◌<◌, ◌≡◌, refl, ap, ◌∙◌, true, arith, ◌==◌, map, List, [], ◌∷◌, Option,
  none, some,
}
use edge_ipc_daemon.Hil.Num.{Num, Trig}
use edge_ipc_daemon.Hil.Lu.{apply_pivots, lu_solve}
use edge_ipc_daemon.Hil.Network.{State, VscNetwork, injections, advance}
use edge_ipc_daemon.Hil.Kernel.Solve.{kernel_solve-lu_solve}
use edge_ipc_daemon.Hil.Network.{too_high, refresh, step}
use edge_ipc_daemon.Hil.Kernel.{
  AxisState, Bram, Literals, kernel_solve, norton_update, emit_states, solver_top,
}
use edge_ipc_daemon.Hil.Kernel.Phases.{
  registers, SameHistory, SameGrid, norton_update-injections, update_history-update_phase,
}

module _ (num : Num) (trig : Trig num) (tiny : num.Value) where
  open num use {Value, nil, one, add, sub, mul, div, neg}

  -- The kernel holds the factors of the network; its `piv` is the order of the rows, written out.
  pub record Loaded (net : VscNetwork num trig tiny) (m : Bram num) : Type 0 where
    pub lower : (r c : ℕ) → c < r → m.l r c ≡ net.lu r c
    pub upper : (r c : ℕ) → r ≤ c → m.u r c ≡ net.lu r c
    pub order :
        (b : ℕ → Value) (i : ℕ) → i < 9 → b (m.piv i) ≡ apply_pivots num tiny net.piv 0 9 b i

  -- The voltages, the histories and the time are the same.
  pub record SameState (s : State num trig tiny) (m : Bram num) : Type 0 where
    pub voltages : (i : ℕ) → i < 9 → m.v i ≡ s.v i
    pub histories : SameHistory num trig tiny s m.hist
    pub times : m.t ≡ s.t

  module _ (c : Literals num) (rest : ℕ → Value) (net : VscNetwork num trig tiny)
      (grid : SameGrid num trig tiny c net.p) where
    solver_top-advance :
        (s : State num trig tiny) (m : Bram num) (gate : ℕ)
        → Loaded net m
        → SameState s m
        → SameState
            (advance num trig tiny net s gate)
            (solver_top num trig c rest m gate (registers num trig tiny net.p)).0
    unfolding advance solver_top registers
    solver_top-advance s m gate loaded same =
        let inputs : norton_update num trig c m.hist gate m.t (registers num trig tiny net.p)
            ≡ injections num trig tiny net.p s gate =
          ap (λ t. norton_update num trig c m.hist gate t (registers num trig tiny net.p))
            same.times
          ∙ norton_update-injections num trig tiny c net.p grid s m.hist gate same.histories in
        let agree = λ (j : ℕ) (h : j < 9).
          ap (λ b. kernel_solve num m.l m.u m.piv b rest j) inputs
          ∙ kernel_solve-lu_solve num tiny net.lu m.l m.u m.piv net.piv
              (injections num trig tiny net.p s gate) rest (λ i. nil) loaded.lower loaded.upper
              (loaded.order (injections num trig tiny net.p s gate)) j h in
        let w =
          lu_solve num tiny 9 net.lu net.piv (injections num trig tiny net.p s gate) (λ i. nil) in
        let s' : State num trig tiny = record s {
          gate = gate;
          fault = too_high num trig tiny net.p w 0 9;
        } in
        let ready : SameHistory num trig tiny s' m.hist = record {
          lf = same.histories.lf;
          cf = same.histories.cf;
          lgrid = same.histories.lgrid;
        } in
        let new =
          update_history-update_phase num trig tiny c net.p grid
            (kernel_solve num m.l m.u m.piv
              (norton_update num trig c m.hist gate m.t (registers num trig tiny net.p)) rest)
            w s' m.hist rest agree ready in
        record {
          voltages = agree;
          histories = record { lf = new.lf; cf = new.cf; lgrid = new.lgrid };
          times = ap (λ t. add t net.p.dt) same.times;
        }

    solver_top-Loaded :
        (m : Bram num) (gate : ℕ)
        → Loaded net m
        → Loaded net (solver_top num trig c rest m gate (registers num trig tiny net.p)).0
    unfolding solver_top
    solver_top-Loaded m gate loaded = record {
      lower = loaded.lower;
      upper = loaded.upper;
      order = loaded.order;
    }

    emit_states_congr :
        (left i : ℕ) (v w : ℕ → Value)
        → i + left ≤ 9
        → ((j : ℕ) → j < 9 → v j ≡ w j)
        → emit_states num v i left ≡ emit_states num w i left
    unfolding emit_states
    emit_states_congr zero i v w h agree = refl
    emit_states_congr (suc left) i v w h agree =
        ap (λ x. record { value = x; last = i == 8 } ∷ emit_states num v (suc i) left)
          (agree i (omega arith))
        ∙ ap (λ xs. record { value = w i; last = i == 8 } ∷ xs)
            (emit_states_congr left (suc i) v w (omega arith) agree)

    -- Some steps of the reference with one gate state, and some calls of the kernel.
    unfoldable pub steps : State num trig tiny → ℕ → ℕ → Option (List (State num trig tiny))
    steps s gate zero = some []
    steps s gate (suc n) = elim (step num trig tiny net s gate) [
      | none ↦ none
      | some (t, again) ↦ Option.map (λ ts. t ∷ ts) (steps t gate n)
    ]

    unfoldable pub calls : Bram num → ℕ → ℕ → List (List (AxisState num))
    calls m gate zero = []
    calls m gate (suc n) =
        let r = solver_top num trig c rest m gate (registers num trig tiny net.p) in
        r.1 ∷ calls r.0 gate n

    step_ready :
        (s : State num trig tiny) (gate : ℕ)
        → (gate == net.gate_factored) ≡ true
        → step num trig tiny net s gate ≡ some (advance num trig tiny net s gate, net)
    unfolding step advance
    step_ready s gate h =
        let e : refresh num trig tiny net gate ≡ some net = unfold refresh in rw h refl in
        rw (e, step) refl

    -- The stream holds the new voltages.
    emitted :
        (m : Bram num) (gate : ℕ)
        → let r = solver_top num trig c rest m gate (registers num trig tiny net.p) in
          r.1 ≡ emit_states num r.0.v 0 9
    unfolding solver_top
    emitted m gate = refl

    -- With the gate state that the factors were made for, the kernel's calls give the voltages of
    -- the reference, element by element and with the last one marked, for any number of steps, none
    -- of which throws. The kernel starts with the voltages, histories and time of the reference and
    -- holds its factors, with the order of the rows written out. The grid of the reference is the one
    -- that the kernel's literals are for: 230 V at 50 Hz, the root of two with the digits of
    -- 1.41421356237, and one value of pi.
    pub calls-steps :
        (s : State num trig tiny) (m : Bram num) (gate n : ℕ)
        → (gate == net.gate_factored) ≡ true
        → Loaded net m
        → SameState s m
        → (ts : List (State num trig tiny)) × (steps s gate n ≡ some ts)
          × (calls m gate n ≡ map (λ t. emit_states num t.v 0 9) ts)
    unfolding steps calls
    calls-steps s m gate zero h loaded same = ([], refl, refl)
    calls-steps s m gate (suc n) h loaded same =
        let t = advance num trig tiny net s gate in
        let r = solver_top num trig c rest m gate (registers num trig tiny net.p) in
        let next = solver_top-advance s m gate loaded same in
        let (ts, e, c) = calls-steps t r.0 gate n h (solver_top-Loaded m gate loaded) next in
        (
          t ∷ ts,
          rw (step_ready s gate h, steps) (rw e refl),
          ap (λ xs. r.1 ∷ xs) c
              ∙ ap (λ (x : List (AxisState num)). x ∷ map (λ t. emit_states num t.v 0 9) ts)
                  (emitted m gate ∙ emit_states_congr 9 0 r.0.v t.v (omega arith) next.voltages),
        )
