-- ===== src/Hil/Network.antt =====
-- fpga_power_electronics_hil/vsc_solver/: VscNetwork, the reference solver. The snubber capacitors
-- appear in no formula and are left out.
use edge_ipc_daemon.Prelude.{
  ℕ, zero, suc, ◌+◌, ◌*◌, Bool, true, false, ◌&&◌, not, Option, none, some, if◌then◌else◌, ◌==◌,
}
use edge_ipc_daemon.Hil.Num.{Num, Trig, set_at, plus_at, minus_at, for_phases, bit_on}
use edge_ipc_daemon.Hil.Lu.{Matrix, lu_factor, lu_solve, abs_value}
use edge_ipc_daemon.Hil.Norton.{make_inductor, make_capacitor, inductor_history, capacitor_history}

module _ (num : Num) (trig : Trig num) (tiny : num.Value) where
  open num use {Value, nil, one, two, add, sub, mul, div, neg, less}

  pub record SolverParams : Type 0 where
    pub dt : Value
    pub l_f : Value
    pub r_f : Value
    pub c_f : Value
    pub l_grid : Value
    pub r_grid : Value
    pub v_dc : Value
    pub v_grid_rms : Value
    pub f_grid : Value
    pub g_on : Value
    pub g_off : Value
    pub v_rated : Value
    pub r_src : Value

  pub record State : Type 0 where
    pub v : ℕ → Value
    pub i_lf : ℕ → Value
    pub i_cf : ℕ → Value
    pub i_lgrid : ℕ → Value
    pub i_lf_hist : ℕ → Value
    pub i_cf_hist : ℕ → Value
    pub i_lgrid_hist : ℕ → Value
    pub t : Value
    pub gate : ℕ
    pub fault : Bool

  pub record VscNetwork : Type 0 where
    pub p : SolverParams
    pub g : Matrix num tiny
    pub lu : Matrix num tiny
    pub piv : ℕ → ℕ
    pub gate_factored : ℕ

  -- `G[i][j] += v` and `G[i][j] -= v`.
  abbrev add_cell : Matrix num tiny → ℕ → ℕ → Value → Matrix num tiny
  add_cell a i j v r c = if r == i && c == j then add (a i j) v else a r c

  abbrev sub_cell : Matrix num tiny → ℕ → ℕ → Value → Matrix num tiny
  sub_cell a i j v r c = if r == i && c == j then sub (a i j) v else a r c

  -- `none` is the node -1, the ground.
  unfoldable pub stamp : Matrix num tiny → ℕ → Option ℕ → Value → Matrix num tiny
  stamp a p none v = add_cell a p p v
  stamp a p (some m) v = sub_cell (sub_cell (add_cell (add_cell a p p v) m m v) p m v) m p v

  unfoldable pub switch : SolverParams → ℕ → ℕ → Value
  switch p gate bit = if bit_on gate bit then p.g_on else p.g_off

  -- The stamps of `assemble_and_factor`, in its order.
  unfoldable pub assemble : SolverParams → ℕ → Matrix num tiny
  assemble p gate =
      let lf = make_inductor num p.l_f p.r_f p.dt in
      let cf = make_capacitor num p.c_f p.dt in
      let lgrid = make_inductor num p.l_grid p.r_grid p.dt in
      let filters = for_phases (λ k a. stamp a k (some (k + 3)) lf.g_eq) (λ r c. nil) in
      let capacitors = for_phases (λ k a. stamp a (k + 3) none cf.g_c) filters in
      let lines = for_phases (λ k a. stamp a (k + 3) (some (k + 6)) lgrid.g_eq) capacitors in
      let sources = for_phases (λ k a. stamp a (k + 6) none (div one p.r_src)) lines in
      for_phases (λ k a. stamp a k none (add (switch p gate (2 * k)) (switch p gate (2 * k + 1))))
        sources

  -- `none` is the exception of a singular matrix.
  unfoldable pub assemble_and_factor : VscNetwork → ℕ → Option VscNetwork
  assemble_and_factor net gate = elim (lu_factor num tiny 9 (assemble net.p gate) net.piv) [
    | none ↦ none
    | some f ↦ some (record {
      p = net.p;
      g = assemble net.p gate;
      lu = f.lu;
      piv = f.pivot;
      gate_factored = gate;
    })
  ]

  -- The constructor; the arrays are zeros before it.
  unfoldable pub make : SolverParams → Option VscNetwork
  make p =
      assemble_and_factor
        (record { p = p; g = λ r c. nil; lu = λ r c. nil; piv = λ k. 0; gate_factored = 255 }) 0

  -- `v_src` of the phase `k`.
  unfoldable pub grid_source : SolverParams → ℕ → Value → Value
  grid_source p k t =
      let phase_offset = mul (trig.of_int k) (div (mul (neg two) trig.pi) trig.three) in
      mul (mul p.v_grid_rms trig.sqrt_two)
        (trig.sin (add (mul (mul (mul two trig.pi) p.f_grid) t) phase_offset))

  -- The round `k` of the assembly of `I_N`.
  unfoldable pub inject : SolverParams → State → ℕ → ℕ → (ℕ → Value) → ℕ → Value
  inject p s gate k i0 =
      let i1 = minus_at num i0 k (s.i_lf_hist k) in
      let i2 = plus_at num i1 (k + 3) (s.i_lf_hist k) in
      let i3 = minus_at num i2 (k + 3) (s.i_cf_hist k) in
      let i4 = minus_at num i3 (k + 3) (s.i_lgrid_hist k) in
      let i5 = plus_at num i4 (k + 6) (s.i_lgrid_hist k) in
      let i6 = plus_at num i5 (k + 6) (mul (div one p.r_src) (grid_source p k s.t)) in
      plus_at num i6 k (mul (switch p gate (2 * k)) p.v_dc)

  unfoldable pub injections : SolverParams → State → ℕ → ℕ → Value
  injections p s gate = for_phases (inject p s gate) (λ i. nil)

  -- The loop of the fault detection: is a voltage from the node `i` on too high?
  unfoldable pub too_high : SolverParams → (ℕ → Value) → ℕ → ℕ → Bool
  too_high p v i zero = false
  too_high p v i (suc left) =
      let later = too_high p v (suc i) left in
      if less (mul two p.v_rated) (abs_value num tiny (v i)) then true else later

  -- The round `k` of the update of the currents and their histories.
  unfoldable pub update_phase : SolverParams → (ℕ → Value) → ℕ → State → State
  update_phase p v k s =
      let lf = make_inductor num p.l_f p.r_f p.dt in
      let cf = make_capacitor num p.c_f p.dt in
      let lgrid = make_inductor num p.l_grid p.r_grid p.dt in
      let v_lf = sub (v k) (v (k + 3)) in
      let i_lf = add (mul lf.g_eq v_lf) (s.i_lf_hist k) in
      let i_cf = add (mul cf.g_c (v (k + 3))) (s.i_cf_hist k) in
      let v_lgrid = sub (v (k + 3)) (v (k + 6)) in
      let i_lgrid = add (mul lgrid.g_eq v_lgrid) (s.i_lgrid_hist k) in
      record s {
        i_lf = set_at num s.i_lf k i_lf;
        i_lf_hist = set_at num s.i_lf_hist k (inductor_history num lf i_lf v_lf);
        i_cf = set_at num s.i_cf k i_cf;
        i_cf_hist = set_at num s.i_cf_hist k (capacitor_history num cf i_cf (v (k + 3)));
        i_lgrid = set_at num s.i_lgrid k i_lgrid;
        i_lgrid_hist = set_at num s.i_lgrid_hist k (inductor_history num lgrid i_lgrid v_lgrid);
      }

  -- `step` once the factors are those of the gate; its result is the field `fault`.
  unfoldable pub advance : VscNetwork → State → ℕ → State
  advance net s gate =
      let v = lu_solve num tiny 9 net.lu net.piv (injections net.p s gate) (λ i. nil) in
      let updated =
        for_phases (update_phase net.p v)
          (record s { gate = gate; fault = too_high net.p v 0 9 }) in
      record updated { v = v; t = add s.t net.p.dt }

  -- `none` is the exception of a singular matrix.
  unfoldable pub refresh : VscNetwork → ℕ → Option VscNetwork
  refresh net gate =
      if not (gate == net.gate_factored) then assemble_and_factor net gate else some net

  unfoldable pub step : VscNetwork → State → ℕ → Option (State × VscNetwork)
  step net s gate = elim (refresh net gate) [
    | none ↦ none
    | some ready ↦ some (advance ready s gate, ready)
  ]
