-- ===== src/Hil/Kernel/Phases.antt =====
-- norton_update.cpp against a step of VscNetwork.cpp, phase by phase.
use edge_ipc_daemon.Prelude.{ℕ, zero, suc, ◌+◌, ◌<◌, ◌≡◌, refl, ap, ◌∙◌, arith}
use edge_ipc_daemon.Hil.Num.{Num, Trig, for_phases}
use edge_ipc_daemon.Hil.Norton.{make_inductor, make_capacitor, inductor_history, capacitor_history}
use edge_ipc_daemon.Hil.Network.{
  SolverParams, State, grid_source, inject, injections, switch, update_phase,
}
use edge_ipc_daemon.Hil.Kernel.{
  FixedParams, Literals, grid_voltage, norton_phase, norton_update, history_phase, update_history,
}

-- A statement about each of the three phases.
phases : (P : ℕ → Type 0) → P 0 → P 1 → P 2 → (k : ℕ) → k < 3 → P k
phases P a b c zero h = a
phases P a b c (suc zero) h = b
phases P a b c (suc (suc zero)) h = c
phases P a b c (suc (suc (suc k))) h = absurd (omega arith)

module _ (num : Num) (trig : Trig num) (tiny : num.Value) where
  open num use {Value, nil, one, two, add, sub, mul, div, neg}

  -- The registers that solver_types.h asks for.
  unfoldable pub registers : SolverParams num trig tiny → FixedParams num
  registers p =
      let lf = make_inductor num p.l_f p.r_f p.dt in
      let lgrid = make_inductor num p.l_grid p.r_grid p.dt in
      record {
        dt = p.dt;
        g_lf = lf.g_eq;
        beta_lf = lf.beta;
        g_cf = (make_capacitor num p.c_f p.dt).g_c;
        g_lgrid = lgrid.g_eq;
        beta_lgrid = lgrid.beta;
        g_on = p.g_on;
        g_off = p.g_off;
        g_vs = div one p.r_src;
        v_dc = p.v_dc;
        v_rated = p.v_rated;
      }

  -- The history currents in the order of `hist`.
  pub record SameHistory (s : State num trig tiny) (hist : ℕ → Value) : Type 0 where
    pub lf : (k : ℕ) → k < 3 → hist k ≡ s.i_lf_hist k
    pub cf : (k : ℕ) → k < 3 → hist (k + 3) ≡ s.i_cf_hist k
    pub lgrid : (k : ℕ) → k < 3 → hist (k + 6) ≡ s.i_lgrid_hist k

  -- The grid that the kernel's literals are for.
  pub record SameGrid (c : Literals num) (p : SolverParams num trig tiny) : Type 0 where
    pub peak_ok : c.peak ≡ mul p.v_grid_rms trig.sqrt_two
    pub frequency_ok : c.fifty ≡ p.f_grid
    pub turn_ok : c.two_pi ≡ mul two trig.pi
    pub offset_ok : neg c.two_pi ≡ mul (neg two) trig.pi
    pub three_ok : c.three ≡ trig.three

  module _ (c : Literals num) (p : SolverParams num trig tiny) (grid : SameGrid c p) where
    grid_voltage-grid_source :
        (k : ℕ) (t : Value) → grid_voltage num trig c k t ≡ grid_source num trig tiny p k t
    unfolding grid_voltage grid_source
    grid_voltage-grid_source k t =
        let voltage : Value → Value → Value → Value → Value → Value =
          λ peak turn offset three frequency. mul peak (
            trig.sin (add (mul (mul turn frequency) t) (mul (trig.of_int k) (div offset three)))) in
        ap (λ x. voltage x c.two_pi (neg c.two_pi) c.three c.fifty) grid.peak_ok
        ∙ ap (λ x. voltage (mul p.v_grid_rms trig.sqrt_two) x (neg c.two_pi) c.three c.fifty)
            grid.turn_ok
        ∙ ap (λ x. voltage (mul p.v_grid_rms trig.sqrt_two) (mul two trig.pi) x c.three c.fifty)
            grid.offset_ok
        ∙ ap
            (λ x.
              voltage (mul p.v_grid_rms trig.sqrt_two) (mul two trig.pi) (mul (neg two) trig.pi) x
                c.fifty)
            grid.three_ok
        ∙ ap
            (voltage (mul p.v_grid_rms trig.sqrt_two) (mul two trig.pi) (mul (neg two) trig.pi)
              trig.three)
            grid.frequency_ok

    norton_phase-inject :
        (s : State num trig tiny) (hist : ℕ → Value) (gate k : ℕ) (i0 : ℕ → Value)
        → k < 3
        → SameHistory s hist
        → norton_phase num trig c hist gate s.t (registers p) k i0
          ≡ inject num trig tiny p s gate k i0
    unfolding norton_phase inject registers switch
    norton_phase-inject s hist gate k i0 h same =
        rw (same.lf k h, same.cf k h, same.lgrid k h, grid_voltage-grid_source k s.t) refl

    pub norton_update-injections :
        (s : State num trig tiny) (hist : ℕ → Value) (gate : ℕ)
        → SameHistory s hist
        → norton_update num trig c hist gate s.t (registers p) ≡ injections num trig tiny p s gate
    unfolding norton_update injections
    norton_update-injections s hist gate same =
        let first = norton_phase-inject s hist gate 0 (λ i. nil) (omega arith) same in
        let second =
          ap (norton_phase num trig c hist gate s.t (registers p) 1) first
          ∙ norton_phase-inject s hist gate 1 (inject num trig tiny p s gate 0 (λ i. nil))
              (omega arith) same in
        ap (norton_phase num trig c hist gate s.t (registers p) 2) second
        ∙ norton_phase-inject s hist gate 2 _ (omega arith) same

    -- The histories after the step.
    pub update_history-update_phase :
        (v w : ℕ → Value) (s : State num trig tiny) (hist rest : ℕ → Value)
        → ((j : ℕ) → j < 9 → v j ≡ w j)
        → SameHistory s hist
        → SameHistory
            (for_phases (update_phase num trig tiny p w) s)
            (update_history num v hist (registers p) rest).0
    unfolding update_history history_phase update_phase inductor_history capacitor_history registers
    update_history-update_phase v w s hist rest agree same =
        let new = (update_history num v hist (registers p) rest).0 in
        let old = for_phases (update_phase num trig tiny p w) s in
        record {
          lf =
              phases (λ k. new k ≡ old.i_lf_hist k)
                (rw (same.lf 0 (omega arith), agree 0 (omega arith), agree 3 (omega arith)) refl)
                (rw (same.lf 1 (omega arith), agree 1 (omega arith), agree 4 (omega arith)) refl)
                (rw (same.lf 2 (omega arith), agree 2 (omega arith), agree 5 (omega arith)) refl);
          cf =
              phases (λ k. new (k + 3) ≡ old.i_cf_hist k)
                (rw (same.cf 0 (omega arith), agree 3 (omega arith)) refl)
                (rw (same.cf 1 (omega arith), agree 4 (omega arith)) refl)
                (rw (same.cf 2 (omega arith), agree 5 (omega arith)) refl);
          lgrid =
              phases (λ k. new (k + 6) ≡ old.i_lgrid_hist k)
                (rw (same.lgrid 0 (omega arith), agree 3 (omega arith), agree 6 (omega arith)) refl)
                (rw (same.lgrid 1 (omega arith), agree 4 (omega arith), agree 7 (omega arith)) refl)
                (rw (same.lgrid 2 (omega arith), agree 5 (omega arith), agree 8 (omega arith))
                  refl);
        }
