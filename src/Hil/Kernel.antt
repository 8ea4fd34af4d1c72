-- ===== src/Hil/Kernel.antt =====
-- fpga_power_electronics_hil/hls_solver/: the kernel, as it is compiled on a host.
pub mod Solve
pub mod Phases
pub mod Steps
use edge_ipc_daemon.Prelude.{ℕ, zero, suc, ◌+◌, ◌*◌, ◌-◌, Bool, List, [], ◌∷◌, if◌then◌else◌, ◌==◌}
use edge_ipc_daemon.Hil.Num.{Num, Trig, set_at, plus_at, minus_at, subtract, for_phases, bit_on}

module _ (num : Num) where
  open num use {Value, nil, add, sub, mul, div, neg}

  -- solver_types.h.
  pub record FixedParams : Type 0 where
    pub dt : Value
    pub g_lf : Value
    pub beta_lf : Value
    pub g_cf : Value
    pub g_lgrid : Value
    pub beta_lgrid : Value
    pub g_on : Value
    pub g_off : Value
    pub g_vs : Value
    pub v_dc : Value
    pub v_rated : Value

  -- An element of the stream `state_out`.
  pub record AxisState : Type 0 where
    pub value : Value
    pub last : Bool

  -- The static variables of solver_top.cpp.
  pub record Bram : Type 0 where
    pub l : ℕ → ℕ → Value
    pub u : ℕ → ℕ → Value
    pub piv : ℕ → ℕ
    pub v : ℕ → Value
    pub hist : ℕ → Value
    pub t : Value

  -- lu_solve.cpp.
  unfoldable pub forward_sub : (ℕ → ℕ → Value) → (ℕ → Value) → ℕ → ℕ → (ℕ → Value) → ℕ → Value
  forward_sub l b i zero y = y
  forward_sub l b i (suc left) y =
      forward_sub l b (suc i) left
        (set_at num y i (subtract num 0 i (λ j. mul (l i j) (y j)) (b i)))

  -- The rows from `left - 1` down to 0, of `n`.
  unfoldable pub back_sub : (ℕ → ℕ → Value) → (ℕ → Value) → ℕ → ℕ → (ℕ → Value) → ℕ → Value
  back_sub u y n zero x = x
  back_sub u y n (suc i) x = back_sub u y n i (
      set_at num x i
        (div (subtract num (suc i) (n - suc i) (λ j. mul (u i j) (x j)) (y i)) (u i i)))

  -- `rest` is what the local arrays hold before.
  unfoldable pub kernel_solve :
      (ℕ → ℕ → Value) → (ℕ → ℕ → Value) → (ℕ → ℕ) → (ℕ → Value) → (ℕ → Value) → ℕ → Value
  kernel_solve l u piv i_n rest =
      let b_perm = λ (i : ℕ). i_n (piv i) in back_sub u (forward_sub l b_perm 0 9 rest) 9 9 rest

  -- norton_update.cpp, with its literals; 230.0 * 1.41421356237 is `peak`.
  pub record Literals : Type 0 where
    pub peak : Value
    pub two_pi : Value
    pub three : Value
    pub fifty : Value

  module _ (trig : Trig num) (c : Literals) where
    -- `v_src` of the phase `k`.
    unfoldable pub grid_voltage : ℕ → Value → Value
    grid_voltage k t =
        let phase_off = mul (trig.of_int k) (div (neg c.two_pi) c.three) in
        mul c.peak (trig.sin (add (mul (mul c.two_pi c.fifty) t) phase_off))

    unfoldable pub norton_phase :
        (ℕ → Value) → ℕ → Value → FixedParams → ℕ → (ℕ → Value) → ℕ → Value
    norton_phase hist gate t p k i0 =
        let i1 = minus_at num i0 k (hist k) in
        let i2 = plus_at num i1 (k + 3) (hist k) in
        let i3 = minus_at num i2 (k + 3) (hist (k + 3)) in
        let i4 = minus_at num i3 (k + 3) (hist (k + 6)) in
        let i5 = plus_at num i4 (k + 6) (hist (k + 6)) in
        let i6 = plus_at num i5 (k + 6) (mul p.g_vs (grid_voltage k t)) in
        plus_at num i6 k (mul (if bit_on gate (2 * k) then p.g_on else p.g_off) p.v_dc)

    unfoldable pub norton_update : (ℕ → Value) → ℕ → Value → FixedParams → ℕ → Value
    norton_update hist gate t p = for_phases (norton_phase hist gate t p) (λ i. nil)

  -- `hist_out` and `branch_currents`.
  unfoldable pub history_phase :
      (ℕ → Value)
      → (ℕ → Value)
      → FixedParams
      → ℕ
      → (ℕ → Value) × (ℕ → Value)
      → (ℕ → Value) × (ℕ → Value)
  history_phase v hist_in p k (hist, currents) =
      let v_lf = sub (v k) (v (k + 3)) in
      let i_lf = add (mul p.g_lf v_lf) (hist_in k) in
      let i_cf = add (mul p.g_cf (v (k + 3))) (hist_in (k + 3)) in
      let v_lg = sub (v (k + 3)) (v (k + 6)) in
      let i_lgrid = add (mul p.g_lgrid v_lg) (hist_in (k + 6)) in
      (
        set_at num
            (set_at num (set_at num hist k (add (mul p.g_lf v_lf) (mul p.beta_lf i_lf))) (k + 3)
              (sub (neg i_cf) (mul p.g_cf (v (k + 3)))))
            (k + 6) (add (mul p.g_lgrid v_lg) (mul p.beta_lgrid i_lgrid)),
        set_at num (set_at num (set_at num currents k i_lf) (k + 3) i_cf) (k + 6) i_lgrid,
      )

  unfoldable pub update_history :
      (ℕ → Value) → (ℕ → Value) → FixedParams → (ℕ → Value) → (ℕ → Value) × (ℕ → Value)
  update_history v hist_in p rest = for_phases (history_phase v hist_in p) (rest, rest)

  unfoldable pub emit_states : (ℕ → Value) → ℕ → ℕ → List AxisState
  emit_states v i zero = []
  emit_states v i (suc left) = record { value = v i; last = i == 8 } ∷ emit_states v (suc i) left

  -- solver_top.cpp: the static variables after the call, and `state_out`.
  unfoldable pub solver_top :
      Trig num → Literals → (ℕ → Value) → Bram → ℕ → FixedParams → Bram × List AxisState
  solver_top trig c rest m gate p =
      let i_n = norton_update trig c m.hist gate m.t p in
      let v = kernel_solve m.l m.u m.piv i_n rest in
      let updated = update_history v m.hist p rest in
      (record m { v = v; hist = updated.0; t = add m.t p.dt }, emit_states v 0 9)
