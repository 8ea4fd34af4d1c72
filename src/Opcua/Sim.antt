-- ===== src/Opcua/Sim.antt =====
-- opcua_edge_server/src/telemetry_sim.c with the constants of telemetry_params.h. The arithmetic of
-- double, the functions of math.h, the cast to `float` and `rand_r` are parameters.
use edge_ipc_daemon.Prelude.{ℕ}

pub record Maths : Type 1 where
  pub Value : Type 0
  pub Single : Type 0
  pub of_int : ℕ → Value
  pub add : Value → Value → Value
  pub sub : Value → Value → Value
  pub mul : Value → Value → Value
  pub div : Value → Value → Value
  pub neg : Value → Value
  pub sin : Value → Value
  pub cos : Value → Value
  pub exp : Value → Value
  pub log : Value → Value
  pub sqrt : Value → Value
  pub pi : Value
  pub tenth : Value
  pub thousandth : Value
  pub single : Value → Single
  -- the number drawn, and the seed after it
  pub rand_r : ℕ → ℕ × ℕ
  pub rand_max : Value

pub record Params (m : Maths) : Type 0 where
  pub vib_a : m.Value
  pub vib_omega : m.Value
  pub vib_sigma : m.Value
  pub temp_ambient : m.Value
  pub temp_delta : m.Value
  pub temp_tau : m.Value
  pub temp_sigma : m.Value
  pub rpm_base : m.Value
  pub rpm_sigma : m.Value
  pub torque_base : m.Value
  pub torque_omega : m.Value
  pub torque_sigma : m.Value
  pub axis_range : m.Value
  pub axis_freq : m.Value

module _ (m : Maths) where
  open m use {
    Value, Single, of_int, add, sub, mul, div, neg, sin, cos, exp, log, sqrt, pi, single, rand_r,
    rand_max,
  }

  unfoldable pub box_muller : ℕ → Value × ℕ
  box_muller seed =
      let first = rand_r seed in
      let second = rand_r first.1 in
      let u1 = div (add (of_int first.0) (of_int 1)) (add rand_max (of_int 2)) in
      let u2 = div (of_int second.0) (add rand_max (of_int 1)) in
      (mul (sqrt (mul (neg (of_int 2)) (log u1))) (cos (mul (mul (of_int 2) pi) u2)), second.1)

  module _ (p : Params m) where
    unfoldable pub telemetry_vibration : Value → ℕ → ℕ → Single × ℕ
    telemetry_vibration t axis_idx seed =
        let phase = mul (of_int axis_idx) (div (mul (of_int 2) pi) (of_int 3)) in
        let signal = mul p.vib_a (sin (add (mul p.vib_omega t) phase)) in
        let b = box_muller seed in (single (add signal (mul p.vib_sigma b.0)), b.1)

    unfoldable pub telemetry_temperature : Value → ℕ → Single × ℕ
    telemetry_temperature t seed =
        let transient = mul p.temp_delta (sub (of_int 1) (exp (div (neg t) p.temp_tau))) in
        let b = box_muller seed in
        (single (add (add p.temp_ambient transient) (mul p.temp_sigma b.0)), b.1)

    unfoldable pub telemetry_spindle_speed : Value → ℕ → Single × ℕ
    telemetry_spindle_speed t seed =
        let b = box_muller seed in (single (add p.rpm_base (mul p.rpm_sigma b.0)), b.1)

    unfoldable pub telemetry_torque : Value → ℕ → Single × ℕ
    telemetry_torque t seed =
        let variation = mul (mul p.torque_base m.tenth) (sin (mul p.torque_omega t)) in
        let b = box_muller seed in
        (single (add (add p.torque_base variation) (mul p.torque_sigma b.0)), b.1)

    unfoldable pub telemetry_axis_position : Value → ℕ → Single
    telemetry_axis_position t axis_idx =
        let phase = mul (of_int axis_idx) (div pi (of_int 6)) in
        single (mul p.axis_range (sin (add (mul (mul (mul (of_int 2) pi) p.axis_freq) t) phase)))
