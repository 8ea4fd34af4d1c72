-- ===== src/Opcua/Update.antt =====
-- opcua_edge_server/src/update_loop.c: the thread that sets the nine values a thousand times a
-- second.
pub mod Ticks
pub mod Stop
use edge_ipc_daemon.Prelude.{
  ℕ, zero, suc, ◌+◌, ◌-◌, ◌%◌, ◌^◌, ◌≡◌, ◌∙◌, refl, ap, Bool, true, false, List, [], ◌∷◌, Option,
  none, some, arith, if◌then◌else◌, ltb,
}
use mathlib.Core.Path.{subst}
use edge_ipc_daemon.Opcua.Sim.{
  Maths, Params, box_muller, telemetry_vibration, telemetry_temperature, telemetry_spindle_speed,
  telemetry_torque, telemetry_axis_position,
}
use edge_ipc_daemon.Opcua.Source.{put, Store, data_source_set}

module _ (m : Maths) (p : Params m) where
  open m use {Value, Single, of_int, mul}

  -- The variables of the file, the store of the values, and the overruns that were reported, latest
  -- first. `tick` is local to the thread.
  pub record Updater : Type 0 where
    pub running : Bool
    pub tick_count : ℕ
    pub seeds : ℕ → ℕ
    pub tick : ℕ
    pub store : Store Single
    pub overruns : List ℕ

  -- The node `idx` is set to a value, and the seed `idx` is the one after it.
  unfoldable pub set_noisy : ℕ → (ℕ → Single × ℕ) → Updater → Updater
  set_noisy idx telemetry u =
      let v = telemetry (u.seeds idx) in
      record u { store = data_source_set idx v.0 u.store; seeds = put u.seeds idx v.1 }

  unfoldable pub set_exact : ℕ → Single → Updater → Updater
  set_exact idx v u = record u { store = data_source_set idx v u.store }

  unfoldable pub update_all_nodes : Value → Updater → Updater
  update_all_nodes t u =
      let u0 = set_noisy 0 (telemetry_temperature m p t) u in
      let u1 = set_noisy 1 (telemetry_torque m p t) u0 in
      let u2 = set_noisy 2 (telemetry_spindle_speed m p t) u1 in
      let u3 = set_noisy 3 (telemetry_vibration m p t 0) u2 in
      let u4 = set_noisy 4 (telemetry_vibration m p t 1) u3 in
      let u5 = set_noisy 5 (telemetry_vibration m p t 2) u4 in
      let u6 = set_exact 6 (telemetry_axis_position m p t 0) u5 in
      let u7 = set_exact 7 (telemetry_axis_position m p t 1) u6 in
      set_exact 8 (telemetry_axis_position m p t 2) u7

  -- `(double)tick * 0.001`.
  abbrev pub seconds : ℕ → Value
  seconds tick = mul (of_int tick) m.thousandth

  -- A round of the loop, after a `read` of the timer; `none` is a read of fewer than eight bytes.
  unfoldable pub on_timer : Option ℕ → Updater → Updater
  on_timer none u = u
  on_timer (some expirations) u =
      let tick = (u.tick + expirations) % 2 ^ 64 in
      let late = record u {
        tick = tick;
        overruns = if ltb 1 expirations then (expirations - 1) ∷ u.overruns else u.overruns;
      } in
      record (update_all_nodes (seconds tick) late) { tick_count = tick }

  -- The rounds of the loop; `update_loop_stop` may come between them.
  pub data Round : Type 0 where
    timer : Option ℕ → Round
    stop : Round

  unfoldable pub update_thread : Updater → List Round → Updater
  update_thread u [] = u
  update_thread u (timer expirations ∷ rounds) =
      update_thread (if u.running then on_timer expirations u else u) rounds
  update_thread u (stop ∷ rounds) = update_thread (record u { running = false }) rounds

  -- `update_loop_start`, when the thread is created.
  unfoldable pub update_loop_start : (ℕ → ℕ) → Store Single → Updater
  update_loop_start seeds store = record {
    running = true;
    tick_count = 0;
    seeds = seeds;
    tick = 0;
    store = store;
    overruns = [];
  }
