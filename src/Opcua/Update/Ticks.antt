-- ===== src/Opcua/Update/Ticks.antt =====
-- The rounds of update_loop.c: the tick count, and what the nodes show.
use edge_ipc_daemon.Prelude.{
  ℕ, zero, suc, ◌+◌, ◌%◌, ◌^◌, ◌≡◌, ◌∙◌, refl, ap, Bool, true, false, List, [], ◌∷◌, none, some,
  arith, if◌then◌else◌,
}
use mathlib.Core.Path.{subst}
use edge_ipc_daemon.Opcua.Sim.{
  Maths, Params, box_muller, telemetry_vibration, telemetry_temperature, telemetry_spindle_speed,
  telemetry_torque, telemetry_axis_position,
}
use edge_ipc_daemon.Opcua.Source.{Store, data_source_set}
use edge_ipc_daemon.Opcua.Update.{
  Updater, set_noisy, set_exact, update_all_nodes, seconds, on_timer, Round, timer, stop,
  update_thread, update_loop_start,
}

module _ (m : Maths) (p : Params m) where
  open m use {Value, Single}

  -- The values of the nine nodes, in the order of their indices.
  abbrev pub nine : (ℕ → Single) → List Single
  nine v = v 0 ∷ v 1 ∷ v 2 ∷ v 3 ∷ v 4 ∷ v 5 ∷ v 6 ∷ v 7 ∷ v 8 ∷ []

  -- What the nodes show at a time, with these seeds for their noise.
  abbrev pub simulated : Value → (ℕ → ℕ) → List Single
  simulated t seeds =
      (telemetry_temperature m p t (seeds 0)).0
      ∷ (telemetry_torque m p t (seeds 1)).0
      ∷ (telemetry_spindle_speed m p t (seeds 2)).0
      ∷ (telemetry_vibration m p t 0 (seeds 3)).0
      ∷ (telemetry_vibration m p t 1 (seeds 4)).0
      ∷ (telemetry_vibration m p t 2 (seeds 5)).0
      ∷ telemetry_axis_position m p t 0
      ∷ telemetry_axis_position m p t 1
      ∷ telemetry_axis_position m p t 2
      ∷ []

  -- A seed after some draws of noise, two numbers each.
  abbrev pub drawn : ℕ → ℕ → ℕ
  drawn zero seed = seed
  drawn (suc n) seed = (box_muller m (drawn n seed)).1

  -- The expirations of the timer, and the number of the whole reads, before a stop.
  abbrev pub expired : List (Round m p) → ℕ
  expired [] = 0
  expired (stop ∷ rounds) = 0
  expired (timer none ∷ rounds) = expired rounds
  expired (timer (some n) ∷ rounds) = n + expired rounds

  abbrev pub wholes : List (Round m p) → ℕ
  wholes [] = 0
  wholes (stop ∷ rounds) = 0
  wholes (timer none ∷ rounds) = wholes rounds
  wholes (timer (some n) ∷ rounds) = suc (wholes rounds)

  -- The values after this many whole reads with these expirations.
  abbrev pub values_after : (ℕ → ℕ) → Store Single → ℕ → ℕ → List Single
  values_after seeds store zero total = nine store.node_values
  values_after seeds store (suc n) total =
      simulated (seconds m p (total % 2 ^ 64)) (λ i. drawn n (seeds i))

  nodes_set :
      (t : Value) (u : Updater m p)
      → nine (update_all_nodes m p t u).store.node_values ≡ simulated t u.seeds
  unfolding update_all_nodes set_noisy set_exact data_source_set
  nodes_set t u = refl

  simulated_congr :
      (t : Value) (f g : ℕ → ℕ)
      → f 0 ≡ g 0
      → f 1 ≡ g 1
      → f 2 ≡ g 2
      → f 3 ≡ g 3
      → f 4 ≡ g 4
      → f 5 ≡ g 5
      → simulated t f ≡ simulated t g
  simulated_congr t f g a b c d e h = rw (a, b, c, d, e, h) refl

  module _ (seeds : ℕ → ℕ) (store : Store Single) where
    -- The state between two rounds, after this many whole reads with these expirations.
    record Kept (u : Updater m p) (n total : ℕ) : Type 0 where
      tick_ok : u.tick ≡ total % 2 ^ 64
      count_ok : u.tick_count ≡ total % 2 ^ 64
      seed0 : u.seeds 0 ≡ drawn n (seeds 0)
      seed1 : u.seeds 1 ≡ drawn n (seeds 1)
      seed2 : u.seeds 2 ≡ drawn n (seeds 2)
      seed3 : u.seeds 3 ≡ drawn n (seeds 3)
      seed4 : u.seeds 4 ≡ drawn n (seeds 4)
      seed5 : u.seeds 5 ≡ drawn n (seeds 5)
      nodes_ok : nine u.store.node_values ≡ values_after seeds store n total

    on_timer-Kept :
        (u : Updater m p) (n total e : ℕ)
        → Kept u n total
        → Kept (on_timer m p (some e) u) (suc n) (e + total)
    unfolding on_timer update_all_nodes set_noisy set_exact data_source_set telemetry_temperature
        telemetry_torque telemetry_spindle_speed telemetry_vibration
    on_timer-Kept u n total e k =
        let tick : (u.tick + e) % 2 ^ 64 ≡ (e + total) % 2 ^ 64 = omega (arith, k.tick_ok) in
        record {
          tick_ok = tick;
          count_ok = tick;
          seed0 = ap (λ s. (box_muller m s).1) k.seed0;
          seed1 = ap (λ s. (box_muller m s).1) k.seed1;
          seed2 = ap (λ s. (box_muller m s).1) k.seed2;
          seed3 = ap (λ s. (box_muller m s).1) k.seed3;
          seed4 = ap (λ s. (box_muller m s).1) k.seed4;
          seed5 = ap (λ s. (box_muller m s).1) k.seed5;
          nodes_ok =
              nodes_set (seconds m p ((u.tick + e) % 2 ^ 64)) u
              ∙ ap (λ tick. simulated (seconds m p tick) u.seeds) tick
              ∙ simulated_congr (seconds m p ((e + total) % 2 ^ 64)) u.seeds
                  (λ i. drawn n (seeds i)) k.seed0 k.seed1 k.seed2 k.seed3 k.seed4 k.seed5;
        }

    paused-Kept :
        (u : Updater m p) (n total : ℕ)
        → Kept u n total
        → Kept (record u { running = false }) n total
    paused-Kept u n total k = record {
      tick_ok = k.tick_ok;
      count_ok = k.count_ok;
      seed0 = k.seed0;
      seed1 = k.seed1;
      seed2 = k.seed2;
      seed3 = k.seed3;
      seed4 = k.seed4;
      seed5 = k.seed5;
      nodes_ok = k.nodes_ok;
    }

    moved :
        (u : Updater m p) (n n' total total' : ℕ)
        → n ≡ n'
        → total ≡ total'
        → Kept u n total
        → Kept u n' total'
    moved u n n' total total' e h k = subst (λ n. Kept u n total') e (subst (Kept u n) h k)

    step_taken :
        (b : Bool) (x y : Updater m p) (n total : ℕ)
        → b ≡ true
        → Kept x n total
        → x.running ≡ true
        → Kept (if b then x else y) n total × ((if b then x else y).running ≡ true)
    step_taken b x y n total e k r = rw e (k, r)

    still :
        (b : Bool) (x y : Updater m p) (n total : ℕ)
        → b ≡ false
        → Kept y n total
        → y.running ≡ false
        → Kept (if b then x else y) n total × ((if b then x else y).running ≡ false)
    still b x y n total e k r = rw e (k, r)

    stopped :
        (rounds : List (Round m p)) (u : Updater m p) (n total : ℕ)
        → u.running ≡ false
        → Kept u n total
        → Kept (update_thread m p u rounds) n total
    unfolding update_thread
    stopped [] u n total r k = k
    stopped (timer e ∷ rounds) u n total r k =
        let (k', r') = still u.running (on_timer m p e u) u n total r k r in
        stopped rounds _ n total r' k'
    stopped (stop ∷ rounds) u n total r k = stopped rounds _ n total refl (paused-Kept u n total k)

    updates :
        (rounds : List (Round m p)) (u : Updater m p) (n total : ℕ)
        → u.running ≡ true
        → Kept u n total
        → Kept (update_thread m p u rounds) (wholes rounds + n) (expired rounds + total)
    unfolding update_thread on_timer update_all_nodes set_noisy set_exact
    updates [] u n total r k = moved u n (0 + n) total (0 + total) (omega arith) (omega arith) k
    updates (timer none ∷ rounds) u n total r k =
        let (k', r') = step_taken u.running (on_timer m p none u) u n total r k r in
        updates rounds _ n total r' k'
    updates (timer (some e) ∷ rounds) u n total r k =
        let (k', r') =
          step_taken u.running (on_timer m p (some e) u) u (suc n) (e + total) r
            (on_timer-Kept u n total e k) r in
        moved _ (wholes rounds + suc n) (suc (wholes rounds) + n) (expired rounds + (e + total))
          (e + expired rounds + total) (omega arith) (omega arith)
          (updates rounds _ (suc n) (e + total) r' k')
    updates (stop ∷ rounds) u n total r k =
        moved _ n (0 + n) total (0 + total) (omega arith) (omega arith)
          (stopped rounds _ n total refl (paused-Kept u n total k))

    first-Kept : Kept (update_loop_start m p seeds store) 0 0
    unfolding update_loop_start
    first-Kept = record {
      tick_ok = refl;
      count_ok = refl;
      seed0 = refl;
      seed1 = refl;
      seed2 = refl;
      seed3 = refl;
      seed4 = refl;
      seed5 = refl;
      nodes_ok = refl;
    }

  -- After any rounds of the thread that update_loop_start starts, with a stop among them or none:
  -- the tick count is that of the expirations of the timer before the stop, modulo 2^64; and the
  -- nodes show the simulation at that time, where the noise of each was drawn once in each whole
  -- read, from a seed of its own, or what they showed before it if there was no whole read.
  pub update_thread-update_loop_start :
      (seeds : ℕ → ℕ) (store : Store Single) (rounds : List (Round m p))
      → let u = update_thread m p (update_loop_start m p seeds store) rounds in
        (u.tick_count ≡ expired rounds % 2 ^ 64)
        × (nine u.store.node_values ≡ values_after seeds store (wholes rounds) (expired rounds))
  unfolding update_loop_start
  update_thread-update_loop_start seeds store rounds =
      let k =
        moved seeds store _ (wholes rounds + 0) (wholes rounds) (expired rounds + 0)
          (expired rounds) (omega arith) (omega arith)
          (updates seeds store rounds (update_loop_start m p seeds store) 0 0 refl
            (first-Kept seeds store)) in
      (k.count_ok, k.nodes_ok)
