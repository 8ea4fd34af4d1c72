-- ===== src/Daemon/Simulated.antt =====
-- src/SimulatedSource.cpp. The generator and its two distributions are those of the standard library,
-- by the state that they share.
use Prim.Native.String.{String}
use edge_ipc_daemon.Prelude.{
  ℕ, zero, suc, ◌≡◌, ◌∙◌, ap, refl, false, List, [], ◌∷◌, Option, some, map, if◌then◌else◌,
}
use edge_ipc_daemon.Daemon.Real.{Real}
use edge_ipc_daemon.Daemon.Processor.{TelemetryFrame}

-- `normal` takes the mean and the deviation, and `uniform` draws from 0 to 1.
pub record Generator (V : Type 0) : Type 1 where
  pub State : Type 0
  pub normal : V → V → State → V × State
  pub uniform : State → V × State

module _ (r : Real) (mul : r.Value → r.Value → r.Value) (g : Generator r.Value) where
  open r use {Value, add, less}
  open g use {State, normal, uniform}

  pub record SimulatedSource : Type 0 where
    pub sensor_id : String
    pub mu : Value
    pub sigma : Value
    pub spike_prob : Value
    pub spike_magnitude : Value
    pub rng : State

  abbrev spike : SimulatedSource → Value
  spike s = add s.mu (mul s.spike_magnitude s.sigma)

  unfoldable pub read_simulated : SimulatedSource → Option (TelemetryFrame r) × SimulatedSource
  read_simulated s =
      let drawn = normal s.mu s.sigma s.rng in
      let u = uniform drawn.1 in
      (
        some (record {
          sensor_id = s.sensor_id;
          value = if less u.0 s.spike_prob then spike s else drawn.0;
        }),
        record s { rng = u.1 },
      )

  -- The frames of some reads.
  unfoldable pub simulated : ℕ → SimulatedSource → List (Option (TelemetryFrame r))
  simulated zero s = []
  simulated (suc n) s = (read_simulated s).0 ∷ simulated n (read_simulated s).1

  -- The values that the distribution draws, a uniform number after each.
  abbrev draws : ℕ → Value → Value → State → List Value
  draws zero mu sigma rng = []
  draws (suc n) mu sigma rng =
      (normal mu sigma rng).0 ∷ draws n mu sigma (uniform (normal mu sigma rng).1).1

  abbrev frame : String → Value → Option (TelemetryFrame r)
  frame id v = some (record { sensor_id = id; value = v })

  no_spike :
      (u prob spiked value : Value)
      → less u r.zero ≡ false
      → prob ≡ r.zero
      → (if less u prob then spiked else value) ≡ value
  no_spike u prob spiked value h e = rw (e, h) refl

  -- A source without spikes, as the telemetry node has it, gives a frame at every read, with the next
  -- value of its distribution; a uniform number is never less than zero.
  simulated-draws :
      ((rng : State) → less (uniform rng).0 r.zero ≡ false)
      → (n : ℕ) (s : SimulatedSource) → s.spike_prob ≡ r.zero
      → simulated n s ≡ map (frame s.sensor_id) (draws n s.mu s.sigma s.rng)
  unfolding simulated read_simulated
  simulated-draws never zero s e = refl
  simulated-draws never (suc n) s e =
      let drawn = normal s.mu s.sigma s.rng in
      ap (λ v. frame s.sensor_id v ∷ simulated n (read_simulated s).1)
        (no_spike (uniform drawn.1).0 s.spike_prob (spike s) drawn.0 (never drawn.1) e)
      ∙ ap (λ rest. frame s.sensor_id drawn.0 ∷ rest)
          (simulated-draws never n (read_simulated s).1 e)
