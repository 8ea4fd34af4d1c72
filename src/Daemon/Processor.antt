-- ===== src/Daemon/Processor.antt =====
-- include/TelemetryFrame.h, include/DataProcessor.h and src/DataProcessor.cpp: the filter and the
-- detector, each fed with the raw value.
pub mod Metrics
use Prim.Native.String.{String}
use edge_ipc_daemon.Prelude.{ℕ, ◌<◌, ◌≡◌, Bool, List, [], ◌∷◌, Option, none, some, refl, ◌∙◌, map}
use mathlib.Core.Option
use edge_ipc_daemon.Daemon.Real.{Real, IsExact}
use edge_ipc_daemon.Daemon.Filter.{Filter}
use edge_ipc_daemon.Daemon.Filter
use edge_ipc_daemon.Daemon.Detector.{Detector, Explains}
use edge_ipc_daemon.Daemon.Detector

infixl 5 ◌>>=◌
abbrev ◌>>=◌ : {A B : Type 0} → Option A → (A → Option B) → Option B
none >>= f = none
some a >>= f = f a

module _ (r : Real) where
  open r use {Value}

  -- The time stamp is not read by the code under src/.
  pub record TelemetryFrame : Type 0 where
    pub sensor_id : String
    pub value : Value

  pub record ProcessedMetric : Type 0 where
    pub sensor_id : String
    pub filtered_value : Value
    pub alarm_flag : Bool

  pub record Processor : Type 0 where
    pub filter : Filter r
    pub detector : Detector r

  -- The constructor; its defaults are 10, 80.0, 20.0 and 3.
  unfoldable pub make : ℕ → Value → Value → ℕ → Processor
  make window high low k = record {
    filter = Filter.make r window;
    detector = Detector.make r high low k;
  }

  unfoldable pub metric : TelemetryFrame → Detector r → Value → ProcessedMetric
  metric frame detector filtered = record {
    sensor_id = frame.sensor_id;
    filtered_value = filtered;
    alarm_flag = detector.alarm;
  }

  -- `none` is an access out of the filter's buffer, or an overflow of the detector's count.
  unfoldable pub process : Processor → TelemetryFrame → Option (ProcessedMetric × Processor)
  process p frame = do
    (filtered, filter) ← Filter.apply r p.filter frame.value
    (sample, detector) ← Detector.apply r p.detector frame.value
    some (metric frame detector filtered, record { filter = filter; detector = detector })

  unfoldable pub reset : Processor → Processor
  reset p = record { filter = Filter.reset r p.filter; detector = Detector.reset r p.detector }

  unfoldable pub process_all : Processor → List TelemetryFrame → Option (List ProcessedMetric)
  process_all p [] = some []
  process_all p (frame ∷ frames) = elim (process p frame) [
    | none ↦ none
    | some (m, q) ↦ Option.map (λ ms. m ∷ ms) (process_all q frames)
  ]
