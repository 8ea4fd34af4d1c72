-- ===== src/Daemon/Processor/Metrics.antt =====
-- `DataProcessor::process` of src/DataProcessor.cpp: the metrics of a run of frames.
use edge_ipc_daemon.Prelude.{
  ℕ, Bool, ◌+◌, ◌^◌, length, arith, ◌<◌, ◌≡◌, ◌∙◌, List, [], ◌∷◌, Option, some, refl, ap,
}
use Prim.Native.String.{String}
use edge_ipc_daemon.Daemon.Real.{Real}
use edge_ipc_daemon.Daemon.Filter.Average.{Averages, average, apply-Applied, make-Averages}
use edge_ipc_daemon.Daemon.Detector.{Detector, Explains, raised, apply-Watched, make-Explains}
use edge_ipc_daemon.Daemon.Detector
use edge_ipc_daemon.Daemon.Processor.{
  TelemetryFrame, ProcessedMetric, Processor, make, metric, process, process_all,
}

module _ (r : Real) where
  open r use {Value}

  -- The metric of a frame, by the values of the frames before it, latest first.
  abbrev pub explained : ℕ → Value → Value → ℕ → List Value → TelemetryFrame r → ProcessedMetric r
  explained window high low k before frame = record {
    sensor_id = frame.sensor_id;
    filtered_value = average r window (frame.value ∷ before);
    alarm_flag = raised r high low k (frame.value ∷ before);
  }

  abbrev pub metrics :
      ℕ → Value → Value → ℕ → List Value → List (TelemetryFrame r) → List (ProcessedMetric r)
  metrics window high low k before [] = []
  metrics window high low k before (frame ∷ frames) =
      explained window high low k before frame
      ∷ metrics window high low k (frame.value ∷ before) frames

  pub record Settled (p : Processor r) (window : ℕ) (high low : Value) (k : ℕ) (before : List Value)
      : Type 0 where
    pub averages : Averages r p.filter before
    pub explains : Explains r p.detector before
    pub window_ok : p.filter.window ≡ window
    pub high_ok : p.detector.high ≡ high
    pub low_ok : p.detector.low ≡ low
    pub k_ok : p.detector.k ≡ k

  abbrev metric_of : String → Value → Bool → ProcessedMetric r
  metric_of sensor_id filtered alarm = record {
    sensor_id = sensor_id;
    filtered_value = filtered;
    alarm_flag = alarm;
  }

  raised_as :
      (d : Detector r) (samples : List Value) (high low : Value) (k : ℕ)
      → Explains r d samples
      → d.high ≡ high
      → d.low ≡ low
      → d.k ≡ k
      → d.alarm ≡ raised r high low k samples
  raised_as d samples high low k x h l n =
      x.alarmed
      ∙ ap (λ v. raised r v d.low d.k samples) h
      ∙ ap (λ v. raised r high v d.k samples) l
      ∙ ap (λ v. raised r high low v samples) n

  pub process-Settled :
      (p : Processor r) (window : ℕ) (high low : Value) (k : ℕ) (before : List Value)
      (frame : TelemetryFrame r)
      → 0 < window
      → length before + 1 < 2 ^ 31
      → Settled p window high low k before
      → (q : Processor r) × (process r p frame ≡ some (explained window high low k before frame, q))
        × Settled q window high low k (frame.value ∷ before)
  unfolding process metric
  process-Settled p window high low k before frame pos fits s =
      let (g, e, a, w) =
        apply-Applied r p.filter before frame.value (rw s.window_ok pos) s.averages in
      let (d, watched, x, h, l, n) =
        apply-Watched r p.detector before frame.value fits s.explains in
      let q : Processor r = record { filter = g; detector = d } in
      let alarm : d.alarm ≡ raised r high low k (frame.value ∷ before) =
        raised_as d (frame.value ∷ before) high low k x (h ∙ s.high_ok) (l ∙ s.low_ok)
          (n ∙ s.k_ok) in
      let filtered = ap (λ w. average r w (frame.value ∷ before)) s.window_ok in
      let same =
        ap (λ y. metric_of frame.sensor_id y d.alarm) filtered
        ∙ ap (metric_of frame.sensor_id (average r window (frame.value ∷ before))) alarm in
      (
        q,
        rw (e, watched, process)
            (ap {B = Option (ProcessedMetric r × Processor r)} (λ m. some (m, q)) same),
        record {
          averages = a;
          explains = x;
          window_ok = w ∙ s.window_ok;
          high_ok = h ∙ s.high_ok;
          low_ok = l ∙ s.low_ok;
          k_ok = n ∙ s.k_ok;
        },
      )

  pub process_all-Settled :
      (p : Processor r) (window : ℕ) (high low : Value) (k : ℕ) (before : List Value)
      (frames : List (TelemetryFrame r))
      → 0 < window
      → length before + length frames < 2 ^ 31
      → Settled p window high low k before
      → process_all r p frames ≡ some (metrics window high low k before frames)
  unfolding process_all
  process_all-Settled p window high low k before [] pos fits s = refl
  process_all-Settled p window high low k before (frame ∷ frames) pos fits s =
      let (q, e, t) = process-Settled p window high low k before frame pos (omega arith) s in
      rw (e, process_all)
        (rw
          (process_all-Settled q window high low k (frame.value ∷ before) frames pos (omega arith)
            t)
          refl)

  pub make-Settled :
      (window : ℕ) (high low : Value) (k : ℕ)
      → 0 < window
      → Settled (make r window high low k) window high low k []
  unfolding make edge_ipc_daemon.Daemon.Filter.make edge_ipc_daemon.Daemon.Detector.make
  make-Settled window high low k pos = record {
    averages = make-Averages r window pos;
    explains = make-Explains r high low k;
    window_ok = refl;
    high_ok = refl;
    low_ok = refl;
    k_ok = refl;
  }

  -- A new processor with a window of one sample or more gives for every run of fewer than 2^31 frames,
  -- frame by frame: its sensor id; the running sum of the raw values in the window over their
  -- number, as the code adds and subtracts them, with its rounding; and an alarm exactly when the last
  -- raw values, one at least and `k` or more without a break, are outside the band. It never leaves
  -- the filter's buffer, and the count of the detector does not overflow.
  pub process_all-make :
      (window : ℕ) (high low : Value) (k : ℕ) (frames : List (TelemetryFrame r))
      → 0 < window
      → length frames < 2 ^ 31
      → process_all r (make r window high low k) frames ≡ some (metrics window high low k [] frames)
  process_all-make window high low k frames pos fits =
      process_all-Settled (make r window high low k) window high low k [] frames pos (omega arith)
        (make-Settled window high low k pos)
