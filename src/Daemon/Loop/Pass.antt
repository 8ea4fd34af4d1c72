-- ===== src/Daemon/Loop/Pass.antt =====
-- src/main.cpp: a pass of the main loop through the frames that the ring holds.
use edge_ipc_daemon.Prelude.{
  arith, ℕ, suc, ◌+◌, ◌<◌, ◌^◌, ◌≡◌, ◌∙◌, refl, sym, ap, true, Bool-cases, inl, inr, List, [], ◌∷◌,
  Option, none, some, leb, length, replicate,
}
use mathlib.Core.Path.{subst}
use mathlib.Core.Option
use edge_ipc_daemon.Daemon.Real.{Real}
use edge_ipc_daemon.Daemon.Processor.Metrics.{Settled, metrics, process_all-Settled}
use edge_ipc_daemon.Daemon.State.{DaemonState, idle, running, fault, shutdown}
use edge_ipc_daemon.Daemon.Receiver.{Receiver, pop}
use edge_ipc_daemon.Daemon.Receiver.Calls.{Agrees, taken, popped, call, queue_call, call-Agrees}
use edge_ipc_daemon.Daemon.Processor.{
  TelemetryFrame, ProcessedMetric, Processor, process, process_all,
}
use edge_ipc_daemon.Daemon.Loop.{
  Output, testing, popping, Daemon, on_metric, watchdog, after_pop, main_step, Event, main, step,
  run,
}
use edge_ipc_daemon.Daemon.Loop.Alarms.{alarms, state_after, reminded, on_metric-Noted}

module _ {A : Type 0} where
  taken_same : (x y : Option A) → taken x ≡ taken y → x ≡ y
  taken_same x y e = cc

  pop_first :
      (q : Receiver A) (x : A) (xs : List A) (n : ℕ)
      → Agrees q (x ∷ xs, n)
      → ((pop q).0 ≡ some x) × Agrees (pop q).1 (xs, n)
  unfolding call queue_call
  pop_first q x xs n h =
      let a = call-Agrees q (x ∷ xs, n) h popped in (taken_same (pop q).0 (some x) a.0, a.1)

  pop_empty :
      (q : Receiver A) (n : ℕ) → Agrees q ([], n) → ((pop q).0 ≡ none) × Agrees (pop q).1 ([], n)
  unfolding call queue_call
  pop_empty q n h = let a = call-Agrees q ([], n) h popped in (taken_same (pop q).0 none a.0, a.1)

module _ (r : Real) (threshold : r.Value) where
  open r use {Value}

  map-some :
      (m : ProcessedMetric r) (o : Option (List (ProcessedMetric r)))
      (ms : List (ProcessedMetric r))
      → Option.map (λ ms. m ∷ ms) o ≡ some ms
      → (rest : List (ProcessedMetric r)) × (o ≡ some rest) × (ms ≡ m ∷ rest)
  map-some m none ms e = absurd cc
  map-some m (some rest) ms e = (rest, refl, cc)

  some_metrics :
      (fs : List (TelemetryFrame r)) (x : Option (ProcessedMetric r × Processor r))
      (ms : List (ProcessedMetric r))
      → elim x as (λ _. Option (List (ProcessedMetric r))) [
        | none ↦ none
        | some (m, q) ↦ Option.map (λ ms. m ∷ ms) (process_all r q fs)
      ]
        ≡ some ms
      → (m : ProcessedMetric r) × (q : Processor r) × (rest : List (ProcessedMetric r)) × (x
          ≡ some (m, q))
        × (process_all r q fs ≡ some rest)
        × (ms ≡ m ∷ rest)
  some_metrics fs none ms e = absurd cc
  some_metrics fs (some (m, q)) ms e =
      let (rest, a, b) = map-some m (process_all r q fs) ms e in (m, q, rest, refl, a, b)

  -- The metrics of a run of frames, taken apart.
  process_all-cons :
      (p : Processor r) (f : TelemetryFrame r) (fs : List (TelemetryFrame r))
      (ms : List (ProcessedMetric r))
      → process_all r p (f ∷ fs) ≡ some ms
      → (m : ProcessedMetric r) × (q : Processor r) × (rest : List (ProcessedMetric r)) × (process r
            p f
          ≡ some (m, q))
        × (process_all r q fs ≡ some rest)
        × (ms ≡ m ∷ rest)
  unfolding process_all
  process_all-cons p f fs ms e = some_metrics fs (process r p f) ms e

  step_popping :
      (d : Daemon r) (now : ℕ)
      → d.phase ≡ popping
      → step r threshold d (main now) ≡ after_pop r threshold now d (pop d.receiver)
  unfolding step main_step
  step_popping d now at = ap (λ phase. main_step r threshold now phase d) at

  abbrev with_ring : Daemon r → Receiver (TelemetryFrame r) → Daemon r
  with_ring d q = record d { receiver = q }

  after_pop-none :
      (now : ℕ) (d : Daemon r) (x : Option (TelemetryFrame r) × Receiver (TelemetryFrame r))
      → x.0 ≡ none
      → after_pop r threshold now d x
        ≡ some (record (watchdog r now (with_ring d x.1)) { phase = testing })
  unfolding after_pop
  after_pop-none now d (none, q) e = refl
  after_pop-none now d (some f, q) e = absurd cc

  after_pop-some :
      (now : ℕ) (d : Daemon r) (f : TelemetryFrame r) (m : ProcessedMetric r) (p : Processor r)
      (x : Option (TelemetryFrame r) × Receiver (TelemetryFrame r))
      → x.0 ≡ some f
      → process r d.processor f ≡ some (m, p)
      → after_pop r threshold now d x
        ≡ some (on_metric r threshold (record d { receiver = x.1; processor = p }) m)
  unfolding after_pop
  after_pop-some now d f m p (none, q) e h = absurd cc
  after_pop-some now d f m p (some g, q) e h =
      let same : g ≡ f = cc in rw same (rw (h, after_pop) refl)

  watchdog_outputs :
      (now : ℕ) (d : Daemon r)
      → (watchdog r now d).outputs ≡ reminded r threshold now d.last_watchdog d.outputs
  unfolding watchdog
  watchdog_outputs now d = elim (Bool-cases (leb (d.last_watchdog + 5000000000) now)) [
    | inl t ↦ rw t refl
    | inr t ↦ rw t refl
  ]

  watchdog_rest :
      (now : ℕ) (d : Daemon r)
      → ((watchdog r now d).receiver ≡ d.receiver) × ((watchdog r now d).fsm ≡ d.fsm)
  unfolding watchdog
  watchdog_rest now d = elim (Bool-cases (leb (d.last_watchdog + 5000000000) now)) [
    | inl t ↦ rw t (refl, refl)
    | inr t ↦ rw t (refl, refl)
  ]

  -- The end of a pass over these metrics, by the state, the outputs and the last reminder before
  -- it.
  pub record Passed (now n : ℕ) (d : Daemon r) (ms : List (ProcessedMetric r)) (e : Daemon r)
      : Type 0 where
    pub phase_ok : e.phase ≡ testing
    pub emptied : Agrees e.receiver ([], n)
    pub state_ok : e.fsm ≡ state_after r threshold d.fsm ms
    pub signals_ok :
        e.outputs ≡ reminded r threshold now d.last_watchdog (alarms r threshold d.fsm ms d.outputs)

  run_one :
      (d e : Daemon r) (now : ℕ) (es : List (Event r))
      → step r threshold d (main now) ≡ some e
      → run r threshold d (main now ∷ es) ≡ run r threshold e es
  unfolding run
  run_one d e now es h = rw (h, run) refl

  no_alarms :
      (fsm : DaemonState) (out : List (Output Value))
      → (alarms r threshold fsm [] out ≡ out) × (state_after r threshold fsm [] ≡ fsm)
  no_alarms idle out = (refl, refl)
  no_alarms running out = (refl, refl)
  no_alarms fault out = (refl, refl)
  no_alarms shutdown out = (refl, refl)

  pass_empty :
      (d : Daemon r) (now n : ℕ)
      → d.phase ≡ popping
      → Agrees d.receiver ([], n)
      → (e : Daemon r) × (run r threshold d (main now ∷ []) ≡ some e) × Passed now n d [] e
  unfolding run
  pass_empty d now n at q =
      let p = pop_empty d.receiver n q in
      let d' = with_ring d (pop d.receiver).1 in
      let e : Daemon r = record (watchdog r now d') { phase = testing } in
      let kept = watchdog_rest now d' in
      let none_raised = no_alarms d.fsm d.outputs in
      (
        e,
        run_one d e now [] (step_popping d now at ∙ after_pop-none now d (pop d.receiver) p.0),
        record {
          phase_ok = refl;
          emptied = subst (λ ring. Agrees ring ([], n)) (sym kept.0) p.1;
          state_ok = kept.1 ∙ sym none_raised.1;
          signals_ok =
              watchdog_outputs now d'
              ∙ ap (reminded r threshold now d.last_watchdog) (sym none_raised.0);
        },
      )

  pub pass_metrics :
      (fs : List (TelemetryFrame r)) (d : Daemon r) (ms : List (ProcessedMetric r)) (now n : ℕ)
      → d.phase ≡ popping
      → d.bus.bus ≡ true
      → Agrees d.receiver (fs, n)
      → process_all r d.processor fs ≡ some ms
      → (e : Daemon r) × (run r threshold d (replicate (suc (length fs)) (main now)) ≡ some e)
        × Passed now n d ms e
  unfolding process_all
  pass_metrics [] d ms now n at o q e =
      let none_made : [] ≡ ms = cc in
      let (k, a, b) = pass_empty d now n at q in
      (k, a, subst (λ ms. Passed now n d ms k) none_made b)
  pass_metrics (f ∷ fs) d ms now n at o q e =
      let (m, p, rest, made, others, parts) = process_all-cons d.processor f fs ms e in
      let taken_first = pop_first d.receiver f fs n q in
      let ready : Daemon r = record d { receiver = (pop d.receiver).1; processor = p } in
      let k = on_metric r threshold ready m in
      let noted_m = on_metric-Noted r threshold ready m o in
      let (z, ran, after) =
        pass_metrics fs k rest now n (noted_m.phase_ok ∙ at) (noted_m.bus_ok ∙ o)
          (subst (λ ring. Agrees ring (fs, n)) (sym noted_m.receiver_ok) taken_first.1)
          (ap (λ p. process_all r p fs) noted_m.processor_ok ∙ others) in
      (
        z,
        run_one d k now (replicate (suc (length fs)) (main now)) (
              step_popping d now at
              ∙ after_pop-some now d f m p (pop d.receiver) taken_first.0 made)
            ∙ ran,
        subst (λ ms. Passed now n d ms z) (sym parts)
            (record {
              phase_ok = after.phase_ok;
              emptied = after.emptied;
              state_ok = after.state_ok ∙ noted_m.state_ok rest;
              signals_ok =
                  after.signals_ok
                  ∙ ap
                      (λ last.
                        reminded r threshold now last (alarms r threshold k.fsm rest k.outputs))
                      noted_m.last_ok
                  ∙ ap (reminded r threshold now d.last_watchdog) (noted_m.alarms_ok rest);
            }),
      )

  -- While the ring holds some frames and the main thread alone goes on (nothing is pushed, no method of
  -- the bus is called, no signal comes), from the first `pop` of a pass over a daemon with an open bus and a
  -- processor that has had these samples, fewer than 2^31 with those of the ring, it is back at the test
  -- of `g_quit` with an empty ring after as many steps as there are frames, and one more. The frames
  -- have their averages of ten, as the filter adds and subtracts them, and alarms of three; the first
  -- flagged one has led from RUNNING to FAULT and signalled this and an AlarmRaised with its sensor id,
  -- its filtered value and the threshold, in another state there is no signal; and the watchdog was
  -- reminded if the last time was five seconds ago or more.
  pub run-alarms :
      (high low : Value) (before : List Value) (fs : List (TelemetryFrame r)) (d : Daemon r)
      (now n : ℕ)
      → d.phase ≡ popping
      → d.bus.bus ≡ true
      → Agrees d.receiver (fs, n)
      → length before + length fs < 2 ^ 31
      → Settled r d.processor 10 high low 3 before
      → (e : Daemon r) × (run r threshold d (replicate (suc (length fs)) (main now)) ≡ some e)
        × Passed now n d (metrics r 10 high low 3 before fs) e
  run-alarms high low before fs d now n at o q fits s =
      pass_metrics fs d (metrics r 10 high low 3 before fs) now n at o q
        (process_all-Settled r d.processor 10 high low 3 before fs (omega arith) fits s)
