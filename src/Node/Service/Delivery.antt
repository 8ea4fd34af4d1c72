-- ===== src/Node/Service/Delivery.antt =====
-- The samples of `StreamTelemetry` against the snapshots that were pushed.
use mathlib.Core.List.{Sublistᴰ, append-nil, append_assoc}
use mathlib.Core.Path.{subst}
use edge_ipc_daemon.Prelude.{
  ℕ, ◌≤◌, ◌<◌, ◌≡◌, ◌∙◌, ap, sym, refl, Bool, true, false, not, ◌&&◌, List, [], ◌∷◌, ◌++◌, ◌⊎◌, inl,
  inr, arith, ltb, length, length-append, map, Bool-cases,
}
use edge_ipc_daemon.Node.Stream.{
  pop_snapshot, stream_queue_cap, Call, pushes, pops, Log, step, run, fresh, run-Recent,
}
use edge_ipc_daemon.Node.Producer.{ProcessedSnapshot}
use edge_ipc_daemon.Node.Service.{
  sample_of, Round, Streamed, push_all, after_pop, stream_telemetry, all_arrived,
}

module _ {V : Type 0} where
  run-append :
      (l : Log (ProcessedSnapshot V)) (xs ys : List (Call (ProcessedSnapshot V)))
      → run l (xs ++ ys) ≡ run (run l xs) ys
  unfolding run
  run-append l [] ys = refl
  run-append l (c ∷ xs) ys = run-append (step l c) xs ys

  -- The snapshots of a round are pushed.
  arrives :
      (xs : List (ProcessedSnapshot V)) (l : Log (ProcessedSnapshot V))
      → let m = run l (map pushes xs) in
        (m.queue ≡ push_all l.queue xs) × (m.pushed ≡ l.pushed ++ xs) × (m.popped ≡ l.popped)
  unfolding run step
  arrives [] l = (refl, sym (append-nil l.pushed), refl)
  arrives (x ∷ xs) l =
      let (a, b, c) = arrives xs (step l (pushes x)) in
      (a, b ∙ append_assoc l.pushed (x ∷ []) xs, c)

  -- The stream and the log of the queue agree.
  record Agree (s : Streamed V) (l : Log (ProcessedSnapshot V)) : Type 0 where
    queue_ok : l.queue ≡ s.queue
    popped_ok : map sample_of l.popped ≡ s.samples ++ s.unsent
    single : length s.unsent ≤ 1

  map-append_one :
      (xs : List (ProcessedSnapshot V)) (x : ProcessedSnapshot V)
      → map sample_of (xs ++ x ∷ []) ≡ map sample_of xs ++ sample_of x ∷ []
  map-append_one [] x = refl
  map-append_one (y ∷ xs) x = ap (λ ys. sample_of y ∷ ys) (map-append_one xs x)

  -- The calls that a stream makes, from here on, with the snapshots that come meanwhile.
  abbrev Follows : ℕ → List (Round V) → Streamed V → Log (ProcessedSnapshot V) → Type 0
  Follows deadline rs s l =
      (cs : List (Call (ProcessedSnapshot V))) × (later : List (ProcessedSnapshot V)) × Agree
        (stream_telemetry deadline rs s) (run l cs)
      × ((run l cs).pushed ++ later ≡ l.pushed ++ all_arrived rs)

  stops :
      (rs : List (Round V)) (s t : Streamed V) (l : Log (ProcessedSnapshot V))
      → Agree s l
      → t ≡ s
      → (cs : List (Call (ProcessedSnapshot V))) × (later : List (ProcessedSnapshot V)) × Agree t
          (run l cs)
        × ((run l cs).pushed ++ later ≡ l.pushed ++ all_arrived rs)
  unfolding run
  stops rs s t l h e = ([], all_arrived rs, subst (λ t. Agree t l) (sym e) h, refl)

  step_pops :
      (m : Log (ProcessedSnapshot V)) (x : ProcessedSnapshot V) (xs : List (ProcessedSnapshot V))
      → m.queue ≡ x ∷ xs
      → let n = step m pops in
        (n.queue ≡ xs) × (n.popped ≡ m.popped ++ x ∷ []) × (n.pushed ≡ m.pushed)
  unfolding step pop_snapshot
  step_pops m x xs e = rw e (refl, refl, refl)

  popped_more :
      (m : Log (ProcessedSnapshot V)) (x : ProcessedSnapshot V) (xs : List (ProcessedSnapshot V))
      (s : Streamed V)
      → m.queue ≡ x ∷ xs
      → map sample_of m.popped ≡ s.samples ++ s.unsent
      → s.unsent ≡ []
      → map sample_of (step m pops).popped ≡ s.samples ++ sample_of x ∷ []
  popped_more m x xs s e p u =
      ap (map sample_of) (step_pops m x xs e).1
      ∙ map-append_one m.popped x
      ∙ ap (λ ys. ys ++ sample_of x ∷ []) (p ∙ ap (λ z. s.samples ++ z) u ∙ append-nil s.samples)

  -- The end of a round, with what the rest of the stream does.
  follow_pop :
      (deadline : ℕ) (rs : List (Round V))
      → ((s : Streamed V) (l : Log (ProcessedSnapshot V))
          → Agree s l
          → s.unsent ≡ []
          → Follows deadline rs s l)
      → (written : Bool) (s : Streamed V) (queue : List (ProcessedSnapshot V))
        (m : Log (ProcessedSnapshot V))
      → m.queue ≡ queue
      → map sample_of m.popped ≡ s.samples ++ s.unsent
      → s.unsent ≡ []
      → (cs : List (Call (ProcessedSnapshot V))) × (later : List (ProcessedSnapshot V)) × Agree
          (after_pop written (stream_telemetry deadline rs) s (pop_snapshot queue))
          (run m cs)
        × ((run m cs).pushed ++ later ≡ m.pushed ++ all_arrived rs)
  unfolding after_pop pop_snapshot run
  follow_pop deadline rs rest written s [] m e p u =
      rest (record s { queue = [] }) m
        (record { queue_ok = e; popped_ok = p; single = omega (arith, ap length u) }) u
  follow_pop deadline rs rest true s (x ∷ xs) m e p u =
      let (a, b, c) = step_pops m x xs e in
      let (cs, later, ok, parts) =
        rest (record s { samples = s.samples ++ sample_of x ∷ []; queue = xs }) (step m pops)
          (record {
            queue_ok = a;
            popped_ok =
                popped_more m x xs s e p u
                ∙ sym (
                    ap (λ z. (s.samples ++ sample_of x ∷ []) ++ z) u
                    ∙ append-nil (s.samples ++ sample_of x ∷ []));
            single = omega (arith, ap length u);
          })
          u in
      (pops ∷ cs, later, ok, parts ∙ ap (λ pushed. pushed ++ all_arrived rs) c)
  follow_pop deadline rs rest false s (x ∷ xs) m e p u =
      let (a, b, c) = step_pops m x xs e in
      (
        pops ∷ [],
        all_arrived rs,
        record { queue_ok = a; popped_ok = popped_more m x xs s e p u; single = omega arith },
        ap (λ pushed. pushed ++ all_arrived rs) c,
      )

  follows :
      (deadline : ℕ) (rs : List (Round V)) (s : Streamed V) (l : Log (ProcessedSnapshot V))
      → Agree s l
      → s.unsent ≡ []
      → Follows deadline rs s l
  unfolding stream_telemetry run
  follows deadline [] s l h u = ([], [], h, refl)
  follows deadline (r ∷ rs) s l h u = elim (Bool-cases (not r.cancelled && ltb r.now deadline)) [
    | inr e ↦ stops (r ∷ rs) s (stream_telemetry deadline (r ∷ rs) s) l h (rw e refl)
    | inl e ↦
        let (a, b, c) = arrives r.arrived l in
        let m = run l (map pushes r.arrived) in
        let (cs, later, ok, parts) =
          follow_pop deadline rs (follows deadline rs) r.written s (push_all s.queue r.arrived) m
            (a ∙ ap (λ q. push_all q r.arrived) h.queue_ok) (ap (map sample_of) c ∙ h.popped_ok)
            u in
        let all = map pushes r.arrived ++ cs in
        let goes_on : stream_telemetry deadline (r ∷ rs) s
            ≡ after_pop r.written (stream_telemetry deadline rs) s
                (pop_snapshot (push_all s.queue r.arrived)) =
          rw e refl in
        (
          all,
          later,
          subst (λ t. Agree t (run l all)) (sym goes_on)
              (subst
                (Agree (
                  after_pop r.written (stream_telemetry deadline rs) s
                    (pop_snapshot (push_all s.queue r.arrived))))
                (sym (run-append l (map pushes r.arrived) cs)) ok),
          ap (λ n. n.pushed ++ later) (run-append l (map pushes r.arrived) cs)
              ∙ parts
              ∙ ap (λ ps. ps ++ all_arrived rs) b
              ∙ append_assoc l.pushed r.arrived (all_arrived rs),
        )
  ]

  abbrev pub opened : Streamed V
  opened = record { samples = []; unsent = []; queue = [] }

  -- A stream that is the only one, from an empty queue on: the samples that it writes, and after
  -- them the one that it could not write if there is one, are those of snapshots that were pushed
  -- before the ones in the queue, in their order and none twice, and of all of these if no more
  -- than 256 snapshots were pushed in all.
  pub stream_telemetry-Recent :
      (deadline : ℕ) (rs : List (Round V))
      → let s = stream_telemetry deadline rs opened in
        (gone : List (ProcessedSnapshot V)) × (popped : List (ProcessedSnapshot V)) × (later : List
          (ProcessedSnapshot V))
        × ((gone ++ s.queue) ++ later ≡ all_arrived rs)
        × (map sample_of popped ≡ s.samples ++ s.unsent)
        × (length s.unsent ≤ 1)
        × Sublistᴰ popped gone
        × ((popped ≡ gone) ⊎ (stream_queue_cap < length (all_arrived rs)))
  stream_telemetry-Recent deadline rs =
      let (cs, later, ok, parts) =
        follows deadline rs opened fresh
          (record { queue_ok = refl; popped_ok = refl; single = omega arith }) refl in
      let (gone, recent) = run-Recent cs in
      let l = run fresh cs in
      let sizes = ap length parts in
      (
        gone,
        l.popped,
        later,
        ap (λ q. (gone ++ q) ++ later) (sym ok.queue_ok)
            ∙ ap (λ ps. ps ++ later) (sym recent.parts)
            ∙ parts,
        ok.popped_ok,
        ok.single,
        recent.in_order,
        elim recent.lossless [
          | inl same ↦ inl same
          | inr more ↦ inr (omega (arith, more, sizes, length-append l.pushed later))
        ],
      )
