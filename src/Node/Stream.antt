-- ===== src/Node/Stream.antt =====
-- secure_distributed_node/src/TelemetryNode.cpp: `PushSnapshot` and `PopSnapshot`, each whole under
-- `stream_mu_`.
use mathlib.Core.List.{Sublistᴰ, append-nil, append_assoc}
use mathlib.Core.List.Sublistᴰ.{slnil, cons, cons-cons, append}
use mathlib.Core.Path.{subst}
use edge_ipc_daemon.Prelude.{
  ℕ, suc, ◌≤◌, ◌≡◌, ◌∙◌, ap, sym, false, List, [], ◌∷◌, ◌++◌, ◌⊎◌, ◌<◌, Option, none, some, refl,
  arith, leb, length, length-append, if◌then◌else◌, Bool-cases, inl, inr,
}

abbrev pub stream_queue_cap : ℕ
stream_queue_cap = 256

module _ {A : Type 0} where
  abbrev pub pop_front : List A → List A
  pop_front [] = []
  pop_front (x ∷ xs) = xs

  unfoldable pub push_snapshot : List A → A → List A
  push_snapshot queue snap =
      (if leb stream_queue_cap (length queue) then pop_front queue else queue) ++ snap ∷ []

  -- When the wait for a frame or for `running` to end is over, or has timed out; `none` is `false`.
  unfoldable pub pop_snapshot : List A → Option A × List A
  pop_snapshot [] = (none, [])
  pop_snapshot (x ∷ xs) = (some x, xs)

-- A call of one of the two, by any thread; they come in the order in which they get the mutex.
pub data Call (A : Type 0) : Type 0 where
  pushes : A → Call A
  pops : Call A

-- The queue, and the snapshots that were pushed and popped so far, in order.
pub record Log (A : Type 0) : Type 0 where
  pub queue : List A
  pub pushed : List A
  pub popped : List A

module _ {A : Type 0} where
  abbrev found : Option A → List A
  found none = []
  found (some x) = x ∷ []

  unfoldable pub step : Log A → Call A → Log A
  step l (pushes snap) = record {
    queue = push_snapshot l.queue snap;
    pushed = l.pushed ++ snap ∷ [];
    popped = l.popped;
  }
  step l pops =
      let r = pop_snapshot l.queue in
      record { queue = r.1; pushed = l.pushed; popped = l.popped ++ found r.0 }

  unfoldable pub run : Log A → List (Call A) → Log A
  run l [] = l
  run l (c ∷ cs) = run (step l c) cs

  abbrev pub fresh : Log A
  fresh = record { queue = []; pushed = []; popped = [] }

  -- The queue holds the latest of the pushed snapshots, 256 at most, and the popped ones are some
  -- of the others, `gone`, in their order, and all of these if no more than 256 were pushed.
  pub record Recent (l : Log A) (gone : List A) : Type 0 where
    pub parts : l.pushed ≡ gone ++ l.queue
    pub in_order : Sublistᴰ l.popped gone
    pub lossless : (l.popped ≡ gone) ⊎ (stream_queue_cap < length l.pushed)
    pub bounded : length l.queue ≤ stream_queue_cap

  skip : (xs ys : List A) (y : A) → Sublistᴰ xs ys → Sublistᴰ xs (ys ++ y ∷ [])
  skip xs ys y d = subst (λ l. Sublistᴰ l (ys ++ y ∷ [])) (append-nil xs) (append d (cons slnil))

  still :
      (l : Log A) (gone : List A) (snap : A)
      → Recent l gone
      → (l.popped ≡ gone) ⊎ (stream_queue_cap < length (l.pushed ++ snap ∷ []))
  still l gone snap h = elim h.lossless [
    | inl same ↦ inl same
    | inr more ↦ inr (omega (arith, more, length-append l.pushed (snap ∷ [])))
  ]

  overflowed :
      (l : Log A) (gone : List A) (snap : A)
      → Recent l gone
      → stream_queue_cap ≤ length l.queue
      → stream_queue_cap < length (l.pushed ++ snap ∷ [])
  overflowed l gone snap h full =
      let a = ap length h.parts in
      omega (arith, a, full, length-append l.pushed (snap ∷ []), length-append gone l.queue)

  ltb_cap :
      (xs : List A)
      → leb stream_queue_cap (suc (length xs)) ≡ false
      → suc (suc (length xs)) ≤ stream_queue_cap
  ltb_cap xs room = ground arith

  push-Recent :
      (l : Log A) (gone : List A) (snap : A)
      → Recent l gone
      → (queue : List A) → l.queue ≡ queue
      → (after : List A) × Recent (step l (pushes snap)) after
  unfolding step push_snapshot
  push-Recent l gone snap h [] e = rw e (
    gone,
    record {
      parts =
          ap (λ t. t ++ snap ∷ []) (h.parts ∙ ap (λ t. gone ++ t) e)
          ∙ append_assoc gone [] (snap ∷ []);
      in_order = h.in_order;
      lossless = still l gone snap h;
      bounded = omega arith;
    },
  )
  push-Recent l gone snap h (x ∷ xs) e =
      elim (Bool-cases (leb stream_queue_cap (suc (length xs)))) [
        | inl full ↦
            rw (e, full)
              (
                gone ++ x ∷ [],
                record {
                  parts =
                      ap (λ t. t ++ snap ∷ []) (h.parts ∙ ap (λ t. gone ++ t) e)
                      ∙ append_assoc gone (x ∷ xs) (snap ∷ [])
                      ∙ sym (append_assoc gone (x ∷ []) (xs ++ snap ∷ []));
                  in_order = skip l.popped gone x h.in_order;
                  lossless = inr (
                      overflowed l gone snap h
                        (let n : length l.queue ≡ suc (length xs) = ap length e in ground arith));
                  bounded =
                      let n : length l.queue ≡ suc (length xs) = ap length e in
                      omega (arith, h.bounded, n, length-append xs (snap ∷ []));
                },
              )
        | inr room ↦
            rw (e, room)
              (
                gone,
                record {
                  parts =
                      ap (λ t. t ++ snap ∷ []) (h.parts ∙ ap (λ t. gone ++ t) e)
                      ∙ append_assoc gone (x ∷ xs) (snap ∷ []);
                  in_order = h.in_order;
                  lossless = still l gone snap h;
                  bounded = omega (arith, ltb_cap xs room, length-append xs (snap ∷ []));
                },
              )
      ]

  popped_nil :
      (l : Log A) (gone : List A)
      → Recent l gone
      → (l.popped ++ [] ≡ gone) ⊎ (stream_queue_cap < length l.pushed)
  popped_nil l gone h = rw (append-nil l.popped) h.lossless

  popped_one :
      (l : Log A) (gone : List A) (x : A)
      → Recent l gone
      → (l.popped ++ x ∷ [] ≡ gone ++ x ∷ []) ⊎ (stream_queue_cap < length l.pushed)
  popped_one l gone x h = elim h.lossless [
    | inl same ↦ inl (ap (λ t. t ++ x ∷ []) same)
    | inr more ↦ inr more
  ]

  pop-Recent :
      (l : Log A) (gone queue : List A)
      → l.queue ≡ queue
      → Recent l gone
      → (after : List A) × Recent (step l pops) after
  unfolding step pop_snapshot
  pop-Recent l gone [] e h = rw e (
    gone,
    record {
      parts = h.parts ∙ ap (λ t. gone ++ t) e;
      in_order = subst (λ t. Sublistᴰ t gone) (sym (append-nil l.popped)) h.in_order;
      lossless = popped_nil l gone h;
      bounded = omega arith;
    },
  )
  pop-Recent l gone (x ∷ xs) e h =
      let n : length l.queue ≡ suc (length xs) = ap length e in
      rw e (
        gone ++ x ∷ [],
        record {
          parts = h.parts ∙ ap (λ t. gone ++ t) e ∙ sym (append_assoc gone (x ∷ []) xs);
          in_order = append h.in_order (cons-cons refl slnil);
          lossless = popped_one l gone x h;
          bounded = omega (arith, h.bounded, n);
        },
      )

  step-Recent :
      (l : Log A) (gone : List A) (c : Call A)
      → Recent l gone
      → (after : List A) × Recent (step l c) after
  step-Recent l gone (pushes snap) h = push-Recent l gone snap h l.queue refl
  step-Recent l gone pops h = pop-Recent l gone l.queue refl h

  run-Recent_on :
      (l : Log A) (gone : List A) (cs : List (Call A))
      → Recent l gone
      → (after : List A) × Recent (run l cs) after
  unfolding run
  run-Recent_on l gone [] h = (gone, h)
  run-Recent_on l gone (c ∷ cs) h =
      let g = step-Recent l gone c h in run-Recent_on (step l c) g.0 cs g.1

  -- Whatever threads push and pop, from an empty queue on: the queue holds the latest of the pushed
  -- snapshots, 256 at most, and the popped ones are some of those before them, in their order and
  -- none twice, and all of those if no more than 256 were pushed.
  pub run-Recent : (cs : List (Call A)) → (gone : List A) × Recent (run fresh cs) gone
  run-Recent cs =
      run-Recent_on fresh [] cs
        (record { parts = refl; in_order = slnil; lossless = inl refl; bounded = omega arith })
