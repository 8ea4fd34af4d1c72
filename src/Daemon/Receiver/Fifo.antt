-- ===== src/Daemon/Receiver/Fifo.antt =====
-- src/TelemetryReceiver.cpp: what the two threads hand over.
use Prim.{tt, ⊥}
use mathlib.Core.Path.{subst}
use mathlib.Core.List.{append_assoc}
use edge_ipc_daemon.Prelude.{
  ◌<◌, false, List, [], ◌∷◌, ◌++◌, some, ◌≡◌, refl, sym, ◌∙◌, ap, arith, length, map, ◌==◌,
  Bool-cases, inl, inr, length-append,
}
use edge_ipc_daemon.Daemon.Receiver.{capacity, Receiver, consume}
use edge_ipc_daemon.Daemon.Receiver.Ring.{
  make-Holds, fill-Holds, fill_lem, publish-Holds, front-Holds, consume-Holds, drop-Holds,
  is_full-Holds, is_empty-Holds,
}
use edge_ipc_daemon.Daemon.Receiver.Threads.{
  Producer, between, to_fill, to_publish, Consumer, waiting, to_read, to_consume, Run, Turn,
  produces, consumes, begin, produce, consume_one, turn, turns, Room, Stock, Fifo,
}

module _ {A : Type 0} where
  map-append : {B : Type 0} (f : A → B) (xs ys : List A) → map f (xs ++ ys) ≡ map f xs ++ map f ys
  map-append f [] ys = refl
  map-append f (x ∷ xs) ys = rw (map-append f xs ys)

  Stock-append : (c : Consumer A) (xs : List A) (x : A) → Stock c xs → Stock c (xs ++ x ∷ [])
  unfolding Stock
  Stock-append waiting xs x k = k
  Stock-append to_read xs x k = omega (arith, length-append xs (x ∷ []))
  Stock-append (to_consume y) [] x k = elim k [ ]
  Stock-append (to_consume y) (z ∷ xs) x k = k

  Room-consume :
      (p : Producer A) (q : Receiver A) (y : A) (xs : List A)
      → Room p q (y ∷ xs)
      → Room p (consume q) xs
  unfolding Room consume
  Room-consume between q y xs r = r
  Room-consume (to_fill x) q y xs r = omega (arith, r)
  Room-consume (to_publish x) q y xs (r, e) = (omega (arith, r), e)

  produce-Fifo :
      (p : Producer A) (s : Run A) (xs : List A) (frame : A)
      → s.producer ≡ p
      → Fifo s xs
      → (ys : List A) × Fifo (produce p frame s) ys
  unfolding produce Room
  produce-Fifo between s xs frame e f = elim (Bool-cases (length xs == 1023)) [
    | inl h ↦
        rw (is_full-Holds f.holds, h)
          (
            xs,
            record { holds = drop-Holds f.holds; room = rw e tt; stock = f.stock; order = f.order },
          )
    | inr h ↦
        rw (is_full-Holds f.holds, h)
          (
            xs,
            record {
              holds = f.holds;
              room = let b = f.holds.short in ground arith;
              stock = f.stock;
              order = f.order;
            },
          )
  ]
  produce-Fifo (to_fill x) s xs frame e f =
      let r : Room (to_fill x) s.ring xs = subst (λ p. Room p s.ring xs) e f.room in
      (
        xs,
        record {
          holds = fill-Holds f.holds x;
          room = (r, fill_lem f.holds x);
          stock = f.stock;
          order = f.order;
        },
      )
  produce-Fifo (to_publish x) s xs frame e f =
      let r : Room (to_publish x) s.ring xs = subst (λ p. Room p s.ring xs) e f.room in
      (
        xs ++ x ∷ [],
        record {
          holds = publish-Holds f.holds r.0 r.1;
          room = tt;
          stock = Stock-append s.consumer xs x f.stock;
          order =
              map-append some s.accepted (x ∷ [])
              ∙ ap (λ l. l ++ some x ∷ []) f.order
              ∙ append_assoc s.received (map some xs) (some x ∷ [])
              ∙ ap (λ l. s.received ++ l) (sym (map-append some xs (x ∷ [])));
        },
      )

  consume_one-Fifo :
      (c : Consumer A) (s : Run A) (xs : List A)
      → s.consumer ≡ c
      → Fifo s xs
      → (ys : List A) × Fifo (consume_one c s) ys
  unfolding consume_one Stock
  consume_one-Fifo waiting s [] e f = rw (is_empty-Holds f.holds) ([], f)
  consume_one-Fifo waiting s (x ∷ xs) e f =
      let h : (s.ring.head == s.ring.tail) ≡ false = is_empty-Holds f.holds ∙ ground arith in
      rw h (x ∷ xs, record { holds = f.holds; room = f.room; stock = omega arith; order = f.order })
  consume_one-Fifo to_read s [] e f =
      let k : 0 < 0 = subst (λ c. Stock {A = A} c []) e f.stock in absurd (omega (arith, k))
  consume_one-Fifo to_read s (x ∷ xs) e f = (
    x ∷ xs,
    record { holds = f.holds; room = f.room; stock = front-Holds f.holds; order = f.order },
  )
  consume_one-Fifo (to_consume y) s [] e f =
      let k : ⊥ = subst (λ c. Stock {A = A} c []) e f.stock in elim k [ ]
  consume_one-Fifo (to_consume y) s (x ∷ xs) e f =
      let k : y ≡ some x = subst (λ c. Stock c (x ∷ xs)) e f.stock in
      (
        xs,
        record {
          holds = consume-Holds f.holds;
          room = Room-consume s.producer s.ring x xs f.room;
          stock = tt;
          order = f.order ∙ rw k (sym (append_assoc s.received (some x ∷ []) (map some xs)));
        },
      )

  pub turns-Fifo :
      (s : Run A) (xs : List A)
      → Fifo s xs
      → (ts : List (Turn A)) → (ys : List A) × Fifo (turns s ts) ys
  unfolding turns turn
  turns-Fifo s xs f [] = (xs, f)
  turns-Fifo s xs f (produces frame ∷ ts) =
      let g = produce-Fifo s.producer s xs frame refl f in
      turns-Fifo (turn s (produces frame)) g.0 g.1 ts
  turns-Fifo s xs f (consumes ∷ ts) =
      let g = consume_one-Fifo s.consumer s xs refl f in turns-Fifo (turn s consumes) g.0 g.1 ts

  begin-Fifo : (blank : A) → Fifo (begin blank) []
  unfolding begin Room Stock
  begin-Fifo blank = record { holds = make-Holds blank; room = tt; stock = tt; order = refl }

  -- However the atomic steps of one thread in push and one in pop interleave, from a new receiver
  -- on: the frames that pop gave, followed by fewer than 1024 others, are those that push accepted,
  -- in the same order.
  pub turns_fifo :
      (blank : A) (ts : List (Turn A))
      → (xs : List A) × (map some (turns (begin blank) ts).accepted
          ≡ (turns (begin blank) ts).received ++ map some xs)
        × (length xs < capacity)
  turns_fifo blank ts =
      let f = turns-Fifo (begin blank) [] (begin-Fifo blank) ts in (f.0, f.1.order, f.1.holds.short)
