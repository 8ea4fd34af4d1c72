-- ===== src/Daemon/Receiver/Ring.antt =====
-- include/TelemetryReceiver.h: the ring against the queue of the frames that it holds.
use edge_ipc_daemon.Prelude.{
  ℕ, zero, suc, ◌+◌, ◌%◌, ◌<◌, List, [], ◌∷◌, ◌++◌, some, ◌≡◌, refl, sym, ◌∙◌, ap, ◌≢◌, arith,
  length, get_elem?, length-set, get_elem?-set_self, get_elem?-set_ne, length-append,
  length-replicate, ◌==◌, ltb, Bool-cases, inl, inr,
}
use edge_ipc_daemon.Daemon.Receiver.{
  capacity, next, Receiver, make, fill, publish, drop, is_full, front, consume,
}

-- `q` holds the frames `xs`, the oldest first, from its head on.
pub record Holds {A : Type 0} (q : Receiver A) (xs : List A) : Type 0 where
  pub size : length q.buf ≡ capacity
  pub short : length xs < capacity
  pub first : q.head < capacity
  pub last : q.tail ≡ (q.head + length xs) % capacity
  pub same : (i : ℕ) → i < length xs → get_elem? q.buf ((q.head + i) % capacity) ≡ get_elem? xs i

module _ {A : Type 0} where
  get_elem?-append_lt :
      (xs ys : List A) (i : ℕ) → i < length xs → get_elem? (xs ++ ys) i ≡ get_elem? xs i
  get_elem?-append_lt [] ys i h = absurd (omega arith)
  get_elem?-append_lt (x ∷ xs) ys zero h = refl
  get_elem?-append_lt (x ∷ xs) ys (suc i) h = get_elem?-append_lt xs ys i (omega arith)

  get_elem?-append_last : (xs : List A) (x : A) → get_elem? (xs ++ x ∷ []) (length xs) ≡ some x
  get_elem?-append_last [] x = refl
  get_elem?-append_last (y ∷ xs) x = get_elem?-append_last xs x

  pub make-Holds : (blank : A) → Holds (make blank) []
  make-Holds blank = record {
    size = unfold make in length-replicate capacity blank;
    short = omega arith;
    first = unfold make in omega arith;
    last = unfold make in refl;
    same = λ i h. absurd (omega arith);
  }

  -- The slot at the tail holds no frame.
  slot_ne :
      {q : Receiver A} {xs : List A}
      → Holds q xs
      → (i : ℕ) → i < length xs
      → q.tail ≢ (q.head + i) % capacity
  slot_ne {q = q} {xs = xs} o i h e =
      let a : (q.head + length xs) % capacity ≡ (q.head + i) % capacity = sym o.last ∙ e in
      let b = o.short in let c = o.first in omega arith

  tail_lt : {q : Receiver A} {xs : List A} → Holds q xs → q.tail < length q.buf
  tail_lt o = let a = o.last in let b = o.size in omega arith

  pub fill-Holds :
      {q : Receiver A} {xs : List A} → Holds q xs → (frame : A) → Holds (fill q frame) xs
  unfolding fill
  fill-Holds {q = q} o frame = record {
    size = length-set q.buf q.tail frame ∙ o.size;
    short = o.short;
    first = o.first;
    last = o.last;
    same = λ i h. get_elem?-set_ne q.buf frame (slot_ne o i h) ∙ o.same i h;
  }

  pub fill_lem :
      {q : Receiver A} {xs : List A}
      → Holds q xs
      → (frame : A) → get_elem? (fill q frame).buf (fill q frame).tail ≡ some frame
  unfolding fill
  fill_lem {q = q} o frame = get_elem?-set_self q.buf q.tail frame (tail_lt o)

  pub publish-Holds :
      {q : Receiver A} {xs : List A} {frame : A}
      → Holds q xs
      → suc (length xs) < capacity
      → get_elem? q.buf q.tail ≡ some frame
      → Holds (publish q) (xs ++ frame ∷ [])
  unfolding publish
  publish-Holds {q = q} {xs = xs} {frame = frame} o h e =
      let n : length (xs ++ frame ∷ []) ≡ suc (length xs) =
        omega (arith, length-append xs (frame ∷ [])) in
      let l = o.last in
      record {
        size = o.size;
        short = omega arith;
        first = o.first;
        last = omega arith;
        same = λ i b. elim (Bool-cases (ltb i (length xs))) [
          | inl t ↦
              (let u : i < length xs = ground arith in
                o.same i u ∙ sym (get_elem?-append_lt xs (frame ∷ []) i u))
          | inr t ↦
              (let u : i ≡ length xs = ground arith in
                rw u (ap (get_elem? q.buf) (sym l) ∙ e ∙ sym (get_elem?-append_last xs frame)))
        ];
      }

  pub front-Holds : {q : Receiver A} {x : A} {xs : List A} → Holds q (x ∷ xs) → front q ≡ some x
  unfolding front
  front-Holds {q = q} o =
      let a = o.first in
      let b : (q.head + 0) % capacity ≡ q.head = omega arith in
      ap (get_elem? q.buf) (sym b) ∙ o.same 0 (omega arith)

  pub consume-Holds :
      {q : Receiver A} {x : A} {xs : List A} → Holds q (x ∷ xs) → Holds (consume q) xs
  unfolding consume
  consume-Holds {q = q} {xs = xs} o =
      let a = o.last in
      let b = o.short in
      record {
        size = o.size;
        short = omega arith;
        first = omega arith;
        last = omega arith;
        same = λ i h.
            let e : (next q.head + i) % capacity ≡ (q.head + suc i) % capacity = omega arith in
            ap (get_elem? q.buf) e ∙ o.same (suc i) (omega arith);
      }

  pub drop-Holds : {q : Receiver A} {xs : List A} → Holds q xs → Holds (drop q) xs
  unfolding drop
  drop-Holds o = record {
    size = o.size;
    short = o.short;
    first = o.first;
    last = o.last;
    same = o.same;
  }

  pub is_full-Holds :
      {q : Receiver A} {xs : List A} → Holds q xs → is_full q q.head ≡ (length xs == 1023)
  unfolding is_full
  is_full-Holds o = let a = o.last in let b = o.short in let c = o.first in ground arith

  pub is_empty-Holds :
      {q : Receiver A} {xs : List A} → Holds q xs → (q.head == q.tail) ≡ (length xs == 0)
  is_empty-Holds o = let a = o.last in let b = o.short in let c = o.first in ground arith
