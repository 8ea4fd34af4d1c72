-- ===== src/Daemon/Receiver/Calls.antt =====
-- include/TelemetryReceiver.h: whole calls of `push` and `pop`, against a queue.
use edge_ipc_daemon.Prelude.{
  ℕ, suc, ◌+◌, ◌%◌, ◌^◌, ◌<◌, Bool, true, false, List, [], ◌∷◌, ◌++◌, Option, none, some, ◌≡◌, refl,
  ◌∙◌, arith, length, if◌then◌else◌, ◌==◌, Bool-cases, inl, inr,
}
use edge_ipc_daemon.Daemon.Receiver.{
  capacity, Receiver, make, fill, publish, drop, push, consume, pop,
}
use edge_ipc_daemon.Daemon.Receiver.Ring.{
  Holds, make-Holds, fill-Holds, fill_lem, publish-Holds, front-Holds, consume-Holds, drop-Holds,
  is_full-Holds, is_empty-Holds,
}

pub data Call (A : Type 0) : Type 0 where
  pushed : A → Call A
  popped : Call A

-- What a call returns.
pub data Answer (A : Type 0) : Type 0 where
  accepted : Bool → Answer A
  taken : Option A → Answer A

module _ {A : Type 0} where
  unfoldable pub call : Receiver A → Call A → Answer A × Receiver A
  call q (pushed frame) = let r = push q frame in (accepted r.0, r.1)
  call q popped = let r = pop q in (taken r.0, r.1)

  unfoldable pub calls : Receiver A → List (Call A) → List (Answer A) × Receiver A
  calls q [] = ([], q)
  calls q (c ∷ cs) = let r = call q c in let rest = calls r.1 cs in (r.0 ∷ rest.0, rest.1)

  -- The same on a queue of at most 1023 frames and the number of those that it refused.
  unfoldable pub queue_call : List A × ℕ → Call A → Answer A × (List A × ℕ)
  queue_call (xs, n) (pushed frame) =
      if length xs == 1023
      then (accepted false, (xs, n + 1))
      else (accepted true, (xs ++ frame ∷ [], n))
  queue_call ([], n) popped = (taken none, ([], n))
  queue_call (x ∷ xs, n) popped = (taken (some x), (xs, n))

  unfoldable pub queue_calls : List A × ℕ → List (Call A) → List (Answer A) × (List A × ℕ)
  queue_calls s [] = ([], s)
  queue_calls s (c ∷ cs) =
      let r = queue_call s c in let rest = queue_calls r.1 cs in (r.0 ∷ rest.0, rest.1)

  -- The receiver holds what the queue does, and its counter is that of the refused ones.
  unfoldable pub Agrees : Receiver A → List A × ℕ → Type 0
  Agrees q s = Holds q s.0 × (q.dropped ≡ s.1 % 2 ^ 64)

  drop_lem : (q : Receiver A) (n : ℕ) → q.dropped ≡ n % 2 ^ 64 → (drop q).dropped ≡ (n + 1) % 2 ^ 64
  unfolding drop
  drop_lem q n d = omega (arith, d)

  pub call-Agrees :
      (q : Receiver A) (s : List A × ℕ)
      → Agrees q s
      → (c : Call A) → ((call q c).0 ≡ (queue_call s c).0) × Agrees (call q c).1 (queue_call s c).1
  unfolding Agrees call queue_call push pop fill publish consume
  call-Agrees q (xs, n) (o, d) (pushed frame) = elim (Bool-cases (length xs == 1023)) [
    | inl e ↦ rw (is_full-Holds o, e) (refl, (drop-Holds o, drop_lem q n d))
    | inr e ↦
        let h : suc (length xs) < capacity = let b = o.short in ground arith in
        rw (is_full-Holds o, e) (refl, (publish-Holds (fill-Holds o frame) h (fill_lem o frame), d))
  ]
  call-Agrees q ([], n) (o, d) popped = rw (is_empty-Holds o) (refl, (o, d))
  call-Agrees q (x ∷ xs, n) (o, d) popped =
      let e : (q.head == q.tail) ≡ false = is_empty-Holds o ∙ ground arith in
      rw (e, front-Holds o) (refl, (consume-Holds o, d))

  -- The answers of any calls of push and pop, from any state that agrees with a queue, are those of
  -- the queue, in which a push is refused at 1023 frames and counted; and the states agree after
  -- it.
  pub calls-Agrees :
      (q : Receiver A) (s : List A × ℕ)
      → Agrees q s
      → (cs : List (Call A))
      → ((calls q cs).0 ≡ (queue_calls s cs).0) × Agrees (calls q cs).1 (queue_calls s cs).1
  unfolding calls queue_calls
  calls-Agrees q s h [] = (refl, h)
  calls-Agrees q s h (c ∷ cs) =
      let a = call-Agrees q s h c in
      let b = calls-Agrees (call q c).1 (queue_call s c).1 a.1 cs in (rw (a.0, b.0), b.1)

  pub make-Agrees : (blank : A) → Agrees (make blank) ([], 0)
  unfolding Agrees make
  make-Agrees blank = (make-Holds blank, refl)

  -- A receiver that was just made answers any calls of push and pop as an empty queue does, which
  -- refuses a push at 1023 frames.
  pub calls_queue :
      (blank : A) (cs : List (Call A)) → (calls (make blank) cs).0 ≡ (queue_calls ([], 0) cs).0
  calls_queue blank cs = (calls-Agrees (make blank) ([], 0) (make-Agrees blank) cs).0
