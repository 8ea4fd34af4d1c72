-- ===== src/Server/Pool/Rotation.antt =====
-- Which connection `DbPool::acquire` hands out: the next in turn, whoever holds it.
use edge_ipc_daemon.Prelude.{ℕ, ◌+◌, ◌%◌, ◌<◌, ◌≡◌, refl, Bool, true, List, [], ◌∷◌, arith, ap, ◌∙◌}
use edge_ipc_daemon.Server.Pool.{
  System, Op, acquires, releases, breaks, pool_size, Acquired, waits, throws, got, advance, acquire,
  release, ensure_open, after_acquire, step, run, start,
}

-- The calls of `acquire` that did not wait.
abbrev pub served : Acquired → ℕ
served waits = 0
served (throws p) = 1
served (got idx p) = 1

abbrev pub attempts : System → List Op → ℕ
attempts s [] = 0
attempts s (acquires connects ∷ ops) =
    served (acquire connects s.pool) + attempts (step s (acquires connects)) ops
attempts s (releases idx ∷ ops) = attempts (step s (releases idx)) ops
attempts s (breaks idx ∷ ops) = attempts (step s (breaks idx)) ops

next-acquire :
    (s : System) (connects : Bool)
    → s.pool.next < pool_size
    → (step s (acquires connects)).pool.next
      ≡ (s.pool.next + served (acquire connects s.pool)) % pool_size
unfolding step acquire advance after_acquire
next-acquire s connects h = ground arith

next-release : (s : System) (idx : ℕ) → (step s (releases idx)).pool.next ≡ s.pool.next
unfolding step release
next-release s idx = ground arith

next-break : (s : System) (idx : ℕ) → (step s (breaks idx)).pool.next ≡ s.pool.next
unfolding step
next-break s idx = refl

next-run :
    (s : System) (ops : List Op)
    → s.pool.next < pool_size
    → (run s ops).pool.next ≡ (s.pool.next + attempts s ops) % pool_size
unfolding run
next-run s [] h = omega arith
next-run s (acquires connects ∷ ops) h =
    let e = next-acquire s connects h in
    omega (arith, e, next-run (step s (acquires connects)) ops (omega (arith, e)))
next-run s (releases idx ∷ ops) h =
    let e = next-release s idx in
    omega (arith, e, next-run (step s (releases idx)) ops (omega (arith, e)))
next-run s (breaks idx ∷ ops) h =
    let e = next-break s idx in
    omega (arith, e, next-run (step s (breaks idx)) ops (omega (arith, e)))

held-acquire :
    (s : System) → 0 < s.pool.permits → (step s (acquires true)).held ≡ s.pool.next ∷ s.held
unfolding step acquire advance after_acquire ensure_open
held-acquire s h = ground arith

-- After any calls of any threads, and whatever broke, the next call of `acquire` that finds a
-- permit and can reopen its connection gets the connection whose index is the number of calls
-- served so far modulo eight. Which connections were released does not matter: the one handed out
-- may still be held by another thread.
pub held-round_robin :
    (ops : List Op)
    → 0 < (run start ops).pool.permits
    → (step (run start ops) (acquires true)).held
      ≡ (attempts start ops % pool_size) ∷ (run start ops).held
held-round_robin ops h =
    let s = run start ops in
    let e : s.pool.next ≡ attempts start ops % pool_size =
      omega (arith, next-run start ops (omega arith)) in
    held-acquire s h ∙ ap (λ c. c ∷ s.held) e
