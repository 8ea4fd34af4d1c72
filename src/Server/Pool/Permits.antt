-- ===== src/Server/Pool/Permits.antt =====
-- Where the permits of the pool go.
use edge_ipc_daemon.Prelude.{
  ℕ, ◌+◌, ◌≤◌, ◌<◌, ◌≡◌, refl, Bool, false, List, [], ◌∷◌, some, arith, length, Option-cases,
  get_or, ◌||◌, if◌then◌else◌, inl, inr,
}
use edge_ipc_daemon.Server.Pool.{
  Pool, System, Op, acquires, releases, breaks, pool_size, waits, advance, take_permit, acquire,
  release, Inserted, blocked, done, failed, insert, ensure_open, remove, after_acquire, step, run,
  start,
}

-- Every permit is free, or with a holder, or went with an exception of `acquire`; the next index is
-- one of a connection.
pub record Inv (s : System) : Type 0 where
  pub account : s.pool.permits + length s.held + s.thrown ≡ pool_size
  pub in_range : s.pool.next < pool_size

length-remove :
    (idx : ℕ) (cs rest : List ℕ) → remove idx cs ≡ some rest → length cs ≡ length rest + 1
unfolding remove
length-remove idx [] rest e = cc
length-remove idx (c ∷ cs) rest e = elim (Option-cases (remove idx cs)) [
  | inl absent ↦ ground arith
  | inr (r, present) ↦ ground (arith, length-remove idx cs r present)
]

step-Inv : (s : System) (op : Op) → Inv s → Inv (step s op)
unfolding step acquire advance after_acquire release
step-Inv s (acquires connects) v = ground arith
step-Inv s (releases idx) v = elim (Option-cases (remove idx s.held)) [
  | inl e ↦ rw (e, step) v
  | inr (rest, e) ↦
      rw (e, step)
        (record {
          account = omega (arith, length-remove idx s.held rest e, v.account);
          in_range = v.in_range;
        })
]
step-Inv s (breaks idx) v = record { account = v.account; in_range = v.in_range }

run-Inv_from : (s : System) (ops : List Op) → Inv s → Inv (run s ops)
unfolding run
run-Inv_from s [] v = v
run-Inv_from s (op ∷ ops) v = run-Inv_from (step s op) ops (step-Inv s op v)

-- After any calls of any threads, and whatever breaks, the free permits, the connections held and
-- the calls of `acquire` that threw are eight together, so that at most eight connections are held,
-- and the next index is below eight.
pub run-Inv : (ops : List Op) → Inv (run start ops)
run-Inv ops = run-Inv_from start ops (omega arith)

thrown_grows : (s : System) (op : Op) → s.thrown ≤ (step s op).thrown
unfolding step acquire advance after_acquire
thrown_grows s (acquires connects) = ground arith
thrown_grows s (releases idx) = ground arith
thrown_grows s (breaks idx) = omega arith

thrown_grows_run : (s : System) (ops : List Op) → s.thrown ≤ (run s ops).thrown
unfolding run
thrown_grows_run s [] = omega arith
thrown_grows_run s (op ∷ ops) = omega (arith, thrown_grows s op, thrown_grows_run (step s op) ops)

-- Permits that went with an exception do not come back: once `acquire` has thrown eight times,
-- every later call of it waits, whatever the threads do and also if the database can be reached
-- again.
pub exhausted :
    (ops later : List Op) (connects : Bool)
    → (run start ops).thrown ≡ pool_size
    → acquire connects (run (run start ops) later).pool ≡ waits
unfolding acquire take_permit
exhausted ops later connects h =
    let s = run (run start ops) later in
    let v = run-Inv_from (run start ops) later (run-Inv ops) in
    let e : s.pool.permits ≡ 0 = omega (arith, v.account, thrown_grows_run (run start ops) later) in
    rw e refl

-- What an insert does to the permits.
abbrev pub Balance : Bool → Pool → Inserted → Type 0
Balance connects p blocked = p.permits ≡ 0
Balance connects p (done q) = q.permits ≡ p.permits
Balance connects p (failed q) =
    q.permits + (if get_or p.opened p.next false || connects then 0 else 1) ≡ p.permits

-- An insert waits only if no permit is free. One that commits gives its permit back, and so does
-- one whose transaction fails; one whose connection is closed and cannot be reopened loses its
-- permit.
pub insert-Balance :
    (connects executes : Bool) (p : Pool) → Balance connects p (insert connects executes p)
unfolding insert acquire advance ensure_open release
insert-Balance connects executes p = ground arith
