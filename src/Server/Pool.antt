-- ===== src/Server/Pool.antt =====
-- async_telemetry_server/include/DbPool.h, src/DbPool.cpp and src/TelemetryRepository.cpp: a pool
-- of eight connections behind a semaphore, and the inserts that use it.
pub mod Permits
pub mod Rotation
use edge_ipc_daemon.Prelude.{
  ℕ, zero, suc, ◌+◌, ◌%◌, Bool, true, false, List, [], ◌∷◌, Option, none, some, ◌==◌, get_or, set,
  replicate, if◌then◌else◌,
}

abbrev pub pool_size : ℕ
pool_size = 8

-- `permits` is the count of the semaphore; `opened` says which connections are open; `next` is the
-- index of the connection that goes out next.
pub record Pool : Type 0 where
  pub permits : ℕ
  pub opened : List Bool
  pub next : ℕ

-- The constructor opens every connection.
abbrev pub fresh : Pool
fresh = record { permits = pool_size; opened = replicate pool_size true; next = 0 }

-- `ensure_open`, where `connects` says whether a new connection can be made. `none` is the
-- exception of its constructor.
unfoldable pub ensure_open : Bool → List Bool → ℕ → Option (List Bool)
ensure_open connects opened idx =
    if get_or opened idx false
    then some opened
    else if connects
    then some (set opened idx true)
    else none

-- A caller that finds no permit waits; one whose connection cannot be reopened gets an exception.
pub data Acquired : Type 0 where
  waits : Acquired
  throws : Pool → Acquired
  got : ℕ → Pool → Acquired

-- The permit is taken and `next` is advanced before `ensure_open` may throw.
unfoldable pub advance : Bool → Pool → ℕ → Acquired
advance connects p left = elim (ensure_open connects p.opened p.next) [
  | none ↦ throws (record p { permits = left; next = (p.next + 1) % pool_size })
  | some opened ↦
      got p.next (record { permits = left; opened = opened; next = (p.next + 1) % pool_size })
]

unfoldable pub take_permit : Bool → Pool → ℕ → Acquired
take_permit connects p zero = waits
take_permit connects p (suc left) = advance connects p left

unfoldable pub acquire : Bool → Pool → Acquired
unfolding take_permit
acquire connects p = take_permit connects p p.permits

unfoldable pub release : Pool → Pool
release p = record p { permits = p.permits + 1 }

-- What `insert_telemetry` and `insert_auth_log` come to: they differ in the statement only.
pub data Inserted : Type 0 where
  blocked : Inserted
  done failed : Pool → Inserted

-- `executes` says whether the transaction commits. The exception of `acquire` is thrown before the
-- `try`, so nothing is released for it.
unfoldable pub insert : Bool → Bool → Pool → Inserted
insert connects executes p = elim (acquire connects p) [
  | waits ↦ blocked
  | throws q ↦ failed q
  | got idx q ↦ if executes then done (release q) else failed (release q)
]

-- The calls of all threads, in the order of their effect on the pool. A connection may break at any
-- time. A call that waits has no effect.
pub data Op : Type 0 where
  acquires : Bool → Op
  releases : ℕ → Op
  breaks : ℕ → Op

-- The pool with the connections that callers hold, the latest first, and the number of calls that
-- threw.
pub record System : Type 0 where
  pub pool : Pool
  pub held : List ℕ
  pub thrown : ℕ

abbrev pub start : System
start = record { pool = fresh; held = []; thrown = 0 }

-- Without one entry of `idx`; `none` if there is none.
unfoldable pub remove : ℕ → List ℕ → Option (List ℕ)
remove idx [] = none
remove idx (c ∷ cs) =
    if c == idx then some cs else elim (remove idx cs) [ none ↦ none | some rest ↦ some (c ∷ rest) ]

unfoldable pub after_acquire : System → Acquired → System
after_acquire s waits = s
after_acquire s (throws p) = record s { pool = p; thrown = s.thrown + 1 }
after_acquire s (got idx p) = record s { pool = p; held = idx ∷ s.held }

-- Only a holder releases.
unfoldable pub step : System → Op → System
step s (acquires connects) = after_acquire s (acquire connects s.pool)
step s (releases idx) = elim (remove idx s.held) [
  | none ↦ s
  | some rest ↦ record s { pool = release s.pool; held = rest }
]
step s (breaks idx) = record s { pool = record (s.pool) { opened = set s.pool.opened idx false } }

unfoldable pub run : System → List Op → System
run s [] = s
run s (op ∷ ops) = run (step s op) ops
