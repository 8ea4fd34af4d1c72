-- ===== src/Daemon/Receiver.antt =====
-- include/TelemetryReceiver.h and src/TelemetryReceiver.cpp: a ring between one producer and one
-- consumer, at the grain of its atomic loads and stores.
pub mod Calls
pub mod Fifo
pub mod Ring
pub mod Threads
use edge_ipc_daemon.Prelude.{
  ℕ, suc, ◌+◌, ◌%◌, ◌^◌, Bool, true, false, List, [], ◌∷◌, Option, none, some, get_elem?, set,
  replicate, if◌then◌else◌, ◌==◌,
}

abbrev pub capacity : ℕ
capacity = 1024

-- `A` is the type of a frame. Indices are below the capacity; `dropped` is a `uint64_t`.
pub record Receiver (A : Type 0) : Type 0 where
  pub buf : List A
  pub head : ℕ
  pub tail : ℕ
  pub dropped : ℕ

abbrev pub next : ℕ → ℕ
next i = (i + 1) % capacity

module _ {A : Type 0} where
  -- A receiver of value-initialised frames.
  unfoldable pub make : A → Receiver A
  make blank = record { buf = replicate capacity blank; head = 0; tail = 0; dropped = 0 }

  -- The two parts of a `push`: the frame goes into its slot, and then the tail is stored.
  unfoldable pub fill : Receiver A → A → Receiver A
  fill q frame = record q { buf = set q.buf q.tail frame }

  unfoldable pub publish : Receiver A → Receiver A
  publish q = record q { tail = next q.tail }

  unfoldable pub drop : Receiver A → Receiver A
  drop q = record q { dropped = (q.dropped + 1) % 2 ^ 64 }

  -- The head as the producer has read it.
  unfoldable pub is_full : Receiver A → ℕ → Bool
  is_full q head = next q.tail == head

  unfoldable pub push : Receiver A → A → Bool × Receiver A
  push q frame = if is_full q q.head then (false, drop q) else (true, publish (fill q frame))

  -- The two parts of a `pop`: the frame is moved out, and then the head is stored.
  unfoldable pub front : Receiver A → Option A
  front q = get_elem? q.buf q.head

  unfoldable pub consume : Receiver A → Receiver A
  consume q = record q { head = next q.head }

  -- `none` is the result `false`.
  unfoldable pub pop : Receiver A → Option A × Receiver A
  pop q = if q.head == q.tail then (none, q) else (front q, consume q)
