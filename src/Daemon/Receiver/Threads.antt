-- ===== src/Daemon/Receiver/Threads.antt =====
-- src/TelemetryReceiver.cpp: one thread that calls `push` and one that calls `pop`, interleaved at
-- the loads and stores of the two indices and the accesses of the slots.
use Prim.{Unit, ⊥}
use edge_ipc_daemon.Prelude.{
  suc, ◌<◌, List, [], ◌∷◌, ◌++◌, Option, some, ◌≡◌, length, map, get_elem?, if◌then◌else◌, ◌==◌,
}
use edge_ipc_daemon.Daemon.Receiver.{
  capacity, Receiver, make, fill, publish, drop, is_full, front, consume,
}
use edge_ipc_daemon.Daemon.Receiver.Ring.{Holds}

-- The producer: outside a call; about to write its frame, as it has seen the ring not full; about
-- to store the tail.
pub data Producer (A : Type 0) : Type 0 where
  between : Producer A
  to_fill : A → Producer A
  to_publish : A → Producer A

-- The consumer: outside a call; about to read the slot, as it has seen the ring not empty; about to
-- store the head, with what it has read.
pub data Consumer (A : Type 0) : Type 0 where
  waiting : Consumer A
  to_read : Consumer A
  to_consume : Option A → Consumer A

pub record Run (A : Type 0) : Type 0 where
  pub ring : Receiver A
  pub producer : Producer A
  pub consumer : Consumer A
  -- the frames of the calls of push that were to return true, and of those of pop, in order
  pub accepted : List A
  pub received : List (Option A)

-- A turn of the producer, with the frame that it pushes if it begins a call, or of the consumer.
pub data Turn (A : Type 0) : Type 0 where
  produces : A → Turn A
  consumes : Turn A

module _ {A : Type 0} where
  unfoldable pub begin : A → Run A
  begin blank = record {
    ring = make blank;
    producer = between;
    consumer = waiting;
    accepted = [];
    received = [];
  }

  unfoldable pub produce : Producer A → A → Run A → Run A
  produce between frame s =
      if is_full s.ring s.ring.head
      then record s { ring = drop s.ring }
      else record s { producer = to_fill frame }
  produce (to_fill x) frame s = record s { ring = fill s.ring x; producer = to_publish x }
  produce (to_publish x) frame s = record s {
    ring = publish s.ring;
    producer = between;
    accepted = s.accepted ++ x ∷ [];
  }

  unfoldable pub consume_one : Consumer A → Run A → Run A
  consume_one waiting s = if s.ring.head == s.ring.tail then s else record s { consumer = to_read }
  consume_one to_read s = record s { consumer = to_consume (front s.ring) }
  consume_one (to_consume x) s = record s {
    ring = consume s.ring;
    consumer = waiting;
    received = s.received ++ x ∷ [];
  }

  unfoldable pub turn : Run A → Turn A → Run A
  turn s (produces frame) = produce s.producer frame s
  turn s consumes = consume_one s.consumer s

  unfoldable pub turns : Run A → List (Turn A) → Run A
  turns s [] = s
  turns s (t ∷ ts) = turns (turn s t) ts

  -- What the producer relies on, of the ring and the frames `xs` in it.
  unfoldable pub Room : Producer A → Receiver A → List A → Type 0
  Room between q xs = Unit
  Room (to_fill x) q xs = suc (length xs) < capacity
  Room (to_publish x) q xs = (suc (length xs) < capacity) × (get_elem? q.buf q.tail ≡ some x)

  -- What the consumer relies on, of the frames in the ring: `y` is the oldest and `ys` the others.
  unfoldable pub Stock : Consumer A → List A → Type 0
  Stock waiting xs = Unit
  Stock to_read xs = 0 < length xs
  Stock (to_consume x) [] = ⊥
  Stock (to_consume x) (y ∷ xs) = x ≡ some y

  -- The ring holds `xs`, the accepted frames that were not received, in their order.
  pub record Fifo (s : Run A) (xs : List A) : Type 0 where
    pub holds : Holds s.ring xs
    pub room : Room s.producer s.ring xs
    pub stock : Stock s.consumer xs
    pub order : map some s.accepted ≡ s.received ++ map some xs
