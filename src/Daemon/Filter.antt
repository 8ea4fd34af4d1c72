-- ===== src/Daemon/Filter.antt =====
-- include/MovingAverageFilter.h and src/MovingAverageFilter.cpp.
pub mod Window
pub mod Average
use edge_ipc_daemon.Prelude.{
  ℕ, suc, ◌+◌, ◌%◌, List, [], ◌∷◌, Option, none, some, ltb, length, get_elem?, set, replicate,
  if◌then◌else◌,
}
use edge_ipc_daemon.Daemon.Real.{Real}

module _ (r : Real) where
  open r use {Value, zero, add, sub, over}

  pub record Filter : Type 0 where
    pub window : ℕ
    pub buf : List Value
    pub head : ℕ
    pub count : ℕ
    pub sum : Value

  -- The constructor.
  unfoldable pub make : ℕ → Filter
  make window = record {
    window = window;
    buf = replicate window zero;
    head = 0;
    count = 0;
    sum = zero;
  }

  -- The last three statements, and the result. `none` is an access out of the buffer.
  unfoldable pub insert : Filter → ℕ → Value → Value → Option (Value × Filter)
  insert f count sum sample =
      if ltb f.head (length f.buf)
      then some (
        over (add sum sample) count,
        record {
          window = f.window;
          buf = set f.buf f.head sample;
          head = (f.head + 1) % f.window;
          count = count;
          sum = add sum sample;
        },
      )
      else none

  unfoldable pub evict : Filter → Value → Option Value → Option (Value × Filter)
  evict f sample none = none
  evict f sample (some oldest) = insert f f.count (sub f.sum oldest) sample

  unfoldable pub apply : Filter → Value → Option (Value × Filter)
  apply f sample =
      if ltb f.count f.window
      then insert f (f.count + 1) f.sum sample
      else evict f sample (get_elem? f.buf f.head)

  unfoldable pub reset : Filter → Filter
  reset f = record {
    window = f.window;
    buf = replicate (length f.buf) zero;
    head = 0;
    count = 0;
    sum = zero;
  }
