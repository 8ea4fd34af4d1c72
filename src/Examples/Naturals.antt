-- ===== src/Examples/Naturals.antt =====
-- Natural numbers for the doubles of the models, as long as no sum is cut off.
use edge_ipc_daemon.Prelude.{ℕ, ◌+◌, ◌-◌, ◌/◌, arith, ltb}
use edge_ipc_daemon.Daemon.Real.{Real, IsExact}

abbrev pub naturals : Real
naturals = record {
  Value = ℕ;
  zero = 0;
  add = λ a b. a + b;
  sub = λ a b. a - b;
  over = λ a n. a / n;
  less = ltb;
}

-- Sums of natural numbers are exact.
naturals-IsExact : IsExact naturals
naturals-IsExact = record {
  add_comm = λ a b. omega arith;
  add_assoc = λ a b c. omega arith;
  add_sub = λ a b. omega arith;
}
