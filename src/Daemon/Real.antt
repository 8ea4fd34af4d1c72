-- ===== src/Daemon/Real.antt =====
-- The arithmetic of `double`, which the models of the filters take as a parameter.
use edge_ipc_daemon.Prelude.{ℕ, Bool, ◌≡◌}

pub record Real : Type 1 where
  pub Value : Type 0
  pub zero : Value
  pub add : Value → Value → Value
  pub sub : Value → Value → Value
  -- division by a `size_t`
  pub over : Value → ℕ → Value
  pub less : Value → Value → Bool

-- Sums without rounding. Doubles have these laws where every intermediate sum is exact.
pub record IsExact (r : Real) : Type 0 where
  pub add_comm : (a b : r.Value) → r.add a b ≡ r.add b a
  pub add_assoc : (a b c : r.Value) → r.add (r.add a b) c ≡ r.add a (r.add b c)
  pub add_sub : (a b : r.Value) → r.sub (r.add a b) b ≡ a
