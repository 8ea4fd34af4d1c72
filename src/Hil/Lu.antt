-- ===== src/Hil/Lu.antt =====
-- fpga_power_electronics_hil/vsc_solver/include/LuSolver.h: `lu_factor` and `lu_solve`. A loop that
-- writes each element once, from elements that it does not write, is one function of the index.
pub mod Rows
pub mod Rounds
pub mod Solves
pub mod Substitution
use edge_ipc_daemon.Prelude.{
  ℕ, zero, suc, ◌+◌, ◌-◌, Bool, true, false, ◌&&◌, Option, none, some, if◌then◌else◌, ◌==◌, ltb,
}
use edge_ipc_daemon.Hil.Num.{Num, set_at, subtract}

module _ (num : Num) (tiny : num.Value) where
  open num use {Value, nil, one, add, sub, mul, div, neg, less}

  abbrev pub Matrix : Type 0
  Matrix = ℕ → ℕ → Value

  unfoldable pub abs_value : Value → Value
  abs_value v = if less v nil then neg v else v

  -- The search for the pivot of the column `k`: the row and the size of the best element so far,
  -- and the rows from `i` on that are left.
  unfoldable pub find_pivot : Matrix → ℕ → ℕ → ℕ → ℕ × Value → ℕ × Value
  find_pivot a k i zero found = found
  find_pivot a k i (suc left) found =
      let v = abs_value (a i k) in
      find_pivot a k (suc i) left (if less found.1 v then (i, v) else found)

  -- The rows `k` and `p` change places, if they differ.
  unfoldable pub swap_rows : Matrix → ℕ → ℕ → Matrix
  swap_rows a k p i j = if i == k then a p j else if i == p then a k j else a i j

  -- The rows below `k`: the factors stand in the column `k`, and the row `k` is taken off.
  unfoldable pub eliminate : Matrix → ℕ → Matrix
  eliminate a k i j =
      let inv = div one (a k k) in
      let factor = mul (a i k) inv in
      if ltb k i
      then (if j == k then factor else if ltb k j then sub (a i j) (mul factor (a k j)) else a i j)
      else a i j

  -- `A` and `pivot`.
  pub record Factored : Type 0 where
    pub lu : Matrix
    pub pivot : ℕ → ℕ

  -- A round of the outer loop, with the pivot that was found. `none` is the exception.
  unfoldable pub factor_with : ℕ × Value → ℕ → Factored → Option Factored
  factor_with (p, best) k f =
      if less best tiny
      then none
      else some (record {
        lu = eliminate (swap_rows f.lu k p) k;
        pivot = λ j. if j == k then p else f.pivot j;
      })

  unfoldable pub factor_round : ℕ → ℕ → Factored → Option Factored
  factor_round n k f = factor_with (find_pivot f.lu k k (n - k) (k, nil)) k f

  unfoldable pub factor_rounds : ℕ → ℕ → ℕ → Factored → Option Factored
  factor_rounds n k zero f = some f
  factor_rounds n k (suc left) f = elim (factor_round n k f) [
    | none ↦ none
    | some g ↦ factor_rounds n (suc k) left g
  ]

  -- `pivot` is not initialised by the caller.
  unfoldable pub lu_factor : ℕ → Matrix → (ℕ → ℕ) → Option Factored
  lu_factor n a pivot = factor_rounds n 0 n (record { lu = a; pivot = pivot })

  -- `y[k]` and `y[p]` change places.
  unfoldable pub swap_entries : (ℕ → Value) → ℕ → ℕ → ℕ → Value
  swap_entries y k p j = if j == p then y k else if j == k then y p else y j

  unfoldable pub apply_pivots : (ℕ → ℕ) → ℕ → ℕ → (ℕ → Value) → ℕ → Value
  apply_pivots pivot k zero y = y
  apply_pivots pivot k (suc left) y = apply_pivots pivot (suc k) left (swap_entries y k (pivot k))

  -- The forward substitution, in place.
  unfoldable pub forward : Matrix → ℕ → ℕ → (ℕ → Value) → ℕ → Value
  forward lu i zero y = y
  forward lu i (suc left) y =
      forward lu (suc i) left (set_at num y i (subtract num 0 i (λ j. mul (lu i j) (y j)) (y i)))

  -- The back substitution, from the row `left - 1` down to 0.
  unfoldable pub backward : Matrix → ℕ → ℕ → (ℕ → Value) → (ℕ → Value) → ℕ → Value
  backward lu n zero y x = x
  backward lu n (suc i) y x =
      let s = subtract num (suc i) (n - suc i) (λ j. mul (lu i j) (x j)) (y i) in
      backward lu n i y (set_at num x i (div s (lu i i)))

  -- `x` is what the output holds before.
  unfoldable pub lu_solve : ℕ → Matrix → (ℕ → ℕ) → (ℕ → Value) → (ℕ → Value) → ℕ → Value
  lu_solve n lu pivot b x = backward lu n n (forward lu 0 n (apply_pivots pivot 0 n b)) x
