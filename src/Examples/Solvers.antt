-- ===== src/Examples/Solvers.antt =====
-- The solvers over the field of two elements.
use edge_ipc_daemon.Prelude.{
  ℕ, zero, suc, ◌≡◌, leb, ltb, refl, sym, ◌∙◌, Bool, true, false, not, ◌&&◌, List, map, none, some,
  arith, ◌==◌,
}
use edge_ipc_daemon.Hil.Num.{Num, IsField, Trig, sum}
use edge_ipc_daemon.Hil.Lu.{
  Factored, lu_factor, factor_rounds, factor_round, factor_with, find_pivot, abs_value, eliminate,
  swap_rows, lu_solve, apply_pivots, swap_entries,
}
use edge_ipc_daemon.Hil.Lu.Solves.{lu_solve-lu_factor}
use edge_ipc_daemon.Hil.Network.{SolverParams, State, VscNetwork}
use edge_ipc_daemon.Hil.Kernel.{Bram, Literals, emit_states}
use edge_ipc_daemon.Hil.Kernel.Phases.{SameGrid}
use edge_ipc_daemon.Hil.Kernel.Steps.{Loaded, SameState, steps, calls, calls-steps}

abbrev xor : Bool → Bool → Bool
xor true b = not b
xor false b = b

abbrev bits : Num
bits = record {
  Value = Bool;
  nil = false;
  one = true;
  two = false;
  add = xor;
  sub = xor;
  mul = λ a b. a && b;
  div = λ a b. a;
  neg = λ a. a;
  less = λ a b. not a && b;
}

xor_comm : (a b : Bool) → xor a b ≡ xor b a
xor_comm true true = refl
xor_comm true false = refl
xor_comm false true = refl
xor_comm false false = refl

xor_assoc : (a b c : Bool) → xor (xor a b) c ≡ xor a (xor b c)
xor_assoc true true true = refl
xor_assoc true true false = refl
xor_assoc true false true = refl
xor_assoc true false false = refl
xor_assoc false true true = refl
xor_assoc false true false = refl
xor_assoc false false true = refl
xor_assoc false false false = refl

xor_twice : (a b : Bool) → xor (xor a b) b ≡ a
xor_twice true true = refl
xor_twice true false = refl
xor_twice false true = refl
xor_twice false false = refl

and_comm : (a b : Bool) → (a && b) ≡ (b && a)
and_comm true true = refl
and_comm true false = refl
and_comm false true = refl
and_comm false false = refl

and_assoc : (a b c : Bool) → ((a && b) && c) ≡ (a && (b && c))
and_assoc true true true = refl
and_assoc true true false = refl
and_assoc true false true = refl
and_assoc true false false = refl
and_assoc false true true = refl
and_assoc false true false = refl
and_assoc false false true = refl
and_assoc false false false = refl

and-xor : (a b c : Bool) → (a && xor b c) ≡ xor (a && b) (a && c)
and-xor true true true = refl
and-xor true true false = refl
and-xor true false true = refl
and-xor true false false = refl
and-xor false true true = refl
and-xor false true false = refl
and-xor false false true = refl
and-xor false false false = refl

and_one : (a b : Bool) → ¬ (b ≡ false) → (a && b) ≡ a
and_one true true h = refl
and_one false true h = refl
and_one a false h = absurd (h refl)

bits-IsField : IsField bits
bits-IsField = record {
  add_comm = xor_comm;
  add_assoc = xor_assoc;
  nil-add = λ a. refl;
  sub-add = xor_twice;
  add-sub = xor_twice;
  mul_comm = and_comm;
  mul_assoc = and_assoc;
  one-mul = λ a. refl;
  mul-add = and-xor;
  div-mul = and_one;
}

-- A zero stands on the diagonal, so that the rows must change places.
abbrev system : ℕ → ℕ → Bool
system i j = not (i == 0 && j == 0)

abbrev no_pivots : ℕ → ℕ
no_pivots k = 0

abbrev factors : Factored bits true
factors = elim (lu_factor bits true 2 system no_pivots) [
  | none ↦ record { lu = system; pivot = no_pivots }
  | some g ↦ g
]

abbrev right_side : ℕ → Bool
right_side i = i == 0

abbrev solution : ℕ → Bool
solution = lu_solve bits true 2 factors.lu factors.pivot right_side (λ i. false)

factored : lu_factor bits true 2 system no_pivots ≡ some factors
unfolding lu_factor factor_rounds factor_round factor_with find_pivot abs_value eliminate swap_rows
factored = refl

lu_solve-lu_factor_example : sum bits 0 2 (λ j. system 1 j && solution j) ≡ false
lu_solve-lu_factor_example =
    lu_solve-lu_factor bits bits-IsField true refl refl 2 system no_pivots factors right_side
      (λ i. false) 1 factored (omega arith)

-- A network with every conductance off, and a kernel that holds its factors.
abbrev trig : Trig bits
trig = record { sin = λ v. v; pi = true; three = true; sqrt_two = true; of_int = λ k. false }

abbrev params : SolverParams bits trig true
params = record {
  dt = true;
  l_f = true;
  r_f = true;
  c_f = true;
  l_grid = true;
  r_grid = true;
  v_dc = true;
  v_grid_rms = true;
  f_grid = true;
  g_on = true;
  g_off = false;
  v_rated = true;
  r_src = true;
}

abbrev identity : ℕ → ℕ → Bool
identity i j = i == j

abbrev net : VscNetwork bits trig true
net = record { p = params; g = identity; lu = identity; piv = λ k. k; gate_factored = 5 }

abbrev start : State bits trig true
start = record {
  v = λ i. false;
  i_lf = λ i. false;
  i_cf = λ i. false;
  i_lgrid = λ i. false;
  i_lf_hist = λ i. false;
  i_cf_hist = λ i. true;
  i_lgrid_hist = λ i. false;
  t = true;
  gate = 0;
  fault = false;
}

abbrev kernel : Bram bits
kernel = record {
  l = identity;
  u = identity;
  piv = λ k. k;
  v = λ i. false;
  hist = λ i. leb 3 i && ltb i 6;
  t = true;
}

apply_pivots_identity :
    (left k : ℕ) (b : ℕ → Bool) (i : ℕ) → apply_pivots bits true (λ j. j) k left b i ≡ b i
unfolding apply_pivots swap_entries
apply_pivots_identity zero k b i = refl
apply_pivots_identity (suc left) k b i =
    apply_pivots_identity left (suc k) (swap_entries bits true b k k) i ∙ ground arith

kernel-Loaded : Loaded bits trig true net kernel
kernel-Loaded = record {
  lower = λ r c h. refl;
  upper = λ r c h. refl;
  order = λ b i h. sym (apply_pivots_identity 9 0 b i);
}

kernel-SameState : SameState bits trig true start kernel
kernel-SameState = record {
  voltages = λ i h. refl;
  histories = record {
    lf = λ k h. ground arith;
    cf = λ k h. ground arith;
    lgrid = λ k h. ground arith;
  };
  times = refl;
}

abbrev literals : Literals bits
literals = record { peak = true; two_pi = false; three = true; fifty = true }

same_grid : SameGrid bits trig true literals params
same_grid = record {
  peak_ok = refl;
  frequency_ok = refl;
  turn_ok = refl;
  offset_ok = refl;
  three_ok = refl;
}

calls-steps_example :
    (ts : List (State bits trig true)) × (steps bits trig true literals
        (λ i. false)
        net
        same_grid
        start
        5
        2
      ≡ some ts)
    × (calls bits trig true literals (λ i. false) net same_grid kernel 5 2
        ≡ map (λ t. emit_states bits t.v 0 9) ts)
calls-steps_example =
    calls-steps bits trig true literals (λ i. false) net same_grid start kernel 5 2 refl
      kernel-Loaded kernel-SameState
