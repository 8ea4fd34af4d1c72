-- ===== src/Hil/Num.antt =====
-- The arithmetic of the solvers: `double` in vsc_solver/, and `double` or `ap_fixed<32, 16>` in
-- hls_solver/. The models take it as a parameter. An array is a function of its index.
use edge_ipc_daemon.Prelude.{ℕ, zero, suc, ◌/◌, ◌%◌, ◌^◌, Bool, ◌≡◌, if◌then◌else◌, ◌==◌}

pub record Num : Type 1 where
  pub Value : Type 0
  pub nil : Value
  pub one : Value
  pub two : Value
  pub add : Value → Value → Value
  pub sub : Value → Value → Value
  pub mul : Value → Value → Value
  pub div : Value → Value → Value
  pub neg : Value → Value
  pub less : Value → Value → Bool

-- The laws of a field, in which nothing is rounded.
pub record IsField (n : Num) : Type 0 where
  pub add_comm : (a b : n.Value) → n.add a b ≡ n.add b a
  pub add_assoc : (a b c : n.Value) → n.add (n.add a b) c ≡ n.add a (n.add b c)
  pub nil-add : (a : n.Value) → n.add n.nil a ≡ a
  pub sub-add : (a b : n.Value) → n.add (n.sub a b) b ≡ a
  pub add-sub : (a b : n.Value) → n.sub (n.add a b) b ≡ a
  pub mul_comm : (a b : n.Value) → n.mul a b ≡ n.mul b a
  pub mul_assoc : (a b c : n.Value) → n.mul (n.mul a b) c ≡ n.mul a (n.mul b c)
  pub one-mul : (a : n.Value) → n.mul n.one a ≡ a
  pub mul-add : (a b c : n.Value) → n.mul a (n.add b c) ≡ n.add (n.mul a b) (n.mul a c)
  pub div-mul : (a b : n.Value) → ¬ (b ≡ n.nil) → n.mul (n.div a b) b ≡ a

module _ (n : Num) where
  open n use {Value, nil, add, sub}

  -- `a[i] = v`.
  abbrev pub set_at : (ℕ → Value) → ℕ → Value → ℕ → Value
  set_at a i v j = if j == i then v else a j

  -- `for (j = from; j < from + count; ++j) s -= f(j);`
  unfoldable pub subtract : ℕ → ℕ → (ℕ → Value) → Value → Value
  subtract from zero f s = s
  subtract from (suc count) f s = subtract (suc from) count f (sub s (f from))

  -- The sum of the terms from an index on.
  abbrev pub sum : ℕ → ℕ → (ℕ → Value) → Value
  sum from zero f = nil
  sum from (suc count) f = add (f from) (sum (suc from) count f)

  -- `a[i] += v` and `a[i] -= v`.
  abbrev pub plus_at : (ℕ → Value) → ℕ → Value → ℕ → Value
  plus_at a i v = set_at a i (add (a i) v)

  abbrev pub minus_at : (ℕ → Value) → ℕ → Value → ℕ → Value
  minus_at a i v = set_at a i (sub (a i) v)

-- `for (int k = 0; k < 3; ++k)`, the phases.
abbrev pub for_phases {ℓ} : {S : Type ℓ} → (ℕ → S → S) → S → S
for_phases body s = body 2 (body 1 (body 0 s))

-- The sine and the constants of the grid voltage; `of_int` is a cast of an `int`.
pub record Trig (n : Num) : Type 0 where
  pub sin : n.Value → n.Value
  pub pi : n.Value
  pub three : n.Value
  pub sqrt_two : n.Value
  pub of_int : ℕ → n.Value

-- Bit `i` of the gate state.
abbrev pub bit_on : ℕ → ℕ → Bool
bit_on gate i = (gate / 2 ^ i) % 2 == 1
