-- ===== src/Hil/Lu/Substitution.antt =====
-- `lu_solve` of LuSolver.h: the two triangular systems that its substitutions solve.
use edge_ipc_daemon.Prelude.{
  ℕ, zero, suc, ◌+◌, ◌-◌, ◌≤◌, ◌<◌, ◌≡◌, ◌≢◌, refl, sym, ap, ◌∙◌, Bool-cases, inl, inr, arith, ◌==◌,
}
use edge_ipc_daemon.Hil.Num.{Num, IsField, set_at, subtract, sum}
use edge_ipc_daemon.Hil.Lu.{Matrix, forward, backward}

module _ (num : Num) where
  open num use {Value, sub}

  pub subtract_congr :
      (count from : ℕ) (f g : ℕ → Value) (s : Value)
      → ((m : ℕ) → from ≤ m → m < from + count → f m ≡ g m)
      → subtract num from count f s ≡ subtract num from count g s
  unfolding subtract
  subtract_congr zero from f g s h = refl
  subtract_congr (suc count) from f g s h =
      ap (λ t. subtract num (suc from) count f (sub s t)) (h from (omega arith) (omega arith))
      ∙ subtract_congr count (suc from) f g (sub s (g from))
          (λ m a b. h m (omega arith) (omega arith))

module _ (num : Num) (field : IsField num) where
  open num use {Value, nil, add, sub, mul, div}

  pub sum_congr :
      (count from : ℕ) (f g : ℕ → Value)
      → ((m : ℕ) → from ≤ m → m < from + count → f m ≡ g m)
      → sum num from count f ≡ sum num from count g
  sum_congr zero from f g h = refl
  sum_congr (suc count) from f g h =
      ap (λ t. add t (sum num (suc from) count f)) (h from (omega arith) (omega arith))
      ∙ ap (add (g from))
          (sum_congr count (suc from) f g (λ m a b. h m (omega arith) (omega arith)))

  -- What was taken off, added again.
  pub sum-subtract :
      (count from : ℕ) (f : ℕ → Value) (s : Value)
      → add (sum num from count f) (subtract num from count f s) ≡ s
  unfolding subtract
  sum-subtract zero from f s = field.nil-add s
  sum-subtract (suc count) from f s =
      field.add_assoc (f from) (sum num (suc from) count f)
        (subtract num (suc from) count f (sub s (f from)))
      ∙ ap (add (f from)) (sum-subtract count (suc from) f (sub s (f from)))
      ∙ field.add_comm (f from) (sub s (f from))
      ∙ field.sub-add s (f from)

  set_at_ne : (a : ℕ → Value) (i j : ℕ) (v : Value) → i ≢ j → set_at num a i v j ≡ a j
  set_at_ne a i j v h = ground arith

  set_at_self : (a : ℕ → Value) (i : ℕ) (v : Value) → set_at num a i v i ≡ v
  set_at_self a i v = ground arith

  module _ (tiny : Value) (lu : Matrix num tiny) where
    forward_keeps :
        (left i : ℕ) (y : ℕ → Value) (j : ℕ) → j < i → forward num tiny lu i left y j ≡ y j
    unfolding forward
    forward_keeps zero i y j h = refl
    forward_keeps (suc left) i y j h =
        forward_keeps left (suc i) _ j (omega arith) ∙ set_at_ne y i j _ (λ e. omega (arith, e))

    forward_row :
        (left i : ℕ) (y : ℕ → Value) (j : ℕ)
        → i ≤ j
        → j < i + left
        → forward num tiny lu i left y j
          ≡ subtract num 0 j (λ m. mul (lu j m) (forward num tiny lu i left y m)) (y j)
    unfolding forward
    forward_row zero i y j h k = absurd (omega arith)
    forward_row (suc left) i y j h k =
        let s = subtract num 0 i (λ m. mul (lu i m) (y m)) (y i) in
        let z = forward num tiny lu (suc i) left (set_at num y i s) in
        elim (Bool-cases (i == j)) [
          | inl e ↦
              let here : i ≡ j = ground arith in
              let old =
                subtract_congr num i 0 (λ m. mul (lu i m) (y m)) (λ m. mul (lu i m) (z m)) (y i)
                  (λ m a b. ap (mul (lu i m)) (
                    sym (
                      forward_keeps left (suc i) (set_at num y i s) m (omega arith)
                      ∙ set_at_ne y i m s (λ e. omega (arith, e, b))))) in
              rw (← here) (
                forward_keeps left (suc i) (set_at num y i s) i (omega arith)
                ∙ set_at_self y i s
                ∙ old)
          | inr e ↦
              let there : i ≢ j = λ q. ground (arith, q) in
              forward_row left (suc i) (set_at num y i s) j (omega (arith, there)) (omega arith)
              ∙ ap (subtract num 0 j (λ m. mul (lu j m) (z m))) (set_at_ne y i j s there)
        ]

    -- The forward substitution solves L y = b, where L has a diagonal of ones.
    pub forward_lem :
        (n : ℕ) (b : ℕ → Value) (i : ℕ)
        → i < n
        → let y = forward num tiny lu 0 n b in
          add (sum num 0 i (λ m. mul (lu i m) (y m))) (y i) ≡ b i
    forward_lem n b i h =
        let y = forward num tiny lu 0 n b in
        let f = λ (m : ℕ). mul (lu i m) (y m) in
        ap (add (sum num 0 i f)) (forward_row n 0 b i (omega arith) (omega arith))
        ∙ sum-subtract i 0 f (b i)

    backward_keeps :
        (n left : ℕ) (y x : ℕ → Value) (j : ℕ) → left ≤ j → backward num tiny lu n left y x j ≡ x j
    unfolding backward
    backward_keeps n zero y x j h = refl
    backward_keeps n (suc i) y x j h =
        backward_keeps n i y _ j (omega arith) ∙ set_at_ne x i j _ (λ e. omega (arith, e, h))

    backward_row :
        (n left : ℕ) (y x : ℕ → Value) (j : ℕ)
        → j < left
        → left ≤ n
        → let z = backward num tiny lu n left y x in
          z j ≡ div (subtract num (suc j) (n - (suc j)) (λ m. mul (lu j m) (z m)) (y j)) (lu j j)
    unfolding backward
    backward_row n zero y x j h k = absurd (omega arith)
    backward_row n (suc i) y x j h k =
        let s = subtract num (suc i) (n - (suc i)) (λ m. mul (lu i m) (x m)) (y i) in
        let x' = set_at num x i (div s (lu i i)) in
        let z = backward num tiny lu n i y x' in
        elim (Bool-cases (i == j)) [
          | inl e ↦
              let here : i ≡ j = ground arith in
              let old =
                subtract_congr num (n - (suc i)) (suc i) (λ m. mul (lu i m) (x m))
                  (λ m. mul (lu i m) (z m)) (y i)
                  (λ m a b. ap (mul (lu i m)) (
                    sym (
                      backward_keeps n i y x' m (omega arith)
                      ∙ set_at_ne x i m (div s (lu i i)) (λ q. omega (arith, q, a))))) in
              rw (← here) (
                backward_keeps n i y x' i (omega arith)
                ∙ set_at_self x i (div s (lu i i))
                ∙ ap (λ t. div t (lu i i)) old)
          | inr e ↦
              let there : i ≢ j = λ q. ground (arith, q) in
              backward_row n i y x' j (omega (arith, there)) (omega arith)
        ]

    -- The back substitution solves U x = y, where no element of the diagonal is zero.
    pub backward_lem :
        (n : ℕ) (y x : ℕ → Value) (i : ℕ)
        → i < n
        → lu i i ≢ nil
        → sum num i (n - i) (λ m. mul (lu i m) (backward num tiny lu n n y x m)) ≡ y i
    backward_lem n y x i h pivot =
        let z = backward num tiny lu n n y x in
        let f = λ (m : ℕ). mul (lu i m) (z m) in
        let s = subtract num (suc i) (n - (suc i)) f (y i) in
        let lead : f i ≡ s =
          field.mul_comm (lu i i) (z i)
          ∙ ap (λ t. mul t (lu i i)) (backward_row n n y x i h (omega arith))
          ∙ field.div-mul s (lu i i) pivot in
        let count : n - i ≡ suc (n - (suc i)) = omega arith in
        rw count (
          ap (λ t. add t (sum num (suc i) (n - (suc i)) f)) lead
          ∙ field.add_comm s (sum num (suc i) (n - (suc i)) f)
          ∙ sum-subtract (n - (suc i)) (suc i) f (y i))
