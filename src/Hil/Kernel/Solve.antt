-- ===== src/Hil/Kernel/Solve.antt =====
-- The kernel's `lu_solve` against that of LuSolver.h.
use edge_ipc_daemon.Prelude.{
  ℕ, zero, suc, ◌+◌, ◌-◌, ◌≤◌, ◌<◌, ◌≡◌, ap, ◌∙◌, true, false, Bool-cases, inl, inr, arith, ◌==◌,
}
use edge_ipc_daemon.Hil.Num.{Num, set_at, subtract}
use edge_ipc_daemon.Hil.Lu.{Matrix, forward, backward, apply_pivots, lu_solve}
use edge_ipc_daemon.Hil.Lu.Substitution.{subtract_congr}
use edge_ipc_daemon.Hil.Kernel.{forward_sub, back_sub, kernel_solve}

module _ (num : Num) (tiny : num.Value) (lu : Matrix num tiny) (l u : ℕ → ℕ → num.Value) where
  open num use {Value, mul, div}

  set_same :
      (a b : ℕ → Value) (i : ℕ) (v w : Value) (j : ℕ)
      → v ≡ w
      → ((i == j) ≡ false → a j ≡ b j)
      → set_at num a i v j ≡ set_at num b i w j
  set_same a b i v w j e h = elim (Bool-cases (i == j)) [
    | inl here ↦ let q : (j == i) ≡ true = ground arith in rw q e
    | inr there ↦ let q : (j == i) ≡ false = ground arith in rw q (h there)
  ]

  forward_sub-forward :
      (left i : ℕ) (b y z : ℕ → Value)
      → ((r c : ℕ) → c < r → l r c ≡ lu r c)
      → ((j : ℕ) → j < i → y j ≡ z j)
      → ((j : ℕ) → i ≤ j → j < i + left → b j ≡ z j)
      → (j : ℕ) → j < i + left
      → forward_sub num l b i left y j ≡ forward num tiny lu i left z j
  unfolding forward_sub forward
  forward_sub-forward zero i b y z lower before after j h = before j (omega (arith, h))
  forward_sub-forward (suc left) i b y z lower before after j h =
      let entry =
        ap (subtract num 0 i (λ m. mul (l i m) (y m))) (after i (omega arith) (omega arith))
        ∙ subtract_congr num i 0 (λ m. mul (l i m) (y m)) (λ m. mul (lu i m) (z m)) (z i)
            (λ m p q.
              ap (λ t. mul t (y m)) (lower i m (omega arith))
              ∙ ap (mul (lu i m)) (before m (omega arith))) in
      forward_sub-forward left (suc i) b _ _ lower
        (λ k q. set_same y z i _ _ k entry (λ ne. before k (ground arith)))
        (λ k q r.
          let ne : (k == i) ≡ false = ground arith in rw ne (after k (omega arith) (omega arith)))
        j (omega arith)

  back_sub-backward :
      (n left : ℕ) (y z x w : ℕ → Value)
      → ((r c : ℕ) → r ≤ c → u r c ≡ lu r c)
      → ((j : ℕ) → j < left → y j ≡ z j)
      → ((j : ℕ) → left ≤ j → j < n → x j ≡ w j)
      → left ≤ n
      → (j : ℕ) → j < n
      → back_sub num u y n left x j ≡ backward num tiny lu n left z w j
  unfolding back_sub backward
  back_sub-backward n zero y z x w upper right below b j h = below j (omega arith) h
  back_sub-backward n (suc i) y z x w upper right below b j h =
      let sums =
        ap (subtract num (suc i) (n - suc i) (λ m. mul (u i m) (x m))) (right i (omega arith))
        ∙ subtract_congr num (n - suc i) (suc i) (λ m. mul (u i m) (x m)) (λ m. mul (lu i m) (w m))
            (z i)
            (λ m p q.
              ap (λ t. mul t (x m)) (upper i m (omega arith))
              ∙ ap (mul (lu i m)) (below m (omega arith) (omega arith))) in
      let entry =
        ap (λ t. div t (u i i)) sums
        ∙ ap (div (subtract num (suc i) (n - suc i) (λ m. mul (lu i m) (w m)) (z i)))
            (upper i i (omega arith)) in
      back_sub-backward n i y z _ _ upper (λ k q. right k (omega arith))
        (λ k q r. set_same x w i _ _ k entry (λ ne. below k (ground arith) r)) (omega arith) j h

  -- The two solvers agree where the kernel's matrices are the two triangles of the factors, and its
  -- `piv` puts every vector into the order that the exchanges of `pivot` lead to.
  pub kernel_solve-lu_solve :
      (piv pivot : ℕ → ℕ) (b rest w : ℕ → Value)
      → ((r c : ℕ) → c < r → l r c ≡ lu r c)
      → ((r c : ℕ) → r ≤ c → u r c ≡ lu r c)
      → ((i : ℕ) → i < 9 → b (piv i) ≡ apply_pivots num tiny pivot 0 9 b i)
      → (j : ℕ) → j < 9
      → kernel_solve num l u piv b rest j ≡ lu_solve num tiny 9 lu pivot b w j
  unfolding kernel_solve lu_solve
  kernel_solve-lu_solve piv pivot b rest w lower upper order j h =
      back_sub-backward 9 9 _ _ rest w upper
        (λ k q.
          forward_sub-forward 9 0 (λ i. b (piv i)) rest (apply_pivots num tiny pivot 0 9 b) lower
            (λ m p. absurd (omega arith)) (λ m p r. order m (omega arith)) k (omega arith))
        (λ k q r. absurd (omega arith)) (omega arith) j h
