-- ===== src/Hil/Lu/Solves.antt =====
-- `lu_factor` and then `lu_solve` of LuSolver.h solve the system.
use mathlib.Core.Path.{subst}
use edge_ipc_daemon.Prelude.{
  ℕ, suc, ◌+◌, ◌-◌, ◌≤◌, ◌<◌, ◌≡◌, ◌≢◌, inl, inr, refl, sym, ap, ◌∙◌, true, false, Bool-cases, some,
  arith, min, ◌==◌, ltb,
}
use edge_ipc_daemon.Hil.Num.{Num, IsField, sum}
use edge_ipc_daemon.Hil.Lu.{
  Matrix, Factored, swap_rows, eliminate, lu_factor, swap_entries, apply_pivots, forward, backward,
  lu_solve,
}
use edge_ipc_daemon.Hil.Lu.Substitution.{forward_lem, backward_lem, sum_congr}
use edge_ipc_daemon.Hil.Lu.Rows.{upper, row, row_congr, eliminate-row}
use edge_ipc_daemon.Hil.Lu.Rounds.{
  Rounded, Rounds, done, more, factor_rounds-Rounds, Rounds-keeps, Rounds-ne_nil,
}

module _ (num : Num) (field : IsField num) (tiny : num.Value) where
  open num use {Value, nil, add, mul, less}

  module _ (n : ℕ) (x : ℕ → Value) where
    abbrev row_at : ℕ → Matrix num tiny → ℕ → Value
    row_at k a i = row num field tiny n x (min i k) a i

    -- The rows of the system, before the round `k`, have these right sides.
    abbrev Solves : ℕ → Matrix num tiny → (ℕ → Value) → Type 0
    Solves k a c = (i : ℕ) → i < n → row_at k a i ≡ c i

    swapped_above :
        (a : Matrix num tiny) (k p m j : ℕ) → k ≤ p → m < k → swap_rows num tiny a k p m j ≡ a m j
    unfolding swap_rows
    swapped_above a k p m j h l = ground arith

    eliminated_above :
        (b : Matrix num tiny) (k m j : ℕ) → m ≤ k → eliminate num tiny b k m j ≡ b m j
    unfolding eliminate
    eliminated_above b k m j h = ground arith

    row_swapped :
        (a : Matrix num tiny) (k p i i' : ℕ)
        → k ≤ p
        → min i k ≡ min i' k
        → ((j : ℕ) → swap_rows num tiny a k p i j ≡ a i' j)
        → row_at k (swap_rows num tiny a k p) i ≡ row_at k a i'
    row_swapped a k p i i' h e same =
        row_congr num field tiny n x (min i k) a (swap_rows num tiny a k p) i i' same
          (λ m j l. swapped_above a k p m j h (omega (arith, l)))
        ∙ ap (λ r. row num field tiny n x r a i') e

    -- Without the elimination.
    row_eliminated :
        (b : Matrix num tiny) (k i : ℕ)
        → k < n
        → b k k ≢ nil
        → row_at k b i ≡ row_at (suc k) (eliminate num tiny b k) i
    row_eliminated b k i h pivot = elim (Bool-cases (ltb k i)) [
      | inl e ↦
          let below : k < i = ground arith in
          let r : min i k ≡ k = omega arith in
          let r' : min i (suc k) ≡ suc k = omega arith in
          rw (r, r') (sym (eliminate-row num field tiny n x b k h pivot i below))
      | inr e ↦
          let not_below : i ≤ k = ground arith in
          let r : min i k ≡ i = omega arith in
          let r' : min i (suc k) ≡ i = omega arith in
          rw (r, r')
            (sym (
              row_congr num field tiny n x i b (eliminate num tiny b k) i i
                (λ j. eliminated_above b k i j not_below)
                (λ m j l. eliminated_above b k m j (omega (arith, l)))))
    ]

    swapped_first : (a : Matrix num tiny) (k p j : ℕ) → swap_rows num tiny a k p p j ≡ a k j
    unfolding swap_rows
    swapped_first a k p j = ground arith

    swapped_second : (a : Matrix num tiny) (k p j : ℕ) → swap_rows num tiny a k p k j ≡ a p j
    unfolding swap_rows
    swapped_second a k p j = ground arith

    swapped_other :
        (a : Matrix num tiny) (k p i j : ℕ)
        → (i == k) ≡ false
        → (i == p) ≡ false
        → swap_rows num tiny a k p i j ≡ a i j
    unfolding swap_rows
    swapped_other a k p i j e e' = ground arith

    entry_first : (c : ℕ → Value) (k p : ℕ) → swap_entries num tiny c k p p ≡ c k
    unfolding swap_entries
    entry_first c k p = ground arith

    entry_second : (c : ℕ → Value) (k p : ℕ) → swap_entries num tiny c k p k ≡ c p
    unfolding swap_entries
    entry_second c k p = ground arith

    entry_other :
        (c : ℕ → Value) (k p i : ℕ)
        → (i == k) ≡ false
        → (i == p) ≡ false
        → swap_entries num tiny c k p i ≡ c i
    unfolding swap_entries
    entry_other c k p i e e' = ground arith

    -- A round, taken back.
    round_back :
        (a : Matrix num tiny) (c : ℕ → Value) (k p : ℕ)
        → k ≤ p
        → p < n
        → a p k ≢ nil
        → Solves
            (suc k)
            (eliminate num tiny (swap_rows num tiny a k p) k)
            (swap_entries num tiny c k p)
        → Solves k a c
    round_back a c k p h l pivot s i i_in =
        let b = swap_rows num tiny a k p in
        let b_pivot : b k k ≢ nil = unfold swap_rows in ground (arith, pivot) in
        let at = λ (j : ℕ) (j_in : j < n). row_eliminated b k j (omega arith) b_pivot ∙ s j j_in in
        elim (Bool-cases (i == k)) [
          | inl e ↦
              let here : k ≡ i = ground arith in
              rw (← here) (
                sym (row_swapped a k p p k h (omega arith) (swapped_first a k p))
                ∙ at p l
                ∙ entry_first c k p)
          | inr e ↦ elim (Bool-cases (i == p)) [
            | inl e' ↦
                let there : p ≡ i = ground arith in
                rw (← there) (
                  sym (row_swapped a k p k p h (omega arith) (swapped_second a k p))
                  ∙ at k (omega arith)
                  ∙ entry_second c k p)
            | inr e' ↦
                sym (row_swapped a k p i i h refl (λ j. swapped_other a k p i j e e'))
                ∙ at i i_in
                ∙ entry_other c k p i e e'
          ]
        ]

    module _ (irreflexive : less nil nil ≡ false) (tiny_positive : less nil tiny ≡ true) where
      -- All rounds, taken back.
      Rounds-back :
          {k left : ℕ} {f g : Factored num tiny}
          → Rounds num tiny irreflexive tiny_positive n k left f g
          → (c : ℕ → Value) → k + left ≡ n
          → Solves n g.lu (apply_pivots num tiny g.pivot k left c)
          → Solves k f.lu c
      unfolding apply_pivots Rounded
      Rounds-back {k = k} (done {f = f}) c e s =
          let same : n ≡ k = omega (arith, e) in subst (λ r. Solves r f.lu c) same s
      Rounds-back {k = k} {g = g} (more {f = f} {g = m} r rs) c e s =
          let keeps : g.pivot k ≡ m.pivot k =
            (Rounds-keeps num tiny irreflexive tiny_positive rs k k (omega arith)).1 in
          let p = m.pivot k in
          let after = Rounds-back rs (swap_entries num tiny c k (g.pivot k)) (omega (arith, e)) s in
          round_back f.lu c k p r.0 r.1 r.2 (
            subst
              (λ q.
                Solves (suc k) (eliminate num tiny (swap_rows num tiny f.lu k p) k)
                  (swap_entries num tiny c k q))
              keeps
              (subst (λ b. Solves (suc k) b (swap_entries num tiny c k (g.pivot k))) r.3 after))

  module _ (irreflexive : less nil nil ≡ false) (tiny_positive : less nil tiny ≡ true) where
    -- The substitutions solve the system as it is after the last round.
    solved :
        (n : ℕ) (a : Matrix num tiny) (pivot : ℕ → ℕ) (g : Factored num tiny) (b x : ℕ → Value)
        → Rounds num tiny irreflexive tiny_positive n 0 n (record { lu = a; pivot = pivot }) g
        → Solves n
            (lu_solve num tiny n g.lu g.pivot b x)
            n
            g.lu
            (apply_pivots num tiny g.pivot 0 n b)
    unfolding lu_solve
    solved n a pivot g b x rs i h =
        let y = forward num tiny g.lu 0 n (apply_pivots num tiny g.pivot 0 n b) in
        let z = backward num tiny g.lu n n y x in
        let uppers = λ (m : ℕ) (l : m < n).
          backward_lem num field tiny g.lu n y x m l
            (Rounds-ne_nil num tiny irreflexive tiny_positive rs m (omega arith) (omega arith)) in
        let r : min i n ≡ i = omega arith in
        rw r (
          ap (λ t. add t (upper num field tiny n z g.lu i))
            (sum_congr num field i 0 (λ m. mul (g.lu i m) (upper num field tiny n z g.lu m))
              (λ m. mul (g.lu i m) (y m)) λ m p q. ap (mul (g.lu i m)) (uppers m (omega arith)))
          ∙ ap (add (sum num 0 i (λ m. mul (g.lu i m) (y m)))) (uppers i h)
          ∙ forward_lem num field tiny g.lu n (apply_pivots num tiny g.pivot 0 n b) i h)

    -- If the factorisation of a matrix throws nothing, the solution that is computed from its
    -- factors and its pivots, for any right side, solves every row of the original system. The
    -- arithmetic is that of a field with a test for `<`, in which zero is not below itself and is
    -- below the bound for a singular matrix.
    pub lu_solve-lu_factor :
        (n : ℕ) (a : Matrix num tiny) (pivot : ℕ → ℕ) (g : Factored num tiny) (b x : ℕ → Value)
        (i : ℕ)
        → lu_factor num tiny n a pivot ≡ some g
        → i < n
        → sum num 0 n (λ j. mul (a i j) (lu_solve num tiny n g.lu g.pivot b x j)) ≡ b i
    unfolding lu_factor
    lu_solve-lu_factor n a pivot g b x i e h =
        let rs =
          factor_rounds-Rounds num tiny irreflexive tiny_positive n n 0
            (record { lu = a; pivot = pivot }) g (omega arith) e in
        let z = lu_solve num tiny n g.lu g.pivot b x in
        let at_start : row_at n z 0 a i ≡ b i =
          Rounds-back n z irreflexive tiny_positive rs b (omega arith) (solved n a pivot g b x rs) i
            h in
        let r : min i 0 ≡ 0 = omega arith in
        let whole : n - 0 ≡ n = omega arith in
        sym (field.nil-add (sum num 0 n (λ j. mul (a i j) (z j))))
        ∙ ap (λ t. add nil (sum num 0 t (λ j. mul (a i j) (z j)))) (sym whole)
        ∙ subst (λ k. row num field tiny n z k a i ≡ b i) r at_start
