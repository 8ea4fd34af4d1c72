-- ===== src/Hil/Lu/Rounds.antt =====
-- `lu_factor` of LuSolver.h: the pivots, and what its rounds keep.
use mathlib.Core.Path.{subst}
use edge_ipc_daemon.Prelude.{
  ℕ, zero, suc, ◌+◌, ◌-◌, ◌≤◌, ◌<◌, ◌≡◌, ◌≢◌, ◌⊎◌, inl, inr, refl, sym, ap, ◌∙◌, true, false,
  Bool-cases, Option, none, some, arith, if◌then◌else◌, ◌==◌,
}
use edge_ipc_daemon.Hil.Num.{Num}
use edge_ipc_daemon.Hil.Lu.{
  Matrix, Factored, abs_value, find_pivot, swap_rows, eliminate, factor_with, factor_round,
  factor_rounds,
}

module _ (num : Num) (tiny : num.Value) where
  open num use {Value, nil, add, mul, less}

  -- A row from `k` on and below `n`, and the size of its element in the column `k`, if not zero.
  abbrev Found : Matrix num tiny → ℕ → ℕ → ℕ × Value → Type 0
  Found a k n found =
      (k ≤ found.0)
      × (found.0 < n)
      × ((found.1 ≡ nil) ⊎ (found.1 ≡ abs_value num tiny (a found.0 k)))

  find_pivot-Found :
      (a : Matrix num tiny) (k n left i : ℕ) (found : ℕ × Value)
      → k ≤ i
      → i + left ≡ n
      → Found a k n found
      → Found a k n (find_pivot num tiny a k i left found)
  unfolding find_pivot
  find_pivot-Found a k n zero i found h e f = f
  find_pivot-Found a k n (suc left) i found h e f =
      let v = abs_value num tiny (a i k) in
      elim (Bool-cases (less found.1 v)) [
        | inl b ↦
            rw (b, find_pivot)
              (find_pivot-Found a k n left (suc i) (i, v) (omega arith) (omega arith)
                (h, omega arith, inr refl))
        | inr b ↦
            rw (b, find_pivot)
              (find_pivot-Found a k n left (suc i) found (omega arith) (omega arith) f)
      ]

  module _ (irreflexive : less nil nil ≡ false) (tiny_positive : less nil tiny ≡ true) where
    abs_nil : abs_value num tiny nil ≡ nil
    unfolding abs_value
    abs_nil = rw irreflexive refl

    pivot-ne_nil :
        (v best : Value)
        → (best ≡ nil) ⊎ (best ≡ abs_value num tiny v)
        → less best tiny ≡ false
        → v ≢ nil
    pivot-ne_nil v best (inl e) h z = cc
    pivot-ne_nil v best (inr e) h z =
        let same : best ≡ nil = e ∙ ap (abs_value num tiny) z ∙ abs_nil in cc

    -- What a round does that throws nothing: a pivot that is not zero comes to its place.
    unfoldable pub Rounded : ℕ → ℕ → Factored num tiny → Factored num tiny → Type 0
    Rounded n k f g =
        (k ≤ g.pivot k)
        × (g.pivot k < n)
        × (f.lu (g.pivot k) k ≢ nil)
        × (g.lu ≡ eliminate num tiny (swap_rows num tiny f.lu k (g.pivot k)) k)
        × ((j : ℕ) → j < k → g.pivot j ≡ f.pivot j)

    abbrev made : Factored num tiny → ℕ → ℕ → Factored num tiny
    made f k p = record {
      lu = eliminate num tiny (swap_rows num tiny f.lu k p) k;
      pivot = λ j. if j == k then p else f.pivot j;
    }

    made_pivot : (f : Factored num tiny) (k p : ℕ) → (made f k p).pivot k ≡ p
    made_pivot f k p = ground arith

    made-Rounded :
        (n k p : ℕ) (best : Value) (f : Factored num tiny)
        → Found f.lu k n (p, best)
        → less best tiny ≡ false
        → Rounded n k f (made f k p)
    unfolding Rounded
    made-Rounded n k p best f h b =
        rw (made_pivot f k p)
          (h.0, h.1, pivot-ne_nil (f.lu p k) best h.2 b, refl, λ j l. ground arith)

    some_inj : (f g : Factored num tiny) → some f ≡ some g → f ≡ g
    some_inj f g e = cc

    factor_with-Rounded :
        (n k : ℕ) (found : ℕ × Value) (f g : Factored num tiny)
        → Found f.lu k n found
        → factor_with num tiny found k f ≡ some g
        → Rounded n k f g
    factor_with-Rounded n k (p, best) f g h e = elim (Bool-cases (less best tiny)) [
      | inl b ↦
          let none_of : factor_with num tiny (p, best) k f ≡ none =
            unfold factor_with in rw b refl in
          cc
      | inr b ↦
          let some_of : factor_with num tiny (p, best) k f ≡ some (made f k p) =
            unfold factor_with in rw b refl in
          subst (Rounded n k f) (some_inj (made f k p) g (sym some_of ∙ e))
            (made-Rounded n k p best f h b)
    ]

    factor_round-Rounded :
        (n k : ℕ) (f g : Factored num tiny)
        → k < n
        → factor_round num tiny n k f ≡ some g
        → Rounded n k f g
    unfolding factor_round
    factor_round-Rounded n k f g h e =
        factor_with-Rounded n k (find_pivot num tiny f.lu k k (n - k) (k, nil)) f g
          (find_pivot-Found f.lu k n (n - k) k (k, nil) (omega arith) (omega arith)
            (omega arith, h, inl refl))
          e

    -- The rounds from `k` on, each of which throws nothing.
    pub data Rounds (n : ℕ) : ℕ → ℕ → Factored num tiny → Factored num tiny → Type 0 where
      done : {k : ℕ} {f : Factored num tiny} → Rounds n k zero f f
      more :
          {k left : ℕ} {f g h : Factored num tiny}
          → Rounded n k f g
          → Rounds n (suc k) left g h
          → Rounds n k (suc left) f h

    pub factor_rounds-Rounds :
        (n left k : ℕ) (f g : Factored num tiny)
        → k + left ≤ n
        → factor_rounds num tiny n k left f ≡ some g
        → Rounds n k left f g
    unfolding factor_rounds
    factor_rounds-Rounds n zero k f g h e = subst (Rounds n k zero f) (some_inj f g e) done
    factor_rounds-Rounds n (suc left) k f g h e =
        go (λ m. factor_rounds-Rounds n left (suc k) m g (omega arith))
          (factor_round num tiny n k f) refl e
      where
        go :
            ((m : Factored num tiny)
              → factor_rounds num tiny n (suc k) left m ≡ some g
              → Rounds n (suc k) left m g)
            → (r : Option (Factored num tiny)) → factor_round num tiny n k f ≡ r
            → elim r [ none ↦ none | some m ↦ factor_rounds num tiny n (suc k) left m ] ≡ some g
            → Rounds n k (suc left) f g
        go ih none q e' = cc
        go ih (some m) q e' = more (factor_round-Rounded n k f m (omega arith) q) (ih m e')

    above :
        (a : Matrix num tiny) (k p i j : ℕ)
        → k ≤ p
        → i < k
        → eliminate num tiny (swap_rows num tiny a k p) k i j ≡ a i j
    unfolding eliminate swap_rows
    above a k p i j h l = ground arith

    -- Later rounds change nothing above their pivots.
    pub Rounds-keeps :
        {n k left : ℕ} {f g : Factored num tiny}
        → Rounds n k left f g
        → (i j : ℕ) → i < k
        → (g.lu i j ≡ f.lu i j) × (g.pivot i ≡ f.pivot i)
    unfolding Rounded
    Rounds-keeps done i j h = (refl, refl)
    Rounds-keeps {k = k} (more {f = f} {g = g} r rs) i j h =
        let later = Rounds-keeps rs i j (omega arith) in
        (
          later.0 ∙ ap (λ (a : Matrix num tiny). a i j) r.3 ∙ above f.lu k (g.pivot k) i j r.0 h,
          later.1 ∙ r.4 i h,
        )

    at_place :
        (a : Matrix num tiny) (k p : ℕ)
        → eliminate num tiny (swap_rows num tiny a k p) k k k ≡ a p k
    unfolding eliminate swap_rows
    at_place a k p = ground arith

    -- No element of the diagonal is zero.
    pub Rounds-ne_nil :
        {n k left : ℕ} {f g : Factored num tiny}
        → Rounds n k left f g
        → (i : ℕ) → k ≤ i
        → i < k + left
        → g.lu i i ≢ nil
    unfolding Rounded
    Rounds-ne_nil done i h l = absurd (omega arith)
    Rounds-ne_nil {k = k} (more {f = f} {g = g} r rs) i h l = elim (Bool-cases (i == k)) [
      | inl e ↦
          let here : k ≡ i = ground arith in
          rw (← here) (λ z. r.2 (
            sym (at_place f.lu k (g.pivot k))
            ∙ ap (λ (a : Matrix num tiny). a k k) (sym r.3)
            ∙ sym (Rounds-keeps rs k k (omega arith)).0
            ∙ z))
      | inr e ↦ Rounds-ne_nil rs i (ground arith) (omega arith)
    ]
