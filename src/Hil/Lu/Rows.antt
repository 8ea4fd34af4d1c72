-- ===== src/Hil/Lu/Rows.antt =====
-- `lu_factor` of LuSolver.h: what a round keeps of each row of the system.
use edge_ipc_daemon.Prelude.{ℕ, zero, suc, ◌+◌, ◌-◌, ◌≤◌, ◌<◌, ◌≡◌, ◌≢◌, refl, sym, ap, ◌∙◌, arith}
use edge_ipc_daemon.Hil.Num.{Num, IsField, sum}
use edge_ipc_daemon.Hil.Lu.{Matrix, eliminate}
use edge_ipc_daemon.Hil.Lu.Substitution.{sum_congr}

module _ (num : Num) (field : IsField num) where
  open num use {Value, nil, one, add, sub, mul, div}

  sub_self : (a : Value) → sub a a ≡ nil
  sub_self a = ap (λ t. sub t a) (sym (field.nil-add a)) ∙ field.add-sub nil a

  mul-nil : (a : Value) → mul a nil ≡ nil
  mul-nil a =
      let t = mul a nil in
      let twice : add t t ≡ t = sym (field.mul-add a nil nil) ∙ ap (mul a) (field.nil-add nil) in
      sym (field.add-sub t t) ∙ ap (λ u. sub u t) twice ∙ sub_self t

  interchange : (p q r s : Value) → add (add p q) (add r s) ≡ add (add p r) (add q s)
  interchange p q r s =
      field.add_assoc p q (add r s)
      ∙ ap (add p) (
          sym (field.add_assoc q r s)
          ∙ ap (λ t. add t s) (field.add_comm q r)
          ∙ field.add_assoc r q s)
      ∙ sym (field.add_assoc p r (add q s))

  -- A multiple of `a` taken off `b`, and added again, at one element.
  taken_off : (c a b x : Value) → add (mul c (mul a x)) (mul (sub b (mul c a)) x) ≡ mul b x
  taken_off c a b x =
      ap (λ t. add t (mul (sub b (mul c a)) x))
        (sym (field.mul_assoc c a x) ∙ field.mul_comm (mul c a) x)
      ∙ ap (add (mul x (mul c a))) (field.mul_comm (sub b (mul c a)) x)
      ∙ sym (field.mul-add x (mul c a) (sub b (mul c a)))
      ∙ ap (mul x) (field.add_comm (mul c a) (sub b (mul c a)) ∙ field.sub-add b (mul c a))
      ∙ field.mul_comm x b

  -- At all elements of a row.
  taken_off_sum :
      (count from : ℕ) (c : Value) (a b x : ℕ → Value)
      → add
          (mul c (sum num from count (λ j. mul (a j) (x j))))
          (sum num from count (λ j. mul (sub (b j) (mul c (a j))) (x j)))
        ≡ sum num from count (λ j. mul (b j) (x j))
  taken_off_sum zero from c a b x = ap (λ t. add t nil) (mul-nil c) ∙ field.nil-add nil
  taken_off_sum (suc count) from c a b x =
      let later = sum num (suc from) count (λ j. mul (a j) (x j)) in
      let rest = sum num (suc from) count (λ j. mul (sub (b j) (mul c (a j))) (x j)) in
      let here = mul (sub (b from) (mul c (a from))) (x from) in
      ap (λ t. add t (add here rest)) (field.mul-add c (mul (a from) (x from)) later)
      ∙ interchange (mul c (mul (a from) (x from))) (mul c later) here rest
      ∙ ap (λ t. add t (add (mul c later) rest)) (taken_off c (a from) (b from) (x from))
      ∙ ap (add (mul (b from) (x from))) (taken_off_sum count (suc from) c a b x)

  sum_last :
      (count from last : ℕ) (f : ℕ → Value)
      → from + count ≡ last
      → sum num from (suc count) f ≡ add (sum num from count f) (f last)
  sum_last zero from last f e =
      let same : from ≡ last = omega (arith, e) in rw same (field.add_comm (f last) nil)
  sum_last (suc count) from last f e =
      ap (add (f from)) (sum_last count (suc from) last f (omega (arith, e)))
      ∙ sym (field.add_assoc (f from) (sum num (suc from) count f) (f last))

  module _ (tiny : Value) (n : ℕ) (x : ℕ → Value) where
    -- The row `m` of U, applied to `x`: an element of y.
    abbrev pub upper : Matrix num tiny → ℕ → Value
    upper a m = sum num m (n - m) (λ j. mul (a m j) (x j))

    -- A row of which the first `r` elements are factors, and the others belong to the system.
    abbrev pub row : ℕ → Matrix num tiny → ℕ → Value
    row r a i =
        add (sum num 0 r (λ m. mul (a i m) (upper a m)))
          (sum num r (n - r) (λ j. mul (a i j) (x j)))

    -- It depends on this row and on the first `r` rows.
    pub row_congr :
        (r : ℕ) (a b : Matrix num tiny) (i k : ℕ)
        → ((j : ℕ) → b i j ≡ a k j)
        → ((m j : ℕ) → m < r → b m j ≡ a m j)
        → row r b i ≡ row r a k
    row_congr r a b i k same above =
        ap (λ t. add t (sum num r (n - r) (λ j. mul (b i j) (x j))))
          (sum_congr num field r 0 (λ m. mul (b i m) (upper b m)) (λ m. mul (a k m) (upper a m))
            λ m h l.
              ap (λ t. mul t (upper b m)) (same m)
              ∙ ap (mul (a k m)) (
                  sum_congr num field (n - m) m (λ j. mul (b m j) (x j)) (λ j. mul (a m j) (x j))
                    λ j p q. ap (λ t. mul t (x j)) (above m j (omega arith))))
        ∙ ap (add (sum num 0 r (λ m. mul (a k m) (upper a m)))) (
            sum_congr num field (n - r) r (λ j. mul (b i j) (x j)) (λ j. mul (a k j) (x j))
              λ j p q. ap (λ t. mul t (x j)) (same j))

    module _ (a : Matrix num tiny) (k : ℕ) (k_in : k < n) (pivot : a k k ≢ nil) where
      above : (i j : ℕ) → i ≤ k → eliminate num tiny a k i j ≡ a i j
      unfolding eliminate
      above i j h = ground arith

      left_of : (i j : ℕ) → k < i → j < k → eliminate num tiny a k i j ≡ a i j
      unfolding eliminate
      left_of i j h l = ground arith

      abbrev factor : ℕ → Value
      factor i = mul (a i k) (div one (a k k))

      at_pivot : (i : ℕ) → k < i → eliminate num tiny a k i k ≡ factor i
      unfolding eliminate
      at_pivot i h = ground arith

      right_of :
          (i j : ℕ)
          → k < i
          → k < j
          → eliminate num tiny a k i j ≡ sub (a i j) (mul (factor i) (a k j))
      unfolding eliminate
      right_of i j h l = ground arith

      -- The factor times the pivot is what stood there.
      restored : (i : ℕ) → mul (factor i) (mul (a k k) (x k)) ≡ mul (a i k) (x k)
      restored i =
          sym (field.mul_assoc (factor i) (a k k) (x k))
          ∙ ap (λ t. mul t (x k))
              (field.mul_assoc (a i k) (div one (a k k)) (a k k)
                ∙ ap (mul (a i k)) (field.div-mul one (a k k) pivot)
                ∙ field.mul_comm (a i k) one
                ∙ field.one-mul (a i k))

      -- A row below the pivot keeps its value.
      pub eliminate-row : (i : ℕ) → k < i → row (suc k) (eliminate num tiny a k) i ≡ row k a i
      eliminate-row i h =
          let e = eliminate num tiny a k in
          let rest = n - suc k in
          let ahead = sum num 0 k (λ m. mul (a i m) (upper a m)) in
          let others = sum num (suc k) rest (λ j. mul (a k j) (x j)) in
          let tail = sum num (suc k) rest (λ j. mul (sub (a i j) (mul (factor i) (a k j))) (x j)) in
          let count : n - k ≡ suc rest = omega arith in
          let lead : upper a k ≡ add (mul (a k k) (x k)) others = rw count refl in
          let whole : sum num k (n - k) (λ j. mul (a i j) (x j))
              ≡ add (mul (a i k) (x k)) (sum num (suc k) rest (λ j. mul (a i j) (x j))) =
            rw count refl in
          let uppers : (m : ℕ) → m ≤ k → upper e m ≡ upper a m = λ m h.
            sum_congr num field (n - m) m (λ j. mul (e m j) (x j)) (λ j. mul (a m j) (x j))
              (λ j p q. ap (λ t. mul t (x j)) (above m j h)) in
          let front : sum num 0 (suc k) (λ m. mul (e i m) (upper e m))
              ≡ add ahead (mul (factor i) (upper a k)) =
            sum_last k 0 k (λ m. mul (e i m) (upper e m)) (omega arith)
            ∙ ap (λ t. add t (mul (e i k) (upper e k)))
                (sum_congr num field k 0 (λ m. mul (e i m) (upper e m))
                  (λ m. mul (a i m) (upper a m))
                  λ m p q.
                    ap (λ t. mul t (upper e m)) (left_of i m h (omega arith))
                    ∙ ap (mul (a i m)) (uppers m (omega arith)))
            ∙ ap (add ahead) (
                ap (λ t. mul t (upper e k)) (at_pivot i h)
                ∙ ap (mul (factor i)) (uppers k (omega arith))) in
          let back : sum num (suc k) rest (λ j. mul (e i j) (x j)) ≡ tail =
            sum_congr num field rest (suc k) (λ j. mul (e i j) (x j))
              (λ j. mul (sub (a i j) (mul (factor i) (a k j))) (x j))
              (λ j p q. ap (λ t. mul t (x j)) (right_of i j h (omega arith))) in
          ap (λ t. add t (sum num (suc k) rest (λ j. mul (e i j) (x j)))) front
          ∙ ap (add (add ahead (mul (factor i) (upper a k)))) back
          ∙ field.add_assoc ahead (mul (factor i) (upper a k)) tail
          ∙ ap (λ t. add ahead (add (mul (factor i) t) tail)) lead
          ∙ ap (λ t. add ahead (add t tail)) (field.mul-add (factor i) (mul (a k k) (x k)) others)
          ∙ ap (add ahead) (
              field.add_assoc (mul (factor i) (mul (a k k) (x k))) (mul (factor i) others) tail
              ∙ ap (λ t. add t (add (mul (factor i) others) tail)) (restored i)
              ∙ ap (add (mul (a i k) (x k))) (taken_off_sum rest (suc k) (factor i) (a k) (a i) x)
              ∙ sym whole)
