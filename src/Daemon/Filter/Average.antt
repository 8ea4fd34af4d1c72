-- ===== src/Daemon/Filter/Average.antt =====
-- `MovingAverageFilter::apply` of src/MovingAverageFilter.cpp: the running sum of the latest samples, in
-- the order in which the code adds and subtracts, and the mean of them where the sums are exact.
use edge_ipc_daemon.Prelude.{
  ℕ, zero, suc, ◌+◌, ◌-◌, ◌<◌, ◌≤◌, ◌≡◌, refl, sym, ap, ◌∙◌, List, [], ◌∷◌, Option, none, some,
  arith, min, ge→ltb, lt→ltb, length, get_elem?, get_elem?-ne_none, dec_lt, Option-cases, inl, inr,
}
use mathlib.Core.Option
use edge_ipc_daemon.Daemon.Real.{Real, IsExact}
use edge_ipc_daemon.Daemon.Filter.{Filter, make, insert, evict, apply}
use edge_ipc_daemon.Daemon.Filter.Window.{
  Holds, make-Holds, inserted, inserted-Holds, insert-ok, slot_oldest,
}

module _ (r : Real) where
  open r use {Value, zero as nil, add, sub, over}

  -- A sum without the sample that leaves the window, if one does.
  abbrev pub without : Value → Option Value → Value
  without sum none = sum
  without sum (some oldest) = sub sum oldest

  -- The sum after these samples, latest first: each sample was added after the one that left the window was
  -- subtracted, with the rounding of each of these operations.
  abbrev pub running_sum : ℕ → List Value → Value
  running_sum window [] = nil
  running_sum window (x ∷ samples) =
      add (without (running_sum window samples) (get_elem? samples (window - 1))) x

  get_elem?-past : (samples : List Value) (i : ℕ) → length samples ≤ i → get_elem? samples i ≡ none
  get_elem?-past [] i h = refl
  get_elem?-past (x ∷ samples) zero h = absurd (omega (arith, h))
  get_elem?-past (x ∷ samples) (suc i) h = get_elem?-past samples i (omega (arith, h))

  pub record Averages (f : Filter r) (samples : List Value) : Type 0 where
    pub holds : Holds r f samples
    pub summed : f.sum ≡ running_sum f.window samples

  -- The running sum over the number of samples in it.
  abbrev pub average : ℕ → List Value → Value
  average window samples = over (running_sum window samples) (min (length samples) window)

  -- What a call of `apply` is to return, for the samples before it.
  abbrev pub Applied : Filter r → List Value → Value → Type 0
  Applied f samples sample =
      (g : Filter r) × (apply r f sample ≡ some (average f.window (sample ∷ samples), g))
      × Averages g (sample ∷ samples)
      × (g.window ≡ f.window)

  inserted-Applied :
      (f : Filter r) (samples : List Value) (k : ℕ) (sum sample : Value)
      → Averages f samples
      → suc k ≡ min (suc (length samples)) f.window
      → sum ≡ without (running_sum f.window samples) (get_elem? samples (f.window - 1))
      → apply r f sample ≡ insert r f (suc k) sum sample
      → Applied f samples sample
  inserted-Applied f samples k sum sample v c s e =
      let g = inserted r f (suc k) (add sum sample) sample in
      (
        g,
        e ∙ insert-ok r f samples (suc k) sum sample v.holds ∙ result,
        record {
          holds = inserted-Holds r f samples (suc k) (add sum sample) sample v.holds c;
          summed = ap (λ t. add t sample) s;
        },
        refl,
      )
    where
      result :
          ◌≡◌ {A = Option (Value × Filter r)}
            (some (over (add sum sample) (suc k), inserted r f (suc k) (add sum sample) sample))
            (some
              (average f.window (sample ∷ samples), inserted r f (suc k) (add sum sample) sample))
      result =
          ap {B = Option (Value × Filter r)}
            (λ t. some (over (add t sample) (suc k), inserted r f (suc k) (add sum sample) sample))
            s
          ∙ ap {B = Option (Value × Filter r)}
              (λ n. some (
                over (running_sum f.window (sample ∷ samples)) n,
                inserted r f (suc k) (add sum sample) sample,
              ))
              c

  pub apply-Applied :
      (f : Filter r) (samples : List Value) (sample : Value)
      → 0 < f.window
      → Averages f samples
      → Applied f samples sample
  unfolding apply evict
  apply-Applied f samples sample pos v = elim (dec_lt f.count f.window) [
    | yes growing ↦
        let e : f.count + 1 ≡ suc f.count = omega arith in
        inserted-Applied f samples f.count f.sum sample v (omega (arith, v.holds.counted))
          (v.summed
            ∙ ap (without (running_sum f.window samples))
                (sym (get_elem?-past samples (f.window - 1) (omega (arith, v.holds.counted)))))
          (rw (lt→ltb f.count f.window growing, e) refl)
    | no full ↦
        let k = f.window - 1 in
        let e : f.count ≡ suc k = omega (arith, v.holds.counted) in
        let at : get_elem? f.buf f.head ≡ get_elem? samples k =
          ap (get_elem? f.buf) (sym (slot_oldest f.window f.head v.holds.head_in))
          ∙ v.holds.latest k (omega arith) in
        elim (Option-cases (get_elem? samples k)) [
          | inl missing ↦
              absurd (get_elem?-ne_none samples k (omega (arith, v.holds.counted)) missing)
          | inr (oldest, found) ↦
              inserted-Applied f samples k (sub f.sum oldest) sample v
                (omega (arith, v.holds.counted))
                (ap (λ t. sub t oldest) v.summed
                  ∙ ap (without (running_sum f.window samples)) (sym found))
                (rw (ge→ltb f.count f.window (omega arith), at, found)
                  (ap (λ n. insert r f n (sub f.sum oldest) sample) e))
        ]
  ]

  -- The outputs for a run of samples; `none` is an access out of the buffer.
  unfoldable pub outputs : Filter r → List Value → Option (List Value)
  outputs f [] = some []
  outputs f (x ∷ xs) = elim (apply r f x) [
    | none ↦ none
    | some (y, g) ↦ Option.map (λ ys. y ∷ ys) (outputs g xs)
  ]

  -- The averages after each sample, with the samples before it, latest first.
  abbrev pub averages : ℕ → List Value → List Value → List Value
  averages window before [] = []
  averages window before (x ∷ xs) = average window (x ∷ before) ∷ averages window (x ∷ before) xs

  outputs-averages :
      (f : Filter r) (before xs : List Value)
      → 0 < f.window
      → Averages f before
      → outputs f xs ≡ some (averages f.window before xs)
  unfolding outputs
  outputs-averages f before [] pos v = refl
  outputs-averages f before (x ∷ xs) pos v =
      let (g, e, w, same) = apply-Applied f before x pos v in
      rw (e, outputs) (rw (outputs-averages g (x ∷ before) xs (omega (arith, same)) w, same) refl)

  pub make-Averages : (window : ℕ) → 0 < window → Averages (make r window) []
  unfolding make
  make-Averages window pos = record { holds = make-Holds r window pos; summed = refl }

  -- A fresh filter with a window of one sample or more returns, for every run of samples and after
  -- each of them, the running sum over the number of samples in the window; and it never leaves its
  -- buffer. The running sum is the one that the code has, with the rounding of each addition and each
  -- subtraction since the filter was made, in any arithmetic: after a sample is put in, the
  -- one that left the window stays in the sum only by the rounding of the two.
  pub outputs-make :
      (window : ℕ) (xs : List Value)
      → 0 < window
      → outputs (make r window) xs ≡ some (averages window [] xs)
  unfolding make
  outputs-make window xs pos = outputs-averages (make r window) [] xs pos (make-Averages window pos)

module _ (r : Real) (exact : IsExact r) where
  open r use {Value, zero as nil, add, sub, over}

  -- The sum of the latest `k` samples.
  abbrev total : ℕ → List Value → Value
  total zero samples = nil
  total (suc k) [] = nil
  total (suc k) (x ∷ samples) = add (total k samples) x

  total_split :
      (m : ℕ) (samples : List Value) (oldest : Value)
      → get_elem? samples m ≡ some oldest
      → total (suc m) samples ≡ add (total m samples) oldest
  total_split m [] oldest e = cc
  total_split zero (x ∷ samples) oldest e = ap (add nil) (ground arith)
  total_split (suc m) (x ∷ samples) oldest e =
      let rest = total m samples in
      ap (λ t. add t x) (total_split m samples oldest e)
      ∙ exact.add_assoc rest oldest x
      ∙ ap (add rest) (exact.add_comm oldest x)
      ∙ sym (exact.add_assoc rest x oldest)

  total_all :
      (k : ℕ) (samples : List Value) → length samples ≤ k → total (suc k) samples ≡ total k samples
  total_all zero [] h = refl
  total_all (suc k) [] h = refl
  total_all zero (x ∷ samples) h = absurd (omega (arith, h))
  total_all (suc k) (x ∷ samples) h = ap (λ t. add t x) (total_all k samples (omega (arith, h)))

  without-total :
      (k : ℕ) (samples : List Value)
      → without r (total (suc k) samples) (get_elem? samples k) ≡ total k samples
  without-total k samples = elim (Option-cases (get_elem? samples k)) [
    | inl missing ↦ rw missing (total_all k samples (short k samples missing))
    | inr (oldest, found) ↦ rw found (
        ap (λ t. sub t oldest) (total_split k samples oldest found)
        ∙ exact.add_sub (total k samples) oldest)
  ]
    where
      short : (k : ℕ) (samples : List Value) → get_elem? samples k ≡ none → length samples ≤ k
      short k [] h = omega arith
      short zero (x ∷ samples) h = cc
      short (suc k) (x ∷ samples) h = let le = short k samples h in omega (arith, le)

  -- Where sums are exact, the running sum is that of the samples in the window.
  running_sum-total :
      (k : ℕ) (samples : List Value) → running_sum r (suc k) samples ≡ total (suc k) samples
  running_sum-total k [] = refl
  running_sum-total k (x ∷ samples) =
      let last : suc k - 1 ≡ k = omega arith in
      ap (λ i. add (without r (running_sum r (suc k) samples) (get_elem? samples i)) x) last
      ∙ ap (λ t. add (without r t (get_elem? samples k)) x) (running_sum-total k samples)
      ∙ ap (λ t. add t x) (without-total k samples)
