-- ===== src/Daemon/Detector.antt =====
-- include/ThresholdDetector.h and src/ThresholdDetector.cpp. `consecutive` is an `int`, of which the
-- overflow is undefined; a negative `k` acts as 0 does.
use edge_ipc_daemon.Prelude.{
  ℕ, suc, ◌+◌, ◌≤◌, ◌<◌, ◌^◌, ◌≡◌, Bool, true, false, Option, none, some, Bool-cases, inl, inr,
  ◌&&◌, ◌||◌, List, [], ◌∷◌, refl, arith, ltb, leb, length, if◌then◌else◌,
}
use edge_ipc_daemon.Daemon.Real.{Real}

module _ (r : Real) where
  open r use {Value, less}

  pub record Detector : Type 0 where
    pub high : Value
    pub low : Value
    pub k : ℕ
    pub consecutive : ℕ
    pub alarm : Bool

  -- The constructor.
  unfoldable pub make : Value → Value → ℕ → Detector
  make high low k = record { high = high; low = low; k = k; consecutive = 0; alarm = false }

  abbrev pub outside : Detector → Value → Bool
  outside d sample = less d.high sample || less sample d.low

  -- `apply` returns its sample; `none` is an overflow of the `int`.
  unfoldable pub apply : Detector → Value → Option (Value × Detector)
  apply d sample =
      if outside d sample
      then if ltb (d.consecutive + 1) (2 ^ 31)
        then some (
          sample,
          record d {
            consecutive = d.consecutive + 1;
            alarm = d.alarm || leb d.k (d.consecutive + 1);
          },
        )
        else none
      else some (sample, record d { consecutive = 0; alarm = false })

  unfoldable pub reset : Detector → Detector
  reset d = record d { consecutive = 0; alarm = false }

  -- How many of the latest samples, without a break, are outside the band; the latest come first.
  abbrev pub streak : Value → Value → List Value → ℕ
  streak high low [] = 0
  streak high low (x ∷ samples) =
      if less high x || less x low then suc (streak high low samples) else 0

  pub streak-le :
      (high low : Value) (samples : List Value) → streak high low samples ≤ length samples
  streak-le high low [] = omega arith
  streak-le high low (x ∷ samples) = ground (arith, streak-le high low samples)

  -- The alarm that these samples raise, in a band and with a `k`.
  abbrev pub raised : Value → Value → ℕ → List Value → Bool
  raised high low k samples = let n = streak high low samples in ltb 0 n && leb k n

  -- The state that the samples before it explain.
  pub record Explains (d : Detector) (samples : List Value) : Type 0 where
    pub counted : d.consecutive ≡ streak d.high d.low samples
    pub alarmed : d.alarm ≡ raised d.high d.low d.k samples

  -- What a call of `apply` is to do; the bounds and the count that raise the alarm stay.
  abbrev pub Watched : Detector → List Value → Value → Type 0
  Watched d samples x =
      (e : Detector) × (apply d x ≡ some (x, e))
      × Explains e (x ∷ samples)
      × (e.high ≡ d.high)
      × (e.low ≡ d.low)
      × (e.k ≡ d.k)

  pub apply-Watched :
      (d : Detector) (samples : List Value) (x : Value)
      → length samples + 1 < 2 ^ 31
      → Explains d samples
      → Watched d samples x
  unfolding apply
  apply-Watched d samples x fits v = elim (Bool-cases (outside d x)) [
    | inl out ↦
        let small : ltb (d.consecutive + 1) (2 ^ 31) ≡ true =
          ground (arith, v.counted, streak-le d.high d.low samples) in
        (
          record d {
            consecutive = d.consecutive + 1;
            alarm = d.alarm || leb d.k (d.consecutive + 1);
          },
          rw (out, small) refl,
          record { counted = ground arith; alarmed = ground arith },
          refl,
          refl,
          refl,
        )
    | inr inside ↦ (
      record d { consecutive = 0; alarm = false },
      rw inside refl,
      record { counted = ground arith; alarmed = ground arith },
      refl,
      refl,
      refl,
    )
  ]

  pub make-Explains : (high low : Value) (k : ℕ) → Explains (make high low k) []
  unfolding make
  make-Explains high low k = record { counted = refl; alarmed = refl }
