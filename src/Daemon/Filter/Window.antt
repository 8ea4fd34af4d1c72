-- ===== src/Daemon/Filter/Window.antt =====
-- The ring buffer of src/MovingAverageFilter.cpp holds the latest samples.
use edge_ipc_daemon.Prelude.{
  ℕ, zero, suc, ◌+◌, ◌-◌, ◌%◌, ◌≤◌, ◌<◌, ◌≡◌, ◌≢◌, refl, ◌∙◌, List, [], ◌∷◌, some, arith, min, ltb,
  ge→ltb, lt→ltb, length, length-set, length-replicate, get_elem?, get_elem?-set_self,
  get_elem?-set_ne, set, if◌then◌else◌, dec_lt,
}
use native.Mathlib.Nat.{mod-eq_of_lt, mod_self}
use edge_ipc_daemon.Daemon.Real.{Real}
use edge_ipc_daemon.Daemon.Filter.{Filter, make, insert}

-- Where the sample before the last `i` ones stands, if the next one goes to `head`.
abbrev pub slot : ℕ → ℕ → ℕ → ℕ
slot window head i = if ltb i head then head - 1 - i else head + window - 1 - i

-- The next place of the head.
head-next :
    (window head : ℕ)
    → head < window
    → (head + 1) % window ≡ (if ltb (head + 1) window then head + 1 else 0)
head-next window head h = elim (dec_lt (head + 1) window) [
  | yes p ↦ rw (lt→ltb _ _ p) (mod-eq_of_lt p)
  | no p ↦
      let e : window ≡ head + 1 = omega arith in
      rw (ge→ltb (head + 1) window (omega arith), e) (mod_self (head + 1))
]

slot-next_zero : (window head : ℕ) → head < window → slot window ((head + 1) % window) 0 ≡ head
slot-next_zero window head h = rw (head-next window head h) (ground arith)

slot-next_suc :
    (window head j : ℕ)
    → head < window
    → suc j < window
    → slot window ((head + 1) % window) (suc j) ≡ slot window head j
slot-next_suc window head j h k = rw (head-next window head h) (ground arith)

slot-ne-head : (window head j : ℕ) → head < window → suc j < window → head ≢ slot window head j
slot-ne-head window head j h k = ground arith

pub slot_oldest : (window head : ℕ) → head < window → slot window head (window - 1) ≡ head
slot_oldest window head h = ground arith

module _ (r : Real) where
  open r use {Value, zero as nil}

  -- The samples since the last reset, the latest first, as the filter holds them.
  pub record Holds (f : Filter r) (samples : List Value) : Type 0 where
    pub size : length f.buf ≡ f.window
    pub head_in : f.head < f.window
    pub counted : f.count ≡ min (length samples) f.window
    pub latest :
        (i : ℕ) → i < f.count → get_elem? f.buf (slot f.window f.head i) ≡ get_elem? samples i

  pub make-Holds : (window : ℕ) → 0 < window → Holds (make r window) []
  unfolding make
  make-Holds window h = record {
    size = length-replicate window nil;
    head_in = h;
    counted = omega arith;
    latest = λ i lt. absurd (omega arith);
  }

  -- The filter after a sample was put in, with `count` for the new count.
  abbrev pub inserted : Filter r → ℕ → Value → Value → Filter r
  inserted f count sum sample = record {
    window = f.window;
    buf = set f.buf f.head sample;
    head = (f.head + 1) % f.window;
    count = count;
    sum = sum;
  }

  inserted-latest :
      (f : Filter r) (samples : List Value) (count : ℕ) (sum sample : Value)
      → Holds f samples
      → count ≤ f.count + 1
      → count ≤ f.window
      → (i : ℕ) → i < count
      → get_elem? (set f.buf f.head sample) (slot f.window ((f.head + 1) % f.window) i)
        ≡ get_elem? (sample ∷ samples) i
  inserted-latest f samples count sum sample v c w zero lt =
      rw (slot-next_zero f.window f.head v.head_in)
        (get_elem?-set_self f.buf f.head sample (omega (arith, v.size, v.head_in)))
  inserted-latest f samples count sum sample v c w (suc j) lt =
      rw (slot-next_suc f.window f.head j v.head_in (omega arith)) (
        get_elem?-set_ne f.buf sample (slot-ne-head f.window f.head j v.head_in (omega arith))
        ∙ v.latest j (omega arith))

  pub inserted-Holds :
      (f : Filter r) (samples : List Value) (count : ℕ) (sum sample : Value)
      → Holds f samples
      → count ≡ min (suc (length samples)) f.window
      → Holds (inserted f count sum sample) (sample ∷ samples)
  inserted-Holds f samples count sum sample v c = record {
    size = omega (arith, v.size, length-set f.buf f.head sample);
    head_in = ground (arith, head-next f.window f.head v.head_in, v.head_in);
    counted = c;
    latest = inserted-latest f samples count sum sample v (omega (arith, v.counted)) (omega arith);
  }

  pub insert-ok :
      (f : Filter r) (samples : List Value) (count : ℕ) (sum sample : Value)
      → Holds f samples
      → insert r f count sum sample
        ≡ some (r.over (r.add sum sample) count, inserted f count (r.add sum sample) sample)
  unfolding insert
  insert-ok f samples count sum sample v =
      rw (lt→ltb f.head (length f.buf) (omega (arith, v.size, v.head_in))) refl
