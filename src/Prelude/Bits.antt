-- ===== src/Prelude/Bits.antt =====
-- Exclusive or and the test of the top bit, at variables. `digits` is what the native operations
-- stand for; the laws go from a number to its half.
use Prim.Native.Nat.{
  ℕ, zero, suc, ◌+◌, ◌*◌, ◌/◌, ◌%◌, ◌^◌, ◌≤◌, ◌<◌, min, bit_and, bit_xor, digits, differ,
  bit_and-bitwise, bit_xor-bitwise,
}
use mathlib.Core.Path.{◌≡◌, refl, sym, ap, ap₂, ◌∙◌}
use native.Mathlib.Omega.{arith}

differ_two : (x y : ℕ) → x < 2 → y < 2 → differ x y ≡ (x + y) % 2
differ_two zero zero h k = refl
differ_two zero (suc zero) h k = refl
differ_two (suc zero) zero h k = refl
differ_two (suc zero) (suc zero) h k = refl
differ_two zero (suc (suc y)) h k = absurd (omega arith)
differ_two (suc zero) (suc (suc y)) h k = absurd (omega arith)
differ_two (suc (suc x)) y h k = absurd (omega arith)

-- The recursion on digits that both operations stand for: `op` on the digits, `left` once the first
-- number has none. Its fuel does not matter.
module _ (left : ℕ → ℕ) (op : ℕ → ℕ → ℕ) where
  digits_end : (b fuel : ℕ) → digits left op fuel zero b ≡ left b
  digits_end b zero = refl
  digits_end b (suc fuel) = refl

  digits_unique : (b a k l : ℕ) → a ≤ l → a ≤ k → digits left op k a b ≡ digits left op l a b
  digits_unique b zero k l at_l at_k = digits_end b k ∙ sym (digits_end b l)
  digits_unique b (suc a) (suc k) zero at_l at_k = absurd (omega arith)
  digits_unique b (suc a) zero l at_l at_k = absurd (omega arith)
  digits_unique b (suc a) (suc k) (suc l) at_l at_k =
      let halves = digits_unique (b / 2) (suc a / 2) k l (omega arith) (omega arith) in
      ap (λ d. d * 2 + op (suc a % 2) (b % 2)) halves

pub zero-bit_xor : (b : ℕ) → bit_xor 0 b ≡ b
zero-bit_xor b = bit_xor-bitwise 0 b

pub bit_xor_step : (a b : ℕ) → bit_xor a b ≡ bit_xor (a / 2) (b / 2) * 2 + (a % 2 + b % 2) % 2
bit_xor_step zero b = omega (arith, zero-bit_xor b, zero-bit_xor (b / 2))
bit_xor_step (suc a) b = omega (
  arith,
  bit_xor-bitwise (suc a) b,
  bit_xor-bitwise (suc a / 2) (b / 2),
  digits_unique (λ d. d) differ (b / 2) (suc a / 2) a (suc a / 2) (omega arith) (omega arith),
  differ_two (suc a % 2) (b % 2) (omega arith) (omega arith),
)

-- Exclusive or by the same number cancels, on either side.
xor_cancel_fuel : (n a b c : ℕ) → a ≤ n → b ≤ n → bit_xor a c ≡ bit_xor b c → a ≡ b
xor_cancel_fuel zero a b c p q h = omega arith
xor_cancel_fuel (suc n) a b c p q h = omega (
  arith,
  bit_xor_step a c,
  bit_xor_step b c,
  xor_cancel_fuel n (a / 2) (b / 2) (c / 2) (omega arith) (omega arith)
      (omega (arith, bit_xor_step a c, bit_xor_step b c)),
)

pub xor_cancel : (a b c : ℕ) → bit_xor a c ≡ bit_xor b c → a ≡ b
xor_cancel a b c h = xor_cancel_fuel (a + b) a b c (omega arith) (omega arith) h

xor_comm_fuel : (n a b : ℕ) → a ≤ n → b ≤ n → bit_xor a b ≡ bit_xor b a
xor_comm_fuel zero zero zero p q = refl
xor_comm_fuel zero (suc a) b p q = absurd (omega arith)
xor_comm_fuel zero zero (suc b) p q = absurd (omega arith)
xor_comm_fuel (suc n) a b p q = omega (
  arith,
  bit_xor_step a b,
  bit_xor_step b a,
  xor_comm_fuel n (a / 2) (b / 2) (omega arith) (omega arith),
)

pub bit_xor_comm : (a b : ℕ) → bit_xor a b ≡ bit_xor b a
bit_xor_comm a b = xor_comm_fuel (a + b) a b (omega arith) (omega arith)

pub xor_cancel_left : (c a b : ℕ) → bit_xor c a ≡ bit_xor c b → a ≡ b
xor_cancel_left c a b h = xor_cancel a b c (bit_xor_comm a c ∙ h ∙ bit_xor_comm c b)

-- `k` halvings, a shift right by `k`.
abbrev pub halve : ℕ → ℕ → ℕ
halve zero a = a
halve (suc k) a = halve k (a / 2)

pub halve-bit_xor : (k a b : ℕ) → halve k (bit_xor a b) ≡ bit_xor (halve k a) (halve k b)
halve-bit_xor zero a b = refl
halve-bit_xor (suc k) a b =
    ap (halve k) (omega (arith, bit_xor_step a b)) ∙ halve-bit_xor k (a / 2) (b / 2)

pub bit_xor-lt_word : (a b : ℕ) → a < 2 ^ 16 → b < 2 ^ 16 → bit_xor a b < 2 ^ 16
bit_xor-lt_word a b h k = omega (arith, halve-bit_xor 16 a b ∙ ap₂ bit_xor za zb)
  where
    za : halve 16 a ≡ 0
    za = omega arith

    zb : halve 16 b ≡ 0
    zb = omega arith

-- The lowest digit of a mask.
masked_digit : (a b : ℕ) → bit_and a b ≡ bit_and (a / 2) (b / 2) * 2 + min (a % 2) (b % 2)
masked_digit zero b = omega (arith, bit_and-bitwise 0 (b / 2), bit_and-bitwise 0 b)
masked_digit (suc a) b =
    let fuel =
      digits_unique (λ d. 0) min (b / 2) (suc a / 2) a (suc a / 2) (omega arith) (omega arith) in
    omega (arith, fuel, bit_and-bitwise (suc a / 2) (b / 2), bit_and-bitwise (suc a) b)

-- The empty mask.
masked_nothing : (bound x : ℕ) → x < bound → bit_and x 0 ≡ 0
masked_nothing zero x h = absurd (omega arith)
masked_nothing (suc bound) zero h = bit_and-bitwise 0 0
masked_nothing (suc bound) (suc x) h =
    let half = masked_nothing bound (suc x / 2) (omega arith) in
    omega (arith, half, masked_digit (suc x) 0)

abbrev twice : ℕ → ℕ → ℕ
twice zero b = b
twice (suc k) b = twice k b * 2

-- A mask of one bit, `k` places up.
bit_and-twice : (k a : ℕ) → bit_and a (twice k 1) ≡ twice k (halve k a % 2)
bit_and-twice zero a = omega (arith, masked_digit a 1, masked_nothing (suc a) (a / 2) (omega arith))
bit_and-twice (suc k) a =
    omega
      (arith, masked_digit a (twice k 1 * 2), ap (bit_and (a / 2)) half, bit_and-twice k (a / 2))
  where
    half : twice k 1 * 2 / 2 ≡ twice k 1
    half = omega arith

-- `x & 0x8000` is the bit 15 of `x`.
pub bit_and_top : (x : ℕ) → bit_and x 0x8000 ≡ halve 15 x % 2 * 0x8000
bit_and_top x = omega (arith, bit_and-twice 15 x)
