-- ===== src/Protocol/Crc/Detect.antt =====
-- What `crc16` of async_telemetry_server/src/FrameProtocol.cpp detects: a round loses nothing.
use Prim.Native.Nat.{bit_xor}
use edge_ipc_daemon.Prelude.{
  ℕ, zero, suc, ◌*◌, ◌%◌, ◌^◌, ◌<◌, ◌+◌, ◌≡◌, sym, ap, List, [], ◌∷◌, ◌++◌, ◌∙◌, arith, dec_lt,
}
use edge_ipc_daemon.Prelude.Bits.{
  halve, halve-bit_xor, bit_xor_step, bit_and_top, bit_xor-lt_word, xor_cancel, xor_cancel_left,
}
use edge_ipc_daemon.Protocol.Bytes.{AllBytes}
use edge_ipc_daemon.Protocol.Crc.{crc_bit, crc_bits, crc_byte, crc_from, crc16}

abbrev IsWord : ℕ → Type 0
IsWord crc = crc < 2 ^ 16

-- A register whose top bit is clear is shifted; any other becomes odd.
low-crc_bit : (crc : ℕ) → crc < 2 ^ 15 → crc_bit crc ≡ crc * 2
unfolding crc_bit
low-crc_bit crc h = ground (arith, bit_and_top crc)

-- With the top bit set, the round keeps the lower bits under the polynomial.
high_xor : (crc : ℕ) → 2 ^ 15 < crc + 1 → IsWord crc → 2 ^ 15 < bit_xor crc 0x810 + 1
high_xor crc h w = omega (arith, halve-bit_xor 15 crc 0x810 ∙ ap (λ t. bit_xor t 0) top)
  where
    top : halve 15 crc ≡ 1
    top = omega arith

high-crc_bit :
    (crc : ℕ) → 2 ^ 15 < crc + 1 → IsWord crc → crc_bit crc ≡ (bit_xor crc 0x810 * 2 + 1) % 2 ^ 16
unfolding crc_bit
high-crc_bit crc h w = ground (arith, bit_and_top crc, bit_xor_step (crc * 2) 0x1021)

crc_bit-lt : (crc : ℕ) → IsWord crc → IsWord (crc_bit crc)
unfolding crc_bit
crc_bit-lt crc w = ground arith

-- A round is injective: its parity tells the branch, and each branch loses nothing.
crc_bit_inj : (c d : ℕ) → IsWord c → IsWord d → crc_bit c ≡ crc_bit d → c ≡ d
crc_bit_inj c d v w e = elim (dec_lt c (2 ^ 15)) [
  | yes p ↦ elim (dec_lt d (2 ^ 15)) [
    | yes q ↦ omega (arith, low-crc_bit c p, low-crc_bit d q)
    | no q ↦ absurd (omega (arith, low-crc_bit c p, high-crc_bit d (omega arith) w))
  ]
  | no p ↦ elim (dec_lt d (2 ^ 15)) [
    | yes q ↦ absurd (omega (arith, high-crc_bit c (omega arith) v, low-crc_bit d q))
    | no q ↦ xor_cancel c d 0x810 (
        omega (
          arith,
          high-crc_bit c (omega arith) v,
          high-crc_bit d (omega arith) w,
          high_xor c (omega arith) v,
          high_xor d (omega arith) w,
          bit_xor-lt_word c 0x810 v (omega arith),
          bit_xor-lt_word d 0x810 w (omega arith),
        ))
  ]
]

crc_bits-lt : (n crc : ℕ) → IsWord crc → IsWord (crc_bits n crc)
unfolding crc_bits
crc_bits-lt zero crc w = w
crc_bits-lt (suc n) crc w = crc_bits-lt n (crc_bit crc) (crc_bit-lt crc w)

crc_bits_inj : (n c d : ℕ) → IsWord c → IsWord d → crc_bits n c ≡ crc_bits n d → c ≡ d
unfolding crc_bits
crc_bits_inj zero c d v w e = e
crc_bits_inj (suc n) c d v w e =
    crc_bit_inj c d v w (crc_bits_inj n (crc_bit c) (crc_bit d) (crc_bit-lt c v) (crc_bit-lt d w) e)

crc_byte-lt : (crc b : ℕ) → IsWord (crc_byte crc b)
unfolding crc_byte
crc_byte-lt crc b = crc_bits-lt 8 (bit_xor crc (b * 2 ^ 8) % 2 ^ 16) (omega arith)

-- Of a word and a byte the cast in `crc ^= b << 8` cuts nothing off.
xor_byte :
    (crc b : ℕ) → IsWord crc → b < 256 → bit_xor crc (b * 2 ^ 8) % 2 ^ 16 ≡ bit_xor crc (b * 2 ^ 8)
xor_byte crc b w h = omega (arith, bit_xor-lt_word crc (b * 2 ^ 8) w (omega arith))

crc_byte_xor :
    (c d a b : ℕ)
    → IsWord c
    → IsWord d
    → a < 256
    → b < 256
    → crc_byte c a ≡ crc_byte d b
    → bit_xor c (a * 2 ^ 8) ≡ bit_xor d (b * 2 ^ 8)
unfolding crc_byte
crc_byte_xor c d a b v w ha hb e =
    sym (xor_byte c a v ha)
    ∙ crc_bits_inj 8 (bit_xor c (a * 2 ^ 8) % 2 ^ 16) (bit_xor d (b * 2 ^ 8) % 2 ^ 16) (omega arith)
        (omega arith) e
    ∙ xor_byte d b w hb

crc_from-lt : (crc : ℕ) (bs : List ℕ) → IsWord crc → IsWord (crc_from crc bs)
unfolding crc_from
crc_from-lt crc [] w = w
crc_from-lt crc (b ∷ bs) w = crc_from-lt (crc_byte crc b) bs (crc_byte-lt crc b)

-- The checksum fits the field of the header.
pub crc16-lt : (bs : List ℕ) → crc16 bs < 2 ^ 16
unfolding crc16
crc16-lt bs = crc_from-lt 0xFFFF bs (omega arith)

-- Registers that differ still differ after the same bytes.
crc_from_inj :
    (c d : ℕ) (bs : List ℕ)
    → IsWord c
    → IsWord d
    → AllBytes bs
    → crc_from c bs ≡ crc_from d bs
    → c ≡ d
unfolding crc_from
crc_from_inj c d [] v w h e = e
crc_from_inj c d (b ∷ bs) v w h e = xor_cancel c d (b * 2 ^ 8) (
    crc_byte_xor c d b b v w h.0 h.0
      (crc_from_inj (crc_byte c b) (crc_byte d b) bs (crc_byte-lt c b) (crc_byte-lt d b) h.1 e))

crc_from_one :
    (crc : ℕ) (xs : List ℕ) (a b : ℕ) (ys : List ℕ)
    → IsWord crc
    → a < 256
    → b < 256
    → AllBytes ys
    → crc_from crc (xs ++ (a ∷ ys)) ≡ crc_from crc (xs ++ (b ∷ ys))
    → a ≡ b
unfolding crc_from
crc_from_one crc [] a b ys w ha hb h e = omega (
  arith,
  xor_cancel_left crc (a * 2 ^ 8) (b * 2 ^ 8) (
      crc_byte_xor crc crc a b w w ha hb (
        crc_from_inj (crc_byte crc a) (crc_byte crc b) ys (crc_byte-lt crc a) (crc_byte-lt crc b) h
          e)),
)
crc_from_one crc (x ∷ xs) a b ys w ha hb h e =
    crc_from_one (crc_byte crc x) xs a b ys (crc_byte-lt crc x) ha hb h e

-- Two payloads that differ in one byte alone have different checksums.
pub crc16_one_byte :
    (xs : List ℕ) (a b : ℕ) (ys : List ℕ)
    → a < 256
    → b < 256
    → AllBytes ys
    → crc16 (xs ++ (a ∷ ys)) ≡ crc16 (xs ++ (b ∷ ys))
    → a ≡ b
unfolding crc16
crc16_one_byte xs a b ys ha hb h e = crc_from_one 0xFFFF xs a b ys (omega arith) ha hb h e
