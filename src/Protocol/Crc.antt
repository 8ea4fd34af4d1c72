-- ===== src/Protocol/Crc.antt =====
-- async_telemetry_server/src/FrameProtocol.cpp: `crc16`. A byte is a number below 256.
pub mod Detect
use edge_ipc_daemon.Prelude.{
  ℕ, zero, suc, ◌*◌, ◌%◌, ◌^◌, ◌≡◌, refl, List, [], ◌∷◌, ◌==◌, if◌then◌else◌,
}
use Prim.Native.Nat.{bit_and, bit_xor}

-- `crc << 1` is done on a `uint32_t`; the casts cut the result to 16 bits.
unfoldable pub crc_bit : ℕ → ℕ
crc_bit crc =
    if bit_and crc 0x8000 == 0
    then crc * 2 % 2 ^ 32 % 2 ^ 16
    else bit_xor (crc * 2 % 2 ^ 32) 0x1021 % 2 ^ 16

-- The inner loop, `n` rounds.
unfoldable pub crc_bits : ℕ → ℕ → ℕ
crc_bits zero crc = crc
crc_bits (suc n) crc = crc_bits n (crc_bit crc)

-- One byte: `crc ^= b << 8`, then eight rounds.
unfoldable pub crc_byte : ℕ → ℕ → ℕ
crc_byte crc b = crc_bits 8 (bit_xor crc (b * 2 ^ 8) % 2 ^ 16)

-- The outer loop, from the register `crc`.
unfoldable pub crc_from : ℕ → List ℕ → ℕ
crc_from crc [] = crc
crc_from crc (b ∷ bs) = crc_from (crc_byte crc b) bs

unfoldable pub crc16 : List ℕ → ℕ
crc16 bytes = crc_from 0xFFFF bytes

-- The test vector of docs/PROTOCOL-SPEC.md.
crc16_vector : crc16 (b'1' ∷ b'2' ∷ b'3' ∷ b'4' ∷ b'5' ∷ b'6' ∷ b'7' ∷ b'8' ∷ b'9' ∷ []) ≡ 0x29B1
unfolding crc16 crc_from crc_byte crc_bits crc_bit
crc16_vector = refl
