-- ===== src/Protocol/Bytes.antt =====
-- Byte buffers and integers in network order, as async_telemetry_server/src/FrameProtocol.cpp uses
-- them: `std::vector<std::byte>`, `memcpy`, `htonl`, `htons`, `ntohl`, `ntohs`.
pub mod Laws
use edge_ipc_daemon.Prelude.{
  ℕ, ◌+◌, ◌<◌, ◌*◌, ◌/◌, ◌%◌, ◌^◌, List, [], ◌∷◌, ◌++◌, Option, none, some, leb, length, take, drop,
  get_or, if◌then◌else◌,
}

-- `memcpy(buf.data() + off, bytes, n)`. `none` is a write outside of the buffer.
unfoldable pub write : List ℕ → ℕ → List ℕ → Option (List ℕ)
write buf off bytes =
    if leb (off + length bytes) (length buf)
    then some (take off buf ++ (bytes ++ drop (off + length bytes) buf))
    else none

-- The bytes of `htonl(n)` and of `htons(n)` in memory.
unfoldable pub be32 : ℕ → List ℕ
be32 n = (n / 2 ^ 24 % 256) ∷ (n / 2 ^ 16 % 256) ∷ (n / 2 ^ 8 % 256) ∷ (n % 256) ∷ []

unfoldable pub be16 : ℕ → List ℕ
be16 n = (n / 2 ^ 8 % 256) ∷ (n % 256) ∷ []

-- `ntohl` of the four bytes at an offset, and `ntohs` of two. Callers check the length.
unfoldable pub read32 : List ℕ → ℕ → ℕ
read32 buf off =
    get_or buf off 0 * 2 ^ 24
    + get_or buf (off + 1) 0 * 2 ^ 16
    + get_or buf (off + 2) 0 * 2 ^ 8
    + get_or buf (off + 3) 0

unfoldable pub read16 : List ℕ → ℕ → ℕ
read16 buf off = get_or buf off 0 * 2 ^ 8 + get_or buf (off + 1) 0

-- What a `std::vector<std::byte>` holds.
abbrev pub AllBytes : List ℕ → Type 0
AllBytes [] = Unit {0}
AllBytes (b ∷ bs) = (b < 256) × AllBytes bs
