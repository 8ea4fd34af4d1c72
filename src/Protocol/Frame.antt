-- ===== src/Protocol/Frame.antt =====
-- async_telemetry_server/include/FrameProtocol.h and src/FrameProtocol.cpp: message types, frames,
-- `Frame::serialize` and `Frame::deserialize`.
pub mod Encode
pub mod RoundTrip
pub mod Accepts
pub mod Corrupt
use edge_ipc_daemon.Prelude.{
  ℕ, zero, suc, ◌+◌, ◌%◌, ◌^◌, Bool, true, false, not, ◌&&◌, List, [], ◌∷◌, Option, none, some, ltb,
  ◌==◌, length, take, drop, get_or, replicate, if◌then◌else◌,
}
use edge_ipc_daemon.Protocol.Bytes.{write, be32, be16, read32, read16}
use edge_ipc_daemon.Protocol.Crc.{crc16}

-- `enum class MsgType : uint8_t`. A cast from a byte may give a value with no name: `other`.
pub data MsgType : Type 0 where
  auth telemetry ack error : MsgType
  other : ℕ → MsgType

unfoldable pub to_byte : MsgType → ℕ
to_byte auth = 0x01
to_byte telemetry = 0x02
to_byte ack = 0x03
to_byte error = 0x04
to_byte (other b) = b

unfoldable pub of_byte : ℕ → MsgType
of_byte b =
    if b == 0x01
    then auth
    else if b == 0x02
    then telemetry
    else if b == 0x03
    then ack
    else if b == 0x04
    then error
    else other b

abbrev pub magic : List ℕ
magic = 0x4E ∷ 0x45 ∷ 0x58 ∷ 0x54 ∷ []

abbrev pub version : ℕ
version = 0x01

abbrev pub header_size : ℕ
header_size = 12

pub record Frame : Type 0 where
  pub msg_type : MsgType
  pub payload : List ℕ

infixl 5 ◌>>=◌
abbrev ◌>>=◌ : {A B : Type 0} → Option A → (A → Option B) → Option B
none >>= f = none
some a >>= f = f a

-- The payload is copied only if there is one.
unfoldable pub copy_payload : List ℕ → ℕ → List ℕ → Option (List ℕ)
copy_payload buf plen payload = if ltb 0 plen then write buf 12 (take plen payload) else some buf

-- `12 + plen` is a sum of `uint32_t`. `none` is a write past the end of the buffer.
unfoldable pub serialize : Frame → Option (List ℕ)
serialize f = do
  let plen = length f.payload % 2 ^ 32
  let chk = crc16 f.payload
  let buf = replicate ((12 + plen) % 2 ^ 32) 0
  b1 ← write buf 0 magic
  b2 ← write b1 4 (version ∷ [])
  b3 ← write b2 5 (to_byte f.msg_type ∷ [])
  b4 ← write b3 6 (be32 plen)
  b5 ← write b4 10 (be16 chk)
  copy_payload b5 plen f.payload

-- The messages of `std::invalid_argument`.
pub data Invalid : Type 0 where
  buffer_too_small bad_magic unsupported_version too_short_for_payload crc_mismatch : Invalid

pub data Parsed : Type 0 where
  ok : Frame → Parsed
  err : Invalid → Parsed

-- The loop over the four bytes of the magic number.
unfoldable pub has_prefix : List ℕ → List ℕ → Bool
has_prefix [] buf = true
has_prefix (m ∷ ms) [] = false
has_prefix (m ∷ ms) (b ∷ bs) = b == m && has_prefix ms bs

-- What `deserialize` does once magic and version are right.
unfoldable pub deserialize_body : List ℕ → Parsed
deserialize_body buf =
    let plen = read32 buf 6 in
    let expected_crc = read16 buf 10 in
    let payload = take plen (drop 12 buf) in
    if ltb (length buf) (12 + plen)
    then err too_short_for_payload
    else if crc16 payload == expected_crc
    then ok (record { msg_type = of_byte (get_or buf 5 0); payload = payload })
    else err crc_mismatch

unfoldable pub deserialize : List ℕ → Parsed
deserialize buf =
    if ltb (length buf) 12
    then err buffer_too_small
    else if not (has_prefix magic buf)
    then err bad_magic
    else if not (get_or buf 4 0 == version)
    then err unsupported_version
    else deserialize_body buf
