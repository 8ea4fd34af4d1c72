-- ===== src/Protocol/Frame/RoundTrip.antt =====
-- `Frame::deserialize` against the layout of `Encode`: it accepts the encodings, and nothing else.
use edge_ipc_daemon.Prelude.{
  ℕ, ◌+◌, ◌^◌, ◌<◌, ◌≡◌, refl, ◌-◌, List, ◌++◌, some, arith, ge→ltb, ==_refl, length, length-append,
}
use edge_ipc_daemon.Protocol.Bytes.{be32, be16, read32, read16}
use edge_ipc_daemon.Protocol.Bytes.Laws.{take-append_length}
use edge_ipc_daemon.Protocol.Crc.{crc16}
use edge_ipc_daemon.Protocol.Crc.Detect.{crc16-lt}
use edge_ipc_daemon.Protocol.Frame.{
  Frame, MsgType, auth, telemetry, ack, error, other, to_byte, of_byte, serialize, ok, deserialize,
  deserialize_body, has_prefix,
}
use edge_ipc_daemon.Protocol.Frame.Encode.{header, encode, serialize-encode}

-- A message type that a cast from a byte can give: `other` holds no named value.
abbrev pub IsMsgType : MsgType → Type 0
IsMsgType (other b) = of_byte b ≡ other b
IsMsgType _ = Unit {0}

pub of_byte-to_byte : (m : MsgType) → IsMsgType m → of_byte (to_byte m) ≡ m
unfolding of_byte to_byte
of_byte-to_byte auth h = refl
of_byte-to_byte telemetry h = refl
of_byte-to_byte ack h = refl
of_byte-to_byte error h = refl
of_byte-to_byte (other b) h = h

-- The payload that a header can announce and a buffer of `uint32_t` size can hold.
abbrev pub max_payload : ℕ
max_payload = 2 ^ 32 - 12

pub read32-header :
    (f : Frame) (rest : List ℕ)
    → length f.payload < 2 ^ 32
    → read32 (header f ++ rest) 6 ≡ length f.payload
unfolding read32 be32 be16
read32-header f rest h = omega arith

pub read16-header : (f : Frame) (rest : List ℕ) → read16 (header f ++ rest) 10 ≡ crc16 f.payload
unfolding read16 be32 be16
read16-header f rest = omega (arith, crc16-lt f.payload)

deserialize_body_encode :
    (f : Frame) (rest : List ℕ)
    → length f.payload < 2 ^ 32
    → IsMsgType f.msg_type
    → deserialize_body (header f ++ (f.payload ++ rest)) ≡ ok f
unfolding deserialize_body be32 be16
deserialize_body_encode f rest h m =
    rw
      (
        read32-header f (f.payload ++ rest) h,
        read16-header f (f.payload ++ rest),
        take-append_length (length f.payload) f.payload rest refl,
        ge→ltb (length (header f ++ (f.payload ++ rest))) (12 + length f.payload)
            (omega (arith, length-append f.payload rest)),
        ==_refl (crc16 f.payload),
        of_byte-to_byte f.msg_type m,
      )
      refl

pub deserialize-encode :
    (f : Frame) (rest : List ℕ)
    → length f.payload < 2 ^ 32
    → IsMsgType f.msg_type
    → deserialize (encode f ++ rest) ≡ ok f
unfolding deserialize be32 be16 has_prefix
deserialize-encode f rest h m =
    rw (ge→ltb (length (header f ++ (f.payload ++ rest))) 12 (omega arith))
      (deserialize_body_encode f rest h m)

-- A frame that the program can build or receive.
pub record IsFrame (f : Frame) : Type 0 where
  pub small : length f.payload < max_payload
  pub named : IsMsgType f.msg_type

-- A frame with a payload of less than 2^32 - 12 bytes is serialized, without a write past the end
-- of the buffer, into its header and payload, and `deserialize` gives the frame back from these
-- bytes, also if others follow.
pub deserialize-serialize :
    (f : Frame) (rest : List ℕ)
    → IsFrame f
    → (bytes : List ℕ) × (serialize f ≡ some bytes)
      × (length bytes ≡ 12 + length f.payload)
      × (deserialize (bytes ++ rest) ≡ ok f)
deserialize-serialize f rest v = (
  encode f,
  serialize-encode f (omega (arith, v.small)),
  length-encode,
  deserialize-encode f rest (omega (arith, v.small)) v.named,
)
  where
    length-encode : length (encode f) ≡ 12 + length f.payload
    length-encode = unfold be32 be16 in omega arith
