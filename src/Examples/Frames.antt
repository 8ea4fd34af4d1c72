-- ===== src/Examples/Frames.antt =====
-- The frame protocol of async_telemetry_server at concrete inputs.
use edge_ipc_daemon.Prelude.{ℕ, ◌≡◌, refl, List, [], ◌∷◌, ◌++◌, some, arith, length}
use edge_ipc_daemon.Protocol.Bytes.{write, be32, be16, read32, read16}
use edge_ipc_daemon.Protocol.Crc.{crc_from, crc16}
use edge_ipc_daemon.Protocol.Frame.{
  Frame, telemetry, ack, to_byte, of_byte, ok, err, crc_mismatch, has_prefix, serialize,
  deserialize, deserialize_body, copy_payload,
}
use edge_ipc_daemon.Protocol.Frame.Encode.{header}
use edge_ipc_daemon.Protocol.Frame.RoundTrip.{deserialize-serialize}
use edge_ipc_daemon.Protocol.Frame.Accepts.{Decodes, deserialize-Decodes}
use edge_ipc_daemon.Protocol.Frame.Corrupt.{deserialize_one_byte}
use edge_ipc_daemon.Protocol.Sensor.{SensorFrame, parse-serialize}
use edge_ipc_daemon.Protocol.Sensor

abbrev sample : Frame
sample = record { msg_type = telemetry; payload = 10 ∷ 20 ∷ 30 ∷ [] }

abbrev ack_frame : Frame
ack_frame = record { msg_type = ack; payload = [] }

-- The bytes of an ACK frame.
abbrev ack_bytes : List ℕ
ack_bytes = 0x4E ∷ 0x45 ∷ 0x58 ∷ 0x54 ∷ 0x01 ∷ 0x03 ∷ 0x00 ∷ 0x00 ∷ 0x00 ∷ 0x00 ∷ 0xFF ∷ 0xFF ∷ []

serialize-ack : serialize ack_frame ≡ some ack_bytes
unfolding serialize copy_payload write be32 be16 crc16 crc_from to_byte
serialize-ack = refl

deserialize-ack : deserialize ack_bytes ≡ ok ack_frame
unfolding deserialize deserialize_body has_prefix read32 read16 crc16 crc_from of_byte
deserialize-ack = refl

deserialize-serialize_example :
    (bytes : List ℕ) × (serialize sample ≡ some bytes)
    × (length bytes ≡ 15)
    × (deserialize (bytes ++ (99 ∷ [])) ≡ ok sample)
deserialize-serialize_example =
    deserialize-serialize sample (99 ∷ []) (record { small = omega arith; named = tt })

deserialize-Decodes_example : Decodes ack_bytes ack_frame
deserialize-Decodes_example = deserialize-Decodes ack_bytes ack_frame (omega arith) deserialize-ack

deserialize_one_byte_example : deserialize (header sample ++ (10 ∷ 21 ∷ 30 ∷ [])) ≡ err crc_mismatch
deserialize_one_byte_example =
    deserialize_one_byte telemetry (10 ∷ []) 20 21 (30 ∷ []) (omega arith) (omega arith)
      (omega arith) (omega arith) (omega arith)

abbrev reading : SensorFrame
reading = record { sensor_id = 1; timestamp_us = 1_700_000_000_000_000; value = 0x4049000000000000 }

parse-serialize_example :
    (bytes : List ℕ) × (Sensor.serialize reading ≡ some bytes)
    × (length bytes ≡ 20)
    × (Sensor.parse (bytes ++ []) ≡ reading)
parse-serialize_example =
    parse-serialize reading []
      (record { id_fits = omega arith; time_fits = omega arith; value_fits = omega arith })
