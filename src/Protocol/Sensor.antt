-- ===== src/Protocol/Sensor.antt =====
-- async_telemetry_server/include/SensorFrame.h: the payload of a TELEMETRY frame. Its fields are
-- copied in host order, here little-endian; `value` is the bit pattern of the double.
pub mod Univalent
use edge_ipc_daemon.Prelude.{
  ℕ, zero, suc, ◌+◌, ◌*◌, ◌/◌, ◌%◌, ◌^◌, ◌<◌, ◌≡◌, refl, ap, ◌∙◌, List, [], ◌∷◌, ◌++◌, Option, none,
  some, arith, length, drop, replicate,
}
use edge_ipc_daemon.Protocol.Bytes.{write}

pub record SensorFrame : Type 0 where
  pub sensor_id : ℕ
  pub timestamp_us : ℕ
  pub value : ℕ

-- The `n` bytes of an integer in memory, and the integer that `n` bytes stand for.
pub le_bytes : ℕ → ℕ → List ℕ
le_bytes zero v = []
le_bytes (suc n) v = (v % 256) ∷ le_bytes n (v / 256)

pub of_le_bytes : ℕ → List ℕ → ℕ
of_le_bytes zero bs = 0
of_le_bytes (suc n) [] = 0
of_le_bytes (suc n) (b ∷ bs) = b + 256 * of_le_bytes n bs

infixl 5 ◌>>=◌
abbrev ◌>>=◌ : {A B : Type 0} → Option A → (A → Option B) → Option B
none >>= f = none
some a >>= f = f a

-- `SensorFrame::serialize`.
pub serialize : SensorFrame → Option (List ℕ)
serialize r = do
  let buf = replicate 20 0
  b1 ← write buf 0 (le_bytes 4 r.sensor_id)
  b2 ← write b1 4 (le_bytes 8 r.timestamp_us)
  write b2 12 (le_bytes 8 r.value)

-- The three `memcpy` of the server's telemetry loop, at offsets 0, 4 and 12.
pub parse : List ℕ → SensorFrame
parse payload = record {
  sensor_id = of_le_bytes 4 payload;
  timestamp_us = of_le_bytes 8 (drop 4 payload);
  value = of_le_bytes 8 (drop 12 payload);
}

of_le_bytes_word : (v : ℕ) (rest : List ℕ) → v < 2 ^ 32 → of_le_bytes 4 (le_bytes 4 v ++ rest) ≡ v
unfolding le_bytes of_le_bytes
of_le_bytes_word v rest h = omega arith

of_le_bytes_long : (v : ℕ) (rest : List ℕ) → v < 2 ^ 64 → of_le_bytes 8 (le_bytes 8 v ++ rest) ≡ v
unfolding le_bytes of_le_bytes
of_le_bytes_long v rest h = omega arith

-- The values that the fields of a SensorFrame can hold.
pub record IsSensorFrame (r : SensorFrame) : Type 0 where
  pub id_fits : r.sensor_id < 2 ^ 32
  pub time_fits : r.timestamp_us < 2 ^ 64
  pub value_fits : r.value < 2 ^ 64

abbrev pub layout : SensorFrame → List ℕ
layout r = le_bytes 4 r.sensor_id ++ (le_bytes 8 r.timestamp_us ++ le_bytes 8 r.value)

pub serialize-layout : (r : SensorFrame) → serialize r ≡ some (layout r)
unfolding serialize write le_bytes
serialize-layout r = refl

pub length-layout : (r : SensorFrame) → length (layout r) ≡ 20
unfolding le_bytes
length-layout r = refl

pub parse-layout :
    (r : SensorFrame) (rest : List ℕ) → IsSensorFrame r → parse (layout r ++ rest) ≡ r
parse-layout r rest v =
    unfold parse in
    λ i. record {
      sensor_id = (ap (of_le_bytes 4) head ∙ of_le_bytes_word r.sensor_id _ v.id_fits) i;
      timestamp_us = (ap (of_le_bytes 8) tail ∙ of_le_bytes_long r.timestamp_us _ v.time_fits) i;
      value = (ap (of_le_bytes 8) last ∙ of_le_bytes_long r.value rest v.value_fits) i;
    }
  where
    tail : drop 4 (layout r ++ rest) ≡ le_bytes 8 r.timestamp_us ++ (le_bytes 8 r.value ++ rest)
    tail = unfold le_bytes in refl

    last : drop 12 (layout r ++ rest) ≡ le_bytes 8 r.value ++ rest
    last = unfold le_bytes in refl

    head : layout r ++ rest ≡ le_bytes 4 r.sensor_id ++ drop 4 (layout r ++ rest)
    head = unfold le_bytes in refl

-- What the client serializes takes 20 bytes, and the server's copies give its fields back, whatever
-- follows in the payload.
pub parse-serialize :
    (r : SensorFrame) (rest : List ℕ)
    → IsSensorFrame r
    → (bytes : List ℕ) × (serialize r ≡ some bytes)
      × (length bytes ≡ 20)
      × (parse (bytes ++ rest) ≡ r)
parse-serialize r rest v = (layout r, serialize-layout r, length-layout r, parse-layout r rest v)
