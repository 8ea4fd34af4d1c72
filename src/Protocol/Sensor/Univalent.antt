-- ===== src/Protocol/Sensor/Univalent.antt =====
-- async_telemetry_server/include/SensorFrame.h: the frames and the payloads of 20 bytes as types.
use std.Equiv.{Iso, iso_to_equiv}
use std.Univalence.{iso_to_path, ua-β, ua-β⁻¹}
use std.Path.{transport, transport⁻¹}
use native.Mathlib.Nat.{ℕ_set}
use native.Mathlib.Bridge.{le_prop}
use mathlib.Core.HLevel.{Σ_prop_path, ×_prop}
use edge_ipc_daemon.Prelude.{
  ℕ, zero, suc, ◌+◌, ◌*◌, ◌/◌, ◌%◌, ◌<◌, ◌≤◌, ◌≡◌, refl, ap, sym, ◌∙◌, List, [], ◌∷◌, ◌++◌, some,
  arith, length, drop, take, length-drop, take-append-drop,
}
use mathlib.Core.List.{append-nil}
use edge_ipc_daemon.Protocol.Bytes.{AllBytes}
use edge_ipc_daemon.Protocol.Bytes.Laws.{AllBytes-append, take_all, drop-add}
use edge_ipc_daemon.Protocol.Sensor.{
  SensorFrame, IsSensorFrame, le_bytes, of_le_bytes, serialize, parse, layout, serialize-layout,
  length-layout, parse-layout,
}

-- What a SensorFrame can hold, and what a payload of its size can hold.
abbrev pub Reading : Type 0
Reading = (r : SensorFrame) × IsSensorFrame r

abbrev pub IsPayload : List ℕ → Type 0
IsPayload bytes = (length bytes ≡ 20) × AllBytes bytes

abbrev pub Payload : Type 0
Payload = (bytes : List ℕ) × IsPayload bytes

AllBytes-prop : (bytes : List ℕ) → IsProp (AllBytes bytes)
AllBytes-prop [] = hlevel
AllBytes-prop (b ∷ bs) = ×_prop le_prop (AllBytes-prop bs)

IsPayload-prop : (bytes : List ℕ) → IsProp (IsPayload bytes)
IsPayload-prop bytes = ×_prop (ℕ_set (length bytes) 20) (AllBytes-prop bytes)

IsSensorFrame-prop : (r : SensorFrame) → IsProp (IsSensorFrame r)
IsSensorFrame-prop r a b = λ i. record {
  id_fits = le_prop a.id_fits b.id_fits i;
  time_fits = le_prop a.time_fits b.time_fits i;
  value_fits = le_prop a.value_fits b.value_fits i;
}

le_bytes-AllBytes : (n v : ℕ) → AllBytes (le_bytes n v)
unfolding le_bytes
le_bytes-AllBytes zero v = tt
le_bytes-AllBytes (suc n) v = (omega arith, le_bytes-AllBytes n (v / 256))

-- 256 to a power.
abbrev bound : ℕ → ℕ
bound zero = 1
bound (suc n) = 256 * bound n

bound_pos : (n : ℕ) → 0 < bound n
bound_pos zero = omega arith
bound_pos (suc n) = omega (arith, bound_pos n)

of_le_bytes-lt : (n : ℕ) (bs : List ℕ) → AllBytes bs → of_le_bytes n bs < bound n
unfolding of_le_bytes
of_le_bytes-lt zero bs h = omega arith
of_le_bytes-lt (suc n) [] h = omega (arith, bound_pos n)
of_le_bytes-lt (suc n) (b ∷ bs) (lo, h) = omega (arith, lo, of_le_bytes-lt n bs h)

le_bytes-of_le_bytes :
    (n : ℕ) (bs : List ℕ) → AllBytes bs → n ≤ length bs → le_bytes n (of_le_bytes n bs) ≡ take n bs
unfolding le_bytes of_le_bytes
le_bytes-of_le_bytes zero bs h l = refl
le_bytes-of_le_bytes (suc n) [] h l = absurd (omega arith)
le_bytes-of_le_bytes (suc n) (b ∷ bs) (lo, h) l =
    let rest = of_le_bytes n bs in
    let digit : (b + 256 * rest) % 256 ≡ b = omega arith in
    let others : (b + 256 * rest) / 256 ≡ rest = omega arith in
    rw (digit, others) (ap (λ xs. b ∷ xs) (le_bytes-of_le_bytes n bs h (omega arith)))

AllBytes-drop : (n : ℕ) (bs : List ℕ) → AllBytes bs → AllBytes (drop n bs)
AllBytes-drop zero bs h = h
AllBytes-drop (suc n) [] h = h
AllBytes-drop (suc n) (b ∷ bs) h = AllBytes-drop n bs h.1

parse-IsSensorFrame : (bs : List ℕ) → AllBytes bs → IsSensorFrame (parse bs)
unfolding parse
parse-IsSensorFrame bs h = record {
  id_fits = of_le_bytes-lt 4 bs h;
  time_fits = of_le_bytes-lt 8 (drop 4 bs) (AllBytes-drop 4 bs h);
  value_fits = of_le_bytes-lt 8 (drop 12 bs) (AllBytes-drop 12 bs h);
}

layout-AllBytes : (r : SensorFrame) → AllBytes (layout r)
layout-AllBytes r =
    AllBytes-append (le_bytes 4 r.sensor_id) (le_bytes 8 r.timestamp_us ++ le_bytes 8 r.value)
      (le_bytes-AllBytes 4 r.sensor_id)
      (AllBytes-append (le_bytes 8 r.timestamp_us) (le_bytes 8 r.value)
        (le_bytes-AllBytes 8 r.timestamp_us) (le_bytes-AllBytes 8 r.value))

-- The bytes that were parsed are the ones that are laid out.
layout-parse : (bs : List ℕ) → IsPayload bs → layout (parse bs) ≡ bs
unfolding parse
layout-parse bs (n, h) =
    let first = le_bytes-of_le_bytes 4 bs h (omega (arith, n)) in
    let second =
      le_bytes-of_le_bytes 8 (drop 4 bs) (AllBytes-drop 4 bs h)
        (omega (arith, n, length-drop 4 bs)) in
    let third =
      le_bytes-of_le_bytes 8 (drop 12 bs) (AllBytes-drop 12 bs h)
        (omega (arith, n, length-drop 12 bs)) in
    let whole : length (drop 12 bs) ≡ 8 = omega (arith, n, length-drop 12 bs) in
    rw (first, second, third, take_all 8 (drop 12 bs) whole)
      (ap (λ xs. take 4 bs ++ (take 8 (drop 4 bs) ++ xs)) (sym (drop-add 4 8 bs))
        ∙ ap (λ xs. take 4 bs ++ xs) (take-append-drop 8 (drop 4 bs))
        ∙ take-append-drop 4 bs)

abbrev Reading-Payload : Iso Reading Payload
Reading-Payload = record {
  fun = λ x. (layout x.0, (length-layout x.0, layout-AllBytes x.0));
  inv = λ y. (parse y.0, parse-IsSensorFrame y.0 y.1.1);
  rinv = λ y. Σ_prop_path IsPayload-prop (layout-parse y.0 y.1);
  linv = λ x.
      Σ_prop_path IsSensorFrame-prop
        (ap parse (sym (append-nil (layout x.0))) ∙ parse-layout x.0 [] x.1);
}

-- The readings that a frame can hold and the payloads of 20 bytes are one type, along which
-- `serialize` is the transport one way and the server's three copies are the transport back.
pub serialize-parse :
    (p : Reading ≡ Payload) × ((x : Reading) → serialize x.0 ≡ some (transport p x).0)
    × ((y : Payload) → parse y.0 ≡ (transport⁻¹ p y).0)
serialize-parse = (
  iso_to_path Reading-Payload,
  λ x. serialize-layout x.0 ∙ ap (λ z. some z.0) (sym (ua-β (iso_to_equiv Reading-Payload) x)),
  λ y. ap (λ z. z.0) (sym (ua-β⁻¹ (iso_to_equiv Reading-Payload) y)),
)
