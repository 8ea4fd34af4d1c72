-- ===== src/Protocol/Frame/Encode.antt =====
-- `Frame::serialize` fills its buffer with the layout of docs/PROTOCOL-SPEC.md of
-- async_telemetry_server, written here as a concatenation.
use edge_ipc_daemon.Prelude.{
  ℕ, ◌+◌, ◌%◌, ◌^◌, ◌<◌, ◌≡◌, refl, ap, ◌∙◌, List, [], ◌∷◌, ◌++◌, some, arith, lt→ltb, length,
  replicate,
}
use mathlib.Core.List.{append-nil}
use edge_ipc_daemon.Protocol.Bytes.{write, be32, be16}
use edge_ipc_daemon.Protocol.Bytes.Laws.{write_next, take_all}
use edge_ipc_daemon.Protocol.Crc.{crc16}
use edge_ipc_daemon.Protocol.Frame.{Frame, to_byte, magic, version, serialize, copy_payload}

-- The twelve bytes before the payload.
abbrev pub header : Frame → List ℕ
header f =
    magic ++ (version ∷ to_byte f.msg_type ∷ (be32 (length f.payload) ++ be16 (crc16 f.payload)))

abbrev pub encode : Frame → List ℕ
encode f = header f ++ f.payload

next :
    (done bytes : List ℕ) (off k n m : ℕ)
    → length done ≡ off
    → length bytes ≡ k
    → n ≡ k + m
    → write (done ++ replicate n 0) off bytes ≡ some ((done ++ bytes) ++ replicate m 0)
next done bytes off k n m h l e =
    ap (λ t. write (done ++ replicate t 0) off bytes) e ∙ write_next done bytes off k m h l

copy_payload_lem :
    (done payload : List ℕ)
    → length done ≡ 12
    → copy_payload (done ++ replicate (length payload) 0) (length payload) payload
      ≡ some (done ++ payload)
unfolding copy_payload
copy_payload_lem done [] h = refl
copy_payload_lem done (b ∷ bs) h =
    let payload = b ∷ bs in
    rw (lt→ltb 0 (length payload) (omega arith), take_all (length payload) payload refl)
      (next done payload 12 (length payload) (length payload) 0 h refl (omega arith)
        ∙ ap some (append-nil (done ++ payload)))

pub serialize-encode : (f : Frame) → 12 + length f.payload < 2 ^ 32 → serialize f ≡ some (encode f)
unfolding serialize be32 be16
serialize-encode f h =
    let n = length f.payload in
    let small : n % 2 ^ 32 ≡ n = omega arith in
    let size : (12 + n) % 2 ^ 32 ≡ 12 + n = omega arith in
    let d1 = magic in
    let d2 = d1 ++ (version ∷ []) in
    let d3 = d2 ++ (to_byte f.msg_type ∷ []) in
    let d4 = d3 ++ be32 n in
    let d5 = d4 ++ be16 (crc16 f.payload) in
    rw
      (
        small,
        size,
        next [] magic 0 4 (12 + n) (8 + n) refl refl (omega arith),
        next d1 (version ∷ []) 4 1 (8 + n) (7 + n) refl refl (omega arith),
        next d2 (to_byte f.msg_type ∷ []) 5 1 (7 + n) (6 + n) refl refl (omega arith),
        next d3 (be32 n) 6 4 (6 + n) (2 + n) refl refl (omega arith),
        next d4 (be16 (crc16 f.payload)) 10 2 (2 + n) n refl refl (omega arith),
      )
      (copy_payload_lem d5 f.payload refl)
