-- ===== src/Protocol/Frame/Corrupt.antt =====
-- What `Frame::deserialize` refuses: encodings of one frame that were damaged on the way.
use edge_ipc_daemon.Prelude.{
  ℕ, suc, ◌+◌, ◌^◌, ◌<◌, ◌≤◌, ◌≡◌, ◌≢◌, sym, ap, List, ◌∷◌, ◌++◌, ◌-◌, dec_lt, lt→ltb, length-take,
  ltb, if◌then◌else◌, arith, length, length-append, take, ge→ltb,
}
use edge_ipc_daemon.Protocol.Bytes.{be32, be16, AllBytes}
use edge_ipc_daemon.Protocol.Bytes.Laws.{take_all}
use edge_ipc_daemon.Protocol.Crc.{crc16}
use edge_ipc_daemon.Protocol.Crc.Detect.{crc16_one_byte}
use edge_ipc_daemon.Protocol.Frame.{
  Frame, has_prefix, err, buffer_too_small, too_short_for_payload, crc_mismatch, deserialize,
  deserialize_body, MsgType,
}
use edge_ipc_daemon.Protocol.Frame.Encode.{header, encode}
use edge_ipc_daemon.Protocol.Frame.RoundTrip.{read32-header, read16-header}

-- The header of a frame, before a payload of the announced length and another checksum.
deserialize-header_other :
    (f : Frame) (other : List ℕ)
    → length f.payload < 2 ^ 32
    → length other ≡ length f.payload
    → crc16 other ≢ crc16 f.payload
    → deserialize (header f ++ other) ≡ err crc_mismatch
unfolding deserialize deserialize_body be32 be16 has_prefix
deserialize-header_other f other h l ne =
    rw
      (
        ge→ltb (length (header f ++ other)) 12 (omega arith),
        read32-header f other h,
        read16-header f other,
        take_all (length f.payload) other l,
        ge→ltb (length (header f ++ other)) (12 + length f.payload) (omega (arith, l)),
      )
      (ground arith)

-- A frame of which one payload byte was changed on the way is refused for its checksum.
pub deserialize_one_byte :
    (m : MsgType) (xs : List ℕ) (a b : ℕ) (ys : List ℕ)
    → length (xs ++ (a ∷ ys)) < 2 ^ 32
    → a < 256
    → b < 256
    → AllBytes ys
    → a ≢ b
    → deserialize (header (record { msg_type = m; payload = xs ++ (a ∷ ys) }) ++ (xs ++ (b ∷ ys)))
      ≡ err crc_mismatch
deserialize_one_byte m xs a b ys h ha hb hy ne =
    deserialize-header_other (record { msg_type = m; payload = xs ++ (a ∷ ys) }) (xs ++ (b ∷ ys)) h
      (omega (arith, length-append xs (a ∷ ys), length-append xs (b ∷ ys)))
      (λ e. ne (crc16_one_byte xs a b ys ha hb hy (sym e)))

cut_payload :
    (f : Frame) (part : List ℕ)
    → length f.payload < 2 ^ 32
    → length part < length f.payload
    → deserialize (header f ++ part) ≡ err too_short_for_payload
unfolding deserialize deserialize_body be32 be16 has_prefix
cut_payload f part h l =
    rw (ge→ltb (length (header f ++ part)) 12 (omega arith), read32-header f part h) (ground arith)

cut_header : (buf : List ℕ) → length buf < 12 → deserialize buf ≡ err buffer_too_small
unfolding deserialize
cut_header buf h = ground arith

take-header : (f : Frame) (n : ℕ) → 12 ≤ n → take n (encode f) ≡ header f ++ take (n - 12) f.payload
unfolding be32 be16
take-header f n h =
    let e : n ≡ suc (suc (suc (suc (suc (suc (suc (suc (suc (suc (suc (suc (n - 12)))))))))))) =
      omega arith in
    ap (λ t. take t (encode f)) e

-- A frame that was cut off is refused: as too small if the header is not whole, and as too short
-- for its payload otherwise.
pub deserialize_cut :
    (f : Frame) (n : ℕ)
    → length f.payload < 2 ^ 32
    → n < 12 + length f.payload
    → deserialize (take n (encode f))
      ≡ err (if ltb n 12 then buffer_too_small else too_short_for_payload)
deserialize_cut f n h l = elim (dec_lt n 12) [
  | yes p ↦
      rw (lt→ltb n 12 p)
        (cut_header (take n (encode f)) (omega (arith, length-take n (encode f), p)))
  | no p ↦
      rw (ge→ltb n 12 (omega arith), take-header f n (omega arith))
        (cut_payload f (take (n - 12) f.payload) h (omega (arith, length-take (n - 12) f.payload)))
]
