-- ===== src/Protocol/Frame/Accepts.antt =====
-- `Frame::deserialize` accepts no buffer but one that begins with the encoding of the frame it
-- returns.
use edge_ipc_daemon.Prelude.{
  ℕ, ◌+◌, ◌*◌, ◌/◌, ◌%◌, ◌^◌, ◌<◌, ◌≤◌, ◌≡◌, ap, ◌∙◌, List, [], ◌∷◌, ◌++◌, arith, length, take,
  drop, take-append-drop, length-take, true, get_or,
}
use edge_ipc_daemon.Protocol.Bytes.{be32, be16, read32, read16, AllBytes}
use edge_ipc_daemon.Protocol.Crc.{crc16}
use edge_ipc_daemon.Protocol.Frame.{
  Frame, to_byte, of_byte, magic, version, ok, deserialize, deserialize_body, has_prefix,
}
use edge_ipc_daemon.Protocol.Frame.Encode.{encode}
use edge_ipc_daemon.Protocol.Frame.RoundTrip.{IsMsgType}

to_byte-of_byte : (b : ℕ) → to_byte (of_byte b) ≡ b
unfolding of_byte to_byte
to_byte-of_byte b = ground arith

of_byte-IsMsgType : (b : ℕ) → IsMsgType (of_byte b)
unfolding of_byte
of_byte-IsMsgType b = ground arith

-- What the checks of `deserialize_body` establish.
record Body (buf : List ℕ) (f : Frame) : Type 0 where
  fits : 12 + read32 buf 6 ≤ length buf
  sum : crc16 f.payload ≡ read16 buf 10
  kind : f.msg_type ≡ of_byte (get_or buf 5 0)
  bytes : f.payload ≡ take (read32 buf 6) (drop 12 buf)

deserialize_body-Body : (buf : List ℕ) (f : Frame) → deserialize_body buf ≡ ok f → Body buf f
unfolding deserialize_body
deserialize_body-Body buf f e = ground arith

-- The checks before: twelve bytes, the magic number and the version.
deserialize-eq-ok :
    (buf : List ℕ) (f : Frame)
    → deserialize buf ≡ ok f
    → (12 ≤ length buf)
      × (has_prefix magic buf ≡ true)
      × (get_or buf 4 0 ≡ version)
      × (deserialize_body buf ≡ ok f)
unfolding deserialize
deserialize-eq-ok buf f e = ground arith

-- A buffer that is read as the frame `f` begins with the encoding of `f`.
abbrev pub Decodes : List ℕ → Frame → Type 0
Decodes buf f =
    (rest : List ℕ) × (buf ≡ encode f ++ rest) × IsMsgType f.msg_type × (length f.payload < 2 ^ 32)

be32-digits :
    (a b c d n : ℕ)
    → a < 256
    → b < 256
    → c < 256
    → d < 256
    → n ≡ a * 2 ^ 24 + b * 2 ^ 16 + c * 2 ^ 8 + d
    → be32 n ≡ a ∷ b ∷ c ∷ d ∷ []
unfolding be32
be32-digits a b c d n ha hb hc hd e =
    let e1 : n / 2 ^ 24 % 256 ≡ a = omega arith in
    let e2 : n / 2 ^ 16 % 256 ≡ b = omega arith in
    let e3 : n / 2 ^ 8 % 256 ≡ c = omega arith in
    let e4 : n % 256 ≡ d = omega arith in rw (e1, e2, e3, e4)

be16-digits : (a b n : ℕ) → a < 256 → b < 256 → n ≡ a * 2 ^ 8 + b → be16 n ≡ a ∷ b ∷ []
unfolding be16
be16-digits a b n ha hb e =
    let e1 : n / 2 ^ 8 % 256 ≡ a = omega arith in let e2 : n % 256 ≡ b = omega arith in rw (e1, e2)

magic-prefix :
    (b0 b1 b2 b3 : ℕ) (rest : List ℕ)
    → has_prefix magic (b0 ∷ b1 ∷ b2 ∷ b3 ∷ rest) ≡ true
    → (b0 ∷ b1 ∷ b2 ∷ b3 ∷ rest) ≡ magic ++ rest
unfolding has_prefix
magic-prefix b0 b1 b2 b3 rest h = ground arith

-- The first twelve bytes, once the checks have passed.
Decodes-cons :
    (b0 b1 b2 b3 b4 b5 b6 b7 b8 b9 b10 b11 : ℕ) (tl : List ℕ) (f : Frame)
    → let buf = b0 ∷ b1 ∷ b2 ∷ b3 ∷ b4 ∷ b5 ∷ b6 ∷ b7 ∷ b8 ∷ b9 ∷ b10 ∷ b11 ∷ tl in
      AllBytes buf → has_prefix magic buf ≡ true → b4 ≡ version → Body buf f → Decodes buf f
unfolding read32 read16
Decodes-cons b0 b1 b2 b3 b4 b5 b6 b7 b8 b9 b10 b11 tl f h p v body = (
  drop plen tl,
  rw
      (
        be32-digits b6 b7 b8 b9 (length f.payload) (omega (arith, h)) (omega (arith, h))
            (omega (arith, h)) (omega (arith, h)) len,
        be16-digits b10 b11 (crc16 f.payload) (omega (arith, h)) (omega (arith, h)) body.sum,
        body.kind,
        to_byte-of_byte b5,
        body.bytes,
        take-append-drop plen tl,
      )
      (magic-prefix b0 b1 b2 b3 _ p
        ∙ ap (λ t. magic ++ (t ∷ b5 ∷ b6 ∷ b7 ∷ b8 ∷ b9 ∷ b10 ∷ b11 ∷ tl)) v),
  rw body.kind (of_byte-IsMsgType b5),
  omega (arith, len, h),
)
  where
    plen : ℕ
    plen = b6 * 2 ^ 24 + b7 * 2 ^ 16 + b8 * 2 ^ 8 + b9

    len : length f.payload ≡ plen
    len = omega (arith, ap length body.bytes, length-take plen tl, body.fits)

-- The converse of the round trip: a buffer of bytes that `deserialize` reads as `f` begins with the
-- header and the payload of `f`, whose length the header can announce.
pub deserialize-Decodes :
    (buf : List ℕ) (f : Frame) → AllBytes buf → deserialize buf ≡ ok f → Decodes buf f
deserialize-Decodes (b0 ∷ b1 ∷ b2 ∷ b3 ∷ b4 ∷ b5 ∷ b6 ∷ b7 ∷ b8 ∷ b9 ∷ b10 ∷ b11 ∷ tl) f h e =
    let buf = b0 ∷ b1 ∷ b2 ∷ b3 ∷ b4 ∷ b5 ∷ b6 ∷ b7 ∷ b8 ∷ b9 ∷ b10 ∷ b11 ∷ tl in
    let checks = deserialize-eq-ok buf f e in
    Decodes-cons b0 b1 b2 b3 b4 b5 b6 b7 b8 b9 b10 b11 tl f h checks.1 checks.2
      (deserialize_body-Body buf f checks.3)
deserialize-Decodes buf f h e = absurd (omega (arith, (deserialize-eq-ok _ f e).0))
