-- ===== src/Server/Wire/Reads.antt =====
-- `read_frame` of async_telemetry_server/src/TcpServer.cpp in one step, and when it writes past the
-- end of its buffer.
use edge_ipc_daemon.Prelude.{
  ℕ, suc, ◌+◌, ◌%◌, ◌^◌, ◌<◌, ◌≤◌, ◌≡◌, ◌↔◌, refl, ap, ◌∙◌, List, [], ◌++◌, some, none, arith, ltb,
  zero, le→leb, gt→leb, leb, lt→ltb, ge→ltb, length, length-take, length-drop, length-replicate,
  take, drop, replicate, dec_lt, if◌then◌else◌,
}
use mathlib.Core.List.{append-nil}
use edge_ipc_daemon.Protocol.Bytes.{write, read32, AllBytes}
use edge_ipc_daemon.Protocol.Bytes.Laws.{
  write_next, write_beyond, read32-lt, read32-take, take-add, drop-add,
}
use edge_ipc_daemon.Protocol.Frame.{Frame}
use edge_ipc_daemon.Server.World.{
  M, Session, ok, throw, undefined_behaviour, end_of_file, ◌>>=◌, return,
}
use edge_ipc_daemon.Server.Wire.{async_read, copy_into, read_payload, parse, read_frame}

-- The payload length that a header announces.
abbrev pub announced : List ℕ → ℕ
announced buf = read32 buf 6

-- What `read_frame` does, by the bytes that the peer sends: nothing is left of an input that ends
-- too early; otherwise the frame takes its own bytes.
unfoldable pub reads : M Frame
reads s =
    let n = 12 + announced s.input in
    if ltb (length s.input) 12
    then (throw end_of_file, record s { input = [] })
    else if leb (2 ^ 32) n
    then (undefined_behaviour, record s { input = drop 12 s.input })
    else if ltb (length s.input) n
    then (throw end_of_file, record s { input = [] })
    else parse (take n s.input) (record s { input = drop n s.input })

-- The buffer once the header is copied, if `12 + plen` does not wrap.
header_copied :
    (hdr : List ℕ) (plen : ℕ)
    → length hdr ≡ 12
    → 12 + plen < 2 ^ 32
    → write (replicate ((12 + plen) % 2 ^ 32) 0) 0 hdr ≡ some (hdr ++ replicate plen 0)
header_copied hdr plen h l =
    let e : (12 + plen) % 2 ^ 32 ≡ 12 + plen = omega arith in
    rw e (write_next [] hdr 0 12 plen refl h)

-- The buffer is too small for the header, if the sum wraps.
header_overflows :
    (hdr : List ℕ) (plen : ℕ)
    → length hdr ≡ 12
    → 2 ^ 32 ≤ 12 + plen
    → plen < 2 ^ 32
    → write (replicate ((12 + plen) % 2 ^ 32) 0) 0 hdr ≡ none
header_overflows hdr plen h l b =
    write_beyond (replicate ((12 + plen) % 2 ^ 32) 0) hdr 0
      (omega (arith, length-replicate {0} {A = ℕ} ((12 + plen) % 2 ^ 32) 0))

payload_copied :
    (hdr payload : List ℕ) (plen : ℕ)
    → length hdr ≡ 12
    → length payload ≡ plen
    → write (hdr ++ replicate plen 0) 12 payload ≡ some (hdr ++ payload)
payload_copied hdr payload plen h l =
    let e : plen ≡ plen + 0 = omega arith in
    ap (λ k. write (hdr ++ replicate k 0) 12 payload) e
    ∙ write_next hdr payload 12 plen 0 h l
    ∙ ap some (append-nil (hdr ++ payload))

async_read-ok :
    (n : ℕ) (s : Session)
    → n ≤ length s.input
    → async_read n s ≡ (ok (take n s.input), record s { input = drop n s.input })
unfolding async_read
async_read-ok n s h = rw (ge→ltb (length s.input) n h) refl

async_read-eof :
    (n : ℕ) (s : Session)
    → length s.input < n
    → async_read n s ≡ (throw end_of_file, record s { input = [] })
unfolding async_read
async_read-eof n s h = rw (lt→ltb (length s.input) n h) refl

copy_into-ok :
    (buf : List ℕ) (off : ℕ) (bytes b : List ℕ) (s : Session)
    → write buf off bytes ≡ some b
    → copy_into buf off bytes s ≡ (ok b, s)
unfolding copy_into
copy_into-ok buf off bytes b s e = rw (e, copy_into) refl

copy_into-overflow :
    (buf : List ℕ) (off : ℕ) (bytes : List ℕ) (s : Session)
    → write buf off bytes ≡ none
    → copy_into buf off bytes s ≡ (undefined_behaviour, s)
unfolding copy_into
copy_into-overflow buf off bytes s e = rw (e, copy_into) refl

-- The payload, once the header stands in a buffer of the right size.
payload_then_parse :
    (hdr : List ℕ) (plen : ℕ) (s : Session)
    → length hdr ≡ 12
    → plen ≤ length s.input
    → ((if ltb 0 plen
            then read_payload (hdr ++ replicate plen 0) plen
            else return (hdr ++ replicate plen 0))
          >>= parse)
        s
      ≡ parse (hdr ++ take plen s.input) (record s { input = drop plen s.input })
payload_then_parse hdr zero s h l = rw (append-nil hdr) refl
payload_then_parse hdr (suc k) s h l =
    unfold read_payload in
    rw
      (
        lt→ltb 0 (suc k) (omega arith),
        async_read-ok (suc k) s l,
        copy_into-ok (hdr ++ replicate (suc k) 0) 12 (take (suc k) s.input)
            (hdr ++ take (suc k) s.input) (record s { input = drop (suc k) s.input })
            (payload_copied hdr (take (suc k) s.input) (suc k) h
              (omega (arith, length-take (suc k) s.input))),
      )
      refl

payload_cut :
    (hdr : List ℕ) (plen : ℕ) (s : Session)
    → length s.input < plen
    → ((if ltb 0 plen
            then read_payload (hdr ++ replicate plen 0) plen
            else return (hdr ++ replicate plen 0))
          >>= parse)
        s
      ≡ (throw end_of_file, record s { input = [] })
payload_cut hdr plen s l =
    unfold read_payload in rw (lt→ltb 0 plen (omega arith), async_read-eof plen s l) refl

-- The three ways of a header that is whole.
pub read_small :
    (s : Session) → 12 ≤ length s.input → 12 + announced s.input < 2 ^ 32 → read_frame s ≡ reads s
unfolding read_frame reads
read_small s whole small =
    let plen = announced s.input in
    let hdr = take 12 s.input in
    let s' = record s { input = drop 12 s.input } in
    let len : length hdr ≡ 12 = omega (arith, length-take 12 s.input) in
    rw
      (
        ge→ltb (length s.input) 12 whole,
        async_read-ok 12 s whole,
        read32-take 12 6 s.input (omega arith),
        gt→leb (2 ^ 32) (12 + plen) small,
        copy_into-ok _ 0 _ _ s' (header_copied hdr plen len small),
      )
      (elim (dec_lt (length s.input) (12 + plen)) [
        | yes cut ↦
            rw (lt→ltb (length s.input) (12 + plen) cut)
              (payload_cut hdr plen s' (omega (arith, length-drop 12 s.input)))
        | no fits ↦
            rw
              (
                ge→ltb (length s.input) (12 + plen) (omega arith),
                take-add 12 plen s.input,
                ← drop-add 12 plen s.input,
              )
              (payload_then_parse hdr plen s' len (omega (arith, length-drop 12 s.input)))
      ])

read_big :
    (s : Session)
    → AllBytes s.input
    → 12 ≤ length s.input
    → 2 ^ 32 ≤ 12 + announced s.input
    → read_frame s ≡ reads s
unfolding read_frame reads
read_big s h whole big =
    let hdr = take 12 s.input in
    rw
      (
        ge→ltb (length s.input) 12 whole,
        async_read-ok 12 s whole,
        read32-take 12 6 s.input (omega arith),
        le→leb (2 ^ 32) (12 + announced s.input) big,
        copy_into-overflow _ 0 _ (record s { input = drop 12 s.input })
            (header_overflows hdr (announced s.input) (omega (arith, length-take 12 s.input)) big
              (read32-lt s.input 6 h)),
      )
      refl

pub read_none : (s : Session) → length s.input < 12 → read_frame s ≡ reads s
unfolding read_frame reads
read_none s p = rw (lt→ltb _ _ p, async_read-eof 12 s p) refl

-- On an input of bytes, `read_frame` fails for the end of the input if the header or the announced
-- payload is not whole, has undefined behaviour if the announced length and 12 do not fit 32 bits,
-- and otherwise takes the frame's bytes and parses them.
pub read_frame_lem : (s : Session) → AllBytes s.input → read_frame s ≡ reads s
read_frame_lem s h = elim (dec_lt (length s.input) 12) [
  | yes p ↦ read_none s p
  | no p ↦ elim (dec_lt (12 + announced s.input) (2 ^ 32)) [
    | yes small ↦ read_small s (omega arith) small
    | no big ↦ read_big s h (omega arith) (omega arith)
  ]
]

-- `read_frame` writes past the end of its buffer exactly when the peer has sent a whole header that
-- announces 2^32 - 12 bytes or more.
pub read_frame_overflow_iff :
    (s : Session)
    → AllBytes s.input
    → ((read_frame s).0 ≡ undefined_behaviour)
      ↔ ((12 ≤ length s.input) × (2 ^ 32 ≤ 12 + announced s.input))
unfolding reads parse
read_frame_overflow_iff s h = rw (read_frame_lem s h) (ground arith)
