-- ===== src/Server/Wire.antt =====
-- `read_frame` and `write_frame` of async_telemetry_server/src/TcpServer.cpp.
pub mod Reads
use edge_ipc_daemon.Prelude.{
  ℕ, ◌+◌, ◌%◌, ◌^◌, List, [], ◌∷◌, Option, none, some, ltb, length, take, drop, replicate,
  if◌then◌else◌,
}
use edge_ipc_daemon.Protocol.Bytes.{write, read32}
use edge_ipc_daemon.Protocol.Frame.{Frame, Parsed, Invalid, serialize, deserialize}
use edge_ipc_daemon.Protocol.Frame
use edge_ipc_daemon.Server.World.{
  M, Session, Env, Outcome, Fault, ok, throw, undefined_behaviour, end_of_file, connection_reset,
  invalid, sent, ◌>>=◌, return, fail, attempt,
}

-- `asio::async_read` of `n` bytes: all of them, or the peer has closed.
unfoldable pub async_read : ℕ → M (List ℕ)
async_read n s =
    if ltb (length s.input) n
    then (throw end_of_file, record s { input = [] })
    else (ok (take n s.input), record s { input = drop n s.input })

-- A `memcpy` into a vector.
unfoldable pub copy_into : List ℕ → ℕ → List ℕ → M (List ℕ)
copy_into buf off bytes s = elim (write buf off bytes) [
  | none ↦ (undefined_behaviour, s)
  | some b ↦ (ok b, s)
]

unfoldable pub read_payload : List ℕ → ℕ → M (List ℕ)
read_payload full plen = do bytes ← async_read plen; copy_into full 12 bytes

unfoldable pub parse : List ℕ → M Frame
parse full s = elim (deserialize full) [
  | Parsed.ok f ↦ (ok f, s)
  | Parsed.err e ↦ (throw (invalid e), s)
]

-- `12 + plen` is a sum of `uint32_t`.
unfoldable pub read_frame : M Frame
unfolding read_payload
read_frame = do
  hdr_buf ← async_read 12
  let plen = read32 hdr_buf 6
  let fresh = replicate ((12 + plen) % 2 ^ 32) 0
  full ← copy_into fresh 0 hdr_buf
  whole ← if ltb 0 plen then read_payload full plen else return full
  parse whole

unfoldable pub write_frame : Env → Frame → M (Unit {0})
write_frame env f s = elim (serialize f) [
  | none ↦ (undefined_behaviour, s)
  | some bytes ↦ attempt env.write_fails env.write_fault (sent bytes) s
]
