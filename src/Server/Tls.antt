-- ===== src/Server/Tls.antt =====
-- async_telemetry_server/src/TlsServer.cpp: the session after a TLS handshake, with its own copies of
-- the code of TcpServer.cpp.
use Prim.Native.String.{String}
use edge_ipc_daemon.Prelude.{
  ℕ, zero, suc, ◌+◌, ◌%◌, ◌^◌, ◌≡◌, refl, ap, leb, ltb, length, replicate, Option, none, some,
  if◌then◌else◌, sym, ◌∙◌, List,
}
use mathlib.Core.Path.{subst}
use edge_ipc_daemon.Protocol.Bytes.{read32}
use edge_ipc_daemon.Protocol.Frame.{Frame, serialize, auth, telemetry, ack, error}
use edge_ipc_daemon.Protocol.Sensor
use edge_ipc_daemon.Server.Jwt.{ValidationResult}
use edge_ipc_daemon.Server.World.{
  M, Fault, Env, Session, Outcome, ok, throw, undefined_behaviour, out_of_fuel, end_of_file,
  connection_reset, system_error, database, invalid, reported, sent, emit, attempt, return, ◌>>=◌,
  ◌>>◌, with_endpoint,
}
use edge_ipc_daemon.Server.Wire.{
  async_read, copy_into, read_payload, parse, read_frame, write_frame,
}
use edge_ipc_daemon.Server.Session.{
  bare, same_type, or_unknown, insert_auth_log, insert_telemetry, store_sample, telemetry_round,
  telemetry_loop, after_validate, after_first, session_body, catch_all, handle_session,
}
use edge_ipc_daemon.Server.Session.Keeps.{with_endpoint-keeps}
use edge_ipc_daemon.Server.Session.Authority.{begins, IsProper, handle_session-IsProper}

unfoldable pub read_payload_tls : List ℕ → ℕ → M (List ℕ)
read_payload_tls full plen = do bytes ← async_read plen; copy_into full 12 bytes

-- `12 + plen` is a sum of `uint32_t`.
unfoldable pub read_frame_tls : M Frame
read_frame_tls = do
  hdr_buf ← async_read 12
  let plen = read32 hdr_buf 6
  let fresh = replicate ((12 + plen) % 2 ^ 32) 0
  full ← copy_into fresh 0 hdr_buf
  whole ← if ltb 0 plen then read_payload_tls full plen else return full
  parse whole

unfoldable pub write_frame_tls : Env → Frame → M (Unit {0})
write_frame_tls env f s = elim (serialize f) [
  | none ↦ (undefined_behaviour, s)
  | some bytes ↦ attempt env.write_fails env.write_fault (sent bytes) s
]

-- A payload of fewer than 20 bytes is acknowledged, and not stored.
unfoldable pub store_tls : Env → String → List ℕ → M (Unit {0})
store_tls env subject payload =
    if leb 20 (length payload)
    then insert_telemetry env (Sensor.parse payload) subject
    else return tt

-- One round of the TELEMETRY loop once a frame is there; `rest` is what the next rounds do.
unfoldable pub tls_round : Env → String → M (Unit {0}) → Frame → M (Unit {0})
tls_round env subject rest tel =
    if same_type tel.msg_type telemetry
    then (do store_tls env subject tel.payload; write_frame_tls env (bare ack); rest)
    else return tt

unfoldable pub tls_loop : Env → String → ℕ → M (Unit {0})
tls_loop env subject zero s = (out_of_fuel, s)
tls_loop env subject (suc fuel) s =
    (read_frame_tls >>= tls_round env subject (tls_loop env subject fuel)) s

-- After the token was validated.
unfoldable pub tls_validated : Env → ℕ → ValidationResult → M (Unit {0})
tls_validated env fuel result = do
  insert_auth_log env (or_unknown result.subject)
      (if result.is_ok then "AUTH_OK" else "AUTH_FAIL_SIG")
  if result.is_ok
      then (do write_frame_tls env (bare ack); tls_loop env result.subject fuel)
      else write_frame_tls env (bare error)

unfoldable pub tls_first : Env → ℕ → Frame → M (Unit {0})
tls_first env fuel f =
    if same_type f.msg_type auth
    then tls_validated env fuel (env.validator f.payload)
    else write_frame_tls env (bare error)

-- The body of the `try`: the handshake of the library succeeds, or throws; a peer cannot have sent a
-- frame before its end.
unfoldable pub tls_body : Env → Option Fault → M (Unit {0})
tls_body env none s = (read_frame_tls >>= tls_first env (length s.input)) s
tls_body env (some fault) s = (throw fault, s)

-- The `catch` clauses.
unfoldable pub catch_tls : Outcome (Unit {0}) × Session → Outcome (Unit {0}) × Session
catch_tls (throw end_of_file, s) = (ok tt, s)
catch_tls (throw connection_reset, s) = (ok tt, s)
catch_tls (throw system_error, s) = (ok tt, emit reported s)
catch_tls (throw database, s) = (ok tt, emit reported s)
catch_tls (throw (invalid e), s) = (ok tt, emit reported s)
catch_tls (ok a, s) = (ok a, s)
catch_tls (undefined_behaviour, s) = (undefined_behaviour, s)
catch_tls (out_of_fuel, s) = (out_of_fuel, s)

unfoldable pub handle_tls_session : Env → Option Fault → Session → Outcome (Unit {0}) × Session
handle_tls_session env handshake s =
    with_endpoint env.endpoint_fault (λ t. catch_tls (tls_body env handshake t)) s

read_frame_tls-read_frame : (s : Session) → read_frame_tls s ≡ read_frame s
unfolding read_frame_tls read_payload_tls read_frame read_payload
read_frame_tls-read_frame s = refl

tls_round-telemetry_round :
    (env : Env) (subject : String) (rest : M (Unit {0})) (f : Frame) (s : Session)
    → tls_round env subject rest f s ≡ telemetry_round env subject rest f s
unfolding tls_round telemetry_round store_tls store_sample write_frame_tls write_frame
tls_round-telemetry_round env subject rest f s = refl

tls_loop-telemetry_loop :
    (env : Env) (subject : String) (fuel : ℕ) (s : Session)
    → tls_loop env subject fuel s ≡ telemetry_loop env subject fuel s
unfolding tls_loop telemetry_loop tls_round telemetry_round store_tls store_sample read_frame_tls
    read_payload_tls read_frame read_payload write_frame_tls write_frame
tls_loop-telemetry_loop env subject zero s = refl
tls_loop-telemetry_loop env subject (suc fuel) s =
    ap (λ rest. (read_frame >>= telemetry_round env subject rest) s)
      (λ i t. tls_loop-telemetry_loop env subject fuel t i)

tls_validated-after_validate :
    (env : Env) (fuel : ℕ) (result : ValidationResult) (s : Session)
    → tls_validated env fuel result s ≡ after_validate env fuel result s
unfolding tls_validated after_validate write_frame_tls write_frame
tls_validated-after_validate env fuel result s =
    ap
      (λ loop.
        ((insert_auth_log env (or_unknown result.subject)
              (if result.is_ok then "AUTH_OK" else "AUTH_FAIL_SIG"))
            >> (if result.is_ok
                then (write_frame env (bare ack) >> loop)
                else write_frame env (bare error)))
          s)
      (λ i t. tls_loop-telemetry_loop env result.subject fuel t i)

tls_body-session_body : (env : Env) (s : Session) → tls_body env none s ≡ session_body env s
unfolding tls_body session_body tls_first after_first read_frame_tls read_payload_tls read_frame
    read_payload write_frame_tls write_frame
tls_body-session_body env s =
    ap
      (λ (validated : ValidationResult → M (Unit {0})).
        (read_frame >>= λ f.
        if same_type f.msg_type auth
        then validated (env.validator f.payload)
        else write_frame env (bare error))
          s)
      (λ i result t. tls_validated-after_validate env (length s.input) result t i)

catch_tls-catch_all : (r : Outcome (Unit {0}) × Session) → catch_tls r ≡ catch_all r
unfolding catch_tls catch_all
catch_tls-catch_all (throw end_of_file, s) = refl
catch_tls-catch_all (throw connection_reset, s) = refl
catch_tls-catch_all (throw system_error, s) = refl
catch_tls-catch_all (throw database, s) = refl
catch_tls-catch_all (throw (invalid e), s) = refl
catch_tls-catch_all (ok a, s) = refl
catch_tls-catch_all (undefined_behaviour, s) = refl
catch_tls-catch_all (out_of_fuel, s) = refl

handle_tls_session-handle_session :
    (env : Env) (s : Session) → handle_tls_session env none s ≡ handle_session env s
unfolding handle_tls_session handle_session
handle_tls_session-handle_session env s =
    ap (λ m. with_endpoint env.endpoint_fault m s)
      λ i t.
        (ap catch_tls (tls_body-session_body env t) ∙ catch_tls-catch_all (session_body env t)) i

catch_tls-silent :
    (env : Env) (input : List ℕ) (fault : Fault)
    → IsProper env input (catch_tls (throw fault, begins input)).1.events
unfolding catch_tls
catch_tls-silent env input end_of_file = tt
catch_tls-silent env input connection_reset = tt
catch_tls-silent env input system_error = tt
catch_tls-silent env input database = tt
catch_tls-silent env input (invalid e) = tt

-- Whatever the handshake does, whatever the peer sends before its connection ends, and whichever
-- writes and inserts fail: a TLS session stores a row for a subject only after the first frame of the
-- peer was an AUTH frame, the validator accepted the payload of this frame for this subject, and a
-- success was logged for it; and it sends nothing but ACK and ERROR frames without payload.
pub handle_tls_session-IsProper :
    (env : Env) (handshake : Option Fault) (input : List ℕ)
    → IsProper env input (handle_tls_session env handshake (begins input)).1.events
unfolding handle_tls_session tls_body
handle_tls_session-IsProper env none input =
    subst (λ r. IsProper env input r.1.events)
      (sym (handle_tls_session-handle_session env (begins input)))
      (handle_session-IsProper env input)
handle_tls_session-IsProper env (some fault) input =
    with_endpoint-keeps (λ r. IsProper env input r.1.events) env.endpoint_fault _ (begins input)
      (catch_tls-silent env input fault) λ thrown e. tt
