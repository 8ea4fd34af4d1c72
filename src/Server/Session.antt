-- ===== src/Server/Session.antt =====
-- `TcpServer::handle_session` of async_telemetry_server/src/TcpServer.cpp.
pub mod Keeps
pub mod Telemetry
pub mod Conversation
pub mod Authority
pub mod Ends
use Prim.Native.String.{String}
use edge_ipc_daemon.Prelude.{
  ℕ, zero, suc, Bool, true, false, List, [], ◌∷◌, leb, length, ◌==◌, if◌then◌else◌,
}
use edge_ipc_daemon.Protocol.Frame.{Frame, MsgType, auth, telemetry, ack, error, to_byte}
use edge_ipc_daemon.Protocol.Sensor.{SensorFrame}
use edge_ipc_daemon.Protocol.Sensor
use edge_ipc_daemon.Server.Jwt.{ValidationResult}
use edge_ipc_daemon.Server.World.{
  M, Session, Env, Outcome, Fault, Event, ok, throw, undefined_behaviour, out_of_fuel, end_of_file,
  connection_reset, system_error, database, invalid, auth_logged, stored, reported, ◌>>=◌, ◌>>◌,
  return, emit, attempt, with_endpoint,
}
use edge_ipc_daemon.Server.Wire.{read_frame, write_frame}

-- `==` of two message types.
unfoldable pub same_type : MsgType → MsgType → Bool
unfolding to_byte
same_type a b = to_byte a == to_byte b

-- `Frame err; err.msg_type = …`: a frame with no payload.
abbrev pub bare : MsgType → Frame
bare m = record { msg_type = m; payload = [] }

unfoldable pub insert_auth_log : Env → String → String → M (Unit {0})
insert_auth_log env subject event =
    attempt env.database_fails database (auth_logged subject event env.peer_ip)

unfoldable pub insert_telemetry : Env → SensorFrame → String → M (Unit {0})
insert_telemetry env r subject =
    attempt env.database_fails database (stored r.sensor_id r.timestamp_us r.value subject)

-- A payload of fewer than 20 bytes is acknowledged, and not stored.
unfoldable pub store_sample : Env → String → List ℕ → M (Unit {0})
store_sample env subject payload =
    if leb 20 (length payload)
    then insert_telemetry env (Sensor.parse payload) subject
    else return tt

-- One round of the TELEMETRY loop once a frame is there; `rest` is what the next rounds do.
unfoldable pub telemetry_round : Env → String → M (Unit {0}) → Frame → M (Unit {0})
telemetry_round env subject rest tel =
    if same_type tel.msg_type telemetry
    then (do store_sample env subject tel.payload; write_frame env (bare ack); rest)
    else return tt

unfoldable pub telemetry_loop : Env → String → ℕ → M (Unit {0})
telemetry_loop env subject zero s = (out_of_fuel, s)
telemetry_loop env subject (suc fuel) s =
    (read_frame >>= telemetry_round env subject (telemetry_loop env subject fuel)) s

unfoldable pub or_unknown : String → String
or_unknown String.[] = "unknown"
or_unknown (String.◌∷◌ c s) = String.◌∷◌ c s

-- After the token was validated.
unfoldable pub after_validate : Env → ℕ → ValidationResult → M (Unit {0})
after_validate env fuel result = do
  insert_auth_log env (or_unknown result.subject)
      (if result.is_ok then "AUTH_OK" else "AUTH_FAIL_SIG")
  if result.is_ok
      then (do write_frame env (bare ack); telemetry_loop env result.subject fuel)
      else write_frame env (bare error)

unfoldable pub after_first : Env → ℕ → Frame → M (Unit {0})
after_first env fuel f =
    if same_type f.msg_type auth
    then after_validate env fuel (env.validator f.payload)
    else write_frame env (bare error)

-- The body of the `try`. Every round of the loop takes a byte at least, so the length of the input
-- is fuel enough.
unfoldable pub session_body : Env → M (Unit {0})
session_body env s = (read_frame >>= after_first env (length s.input)) s

-- The `catch` clauses: a closed connection is silent, any other exception is reported.
unfoldable pub catch_all : Outcome (Unit {0}) × Session → Outcome (Unit {0}) × Session
catch_all (throw end_of_file, s) = (ok tt, s)
catch_all (throw connection_reset, s) = (ok tt, s)
catch_all (throw system_error, s) = (ok tt, emit reported s)
catch_all (throw database, s) = (ok tt, emit reported s)
catch_all (throw (invalid e), s) = (ok tt, emit reported s)
catch_all (ok a, s) = (ok a, s)
catch_all (undefined_behaviour, s) = (undefined_behaviour, s)
catch_all (out_of_fuel, s) = (out_of_fuel, s)

unfoldable pub handle_session : Env → Session → Outcome (Unit {0}) × Session
handle_session env s = with_endpoint env.endpoint_fault (λ t. catch_all (session_body env t)) s
