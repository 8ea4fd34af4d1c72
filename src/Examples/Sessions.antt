-- ===== src/Examples/Sessions.antt =====
-- Sessions of async_telemetry_server at concrete inputs.
use Prim.Native.String.{String}
use edge_ipc_daemon.Prelude.{
  ℕ, ◌+◌, ◌%◌, ◌^◌, ◌≤◌, ◌≡◌, ◌↔◌, ◌⊎◌, refl, false, List, [], ◌∷◌, ◌++◌, none, some, arith, length,
}
use edge_ipc_daemon.Protocol.Frame.{Frame, auth, telemetry, ack}
use edge_ipc_daemon.Protocol.Frame.Encode.{encode}
use edge_ipc_daemon.Server.Jwt.{Verdict, verified, thrown, validate}
use edge_ipc_daemon.Server.World.{
  Session, Env, Fault, ok, throw, end_of_file, undefined_behaviour, connection_reset, sent,
  auth_logged,
}
use edge_ipc_daemon.Server.Wire.{read_frame}
use edge_ipc_daemon.Server.Wire.Reads.{reads, announced, read_frame_lem, read_frame_overflow_iff}
use edge_ipc_daemon.Server.Session.{or_unknown, handle_session}
use edge_ipc_daemon.Server.Session.Telemetry.{wire, stream, after_frames, IsQuiet}
use edge_ipc_daemon.Server.Session.Conversation.{handle_session_conversation}
use edge_ipc_daemon.Server.Session.Authority.{IsProper, begins, handle_session-IsProper}
use edge_ipc_daemon.Server.Tls.{handle_tls_session, handle_tls_session-IsProper}
use edge_ipc_daemon.Server.Session.Ends.{handle_session_ends}
use edge_ipc_daemon.Protocol.Sensor.{IsSensorFrame}
use edge_ipc_daemon.Server.Client.{Samples, sample, finished, run_client}
use edge_ipc_daemon.Server.Client.Sends.{acks}
use edge_ipc_daemon.Server.Client.Dialogue.{
  outgoing, stored_rows, sample_rows, run_client-handle_session,
}

-- A verifier that knows one token, and a world where nothing fails.
abbrev verifier : String → String → ℕ → List ℕ → Verdict
verifier secret issuer leeway [] = thrown "token"
verifier secret issuer leeway (c ∷ token) = verified "edge-7"

abbrev env : Env
env = record {
  peer_ip = "10.0.0.7";
  endpoint_fault = none;
  validator = validate verifier (some "s3cret");
  write_fails = λ _. false;
  write_fault = connection_reset;
  database_fails = λ _. false;
}

quiet : IsQuiet env
quiet = record { connected = refl; writes = λ k. refl; inserts = λ k. refl }

abbrev login : Frame
login = record { msg_type = auth; payload = 116 ∷ [] }

abbrev no_token : Frame
no_token = record { msg_type = auth; payload = [] }

abbrev reading : Frame
reading = record {
  msg_type = telemetry;
  payload = 1 ∷ 0 ∷ 0 ∷ 0 ∷ 9 ∷ 0 ∷ 0 ∷ 0 ∷ 0 ∷ 0 ∷ 0 ∷ 0 ∷ 7 ∷ 0 ∷ 0 ∷ 0 ∷ 0 ∷ 0 ∷ 0 ∷ 0 ∷ [];
}

-- A header that announces 2^32 - 1 bytes.
abbrev huge : Session
huge = record {
  input = 78 ∷ 69 ∷ 88 ∷ 84 ∷ 1 ∷ 1 ∷ 255 ∷ 255 ∷ 255 ∷ 255 ∷ 0 ∷ 0 ∷ [];
  events = [];
}

read_frame_lem_example : read_frame huge ≡ reads huge
read_frame_lem_example = read_frame_lem huge (omega arith)

read_frame_overflow_iff_example :
    ((read_frame huge).0 ≡ undefined_behaviour)
    ↔ ((12 ≤ length huge.input) × (2 ^ 32 ≤ 12 + announced huge.input))
read_frame_overflow_iff_example = read_frame_overflow_iff huge (omega arith)

handle_session_conversation_example :
    handle_session env (record { input = encode login ++ stream (reading ∷ []); events = [] }) ≡ (
      ok tt,
      record {
        input = [];
        events =
            after_frames "edge-7"
              (reading ∷ [])
              (sent (wire ack) ∷ auth_logged "edge-7" "AUTH_OK" "10.0.0.7" ∷ []);
      },
    )
unfolding validate or_unknown
handle_session_conversation_example =
    handle_session_conversation env quiet login (reading ∷ [])
      (record { small = omega arith; named = tt }) refl refl
      ((record { small = omega arith; named = tt }, refl), tt)

handle_session-IsProper_example :
    IsProper env (encode login) (handle_session env (begins (encode login))).1.events
handle_session-IsProper_example = handle_session-IsProper env (encode login)

handle_session_ends_example :
    ((handle_session env huge).0 ≡ ok tt)
    ⊎ ((handle_session env huge).0 ≡ undefined_behaviour)
    ⊎ ((fault : Fault) × (env.endpoint_fault ≡ some fault)
        × ((handle_session env huge).0 ≡ throw fault))
handle_session_ends_example = handle_session_ends env huge (omega arith)

handle_tls_session-IsProper_example :
    IsProper env (encode login) (handle_tls_session env none (begins (encode login))).1.events
handle_tls_session-IsProper_example = handle_tls_session-IsProper env none (encode login)

-- The same reading in every round, at the times 0, 1, ....
abbrev readings : Samples
readings = record { now_us = λ i. i % 2 ^ 64; value = λ i. 7 }

readings-IsSensorFrame : (i : ℕ) → IsSensorFrame (sample readings i)
readings-IsSensorFrame i = record {
  id_fits = omega arith;
  time_fits = omega arith;
  value_fits = omega arith;
}

run_client-handle_session_example :
    let answers = stream (acks 3) in
    let client = run_client env (116 ∷ []) readings 2 (begins answers) in
    let waiting = run_client env (116 ∷ []) readings 2 (begins (stream (acks 1))) in
    let server = handle_session env (begins (outgoing client.1.events)) in
    (client.0 ≡ ok finished)
    × (client.1.input ≡ [])
    × (server.0 ≡ ok tt)
    × (server.1.input ≡ [])
    × (outgoing server.1.events ≡ answers)
    × (stored_rows server.1.events ≡ sample_rows (env.validator (116 ∷ [])).subject readings 0 2)
    × (waiting.0 ≡ throw end_of_file)
    × (outgoing (handle_session env (begins (outgoing waiting.1.events))).1.events
        ≡ stream (acks 2))
unfolding validate
run_client-handle_session_example =
    run_client-handle_session env env (116 ∷ []) readings 2 1 quiet quiet
      (record { small = omega arith; named = tt }) refl readings-IsSensorFrame (omega arith)
