-- ===== src/Server/Session/Conversation.antt =====
-- Whole sessions of `TcpServer::handle_session` with a peer that sends whole frames.
use Prim.Native.String.{String}
use edge_ipc_daemon.Prelude.{
  ℕ, ◌<◌, ◌≡◌, refl, true, List, [], ◌∷◌, ◌++◌, arith, length, length-append, ◌∙◌,
}
use edge_ipc_daemon.Protocol.Frame.{Frame, MsgType, auth, ack}
use edge_ipc_daemon.Protocol.Frame.Encode.{encode}
use edge_ipc_daemon.Protocol.Frame.RoundTrip.{IsFrame}
use edge_ipc_daemon.Server.World.{Session, Env, ok, sent, auth_logged}
use edge_ipc_daemon.Server.Wire.{write_frame}
use edge_ipc_daemon.Server.Session.{
  same_type, bare, or_unknown, insert_auth_log, after_validate, after_first, session_body,
  catch_all, handle_session,
}
use edge_ipc_daemon.Server.Session.Keeps.{with_endpoint-none}
use edge_ipc_daemon.Server.Session.Telemetry.{
  length-encode, read_frame-encode, IsQuiet, wire, write_frame-bare, attempt_quiet, after_frames,
  stream, AllTelemetry, length-stream, telemetry_loop_quiet,
}

-- What follows once the first frame is read.
first_frame :
    (env : Env) (f : Frame) (rest : List ℕ)
    → IsFrame f
    → session_body env (record { input = encode f ++ rest; events = [] })
      ≡ after_first env (length (encode f ++ rest)) f (record { input = rest; events = [] })
unfolding session_body
first_frame env f rest v = rw (read_frame-encode f rest [] v) refl

module _ (env : Env) (q : IsQuiet env) where
  log_quiet :
      (subject event : String) (s : Session)
      → insert_auth_log env subject event s
        ≡ (ok tt, record s { events = auth_logged subject event env.peer_ip ∷ s.events })
  unfolding insert_auth_log
  log_quiet subject event s = attempt_quiet env.database_fails _ _ s q.inserts

  write_quiet :
      (m : MsgType) (s : Session)
      → write_frame env (bare m) s ≡ (ok tt, record s { events = sent (wire m) ∷ s.events })
  write_quiet m s = rw (write_frame-bare env m s) (attempt_quiet env.write_fails _ _ s q.writes)

  -- If the address of the peer can be read, and no write and no insert fails: a peer whose token is
  -- valid and that then sends TELEMETRY frames and closes gets an ACK for the
  -- token and one for each frame, in order; one success is logged for the token's subject, and one
  -- row is stored, under this subject, for each frame whose payload has 20 bytes or more. The whole
  -- input is read and the session ends without an error.
  pub handle_session_conversation :
      (a : Frame) (fs : List Frame)
      → IsFrame a
      → a.msg_type ≡ auth
      → (env.validator a.payload).is_ok ≡ true
      → AllTelemetry fs
      → let subject = (env.validator a.payload).subject in
        handle_session env (record { input = encode a ++ stream fs; events = [] }) ≡ (
          ok tt,
          record {
            input = [];
            events =
                after_frames subject fs
                  (sent (wire ack) ∷ auth_logged (or_unknown subject) "AUTH_OK" env.peer_ip ∷ []);
          },
        )
  unfolding handle_session after_first after_validate same_type catch_all
  handle_session_conversation a fs v t valid all =
      let fuel = length (encode a ++ stream fs) in
      let enough : length fs < fuel =
        omega (arith, length-append (encode a) (stream fs), length-encode a, length-stream fs) in
      with_endpoint-none env.endpoint_fault _ _ q.connected
      ∙ rw
          (
            first_frame env a (stream fs) v,
            t,
            valid,
            log_quiet,
            write_quiet,
            telemetry_loop_quiet env (env.validator a.payload).subject fs fuel _ q all enough,
          )
          refl
