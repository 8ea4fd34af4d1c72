-- ===== src/Server/Client/Dialogue.antt =====
-- TelemetryClient.cpp with TcpServer.cpp: each end reads what the other sends.
use Prim.Native.String.{String}
use edge_ipc_daemon.Prelude.{
  ℕ, zero, suc, ◌≡◌, refl, sym, ap, ◌∙◌, List, [], ◌∷◌, ◌++◌, length, true, leb, ◌≤◌,
}
use mathlib.Core.List.{append-nil, append_assoc}
use edge_ipc_daemon.Protocol.Frame.{Frame, ack}
use edge_ipc_daemon.Protocol.Frame.Encode.{encode}
use edge_ipc_daemon.Protocol.Frame.RoundTrip.{IsFrame}
use edge_ipc_daemon.Protocol.Sensor.{
  SensorFrame, IsSensorFrame, layout, length-layout, parse-layout,
}
use edge_ipc_daemon.Protocol.Sensor
use edge_ipc_daemon.Server.World.{
  Env, Event, ok, throw, end_of_file, sent, stored, auth_logged, reported,
}
use edge_ipc_daemon.Server.Session.{handle_session, or_unknown}
use edge_ipc_daemon.Server.Session.Telemetry.{
  IsQuiet, wire, rows, stream, after_frames, AllTelemetry,
}
use edge_ipc_daemon.Server.Session.Authority.{begins}
use edge_ipc_daemon.Server.Session.Conversation.{handle_session_conversation}
use edge_ipc_daemon.Server.Client.{finished, Samples, sample, auth_frame, run_client}
use edge_ipc_daemon.Server.Client.Sends.{
  frames, after_sent, acks, sample-IsFrame, run_client_quiet, run_client_waiting,
}

-- All bytes that an end has sent, of its events, which have the latest first.
abbrev pub outgoing : List Event → List ℕ
outgoing [] = []
outgoing (sent bytes ∷ es) = outgoing es ++ bytes
outgoing (auth_logged u e ip ∷ es) = outgoing es
outgoing (stored i t v u ∷ es) = outgoing es
outgoing (reported ∷ es) = outgoing es

-- The rows that were stored, in their order.
abbrev pub stored_rows : List Event → List Event
stored_rows [] = []
stored_rows (sent bytes ∷ es) = stored_rows es
stored_rows (auth_logged u e ip ∷ es) = stored_rows es
stored_rows (stored i t v u ∷ es) = stored_rows es ++ stored i t v u ∷ []
stored_rows (reported ∷ es) = stored_rows es

-- A row for each sample from `i` on.
abbrev pub sample_rows : String → Samples → ℕ → ℕ → List Event
sample_rows subject c i zero = []
sample_rows subject c i (suc left) =
    stored 1 (c.now_us i) (c.value i) subject ∷ sample_rows subject c (suc i) left

outgoing-after_sent :
    (fs : List Frame) (es : List Event) → outgoing (after_sent fs es) ≡ outgoing es ++ stream fs
outgoing-after_sent [] es = sym (append-nil (outgoing es))
outgoing-after_sent (f ∷ fs) es =
    outgoing-after_sent fs (sent (encode f) ∷ es)
    ∙ append_assoc (outgoing es) (encode f) (stream fs)

-- The row of a sample.
rows-layout :
    (subject : String) (c : Samples) (i : ℕ)
    → IsSensorFrame (sample c i)
    → rows subject (layout (sample c i)) ≡ stored 1 (c.now_us i) (c.value i) subject ∷ []
rows-layout subject c i v =
    let payload = layout (sample c i) in
    let whole : leb 20 (length payload) ≡ true = rw (length-layout (sample c i)) refl in
    let read : Sensor.parse payload ≡ sample c i =
      ap Sensor.parse (sym (append-nil payload)) ∙ parse-layout (sample c i) [] v in
    rw (whole, read) refl

module _ (subject : String) (c : Samples) (valid : (i : ℕ) → IsSensorFrame (sample c i)) where
  after_one :
      (i left : ℕ) (es : List Event)
      → after_frames subject (frames c i (suc left)) es
        ≡ after_frames subject
            (frames c (suc i) left)
            (sent (wire ack) ∷ stored 1 (c.now_us i) (c.value i) subject ∷ es)
  after_one i left es =
      ap (λ r. after_frames subject (frames c (suc i) left) (sent (wire ack) ∷ (r ++ es)))
        (rows-layout subject c i (valid i))

  outgoing-after_frames :
      (left i : ℕ) (es : List Event)
      → outgoing (after_frames subject (frames c i left) es) ≡ outgoing es ++ stream (acks left)
  outgoing-after_frames zero i es = sym (append-nil (outgoing es))
  outgoing-after_frames (suc left) i es =
      ap outgoing (after_one i left es)
      ∙ outgoing-after_frames left (suc i)
          (sent (wire ack) ∷ stored 1 (c.now_us i) (c.value i) subject ∷ es)
      ∙ append_assoc (outgoing es) (wire ack) (stream (acks left))

  stored_rows-after_frames :
      (left i : ℕ) (es : List Event)
      → stored_rows (after_frames subject (frames c i left) es)
        ≡ stored_rows es ++ sample_rows subject c i left
  stored_rows-after_frames zero i es = sym (append-nil (stored_rows es))
  stored_rows-after_frames (suc left) i es =
      let row = stored 1 (c.now_us i) (c.value i) subject in
      ap stored_rows (after_one i left es)
      ∙ stored_rows-after_frames left (suc i) (sent (wire ack) ∷ row ∷ es)
      ∙ append_assoc (stored_rows es) (row ∷ []) (sample_rows subject c (suc i) left)

frames-AllTelemetry : (c : Samples) (left i : ℕ) → AllTelemetry (frames c i left)
frames-AllTelemetry c zero i = tt
frames-AllTelemetry c (suc left) i =
    ((sample-IsFrame c i, refl), frames-AllTelemetry c left (suc i))

-- What the server sends to a client that waits for an answer.
next_answer :
    (client_env env : Env) (token : List ℕ) (c : Samples) (rounds k : ℕ)
    → IsQuiet client_env
    → IsQuiet env
    → IsFrame (auth_frame token)
    → (env.validator token).is_ok ≡ true
    → ((i : ℕ) → IsSensorFrame (sample c i))
    → k ≤ rounds
    → let waiting = run_client client_env token c rounds (begins (stream (acks k))) in
      (waiting.0 ≡ throw end_of_file)
      × (outgoing (handle_session env (begins (outgoing waiting.1.events))).1.events
          ≡ stream (acks (suc k)))
next_answer client_env env token c rounds k cq q v ok_token valid h =
    let subject = (env.validator token).subject in
    let fs = frames c 0 k in
    let sends : outgoing (after_sent (auth_frame token ∷ fs) [])
        ≡ encode (auth_frame token) ++ stream fs =
      outgoing-after_sent (auth_frame token ∷ fs) [] in
    let early = sent (wire ack) ∷ auth_logged (or_unknown subject) "AUTH_OK" env.peer_ip ∷ [] in
    rw (run_client_waiting client_env token c rounds k cq v h) (
      rw
        (
          sends,
          handle_session_conversation env q (auth_frame token) fs v refl ok_token
              (frames-AllTelemetry c k 0),
        )
        (refl, outgoing-after_frames subject c valid k 0 early))

-- A client and a server, each of which reads exactly what the other has sent. If the token is valid,
-- both can read the address of their peer, and no write and no insert fails: for any number of
-- rounds, both ends come to their end without an error and have read everything; the server has
-- answered the token and each sample with an ACK, which is what the client has read, and has stored
-- one row for each sample, in order, with its sensor id, time and value bits, for the subject of the
-- token. And neither waits for the other for ever: a client that has got `k` of the answers only, and
-- waits for one more, has by then sent what the server sends one more answer for.
pub run_client-handle_session :
    (client_env env : Env) (token : List ℕ) (c : Samples) (rounds k : ℕ)
    → IsQuiet client_env
    → IsQuiet env
    → IsFrame (auth_frame token)
    → (env.validator token).is_ok ≡ true
    → ((i : ℕ) → IsSensorFrame (sample c i))
    → k ≤ rounds
    → let answers = stream (acks (suc rounds)) in
      let client = run_client client_env token c rounds (begins answers) in
      let waiting = run_client client_env token c rounds (begins (stream (acks k))) in
      let server = handle_session env (begins (outgoing client.1.events)) in
      (client.0 ≡ ok finished)
      × (client.1.input ≡ [])
      × (server.0 ≡ ok tt)
      × (server.1.input ≡ [])
      × (outgoing server.1.events ≡ answers)
      × (stored_rows server.1.events ≡ sample_rows (env.validator token).subject c 0 rounds)
      × (waiting.0 ≡ throw end_of_file)
      × (outgoing (handle_session env (begins (outgoing waiting.1.events))).1.events
          ≡ stream (acks (suc k)))
run_client-handle_session client_env env token c rounds k cq q v ok_token valid below =
    let subject = (env.validator token).subject in
    let fs = frames c 0 rounds in
    let events = after_sent (auth_frame token ∷ fs) [] in
    let sends : outgoing events ≡ encode (auth_frame token) ++ stream fs =
      outgoing-after_sent (auth_frame token ∷ fs) [] in
    let early = sent (wire ack) ∷ auth_logged (or_unknown subject) "AUTH_OK" env.peer_ip ∷ [] in
    let next = next_answer client_env env token c rounds k cq q v ok_token valid below in
    rw (run_client_quiet client_env token c rounds cq v) (
      rw
        (
          sends,
          handle_session_conversation env q (auth_frame token) fs v refl ok_token
              (frames-AllTelemetry c rounds 0),
        )
        (
          refl,
          refl,
          refl,
          refl,
          outgoing-after_frames subject c valid rounds 0 early,
          stored_rows-after_frames subject c valid rounds 0 early,
          next.0,
          next.1,
        ))
