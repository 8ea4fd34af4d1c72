-- ===== src/Server/Client/Sends.antt =====
-- `run_client` of TelemetryClient.cpp with a server that answers with ACK frames.
use edge_ipc_daemon.Prelude.{
  ℕ, zero, suc, ◌≡◌, refl, sym, ap, ◌∙◌, List, [], ◌∷◌, ◌++◌, arith, replicate, ◌<◌, ◌≤◌,
}
use mathlib.Core.List.{append-nil, append_assoc}
use edge_ipc_daemon.Protocol.Frame.{Frame, ack}
use edge_ipc_daemon.Protocol.Frame.Encode.{encode, serialize-encode}
use edge_ipc_daemon.Protocol.Frame.RoundTrip.{IsFrame}
use edge_ipc_daemon.Protocol.Sensor.{SensorFrame, layout, serialize-layout, length-layout}
use edge_ipc_daemon.Protocol.Sensor
use edge_ipc_daemon.Server.World.{Session, Env, Event, ok, throw, end_of_file, sent, emit}
use edge_ipc_daemon.Server.Wire.{read_frame, write_frame}
use edge_ipc_daemon.Server.Wire.Reads.{reads, read_none}
use edge_ipc_daemon.Server.Session.{same_type, bare}
use edge_ipc_daemon.Server.Session.Telemetry.{read_frame-encode, IsQuiet, stream, attempt_quiet}
use edge_ipc_daemon.Server.Client.{
  finished, Samples, sample, auth_frame, telemetry_frame, send_sample, client_loop, after_answer,
  run_client,
}

-- The frames of the rounds from `i` on.
abbrev pub frames : Samples → ℕ → ℕ → List Frame
frames c i zero = []
frames c i (suc left) = telemetry_frame (layout (sample c i)) ∷ frames c (suc i) left

-- The events of sending these frames, the latest first, on top of earlier ones.
abbrev pub after_sent : List Frame → List Event → List Event
after_sent [] es = es
after_sent (f ∷ fs) es = after_sent fs (sent (encode f) ∷ es)

-- As many ACK frames.
abbrev pub acks : ℕ → List Frame
acks n = replicate n (bare ack)

ack-IsFrame : IsFrame (bare ack)
ack-IsFrame = record { small = omega arith; named = tt }

pub sample-IsFrame : (c : Samples) (i : ℕ) → IsFrame (telemetry_frame (layout (sample c i)))
sample-IsFrame c i = record { small = omega (arith, length-layout (sample c i)); named = tt }

write_frame_quiet :
    (env : Env) (f : Frame) (s : Session)
    → IsQuiet env
    → IsFrame f
    → write_frame env f s ≡ (ok tt, emit (sent (encode f)) s)
unfolding write_frame
write_frame_quiet env f s q v =
    rw (serialize-encode f (omega (arith, v.small)), write_frame)
      (attempt_quiet env.write_fails env.write_fault (sent (encode f)) s q.writes)

send_sample_quiet :
    (env : Env) (c : Samples) (i : ℕ) (rest : List ℕ) (es : List Event)
    → IsQuiet env
    → send_sample env
        (Sensor.serialize (sample c i))
        (record { input = encode (bare ack) ++ rest; events = es })
      ≡ (
        ok tt,
        record {
          input = rest;
          events = sent (encode (telemetry_frame (layout (sample c i)))) ∷ es;
        },
      )
unfolding send_sample
send_sample_quiet env c i rest es q =
    let f = telemetry_frame (layout (sample c i)) in
    rw (serialize-layout (sample c i), send_sample)
      (rw
        (write_frame_quiet env f (record { input = encode (bare ack) ++ rest; events = es }) q
          (sample-IsFrame c i))
        (rw (read_frame-encode (bare ack) rest (sent (encode f) ∷ es) ack-IsFrame) refl))

client_loop_quiet :
    (env : Env) (c : Samples) (left i : ℕ) (rest : List ℕ) (es : List Event)
    → IsQuiet env
    → client_loop env c i left (record { input = stream (acks left) ++ rest; events = es })
      ≡ (ok tt, record { input = rest; events = after_sent (frames c i left) es })
unfolding client_loop
client_loop_quiet env c zero i rest es q = refl
client_loop_quiet env c (suc left) i rest es q =
    let f = telemetry_frame (layout (sample c i)) in
    let more = stream (acks left) ++ rest in
    ap (λ input. client_loop env c i (suc left) (record { input = input; events = es }))
      (append_assoc (encode (bare ack)) (stream (acks left)) rest)
    ∙ rw (send_sample_quiet env c i more es q, client_loop)
        (client_loop_quiet env c left (suc i) rest (sent (encode f) ∷ es) q)

-- With a server that answers with ACK frames, the client sends the token and all its samples.
pub run_client_quiet :
    (env : Env) (token : List ℕ) (c : Samples) (rounds : ℕ)
    → IsQuiet env
    → IsFrame (auth_frame token)
    → run_client env token c rounds (record { input = stream (acks (suc rounds)); events = [] }) ≡ (
      ok finished,
      record { input = []; events = after_sent (auth_frame token ∷ frames c 0 rounds) [] },
    )
unfolding run_client after_answer same_type
run_client_quiet env token c rounds q v =
    let a = auth_frame token in
    let more = stream (acks rounds) in
    rw (write_frame_quiet env a (record { input = stream (acks (suc rounds)); events = [] }) q v) (
      rw (read_frame-encode (bare ack) more (sent (encode a) ∷ []) ack-IsFrame) (
        rw
          (ap
              (λ input.
                client_loop env c 0 rounds
                  (record { input = input; events = sent (encode a) ∷ [] }))
              (sym (append-nil more))
            ∙ client_loop_quiet env c rounds 0 [] (sent (encode a) ∷ []) q)
          refl))

read_frame-closed :
    (es : List Event)
    → read_frame (record { input = []; events = es })
      ≡ (throw end_of_file, record { input = []; events = es })
read_frame-closed es =
    read_none (record { input = []; events = es }) (omega arith) ∙ unfold reads in refl

send_sample_waiting :
    (env : Env) (c : Samples) (i : ℕ) (es : List Event)
    → IsQuiet env
    → send_sample env (Sensor.serialize (sample c i)) (record { input = []; events = es }) ≡ (
      throw end_of_file,
      record { input = []; events = sent (encode (telemetry_frame (layout (sample c i)))) ∷ es },
    )
unfolding send_sample
send_sample_waiting env c i es q =
    let f = telemetry_frame (layout (sample c i)) in
    rw (serialize-layout (sample c i), send_sample)
      (rw (write_frame_quiet env f (record { input = []; events = es }) q (sample-IsFrame c i))
        (rw (read_frame-closed (sent (encode f) ∷ es)) refl))

client_loop_waiting :
    (env : Env) (c : Samples) (k left i : ℕ) (es : List Event)
    → IsQuiet env
    → k < left
    → client_loop env c i left (record { input = stream (acks k); events = es })
      ≡ (throw end_of_file, record { input = []; events = after_sent (frames c i (suc k)) es })
unfolding client_loop
client_loop_waiting env c k zero i es q h = absurd (omega arith)
client_loop_waiting env c zero (suc left) i es q h = rw (send_sample_waiting env c i es q) refl
client_loop_waiting env c (suc k) (suc left) i es q h =
    let f = telemetry_frame (layout (sample c i)) in
    rw (send_sample_quiet env c i (stream (acks k)) es q, client_loop)
      (client_loop_waiting env c k left (suc i) (sent (encode f) ∷ es) q (omega arith))

-- With `k` answers, the client has sent the token and `k` samples, and waits for one more answer.
pub run_client_waiting :
    (env : Env) (token : List ℕ) (c : Samples) (rounds k : ℕ)
    → IsQuiet env
    → IsFrame (auth_frame token)
    → k ≤ rounds
    → run_client env token c rounds (record { input = stream (acks k); events = [] }) ≡ (
      throw end_of_file,
      record { input = []; events = after_sent (auth_frame token ∷ frames c 0 k) [] },
    )
unfolding run_client after_answer same_type
run_client_waiting env token c rounds zero q v h =
    let a = auth_frame token in
    rw (write_frame_quiet env a (record { input = []; events = [] }) q v)
      (rw (read_frame-closed (sent (encode a) ∷ [])) refl)
run_client_waiting env token c rounds (suc k) q v h =
    let a = auth_frame token in
    let more = stream (acks k) in
    rw (write_frame_quiet env a (record { input = stream (acks (suc k)); events = [] }) q v) (
      rw (read_frame-encode (bare ack) more (sent (encode a) ∷ []) ack-IsFrame)
        (rw (client_loop_waiting env c k rounds 0 (sent (encode a) ∷ []) q (omega arith)) refl))
