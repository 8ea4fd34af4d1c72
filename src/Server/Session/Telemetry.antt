-- ===== src/Server/Session/Telemetry.antt =====
-- The TELEMETRY loop of `TcpServer::handle_session`: whole conversations, and its end.
use Prim.Native.String.{String}
use edge_ipc_daemon.Prelude.{
  ℕ, zero, suc, ◌+◌, ◌^◌, ◌<◌, ◌≤◌, ◌≡◌, refl, sym, ap, ◌∙◌, Bool, false, List, [], ◌∷◌, ◌++◌, none,
  arith, leb, ge→ltb, gt→leb, length, length-append, if◌then◌else◌, Bool-cases, inl, inr,
}
use mathlib.Core.List.{append-nil, append_assoc}
use edge_ipc_daemon.Protocol.Bytes.{be32, be16}
use edge_ipc_daemon.Protocol.Bytes.Laws.{take-append_length, drop-append_length}
use edge_ipc_daemon.Protocol.Frame.{Frame, MsgType, telemetry, ack, deserialize}
use edge_ipc_daemon.Protocol.Frame.Encode.{header, encode, serialize-encode}
use edge_ipc_daemon.Protocol.Frame.RoundTrip.{IsFrame, deserialize-encode, read32-header}
use edge_ipc_daemon.Protocol.Sensor.{SensorFrame}
use edge_ipc_daemon.Protocol.Sensor
use edge_ipc_daemon.Server.World.{
  M, Session, Env, Fault, Event, ok, throw, end_of_file, sent, stored, emit, attempt,
}
use edge_ipc_daemon.Server.Wire.{read_frame, write_frame, parse}
use edge_ipc_daemon.Server.Wire.Reads.{reads, read_small, read_none, announced}
use edge_ipc_daemon.Server.Session.{
  same_type, bare, insert_telemetry, store_sample, telemetry_round, telemetry_loop,
}

length-header : (f : Frame) → length (header f) ≡ 12
length-header f = unfold be32 be16 in refl

pub length-encode : (f : Frame) → length (encode f) ≡ 12 + length f.payload
length-encode f = omega (arith, length-append (header f) f.payload, length-header f)

-- A whole frame at the front of the input is read, and nothing else is touched.
pub read_frame-encode :
    (f : Frame) (rest : List ℕ) (es : List Event)
    → IsFrame f
    → read_frame (record { input = encode f ++ rest; events = es })
      ≡ (ok f, record { input = rest; events = es })
unfolding reads parse
read_frame-encode f rest es v =
    let s : Session = record { input = encode f ++ rest; events = es } in
    let n = length f.payload in
    let len : length (encode f ++ rest) ≡ 12 + n + length rest =
      omega (arith, length-append (encode f) rest, length-encode f) in
    let tells : announced (encode f ++ rest) ≡ n =
      ap announced (append_assoc (header f) f.payload rest)
      ∙ read32-header f (f.payload ++ rest) (omega (arith, v.small)) in
    read_small s (omega (arith, len)) (omega (arith, tells, v.small))
    ∙ rw
        (
          tells,
          ge→ltb (length (encode f ++ rest)) 12 (omega (arith, len)),
          gt→leb (2 ^ 32) (12 + n) (omega (arith, v.small)),
          ge→ltb (length (encode f ++ rest)) (12 + n) (omega (arith, len)),
          take-append_length (12 + n) (encode f) rest (length-encode f),
          drop-append_length (12 + n) (encode f) rest (length-encode f),
        )
        (rw
          (
            ap deserialize (sym (append-nil (encode f)))
                ∙ deserialize-encode f [] (omega (arith, v.small)) v.named,
            parse,
          )
          refl)

-- An environment in which no write and no insert fails.
pub record IsQuiet (env : Env) : Type 0 where
  pub connected : env.endpoint_fault ≡ none
  pub writes : (k : ℕ) → env.write_fails k ≡ false
  pub inserts : (k : ℕ) → env.database_fails k ≡ false

-- The bytes of a frame with no payload.
abbrev pub wire : MsgType → List ℕ
wire m = encode (bare m)

pub write_frame-bare :
    (env : Env) (m : MsgType) (s : Session)
    → write_frame env (bare m) s ≡ attempt env.write_fails env.write_fault (sent (wire m)) s
unfolding write_frame
write_frame-bare env m s = rw (serialize-encode (bare m) (omega arith), write_frame) refl

pub attempt_quiet :
    (fails : ℕ → Bool) (e : Fault) (ev : Event) (s : Session)
    → ((k : ℕ) → fails k ≡ false)
    → attempt fails e ev s ≡ (ok tt, emit ev s)
unfolding attempt
attempt_quiet fails e ev s h = rw (h (length s.events)) refl

-- The rows that a payload gives: one, if it holds a whole sample.
abbrev pub rows : String → List ℕ → List Event
rows subject payload =
    let r = Sensor.parse payload in
    if leb 20 (length payload) then stored r.sensor_id r.timestamp_us r.value subject ∷ [] else []

-- The events of a list of TELEMETRY frames, the latest first, on top of earlier ones.
abbrev pub after_frames : String → List Frame → List Event → List Event
after_frames subject [] es = es
after_frames subject (f ∷ fs) es =
    after_frames subject fs (sent (wire ack) ∷ (rows subject f.payload ++ es))

abbrev pub stream : List Frame → List ℕ
stream [] = []
stream (f ∷ fs) = encode f ++ stream fs

abbrev pub AllTelemetry : List Frame → Type 0
AllTelemetry [] = Unit {0}
AllTelemetry (f ∷ fs) = (IsFrame f × (f.msg_type ≡ telemetry)) × AllTelemetry fs

pub length-stream : (fs : List Frame) → length fs ≤ length (stream fs)
length-stream [] = omega arith
length-stream (f ∷ fs) =
    omega (arith, length-append (encode f) (stream fs), length-encode f, length-stream fs)

store_sample_quiet :
    (env : Env) (subject : String) (payload : List ℕ) (s : Session)
    → IsQuiet env
    → store_sample env subject payload s
      ≡ (ok tt, record s { events = rows subject payload ++ s.events })
unfolding store_sample insert_telemetry
store_sample_quiet env subject payload s q = elim (Bool-cases (leb 20 (length payload))) [
  | inl whole ↦ rw whole (attempt_quiet env.database_fails _ _ s q.inserts)
  | inr short ↦ rw short refl
]

round_quiet :
    (env : Env) (subject : String) (rest : M (Unit {0})) (f : Frame) (s : Session)
    → IsQuiet env
    → f.msg_type ≡ telemetry
    → telemetry_round env subject rest f s
      ≡ rest (record s { events = sent (wire ack) ∷ (rows subject f.payload ++ s.events) })
unfolding telemetry_round same_type be32
round_quiet env subject rest f s q t =
    let s' = record s { events = rows subject f.payload ++ s.events } in
    rw
      (
        t,
        store_sample_quiet env subject f.payload s q,
        write_frame-bare env ack s',
        attempt_quiet env.write_fails env.write_fault (sent (wire ack)) s' q.writes,
      )
      refl

-- Any number of TELEMETRY frames, and then the end of the input.
pub telemetry_loop_quiet :
    (env : Env) (subject : String) (fs : List Frame) (fuel : ℕ) (es : List Event)
    → IsQuiet env
    → AllTelemetry fs
    → length fs < fuel
    → telemetry_loop env subject fuel (record { input = stream fs; events = es })
      ≡ (throw end_of_file, record { input = []; events = after_frames subject fs es })
unfolding telemetry_loop
telemetry_loop_quiet env subject fs zero es q a h = absurd (omega arith)
telemetry_loop_quiet env subject [] (suc fuel) es q a h =
    rw (read_none (record { input = []; events = es }) (omega arith)) (unfold reads in refl)
telemetry_loop_quiet env subject (f ∷ fs) (suc fuel) es q a h =
    rw
      (
        read_frame-encode f (stream fs) es a.0.0,
        round_quiet env subject (telemetry_loop env subject fuel) f
            (record { input = stream fs; events = es }) q a.0.1,
      )
      (telemetry_loop_quiet env subject fs fuel _ q a.1 (omega arith))
