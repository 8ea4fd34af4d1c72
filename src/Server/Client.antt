-- ===== src/Server/Client.antt =====
-- async_telemetry_server/src/TelemetryClient.cpp: `run_client`, once it is connected. Its `input`
-- is what the server sends.
pub mod Sends
pub mod Dialogue
use edge_ipc_daemon.Prelude.{ℕ, zero, suc, List, Option, none, some, if◌then◌else◌}
use edge_ipc_daemon.Protocol.Frame.{Frame, MsgType, auth, telemetry, ack}
use edge_ipc_daemon.Protocol.Sensor.{SensorFrame}
use edge_ipc_daemon.Protocol.Sensor
use edge_ipc_daemon.Server.World.{
  M, Session, Env, Outcome, undefined_behaviour, ◌>>=◌, ◌>>◌, return,
}
use edge_ipc_daemon.Server.Wire.{read_frame, write_frame}
use edge_ipc_daemon.Server.Session.{same_type}

-- `read_frame_plain` and `write_frame_plain` have the code of the server's `read_frame` and
-- `write_frame`.
abbrev pub read_frame_plain : M Frame
read_frame_plain = read_frame

abbrev pub write_frame_plain : Env → Frame → M (Unit {0})
write_frame_plain = write_frame

-- How `run_client` ends: it is done, or throws "AUTH rejected by server".
pub data Ending : Type 0 where
  finished rejected : Ending

abbrev pub auth_frame : List ℕ → Frame
auth_frame token = record { msg_type = auth; payload = token }

abbrev pub telemetry_frame : List ℕ → Frame
telemetry_frame bytes = record { msg_type = telemetry; payload = bytes }

-- The clock and the readings, by the round of the loop: microseconds, and the bits of a double.
pub record Samples : Type 0 where
  pub now_us : ℕ → ℕ
  pub value : ℕ → ℕ

abbrev pub sample : Samples → ℕ → SensorFrame
sample c i = record { sensor_id = 1; timestamp_us = c.now_us i; value = c.value i }

-- The rest of a round once the sample is serialized; `none` is a write out of its buffer.
unfoldable pub send_sample : Env → Option (List ℕ) → M (Unit {0})
send_sample env none s = (undefined_behaviour, s)
send_sample env (some bytes) s =
    (write_frame_plain env (telemetry_frame bytes) >>= λ _. read_frame_plain >>= λ ack2. return tt)
      s

-- The rounds from `i` on.
unfoldable pub client_loop : Env → Samples → ℕ → ℕ → M (Unit {0})
client_loop env c i zero s = (Outcome.ok tt, s)
client_loop env c i (suc left) s =
    (send_sample env (Sensor.serialize (sample c i)) >>= λ _. client_loop env c (suc i) left) s

unfoldable pub after_answer : Env → Samples → ℕ → Frame → M Ending
after_answer env c rounds answer =
    if same_type answer.msg_type ack
    then (client_loop env c 0 rounds >>= λ _. return finished)
    else return rejected

-- The source has 60 rounds.
unfoldable pub run_client : Env → List ℕ → Samples → ℕ → M Ending
run_client env token c rounds s =
    (write_frame_plain env (auth_frame token) >>= λ _.
    read_frame_plain >>= after_answer env c rounds)
      s
