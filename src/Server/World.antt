-- ===== src/Server/World.antt =====
-- What a session of async_telemetry_server sees of the world, and the monad of its coroutines.
use Prim.Native.String.{String}
use edge_ipc_daemon.Prelude.{ℕ, Bool, List, ◌∷◌, Option, none, some, length, if◌then◌else◌}
use edge_ipc_daemon.Protocol.Frame.{Invalid}
use edge_ipc_daemon.Server.Jwt.{ValidationResult}

-- What a session does to the outside.
pub data Event : Type 0 where
  -- the bytes of one `async_write`
  sent : List ℕ → Event
  -- `insert_auth_log`: client_subject, event, ip_addr
  auth_logged : String → String → String → Event
  -- `insert_telemetry`: sensor_id, timestamp_us, the bits of value, client_subject
  stored : ℕ → ℕ → ℕ → String → Event
  -- a line on `std::cerr`
  reported : Event

-- Why a coroutine ends early. The first three are system errors of the socket (`system_error` is
-- any but the two before), `database` is an exception of libpqxx, `invalid` a
-- `std::invalid_argument` of `deserialize`.
pub data Fault : Type 0 where
  end_of_file connection_reset system_error database : Fault
  invalid : Invalid → Fault

-- `undefined_behaviour` is no exception: a write past the end of a buffer. `out_of_fuel` is no
-- outcome of the program; the theorems exclude it.
pub data Outcome (A : Type 0) : Type 0 where
  ok : A → Outcome A
  throw : Fault → Outcome A
  undefined_behaviour out_of_fuel : Outcome A

-- `input` is what the peer will still send before it closes; `events` are the latest first.
pub record Session : Type 0 where
  pub input : List ℕ
  pub events : List Event

-- The peer and the services: `endpoint_fault` is what `remote_endpoint()` throws, if it does;
-- `write_fails` and `database_fails` say whether the attempt after so
-- many events fails, and `write_fault` what a failed write throws.
pub record Env : Type 0 where
  pub peer_ip : String
  pub endpoint_fault : Option Fault
  pub validator : List ℕ → ValidationResult
  pub write_fails : ℕ → Bool
  pub write_fault : Fault
  pub database_fails : ℕ → Bool

abbrev pub M : Type 0 → Type 0
M A = Session → Outcome A × Session

-- An exception, undefined behaviour or the end of the fuel stops what follows.
abbrev pub bind : {A B : Type 0} → Outcome A × Session → (A → M B) → Outcome B × Session
bind (ok a, s) f = f a s
bind (throw e, s) f = (throw e, s)
bind (undefined_behaviour, s) f = (undefined_behaviour, s)
bind (out_of_fuel, s) f = (out_of_fuel, s)

infixl 5 ◌>>=◌ ◌>>◌
abbrev pub ◌>>=◌ : {A B : Type 0} → M A → (A → M B) → M B
◌>>=◌ m f s = bind (m s) f

abbrev pub ◌>>◌ : {B : Type 0} → M (Unit {0}) → M B → M B
m >> k = m >>= λ _. k

abbrev pub return : {A : Type 0} → A → M A
return a s = (ok a, s)

abbrev pub fail : {A : Type 0} → Fault → M A
fail e s = (throw e, s)

abbrev pub emit : Event → Session → Session
emit e s = record s { events = e ∷ s.events }

-- What a session does once the address of the peer is read, which is outside its `try`.
unfoldable pub with_endpoint : Option Fault → M (Unit {0}) → M (Unit {0})
with_endpoint none session s = session s
with_endpoint (some fault) session s = (throw fault, s)

-- An effect that can fail, and then leaves no event.
unfoldable pub attempt : (ℕ → Bool) → Fault → Event → M (Unit {0})
attempt fails fault event s =
    if fails (length s.events) then (throw fault, s) else (ok tt, emit event s)
