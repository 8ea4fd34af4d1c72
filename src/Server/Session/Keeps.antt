-- ===== src/Server/Session/Keeps.antt =====
-- What reading and writing a frame leaves of the events of a session of
-- async_telemetry_server/src/TcpServer.cpp.
use edge_ipc_daemon.Prelude.{
  ℕ, ◌≡◌, List, ◌∷◌, arith, length, Bool, inl, inr, Bool-cases, ltb, refl, Option, none, some,
  if◌then◌else◌,
}
use edge_ipc_daemon.Protocol.Bytes.{read32}
use edge_ipc_daemon.Protocol.Frame.{MsgType}
use edge_ipc_daemon.Server.World.{
  M, Session, Env, Outcome, Event, Fault, ok, throw, bind, out_of_fuel, undefined_behaviour, sent,
  attempt, return, with_endpoint,
}
use edge_ipc_daemon.Server.Wire.{
  async_read, copy_into, read_payload, parse, read_frame, write_frame,
}
use edge_ipc_daemon.Server.Session.{bare}
use edge_ipc_daemon.Server.Session.Telemetry.{wire, write_frame-bare}

async_read-events : (n : ℕ) (s : Session) → (async_read n s).1.events ≡ s.events
unfolding async_read
async_read-events n s = ground arith

copy_into-events :
    (b : List ℕ) (o : ℕ) (c : List ℕ) (s : Session) → (copy_into b o c s).1.events ≡ s.events
unfolding copy_into
copy_into-events b o c s = ground arith

parse-events : (b : List ℕ) (s : Session) → (parse b s).1.events ≡ s.events
unfolding parse
parse-events b s = ground arith

-- What holds of the events after each part of a sequence holds after all of it.
pub bind-keeps :
    {A B : Type 0} (P : List Event → Type 0) (r : Outcome A × Session) (f : A → M B)
    → P r.1.events
    → ((a : A) (t : Session) → P t.events → P (f a t).1.events)
    → P (bind r f).1.events
bind-keeps P (ok a, t) f h k = k a t h
bind-keeps P (throw e, t) f h k = h
bind-keeps P (undefined_behaviour, t) f h k = h
bind-keeps P (out_of_fuel, t) f h k = h

-- Whether or not the address of the peer is read.
pub with_endpoint-keeps :
    (P : Outcome (Unit {0}) × Session → Type 0) (o : Option Fault) (m : M (Unit {0})) (s : Session)
    → P (m s)
    → ((fault : Fault) → o ≡ some fault → P (throw fault, s))
    → P (with_endpoint o m s)
unfolding with_endpoint
with_endpoint-keeps P none m s h k = h
with_endpoint-keeps P (some fault) m s h k = k fault refl

pub with_endpoint-none :
    (o : Option Fault) (m : M (Unit {0})) (s : Session) → o ≡ none → with_endpoint o m s ≡ m s
unfolding with_endpoint
with_endpoint-none o m s e = rw e refl

same-keeps : (P : List Event → Type 0) (es fs : List Event) → es ≡ fs → P fs → P es
same-keeps P es fs e h = rw e h

payload-keeps :
    (P : List Event → Type 0) (hdr full : List ℕ) (s : Session)
    → P s.events
    → P
        ((if ltb 0 (read32 hdr 6) then read_payload full (read32 hdr 6) else return full)
          s).1.events
unfolding read_payload
payload-keeps P hdr full s h = elim (Bool-cases (ltb 0 (read32 hdr 6))) [
  | inl some_bytes ↦ rw some_bytes (
      bind-keeps P (async_read (read32 hdr 6) s) (copy_into full 12)
        (same-keeps P _ _ (async_read-events (read32 hdr 6) s) h)
        λ bytes t ht. same-keeps P _ _ (copy_into-events full 12 bytes t) ht)
  | inr empty ↦ rw empty h
]

pub read_frame-keeps :
    (P : List Event → Type 0) (s : Session) → P s.events → P (read_frame s).1.events
unfolding read_frame
read_frame-keeps P s h =
    bind-keeps P (async_read 12 s) _ (same-keeps P _ _ (async_read-events 12 s) h) λ hdr t ht.
      bind-keeps P (copy_into _ 0 hdr t) _ (same-keeps P _ _ (copy_into-events _ 0 hdr t) ht)
        λ full u hu.
          bind-keeps P _ parse (payload-keeps P hdr full u hu)
            λ whole v hv. same-keeps P _ _ (parse-events whole v) hv

pub attempt-keeps :
    (P : List Event → Type 0) (fails : ℕ → Bool) (e : Fault) (ev : Event) (s : Session)
    → P s.events
    → P (ev ∷ s.events)
    → P (attempt fails e ev s).1.events
unfolding attempt
attempt-keeps P fails e ev s h k = elim (Bool-cases (fails (length s.events))) [
  | inl bad ↦ rw bad h
  | inr good ↦ rw good k
]

pub write_frame-keeps :
    (P : List Event → Type 0) (env : Env) (m : MsgType) (s : Session)
    → P s.events
    → P (sent (wire m) ∷ s.events)
    → P (write_frame env (bare m) s).1.events
write_frame-keeps P env m s h k =
    rw (write_frame-bare env m s) (attempt-keeps P env.write_fails _ _ s h k)
