-- ===== src/Daemon/Bus.antt =====
-- src/DaemonBus.cpp: the methods on the state machine, when no other thread calls it meanwhile, and
-- the life of the connection. What the calls of sd-bus return is a parameter.
pub mod Diagnostics
use Prim.Native.String.{String}
use edge_ipc_daemon.Prelude.{
  ℕ, ◌≡◌, refl, Bool, true, false, ◌&&◌, not, List, [], ◌∷◌, ◌++◌, Option, none, some,
  if◌then◌else◌,
}
use edge_ipc_daemon.Daemon.State.{DaemonState, state_to_string}
use edge_ipc_daemon.Daemon.Manager.{Pc, threw}
use edge_ipc_daemon.Daemon.Manager.Alone.{start, halt, promised}

pub data Reply : Type 0 where
  returned_ok : Reply
  -- org.agntx.Error.InvalidState, with the state that the exception names
  invalid_state : DaemonState → Reply

module _ {V : Type 0} where
  unfoldable pub reply_of : Pc V → Reply
  reply_of (threw state) = invalid_state state
  reply_of _ = returned_ok

-- `none` is a state machine that is gone.
unfoldable pub method_start : Option DaemonState → Reply × Option DaemonState
method_start none = (returned_ok, none)
method_start (some state) =
    let (pc, next, notices) = promised {V = ℕ} true true start state in (reply_of pc, some next)

unfoldable pub method_halt : Option DaemonState → Reply × Option DaemonState
method_halt none = (returned_ok, none)
method_halt (some state) =
    let (pc, next, notices) = promised {V = ℕ} true true halt state in (returned_ok, some next)

unfoldable pub prop_current_state : Option DaemonState → String
prop_current_state none = "IDLE"
prop_current_state (some state) = state_to_string state

-- The members of `Impl` that `start` and `stop` use: whether `bus` and `slot` are set, and
-- `running`; and the calls of `unref` so far.
pub record Impl : Type 0 where
  pub bus : Bool
  pub slot : Bool
  pub running : Bool
  pub freed : List String

abbrev pub closed : Impl
closed = record { bus = false; slot = false; running = false; freed = [] }

-- With the outcomes of opening the bus, adding the object and requesting the name. A call that
-- fails sets no pointer.
unfoldable pub bus_start : Bool → Bool → Bool → Impl → Bool × Impl
bus_start false added named i = (false, i)
bus_start true false named i = (false, record i { bus = true })
bus_start true true false i = (false, record i { bus = true; slot = true })
bus_start true true true i = (true, record i { bus = true; slot = true; running = true })

-- After the worker was joined.
unfoldable pub release_all : Impl → Impl
release_all i = record i {
  bus = false;
  slot = false;
  freed = (if i.bus then "bus" ∷ [] else []) ++ (if i.slot then "slot" ∷ [] else []) ++ i.freed;
}

unfoldable pub bus_stop : Impl → Impl
bus_stop i = if i.running then release_all (record i { running = false }) else i

-- After a start, two stops (the second is the destructor's) have freed the bus and the slot once
-- each if the start returned true, and nothing otherwise: if it opened the bus and failed later,
-- the bus stays open. The start returns true exactly when all its three calls succeed.
pub bus_stop-bus_start :
    (opened added named : Bool)
    → let r = bus_start opened added named closed in
      let i = bus_stop (bus_stop r.1) in
      (r.0 ≡ (opened && added && named))
      × (i.freed ≡ (if r.0 then "bus" ∷ "slot" ∷ [] else []))
      × (i.bus ≡ (opened && not r.0))
      × (i.running ≡ false)
unfolding bus_start bus_stop release_all
bus_stop-bus_start false added named = (refl, refl, refl, refl)
bus_stop-bus_start true false named = (refl, refl, refl, refl)
bus_stop-bus_start true true false = (refl, refl, refl, refl)
bus_stop-bus_start true true true = (refl, refl, refl, refl)
