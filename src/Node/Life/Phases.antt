-- ===== src/Node/Life/Phases.antt =====
-- TelemetryNode.cpp: the four phases of a node's life.
use edge_ipc_daemon.Prelude.{
  ℕ, ◌≡◌, refl, ◌⊎◌, Bool, true, false, List, [], ◌∷◌, Option, none, some, arith,
}
use edge_ipc_daemon.Daemon.State.{DaemonState, idle, running, fault, shutdown}
use edge_ipc_daemon.Node.Life.{
  Ending, returned, threw_logic_error, Life, made, launch, after_start, start_node, stop_node,
  destroy, LifeEvent, starts, stops, alarmed, live, lives,
}

-- A node is fresh until its first `Start`, up until a `Stop`, and then down. A `Start` of a node that
-- is down leaves it stuck until a `Stop`. A node that is up has a bound port or no server.
pub data Phase : Type 0 where
  fresh : Phase
  up : Option ℕ → Phase
  down : Phase
  stuck : Phase

abbrev pub next : Phase → LifeEvent → Phase
next fresh (starts bound) = up bound
next down (starts bound) = stuck
next phase (starts bound) = phase
next fresh stops = fresh
next phase stops = down
next phase alarmed = phase

abbrev pub phase_after : Phase → List LifeEvent → Phase
phase_after phase [] = phase
phase_after phase (e ∷ es) = phase_after (next phase e) es

-- A call throws exactly when it is a `Start` of a node that is down.
abbrev pub ending_of : Phase → LifeEvent → Ending
ending_of down (starts bound) = threw_logic_error
ending_of phase e = returned

abbrev pub endings : Phase → List LifeEvent → List Ending
endings phase [] = []
endings phase (e ∷ es) = ending_of phase e ∷ endings (next phase e) es

abbrev pub is_up : Phase → Bool
is_up (up bound) = true
is_up phase = false

abbrev pub has_server : Phase → Bool
has_server (up (some port)) = true
has_server phase = false

-- `running_` is set in these phases.
abbrev pub is_set : Phase → Bool
is_set (up bound) = true
is_set stuck = true
is_set phase = false

-- The states of the state machine in a phase.
abbrev pub Allows : Phase → DaemonState → Type 0
Allows fresh state = state ≡ idle
Allows (up bound) state = (state ≡ running) ⊎ (state ≡ fault)
Allows down state = state ≡ shutdown
Allows stuck state = state ≡ shutdown

-- The port that BoundPort tells.
abbrev pub Tells : Phase → ℕ → Type 0
Tells (up (some port)) told = told ≡ port
Tells (up none) told = told ≡ 0
Tells phase told = Unit {0}

pub record InPhase (phase : Phase) (n : Life) : Type 0 where
  pub running_ok : n.is_running ≡ is_set phase
  pub producer_ok : n.producer ≡ is_up phase
  pub server_ok : n.server ≡ has_server phase
  pub fsm_ok : Allows phase n.fsm
  pub port_ok : Tells phase n.actual_port

live-InPhase :
    (phase : Phase) (n : Life) (e : LifeEvent)
    → InPhase phase n
    → ((live n e).0 ≡ ending_of phase e) × InPhase (next phase e) (live n e).1
unfolding live start_node after_start launch stop_node
live-InPhase fresh n (starts none) h = ground arith
live-InPhase fresh n (starts (some port)) h = ground arith
live-InPhase (up none) n (starts bound) h = ground arith
live-InPhase (up (some port)) n (starts bound) h = ground arith
live-InPhase down n (starts bound) h = ground arith
live-InPhase stuck n (starts bound) h = ground arith
live-InPhase fresh n stops h = ground arith
live-InPhase (up bound) n stops h = ground arith
live-InPhase down n stops h = ground arith
live-InPhase stuck n stops h = ground arith
live-InPhase fresh n alarmed h = ground arith
live-InPhase (up none) n alarmed h = ground arith
live-InPhase (up (some port)) n alarmed h = ground arith
live-InPhase down n alarmed h = ground arith
live-InPhase stuck n alarmed h = ground arith

lives-InPhase :
    (es : List LifeEvent) (phase : Phase) (n : Life)
    → InPhase phase n
    → ((lives n es).0 ≡ endings phase es) × InPhase (phase_after phase es) (lives n es).1
unfolding lives
lives-InPhase [] phase n h = (refl, h)
lives-InPhase (e ∷ es) phase n h =
    let a = live-InPhase phase n e h in
    let b = lives-InPhase es (next phase e) (live n e).1 a.1 in (rw (a.0, b.0) refl, b.1)

made-InPhase : InPhase fresh made
unfolding made
made-InPhase = record {
  running_ok = refl;
  producer_ok = refl;
  server_ok = refl;
  fsm_ok = refl;
  port_ok = tt;
}

destroy-InPhase :
    (phase : Phase) (n : Life)
    → InPhase phase n
    → let d = destroy n in
      (d.0 ≡ returned) × (d.1.is_running ≡ false) × (d.1.producer ≡ false) × (d.1.server ≡ false)
unfolding destroy stop_node
destroy-InPhase fresh n h = ground arith
destroy-InPhase (up none) n h = ground arith
destroy-InPhase (up (some port)) n h = ground arith
destroy-InPhase down n h = ground arith
destroy-InPhase stuck n h = ground arith

-- After any calls of Start and Stop, one after another, with faults between them, a node is in the
-- phase that they lead to: it has a producer exactly between a Start that worked and the next Stop,
-- and a server then if one was built, and tells its port. A Start of a node that was stopped throws,
-- and those after it return, and start nothing, until a Stop. No call ends the program, nor does the
-- destructor, which leaves no producer and no server.
pub lives-made :
    (es : List LifeEvent)
    → let r = lives made es in
      let d = destroy r.1 in
      (r.0 ≡ endings fresh es)
      × InPhase (phase_after fresh es) r.1
      × (d.0 ≡ returned)
      × (d.1.is_running ≡ false)
      × (d.1.producer ≡ false)
      × (d.1.server ≡ false)
lives-made es =
    let (a, b) = lives-InPhase es fresh made made-InPhase in
    let (c, d, e, f) = destroy-InPhase (phase_after fresh es) (lives made es).1 b in
    (a, b, c, d, e, f)
