-- ===== src/Node/Coordinator.antt =====
-- secure_distributed_node/src/TelemetryCoordinator.cpp: what the coordinator keeps of its workers.
-- The polling threads, one for each worker, take the mutex for each answer.
pub mod Health
pub mod Main
use Prim.Native.String.{String}
use text.Mathlib.Text
use edge_ipc_daemon.Prelude.{
  ℕ, zero, suc, ◌≡◌, ap, ◌∙◌, refl, Bool, true, false, not, ◌&&◌, List, [], ◌∷◌, Option, none, some,
  get_elem?, if◌then◌else◌, ◌==◌, arith, Bool-cases, inl, inr,
}

-- The message of the protocol that `GetNodeStatus` answers.
pub record Status (V : Type 0) : Type 0 where
  pub node_id : String
  pub fsm_state : String
  pub processed_count : ℕ
  pub last_value : V

pub record WorkerConn (V : Type 0) : Type 0 where
  pub node_id : String
  pub last_status : Status V
  pub reachable : Bool

module _ {V : Type 0} where
  -- The constructor, with the empty message for the first statuses.
  unfoldable pub connect : Status V → List String → List (WorkerConn V)
  connect blank [] = []
  connect blank (node_id ∷ rest) =
      record { node_id = node_id; last_status = blank; reachable = false } ∷ connect blank rest

  -- An answer; `none` is a status that is not ok.
  unfoldable pub record_answer : WorkerConn V → Option (Status V) → WorkerConn V
  record_answer w none = record w { reachable = false }
  record_answer w (some status) = record w { last_status = status; reachable = true }

  -- One round of `PollWorker`.
  unfoldable pub poll : List (WorkerConn V) → ℕ → Option (Status V) → List (WorkerConn V)
  poll [] idx answer = []
  poll (w ∷ ws) zero answer = record_answer w answer ∷ ws
  poll (w ∷ ws) (suc idx) answer = w ∷ poll ws idx answer

  -- The map of `LatestStatuses`: of two workers with one name the later one counts.
  unfoldable pub latest_statuses : List (WorkerConn V) → String → Option (Status V)
  latest_statuses [] node_id = none
  latest_statuses (w ∷ ws) node_id = elim (latest_statuses ws node_id) [
    | none ↦ if Text.◌==◌ w.node_id node_id then some w.last_status else none
    | some status ↦ some status
  ]

  -- Of two workers with one name the earlier one counts.
  unfoldable pub is_reachable : List (WorkerConn V) → String → Bool
  is_reachable [] node_id = false
  is_reachable (w ∷ ws) node_id =
      let rest = is_reachable ws node_id in
      if Text.◌==◌ w.node_id node_id then w.reachable else rest

  abbrev is_running : WorkerConn V → Bool
  is_running w = w.reachable && Text.◌==◌ w.last_status.fsm_state "RUNNING"

  unfoldable pub no_stopped : List (WorkerConn V) → Bool
  no_stopped [] = true
  no_stopped (w ∷ ws) = let rest = no_stopped ws in if not (is_running w) then false else rest

  unfoldable pub all_nodes_running : List (WorkerConn V) → Bool
  all_nodes_running [] = false
  all_nodes_running (w ∷ ws) = no_stopped (w ∷ ws)

  -- The answers of all workers, in the order in which the threads get the mutex.
  unfoldable pub polls : List (WorkerConn V) → List (ℕ × Option (Status V)) → List (WorkerConn V)
  polls ws [] = ws
  polls ws ((idx, answer) ∷ answers) = polls (poll ws idx answer) answers

  abbrev is_some : Option (Status V) → Bool
  is_some none = false
  is_some (some s) = true

  -- Those of one worker.
  abbrev pub answers_of : ℕ → List (ℕ × Option (Status V)) → List (Option (Status V))
  answers_of i [] = []
  answers_of i ((idx, answer) ∷ answers) =
      if idx == i then answer ∷ answers_of i answers else answers_of i answers

  -- The last status that came, or the one before.
  abbrev pub last_ok : Status V → List (Option (Status V)) → Status V
  last_ok s [] = s
  last_ok s (none ∷ answers) = last_ok s answers
  last_ok s (some t ∷ answers) = last_ok t answers

  -- Whether the last answer was a status.
  abbrev pub last_came : Bool → List (Option (Status V)) → Bool
  last_came b [] = b
  last_came b (answer ∷ answers) = last_came (is_some answer) answers

  abbrev pub polled : WorkerConn V → List (Option (Status V)) → WorkerConn V
  polled w answers = record {
    node_id = w.node_id;
    last_status = last_ok w.last_status answers;
    reachable = last_came w.reachable answers;
  }

  get_elem?-poll :
      (ws : List (WorkerConn V)) (idx : ℕ) (answer : Option (Status V)) (w : WorkerConn V)
      → get_elem? ws idx ≡ some w
      → get_elem? (poll ws idx answer) idx ≡ some (record_answer w answer)
  unfolding poll
  get_elem?-poll [] idx answer w e = cc
  get_elem?-poll (v ∷ ws) zero answer w e = let same : v ≡ w = cc in rw same refl
  get_elem?-poll (v ∷ ws) (suc idx) answer w e = get_elem?-poll ws idx answer w e

  get_elem?-poll_ne :
      (ws : List (WorkerConn V)) (idx i : ℕ) (answer : Option (Status V))
      → (idx == i) ≡ false
      → get_elem? (poll ws idx answer) i ≡ get_elem? ws i
  unfolding poll
  get_elem?-poll_ne [] idx i answer e = refl
  get_elem?-poll_ne (v ∷ ws) zero zero answer e = absurd (ground arith)
  get_elem?-poll_ne (v ∷ ws) zero (suc i) answer e = refl
  get_elem?-poll_ne (v ∷ ws) (suc idx) zero answer e = refl
  get_elem?-poll_ne (v ∷ ws) (suc idx) (suc i) answer e =
      get_elem?-poll_ne ws idx i answer (ground arith)

  polled_answer :
      (w : WorkerConn V) (answer : Option (Status V)) (answers : List (Option (Status V)))
      → polled (record_answer w answer) answers ≡ polled w (answer ∷ answers)
  unfolding record_answer
  polled_answer w none answers = refl
  polled_answer w (some s) answers = refl

  -- However the answers of the workers interleave, each worker keeps its name, the last status that
  -- it sent, the one from before if it sent none, and counts as reachable exactly when its last
  -- poll was answered; and the answers of other workers change nothing of that.
  pub polls-polled :
      (ws : List (WorkerConn V)) (answers : List (ℕ × Option (Status V))) (i : ℕ) (w : WorkerConn V)
      → get_elem? ws i ≡ some w
      → get_elem? (polls ws answers) i ≡ some (polled w (answers_of i answers))
  unfolding polls
  polls-polled ws [] i w e = e
  polls-polled ws ((idx, answer) ∷ answers) i w e = elim (Bool-cases (idx == i)) [
    | inl mine ↦
        let at : idx ≡ i = ground arith in
        let here : get_elem? (poll ws idx answer) i ≡ some (record_answer w answer) =
          rw at (get_elem?-poll ws i answer w e) in
        rw mine (
          polls-polled (poll ws idx answer) answers i (record_answer w answer) here
          ∙ ap some (polled_answer w answer (answers_of i answers)))
    | inr other ↦ rw other (
        polls-polled (poll ws idx answer) answers i w (get_elem?-poll_ne ws idx i answer other ∙ e))
  ]
