-- ===== src/Node/Coordinator/Health.antt =====
-- secure_distributed_node/src/main_coordinator.cpp: the handler of `/health`. It takes the mutex of the
-- coordinator for the statuses, for the reachability of each worker, and for `all_running`, and the
-- polling threads may take it in between.
use Prim.Native.String.{String}
use text.Mathlib.Text
use edge_ipc_daemon.Prelude.{
  ℕ, zero, suc, ◌≡◌, refl, Bool, false, ◌&&◌, List, [], ◌∷◌, ◌++◌, Option, none, some, arith, ◌==◌,
}
use edge_ipc_daemon.Node.Coordinator.{
  Status, WorkerConn, connect, record_answer, poll, polls, latest_statuses, is_reachable,
  all_nodes_running, no_stopped, answers_of, last_ok, last_came, polled,
}

pub record Entry (V : Type 0) : Type 0 where
  pub node_id : String
  pub fsm_state : String
  pub last_value : V
  pub reachable : Bool

pub record Report (V : Type 0) : Type 0 where
  pub workers : List (Entry V)
  pub all_running : Bool

-- Answers of the workers, by their indices, in the order in which the threads take the mutex.
abbrev pub Answers : Type 0 → Type 0
Answers V = List (ℕ × Option (Status V))

module _ {V : Type 0} where
  -- With the entry of a worker, if it has a status.
  abbrev with_entry : Option (Status V) → String → Bool → List (Entry V) → List (Entry V)
  with_entry none id came rest = rest
  with_entry (some st) id came rest =
      record {
        node_id = id;
        fsm_state = st.fsm_state;
        last_value = st.last_value;
        reachable = came;
      }
      ∷ rest

  -- The loop over the map of statuses, each worker with the answers that come before it is asked for.
  unfoldable pub health_entries :
      (String → Option (Status V))
      → List (WorkerConn V)
      → List (String × Answers V)
      → List (Entry V) × List (WorkerConn V)
  health_entries statuses ws [] = ([], ws)
  health_entries statuses ws ((id, between) ∷ ids) =
      let now = polls ws between in
      let rest = health_entries statuses now ids in
      (with_entry (statuses id) id (is_reachable now id) rest.0, rest.1)

  -- The handler, for the names of the workers in their order, with the answers that come before it asks
  -- whether all run.
  unfoldable pub health : List (WorkerConn V) → List (String × Answers V) → Answers V → Report V
  health ws ids last =
      let entries = health_entries (latest_statuses ws) ws ids in
      record { workers = entries.0; all_running = all_nodes_running (polls entries.1 last) }

  -- The two workers of the program.
  unfoldable pub main_workers : Status V → List (WorkerConn V)
  main_workers blank = connect blank ("worker1" ∷ "worker2" ∷ [])

  polls_two :
      (v w : WorkerConn V) (answers : Answers V)
      → polls (v ∷ w ∷ []) answers
        ≡ polled v (answers_of 0 answers) ∷ polled w (answers_of 1 answers) ∷ []
  unfolding polls poll record_answer
  polls_two v w [] = refl
  polls_two v w ((zero, none) ∷ answers) = polls_two (record_answer v none) w answers
  polls_two v w ((zero, some s) ∷ answers) = polls_two (record_answer v (some s)) w answers
  polls_two v w ((suc zero, none) ∷ answers) = polls_two v (record_answer w none) answers
  polls_two v w ((suc zero, some s) ∷ answers) = polls_two v (record_answer w (some s)) answers
  polls_two v w ((suc (suc idx), answer) ∷ answers) =
      let not_first : (suc (suc idx) == 0) ≡ false = ground arith in
      let not_second : (suc (suc idx) == 1) ≡ false = ground arith in
      rw (not_first, not_second) (polls_two v w answers)

  polls-append :
      (ws : List (WorkerConn V)) (xs ys : Answers V) → polls (polls ws xs) ys ≡ polls ws (xs ++ ys)
  unfolding polls
  polls-append ws [] ys = refl
  polls-append ws ((idx, answer) ∷ xs) ys = polls-append (poll ws idx answer) xs ys

  -- The entry of a worker, from the answers before the statuses are read, and those before it is asked
  -- for.
  abbrev pub entry :
      String → Status V → List (Option (Status V)) → List (Option (Status V)) → Entry V
  entry id blank read asked = record {
    node_id = id;
    fsm_state = (last_ok blank read).fsm_state;
    last_value = (last_ok blank read).last_value;
    reachable = last_came false asked;
  }

  abbrev pub runs : Status V → List (Option (Status V)) → Bool
  runs blank answers =
      last_came false answers && Text.◌==◌ (last_ok blank answers).fsm_state "RUNNING"

  -- The state of the two workers after answers.
  abbrev two : Status V → Answers V → List (WorkerConn V)
  two blank answers = polls (main_workers blank) answers

  two-entries :
      (blank : Status V) (answers : Answers V)
      → two blank answers
        ≡ record {
          node_id = "worker1";
          last_status = last_ok blank (answers_of 0 answers);
          reachable = last_came false (answers_of 0 answers);
        }
          ∷ record {
            node_id = "worker2";
            last_status = last_ok blank (answers_of 1 answers);
            reachable = last_came false (answers_of 1 answers);
          }
          ∷ []
  unfolding main_workers connect
  two-entries blank answers = polls_two _ _ answers

  first_statuses :
      (blank : Status V) (answers : Answers V)
      → latest_statuses (two blank answers) "worker1" ≡ some (last_ok blank (answers_of 0 answers))
  unfolding latest_statuses
  first_statuses blank answers = rw (two-entries blank answers) refl

  second_statuses :
      (blank : Status V) (answers : Answers V)
      → latest_statuses (two blank answers) "worker2" ≡ some (last_ok blank (answers_of 1 answers))
  unfolding latest_statuses
  second_statuses blank answers = rw (two-entries blank answers) refl

  first_reachable :
      (blank : Status V) (answers : Answers V)
      → is_reachable (two blank answers) "worker1" ≡ last_came false (answers_of 0 answers)
  unfolding is_reachable
  first_reachable blank answers = rw (two-entries blank answers) refl

  second_reachable :
      (blank : Status V) (answers : Answers V)
      → is_reachable (two blank answers) "worker2" ≡ last_came false (answers_of 1 answers)
  unfolding is_reachable
  second_reachable blank answers = rw (two-entries blank answers) refl

  both_running :
      (blank : Status V) (answers : Answers V)
      → all_nodes_running (two blank answers)
        ≡ (runs blank (answers_of 0 answers) && runs blank (answers_of 1 answers))
  unfolding all_nodes_running no_stopped
  both_running blank answers = rw (two-entries blank answers) (ground arith)

  -- However the polls interleave with a request: the report has for each worker the state and the value of
  -- its last status before the request, and whether its last poll was answered when it is asked for,
  -- which may be later; `all_running` is that of the last moment: both workers answered their last
  -- poll, and their last statuses say RUNNING.
  pub health-polls :
      (blank : Status V) (xs ys zs last : Answers V)
      → health (polls (main_workers blank) xs) (("worker1", ys) ∷ ("worker2", zs) ∷ []) last
        ≡ record {
          workers =
              entry "worker1" blank (answers_of 0 xs) (answers_of 0 (xs ++ ys))
              ∷ entry "worker2" blank (answers_of 1 xs) (answers_of 1 (xs ++ ys ++ zs))
              ∷ [];
          all_running =
              runs blank (answers_of 0 (xs ++ ys ++ zs ++ last))
              && runs blank (answers_of 1 (xs ++ ys ++ zs ++ last));
        }
  unfolding health health_entries
  health-polls blank xs ys zs last =
      let ws = main_workers blank in
      rw
        (
          polls-append ws xs ys,
          polls-append ws (xs ++ ys) zs,
          polls-append ws (xs ++ ys ++ zs) last,
        )
        (rw
          (
            first_statuses blank xs,
            second_statuses blank xs,
            first_reachable blank (xs ++ ys),
            second_reachable blank (xs ++ ys ++ zs),
            both_running blank (xs ++ ys ++ zs ++ last),
          )
          refl)
