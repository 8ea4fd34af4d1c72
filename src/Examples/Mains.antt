-- ===== src/Examples/Mains.antt =====
-- The life of a node and the main functions at concrete inputs.
use Prim.Native.String.{String}
use edge_ipc_daemon.Prelude.{ℕ, leb, true, List, [], ◌∷◌, Option, some, ◌≡◌, if◌then◌else◌}
use edge_ipc_daemon.Prelude.Stoi.{decimal}
use edge_ipc_daemon.Node.Life.{
  returned, threw_logic_error, LifeEvent, starts, stops, alarmed, made, lives,
}
use edge_ipc_daemon.Node.Life.Phases.{lives-made}
use edge_ipc_daemon.Node.Credentials.{Files}
use edge_ipc_daemon.Node.Main.{ServerCredentials, serve_node, main_node, Serves, main_node-decimal}
use edge_ipc_daemon.Node.Coordinator.{Status, polls}
use edge_ipc_daemon.Node.Coordinator.Health.{main_workers, health, health-polls}
use edge_ipc_daemon.Opcua.Model.{Ua, Call, add_variable}

-- A node that is started again after a stop: the second of these starts does nothing.
abbrev restarted : List LifeEvent
restarted =
    starts (some 50051) ∷ alarmed ∷ stops ∷ starts (some 50051) ∷ starts (some 50051) ∷ stops ∷ []

lives-made_example :
    (lives made restarted).0
    ≡ returned ∷ returned ∷ returned ∷ threw_logic_error ∷ returned ∷ returned ∷ []
lives-made_example = (lives-made restarted).0

-- The server is bound to the port that it asks for.
abbrev granted : ServerCredentials → ℕ → Option ℕ
granted creds port = some port

abbrev node1 : List ℕ
node1 = b'n' ∷ b'1' ∷ []

abbrev certs : List ℕ
certs = b'c' ∷ []

-- Each file has its name.
abbrev all_files : Files
all_files dir file = some file

abbrev node_args : List (List ℕ)
node_args = node1 ∷ decimal 50052 ∷ certs ∷ []

main_node-decimal_example :
    (main_node all_files granted node_args true ≡ serve_node all_files granted node_args 50052 true)
    × Serves all_files granted node_args 50052 (serve_node all_files granted node_args 50052 true)
main_node-decimal_example = main_node-decimal all_files granted node1 50052 (certs ∷ []) true

abbrev status_of : String → ℕ → Status ℕ
status_of state value = record {
  node_id = "worker";
  fsm_state = state;
  processed_count = 1;
  last_value = value;
}

-- The second worker starts to run while the request is handled.
health-polls_example :
    health
      (polls
        (main_workers (status_of "" 0))
        ((0, some (status_of "RUNNING" 50)) ∷ (1, some (status_of "IDLE" 51)) ∷ []))
      (("worker1", []) ∷ ("worker2", []) ∷ [])
      ((1, some (status_of "RUNNING" 52)) ∷ [])
    ≡ record {
      workers =
          record { node_id = "worker1"; fsm_state = "RUNNING"; last_value = 50; reachable = true }
          ∷ record { node_id = "worker2"; fsm_state = "IDLE"; last_value = 51; reachable = true }
          ∷ [];
      all_running = true;
    }
health-polls_example =
    health-polls (status_of "" 0)
      ((0, some (status_of "RUNNING" 50)) ∷ (1, some (status_of "IDLE" 51)) ∷ []) [] []
      ((1, some (status_of "RUNNING" 52)) ∷ [])

abbrev pub ua : Ua
ua = record {
  status_good = 0;
  objects_folder = 85;
  organizes = 35;
  folder_type = 61;
  has_component = 47;
  base_data_variable_type = 63;
  type_float = record { namespace = 0; numeric = 10 };
  mask_read = 1;
}

-- The third variable is refused.
abbrev refuses : Call → ℕ
refuses (add_variable n) = if leb 1003 n.node_id.numeric then 2147483648 else 0
refuses call = 0
