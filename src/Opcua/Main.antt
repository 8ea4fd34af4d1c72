-- ===== src/Opcua/Main.antt =====
-- opcua_edge_server/src/server_main.c, and how update_loop.c starts and stops its thread.
use edge_ipc_daemon.Prelude.{
  ℕ, zero, suc, Bool, true, not, ◌&&◌, List, [], ◌∷◌, ◌++◌, if◌then◌else◌, ◌==◌,
}
use edge_ipc_daemon.Opcua.Source.{num_nodes}
use edge_ipc_daemon.Opcua.Model.{
  Ua, Call, new_server, set_default, set_limits, add_namespace, add_object, add_variable,
  set_source, start_updates, run_server, stop_updates, delete_server, machine_node, variable_node,
  cnc_node_id, information_model_init, set_sources,
}

abbrev setup : List Call
setup =
    new_server
    ∷ set_default
    ∷ set_limits (record {
      max_secure_channels = 100;
      max_sessions = 50;
      min_publishing_interval = 10;
      max_publishing_interval = 5000;
    })
    ∷ []

module _ (ua : Ua) (status : Call → ℕ) where
  -- The exit code, with the calls made; `created` is whether `update_loop_start` can make its thread,
  -- which it returns 0 for. `UA_Server_run` returns after a signal.
  unfoldable pub server_main : Bool → ℕ × List Call
  server_main created =
      let sc = information_model_init ua status in
      let ready = setup ++ sc.1 ++ set_sources 0 num_nodes ++ start_updates ∷ [] in
      if not (sc.0 == ua.status_good)
      then (1, setup ++ sc.1 ++ delete_server ∷ [])
      else if not created
      then (1, ready ++ delete_server ∷ [])
      else (0, ready ++ run_server ∷ stop_updates ∷ delete_server ∷ [])

  -- The calls of a list until the first that is not answered with a good status, and whether all are.
  abbrev pub reached : List Call → List Call
  reached [] = []
  reached (c ∷ cs) = c ∷ (if status c == ua.status_good then reached cs else [])

  abbrev pub all_good : List Call → Bool
  all_good [] = true
  all_good (c ∷ cs) = (status c == ua.status_good) && all_good cs

  abbrev pub nine : {A : Type 0} → (ℕ → A) → List A
  nine f = f 0 ∷ f 1 ∷ f 2 ∷ f 3 ∷ f 4 ∷ f 5 ∷ f 6 ∷ f 7 ∷ f 8 ∷ []

  unfoldable pub adds : List Call
  adds = add_object (machine_node ua) ∷ nine (λ i. add_variable (variable_node ua i))

  variables_from : ℕ → ℕ → List Call
  variables_from i zero = []
  variables_from i (suc left) = add_variable (variable_node ua i) ∷ variables_from (suc i) left

  -- The calls that the program is to make: up to the first failure, and the deletion of the server.
  abbrev pub expected : Bool → List Call
  expected created =
      setup
      ++ (add_namespace "urn:cnc-edge:CncMachine" ∷ reached adds)
      ++ ((if all_good adds
            then nine (λ i. set_source (cnc_node_id i))
              ++ start_updates ∷ (if created then run_server ∷ stop_updates ∷ [] else [])
            else [])
          ++ delete_server ∷ [])
