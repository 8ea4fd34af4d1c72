-- ===== src/Opcua/Model.antt =====
-- opcua_edge_server/src/information_model.c, and the second loop of `data_source_init`: the calls of
-- open62541, in order. The library answers a call of an `add` with the status `status`.
use Prim.Native.String.{String}
use edge_ipc_daemon.Prelude.{ℕ, zero, suc, List, [], ◌∷◌, ◌++◌, get_or, if◌then◌else◌, ◌==◌}
use edge_ipc_daemon.Opcua.Source.{num_nodes}

pub record NodeId : Type 0 where
  pub namespace : ℕ
  pub numeric : ℕ

-- The constants of open62541 that the calls pass on.
pub record Ua : Type 0 where
  pub status_good : ℕ
  pub objects_folder : ℕ
  pub organizes : ℕ
  pub folder_type : ℕ
  pub has_component : ℕ
  pub base_data_variable_type : ℕ
  pub type_float : NodeId
  pub mask_read : ℕ

pub record ObjectNode : Type 0 where
  pub node_id : NodeId
  pub parent : NodeId
  pub reference_type : NodeId
  pub browse_name : String
  pub type_definition : NodeId
  pub display_name : String

-- The value is 0.0f for each node, and the interval is in milliseconds.
pub record VariableNode : Type 0 where
  pub node_id : NodeId
  pub parent : NodeId
  pub reference_type : NodeId
  pub browse_name : String
  pub type_definition : NodeId
  pub display_name : String
  pub data_type : NodeId
  pub access_level : ℕ
  pub minimum_sampling_interval : ℕ
  pub context : ℕ

pub record Limits : Type 0 where
  pub max_secure_channels : ℕ
  pub max_sessions : ℕ
  pub min_publishing_interval : ℕ
  pub max_publishing_interval : ℕ

-- The calls on the server, and those of update_loop.c.
pub data Call : Type 0 where
  new_server : Call
  set_default : Call
  set_limits : Limits → Call
  add_namespace : String → Call
  add_object : ObjectNode → Call
  add_variable : VariableNode → Call
  set_source : NodeId → Call
  start_updates : Call
  run_server : Call
  stop_updates : Call
  delete_server : Call

abbrev pub cnc_ns_idx : ℕ
cnc_ns_idx = 2

abbrev pub g_node_numeric_ids : List ℕ
g_node_numeric_ids = 1001 ∷ 1002 ∷ 1003 ∷ 1004 ∷ 1005 ∷ 1006 ∷ 1007 ∷ 1008 ∷ 1009 ∷ []

abbrev g_node_names : List String
g_node_names =
    "Spindle.Temperature_C" ∷ "Spindle.Torque_Nm" ∷ "Spindle.SpeedRPM" ∷ "Vibration.X_mms"
    ∷ "Vibration.Y_mms" ∷ "Vibration.Z_mms" ∷ "Axis.X_mm" ∷ "Axis.Y_mm" ∷ "Axis.Z_mm" ∷ []

-- UA_NODEID_NUMERIC.
abbrev numeric_node_id : ℕ → ℕ → NodeId
numeric_node_id namespace numeric = record { namespace = namespace; numeric = numeric }

abbrev pub cnc_node_id : ℕ → NodeId
cnc_node_id idx = numeric_node_id cnc_ns_idx (get_or g_node_numeric_ids idx 0)

module _ (ua : Ua) where
  abbrev pub machine_node : ObjectNode
  machine_node = record {
    node_id = numeric_node_id cnc_ns_idx 1000;
    parent = numeric_node_id 0 ua.objects_folder;
    reference_type = numeric_node_id 0 ua.organizes;
    browse_name = "CncMachine";
    type_definition = numeric_node_id 0 ua.folder_type;
    display_name = "CncMachine";
  }

  abbrev pub variable_node : ℕ → VariableNode
  variable_node idx = record {
    node_id = cnc_node_id idx;
    parent = numeric_node_id cnc_ns_idx 1000;
    reference_type = numeric_node_id 0 ua.has_component;
    browse_name = get_or g_node_names idx "";
    type_definition = numeric_node_id 0 ua.base_data_variable_type;
    display_name = get_or g_node_names idx "";
    data_type = ua.type_float;
    access_level = ua.mask_read;
    minimum_sampling_interval = 1;
    context = idx;
  }

  -- With the status, the calls made.
  module _ (status : Call → ℕ) where
    unfoldable pub add_variable_node : ℕ → ℕ × List Call
    add_variable_node idx = let call = add_variable (variable_node idx) in (status call, call ∷ [])

    -- The rounds of the loop, from the node `i`, with `left` nodes left.
    unfoldable pub add_variable_nodes : ℕ → ℕ → ℕ × List Call
    add_variable_nodes i zero = (ua.status_good, [])
    add_variable_nodes i (suc left) =
        let rest = add_variable_nodes (suc i) left in
        let sc = add_variable_node i in
        if sc.0 == ua.status_good then (rest.0, sc.1 ++ rest.1) else sc

    unfoldable pub information_model_init : ℕ × List Call
    information_model_init =
        let call = add_object machine_node in
        let front = add_namespace "urn:cnc-edge:CncMachine" ∷ call ∷ [] in
        let variables = add_variable_nodes 0 num_nodes in
        if status call == ua.status_good
        then (variables.0, front ++ variables.1)
        else (status call, front)

-- The second loop of `data_source_init`.
unfoldable pub set_sources : ℕ → ℕ → List Call
set_sources i zero = []
set_sources i (suc left) = set_source (cnc_node_id i) ∷ set_sources (suc i) left
