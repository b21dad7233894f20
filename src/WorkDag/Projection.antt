-- ===== src/WorkDag/Projection.antt =====
-- CORE/runtime/work_dag.py: `project_state` and `_projection_withheld`. The result is `none` where the
-- look-up of a node in the contract's plan raises `KeyError`.
use super_memory_brain.Base.{
  ℕ, String, Bool, true, false, ◌&&◌, ◌||◌, Option, none, some, List, [], ◌∷◌, eqb, ◌==◌,
  if◌then◌else◌,
}
use super_memory_brain.Json.{Value, Fields, get_or_null, is_text}
use super_memory_brain.WorkDag.Graph.{Graph}
use super_memory_brain.WorkDag.Contract.{
  Runtime, whole_of, DagCode, Parsed, refused, parsed, h7_binding_stale, current, Status, pending,
  in_progress, completed, blocked, cancelled, PlanItem, ContractView, contract_view,
}
use super_memory_brain.WorkDag.State.{valid_graph}

pub data ProjectionState : Type 0 where
  withheld stale_binding is_current : ProjectionState

pub record ProjectedNode : Type 0 where
  pub node_id : String
  pub label : String
  pub depends_on : List String
  pub status : Status
  pub ready : Bool
  pub blocked_by_dependencies : Bool

pub record Projection : Type 0 where
  pub state : ProjectionState
  pub code : DagCode
  pub dag_revision : ℕ
  pub contract_revision : ℕ
  pub plan_fingerprint : String
  pub ready_node_ids : List String
  pub active_node_ids : List String
  pub nodes : List ProjectedNode

-- `_projection_withheld`
abbrev pub projection_withheld : DagCode → Projection
projection_withheld code = record {
  state = withheld;
  code = code;
  dag_revision = 0;
  contract_revision = 0;
  plan_fingerprint = "";
  ready_node_ids = [];
  active_node_ids = [];
  nodes = [];
}

-- `status_by_id[id]` and `label_by_id[id]`
unfoldable pub find_item : String → List PlanItem → Option PlanItem
find_item id [] = none
find_item id (a ∷ items) = if a.node_id == id then some a else find_item id items

abbrev pub is_pending : Status → Bool
is_pending pending = true
is_pending in_progress = false
is_pending completed = false
is_pending blocked = false
is_pending cancelled = false

abbrev pub is_active : Status → Bool
is_active in_progress = true
is_active pending = false
is_active completed = false
is_active blocked = false
is_active cancelled = false

abbrev pub is_completed : Status → Bool
is_completed completed = true
is_completed pending = false
is_completed in_progress = false
is_completed blocked = false
is_completed cancelled = false

abbrev pub blocks_dependents : Status → Bool
blocks_dependents blocked = true
blocks_dependents cancelled = true
blocks_dependents pending = false
blocks_dependents in_progress = false
blocks_dependents completed = false

-- `dependency_statuses`
abbrev pub add_status : Option PlanItem → Option (List Status) → Option (List Status)
add_status (some a) (some statuses) = some (a.status ∷ statuses)
add_status (some a) none = none
add_status none statuses = none

unfoldable pub statuses_of : List PlanItem → List String → Option (List Status)
unfolding find_item
statuses_of plan [] = some []
statuses_of plan (id ∷ ids) = add_status (find_item id plan) (statuses_of plan ids)

unfoldable pub all_completed : List Status → Bool
all_completed [] = true
all_completed (s ∷ statuses) = is_completed s && all_completed statuses

unfoldable pub any_blocks : List Status → Bool
any_blocks [] = false
any_blocks (s ∷ statuses) = blocks_dependents s || any_blocks statuses

abbrev pub projected : List String → Option PlanItem → Option (List Status) → Option ProjectedNode
projected ids (some a) (some statuses) = some (record {
  node_id = a.node_id;
  label = a.label;
  depends_on = ids;
  status = a.status;
  ready = is_pending a.status && all_completed statuses;
  blocked_by_dependencies = any_blocks statuses;
})
projected ids (some a) none = none
projected ids none statuses = none

abbrev pub add_node :
    Option ProjectedNode → Option (List ProjectedNode) → Option (List ProjectedNode)
add_node (some n) (some nodes) = some (n ∷ nodes)
add_node (some n) none = none
add_node none nodes = none

-- The loop over the nodes of the state.
unfoldable pub project_nodes : List PlanItem → Graph → Option (List ProjectedNode)
unfolding find_item statuses_of all_completed any_blocks
project_nodes plan [] = some []
project_nodes plan ((id, ids) ∷ g) =
    add_node (projected ids (find_item id plan) (statuses_of plan ids)) (project_nodes plan g)

unfoldable pub ready_ids : List ProjectedNode → List String
ready_ids [] = []
ready_ids (n ∷ nodes) = if n.ready then n.node_id ∷ ready_ids nodes else ready_ids nodes

unfoldable pub active_ids : List ProjectedNode → List String
active_ids [] = []
active_ids (n ∷ nodes) =
    if is_active n.status then n.node_id ∷ active_ids nodes else active_ids nodes

-- `binding_matches`
unfoldable pub binding_matches : Runtime → Fields → ContractView → Bool
unfolding get_or_null whole_of
binding_matches r fields view =
    is_text view.task_id (get_or_null "taskId" fields)
    && is_text view.task_instance_id (get_or_null "taskInstanceId" fields)
    && is_text view.workspace_key (get_or_null "workspaceKey" fields)
    && is_text view.owner_session_key (get_or_null "ownerSessionKey" fields)
    && eqb (whole_of r (get_or_null "contractRevision" fields)) view.contract_revision
    && is_text view.plan_fingerprint (get_or_null "planFingerprint" fields)

unfoldable pub dag_revision_of : Runtime → Fields → ℕ
unfolding get_or_null whole_of
dag_revision_of r fields = whole_of r (get_or_null "dagRevision" fields)

abbrev pub stale_projection : Runtime → Fields → ContractView → Projection
stale_projection r fields view = record {
  state = stale_binding;
  code = h7_binding_stale;
  dag_revision = dag_revision_of r fields;
  contract_revision = view.contract_revision;
  plan_fingerprint = view.plan_fingerprint;
  ready_node_ids = [];
  active_node_ids = [];
  nodes = [];
}

unfoldable pub current_projection :
    Runtime → Fields → ContractView → List ProjectedNode → Projection
unfolding ready_ids active_ids dag_revision_of
current_projection r fields view nodes = record {
  state = is_current;
  code = current;
  dag_revision = dag_revision_of r fields;
  contract_revision = view.contract_revision;
  plan_fingerprint = view.plan_fingerprint;
  ready_node_ids = ready_ids nodes;
  active_node_ids = active_ids nodes;
  nodes = nodes;
}

abbrev pub with_currency :
    (List ProjectedNode → Projection) → Option (List ProjectedNode) → Option (Projection × Bool)
with_currency finish none = none
with_currency finish (some nodes) = some (finish nodes, true)

-- The projection on a contract that was read and a state that is valid with this graph.
unfoldable pub project_graph :
    Runtime → Fields → ContractView → Parsed Graph → Option (Projection × Bool)
unfolding project_nodes current_projection binding_matches dag_revision_of
project_graph r fields view (refused code) = some (projection_withheld code, false)
project_graph r fields view (parsed graph) =
    if binding_matches r fields view
    then with_currency (current_projection r fields view) (project_nodes view.plan graph)
    else some (stale_projection r fields view, false)

-- `project_state`, of a state that is a dictionary.
unfoldable pub project_state : Runtime → Fields → Value → Option (Projection × Bool)
unfolding project_graph contract_view valid_graph
project_state r fields contract = elim (contract_view r contract) [
  | refused code ↦ some (projection_withheld code, false)
  | parsed view ↦ project_graph r fields view (valid_graph r fields)
]
