-- ===== src/WorkDag/State.antt =====
-- CORE/runtime/work_dag.py: `_state_body`, `_state_with_hash`, `state_is_valid` and
-- `_definition_from_state`. A state is the dictionary in the file, its keys sorted as
-- `json.dump(..., sort_keys=True)` writes them.
use super_memory_brain.Base.{
  ℕ, String, Bool, true, false, not, ◌&&◌, Option, none, some, List, [], ◌∷◌, ltb, leb, member,
  ◌==◌, if◌then◌else◌,
}
use super_memory_brain.Json.{
  Value, null, bool, int, negative, float, text, arr, obj, Items, end, item, Fields, none_left,
  field, get_or_null, count, is_true, is_false, is_text, has_exactly, without_field,
}
use super_memory_brain.WorkDag.Graph.{Graph, keys, detect_cycle}
use super_memory_brain.WorkDag.Contract.{
  max_nodes, node_id_re, hash_re, plan_fingerprint_re, Runtime, whole_of, Parsed, refused, parsed,
  ◌>>=◌, ◌>>◌, demand, demand_some, compacted, state_invalid, ContractView, Node,
}
use super_memory_brain.WorkDag.Definition.{
  definition_value, node_items, dependency_items, all_members, nodes_in_order,
}

abbrev pub state_schema : String
state_schema = "super-brain.work-dag.v1"

-- `{str(node["nodeId"]): list(node["dependsOn"]) for node in definition["nodes"]}`
abbrev pub graph_of : List Node → Graph
graph_of [] = []
graph_of (n ∷ nodes) = (n.node_id, n.depends_on) ∷ graph_of nodes

-- The dictionary, with what stands between `ownerSessionKey` and `planFingerprint`.
abbrev pub state_fields : Runtime → ContractView → List Node → ℕ → (Fields → Fields) → Fields
state_fields r view nodes revision between = field "backgroundWorkers" (bool false) (
    field "contractRevision" (int view.contract_revision) (
      field "dagRevision" (int revision) (
        field "definitionHash" (text (r.canonical_hash (definition_value nodes))) (
          field "nodes" (arr (node_items (nodes_in_order (graph_of nodes) view.plan))) (
            field "nonAuthorizing" (bool true) (
              field "ownerSessionKey" (text view.owner_session_key) (
                between (
                  field "planFingerprint" (text view.plan_fingerprint) (
                    field "rawPromptStored" (bool false) (
                      field "rawTranscriptStored" (bool false) (
                        field "schema" (text state_schema) (
                          field "stateAuthority" (text "h7_canonical_plan_only") (
                            field "taskId" (text view.task_id) (
                              field "taskInstanceId" (text view.task_instance_id) (
                                field "workspaceKey" (text view.workspace_key)
                                  none_left)))))))))))))))

-- `_state_body`
unfoldable pub state_body : Runtime → ContractView → List Node → ℕ → Fields
unfolding nodes_in_order definition_value
state_body r view nodes revision = state_fields r view nodes revision (λ rest. rest)

-- `_state_with_hash`
unfoldable pub state_with_hash : Runtime → ContractView → List Node → ℕ → Fields
unfolding state_body nodes_in_order definition_value
state_with_hash r view nodes revision = state_fields r view nodes revision (λ rest.
    field "payloadHash" (text (r.canonical_hash (obj (state_body r view nodes revision)))) rest)

-- `isinstance(value, str) and pattern.fullmatch(value)`
abbrev pub matches_re : (String → Bool) → Value → Bool
matches_re pattern (text s) = pattern s
matches_re pattern null = false
matches_re pattern (bool b) = false
matches_re pattern (int n) = false
matches_re pattern (negative n) = false
matches_re pattern float = false
matches_re pattern (arr xs) = false
matches_re pattern (obj fs) = false

-- The text of a value that is one.
abbrev pub text_of : Value → Option String
text_of (text s) = some s
text_of null = none
text_of (bool b) = none
text_of (int n) = none
text_of (negative n) = none
text_of float = none
text_of (arr xs) = none
text_of (obj fs) = none

-- The loop over the dependencies of a stored node, after the dependencies `seen`.
unfoldable pub stored_dependencies : String → List String → Items → Parsed (List String)
unfolding node_id_re
stored_dependencies id seen end = parsed []
stored_dependencies id seen (item v items) = do
  dependency ← demand_some (text_of v) state_invalid
  demand (node_id_re dependency && not (dependency == id) && not (member dependency seen))
      state_invalid
  rest ← stored_dependencies id (dependency ∷ seen) items
  parsed (dependency ∷ rest)

unfoldable pub stored_node : List String → Fields → Parsed (String × List String)
unfolding stored_dependencies node_id_re has_exactly get_or_null
stored_node seen fields = do
  demand (has_exactly ("nodeId" ∷ "dependsOn" ∷ []) fields) state_invalid
  id ← demand_some (text_of (get_or_null "nodeId" fields)) state_invalid
  demand (node_id_re id && not (member id seen)) state_invalid
  items ← demand_some (dependency_items (get_or_null "dependsOn" fields)) state_invalid
  dependencies_ ← stored_dependencies id [] items
  parsed (id, dependencies_)

-- The loop over `nodes`, after the nodes `seen`.
unfoldable pub stored_graph : List String → Items → Parsed Graph
unfolding stored_node
stored_graph seen end = parsed []
stored_graph seen (item (obj fields) items) = do
  first ← stored_node seen fields
  rest ← stored_graph (first.0 ∷ seen) items
  parsed (first ∷ rest)
stored_graph seen (item v items) = refused state_invalid

-- Every dependency is a node.
unfoldable pub all_known : List String → Graph → Bool
unfolding all_members
all_known ids [] = true
all_known ids ((id, dependencies_) ∷ g) = all_members dependencies_ ids && all_known ids g

abbrev pub is_compact : ℕ → Value → Bool
is_compact maximum v = elim (compacted maximum v) [ none ↦ false | some _ ↦ true ]

-- `nodes` as a list of 1 to 48 items
abbrev pub bounded_items : Value → Option Items
bounded_items (arr items) =
    if leb 1 (count items) && leb (count items) max_nodes then some items else none
bounded_items null = none
bounded_items (bool b) = none
bounded_items (int n) = none
bounded_items (negative n) = none
bounded_items float = none
bounded_items (text s) = none
bounded_items (obj fs) = none

abbrev pub state_names : List String
state_names =
    "schema" ∷ "taskId" ∷ "taskInstanceId" ∷ "workspaceKey" ∷ "ownerSessionKey" ∷ "contractRevision"
    ∷ "planFingerprint" ∷ "dagRevision" ∷ "definitionHash" ∷ "nodes" ∷ "stateAuthority"
    ∷ "backgroundWorkers" ∷ "nonAuthorizing" ∷ "rawPromptStored" ∷ "rawTranscriptStored"
    ∷ "payloadHash" ∷ []

-- The tests on the single fields.
unfoldable pub state_head_is_valid : Runtime → Fields → Bool
unfolding has_exactly get_or_null whole_of compacted plan_fingerprint_re hash_re
state_head_is_valid r fields =
    has_exactly state_names fields
    && is_text state_schema (get_or_null "schema" fields)
    && is_compact 160 (get_or_null "taskId" fields)
    && is_compact 80 (get_or_null "taskInstanceId" fields)
    && is_compact 160 (get_or_null "workspaceKey" fields)
    && is_compact 160 (get_or_null "ownerSessionKey" fields)
    && ltb 0 (whole_of r (get_or_null "contractRevision" fields))
    && ltb 0 (whole_of r (get_or_null "dagRevision" fields))
    && matches_re plan_fingerprint_re (get_or_null "planFingerprint" fields)
    && matches_re hash_re (get_or_null "definitionHash" fields)
    && is_text "h7_canonical_plan_only" (get_or_null "stateAuthority" fields)
    && is_false (get_or_null "backgroundWorkers" fields)
    && is_true (get_or_null "nonAuthorizing" fields)
    && is_false (get_or_null "rawPromptStored" fields)
    && is_false (get_or_null "rawTranscriptStored" fields)
    && matches_re hash_re (get_or_null "payloadHash" fields)

-- The graph of a valid state: `state_is_valid` builds it and tests it.
unfoldable pub valid_graph : Runtime → Fields → Parsed Graph
unfolding state_head_is_valid stored_graph all_known detect_cycle without_field get_or_null
valid_graph r fields = do
  demand (state_head_is_valid r fields) state_invalid
  items ← demand_some (bounded_items (get_or_null "nodes" fields)) state_invalid
  graph ← stored_graph [] items
  demand (all_known (keys graph) graph && not (detect_cycle graph)) state_invalid
  demand
      (is_text (r.canonical_hash (obj (without_field "payloadHash" fields)))
        (get_or_null "payloadHash" fields))
      state_invalid
  parsed graph

-- `state_is_valid`
unfoldable pub state_is_valid : Runtime → Fields → Bool
unfolding valid_graph
state_is_valid r fields = elim (valid_graph r fields) [ refused _ ↦ false | parsed _ ↦ true ]

-- `_definition_from_state`
unfoldable pub definition_from_state : Graph → List Node
definition_from_state [] = []
definition_from_state ((id, dependencies_) ∷ g) =
    record { node_id = id; depends_on = dependencies_ } ∷ definition_from_state g
