-- ===== src/WorkDag/Definition.antt =====
-- CORE/runtime/work_dag.py: `normalize_definition`. A definition is its list of nodes; its dictionary
-- is written with sorted keys, as canonical JSON and the state file have them.
use super_memory_brain.Base.{
  ℕ, String, Bool, true, false, not, ◌&&◌, Option, none, some, List, [], ◌∷◌, leb, eqb, length,
  member, ◌==◌, if◌then◌else◌,
}
use super_memory_brain.Json.{
  Value, null, bool, int, negative, float, text, arr, obj, Items, end, item, Fields, none_left,
  field, get_or_null, count, is_false, is_text, has_exactly,
}
use super_memory_brain.WorkDag.Graph.{Graph, dependencies, keys, detect_cycle}
use super_memory_brain.WorkDag.Contract.{
  max_dependencies, node_id_re, Runtime, Parsed, refused, parsed, ◌>>=◌, ◌>>◌, demand, demand_some,
  compacted, definition_fields_invalid, definition_invalid, definition_coverage_invalid,
  definition_cycle_or_coverage_invalid, PlanItem, ContractView, contract_view, Node,
}

abbrev pub definition_schema : String
definition_schema = "super-brain.work-dag-definition.v1"

abbrev pub text_items : List String → Items
text_items [] = end
text_items (s ∷ names) = item (text s) (text_items names)

abbrev pub node_value : Node → Value
node_value n =
    obj (
      field "dependsOn" (arr (text_items n.depends_on)) (field "nodeId" (text n.node_id) none_left))

abbrev pub node_items : List Node → Items
node_items [] = end
node_items (n ∷ nodes) = item (node_value n) (node_items nodes)

-- The dictionary of a definition.
unfoldable pub definition_value : List Node → Value
definition_value nodes = obj (
    field "nodes" (arr (node_items nodes)) (
      field "rawPromptStored" (bool false) (
        field "rawTranscriptStored" (bool false)
          (field "schema" (text definition_schema) none_left))))

abbrev pub ids_of : List PlanItem → List String
ids_of [] = []
ids_of (a ∷ items) = a.node_id ∷ ids_of items

-- `depends_on` as a list of at most twelve items
abbrev pub dependency_items : Value → Option Items
dependency_items (arr items) = if leb (count items) max_dependencies then some items else none
dependency_items null = none
dependency_items (bool b) = none
dependency_items (int n) = none
dependency_items (negative n) = none
dependency_items float = none
dependency_items (text s) = none
dependency_items (obj fs) = none

-- The loop over `depends_on`, after the dependencies `seen`.
unfoldable pub node_dependencies : List String → String → List String → Items → Parsed (List String)
unfolding compacted
node_dependencies allowed id seen end = parsed []
node_dependencies allowed id seen (item v items) = do
  dependency ← demand_some (compacted 160 v) definition_invalid
  demand (member dependency allowed && not (dependency == id) && not (member dependency seen))
      definition_invalid
  rest ← node_dependencies allowed id (dependency ∷ seen) items
  parsed (dependency ∷ rest)

-- The loop over `raw_nodes`, after the nodes `seen`.
unfoldable pub definition_node : List String → List String → Fields → Parsed (String × List String)
unfolding node_dependencies compacted node_id_re has_exactly get_or_null
definition_node allowed seen fields = do
  demand (has_exactly ("nodeId" ∷ "dependsOn" ∷ []) fields) definition_fields_invalid
  id ← demand_some (compacted 160 (get_or_null "nodeId" fields)) definition_coverage_invalid
  demand (node_id_re id && member id allowed && not (member id seen)) definition_coverage_invalid
  items ← demand_some (dependency_items (get_or_null "dependsOn" fields)) definition_invalid
  dependencies_ ← node_dependencies allowed id [] items
  parsed (id, dependencies_)

unfoldable pub definition_graph : List String → List String → Items → Parsed Graph
unfolding definition_node
definition_graph allowed seen end = parsed []
definition_graph allowed seen (item (obj fields) items) = do
  first ← definition_node allowed seen fields
  rest ← definition_graph allowed (first.0 ∷ seen) items
  parsed (first ∷ rest)
definition_graph allowed seen (item v items) = refused definition_fields_invalid

-- `set(names) <= set(others)`
unfoldable pub all_members : List String → List String → Bool
all_members [] others = true
all_members (name ∷ names) others = member name others && all_members names others

-- `raw_nodes` as a list with one entry for each item
abbrev pub covering_items : ℕ → Value → Option Items
covering_items n (arr items) =
    if eqb (count items) n && not (eqb (count items) 0) then some items else none
covering_items n null = none
covering_items n (bool b) = none
covering_items n (int m) = none
covering_items n (negative m) = none
covering_items n float = none
covering_items n (text s) = none
covering_items n (obj fs) = none

-- `[{"nodeId": ..., "dependsOn": dependencies_by_id[...]} for item in items]`
unfoldable pub nodes_in_order : Graph → List PlanItem → List Node
unfolding dependencies
nodes_in_order g [] = []
nodes_in_order g (a ∷ items) =
    record { node_id = a.node_id; depends_on = dependencies g a.node_id } ∷ nodes_in_order g items

-- What follows the reading of the contract.
unfoldable pub normalize_for : ContractView → Value → Parsed (List Node)
unfolding definition_graph all_members nodes_in_order detect_cycle has_exactly get_or_null
normalize_for view (obj fields) =
    let allowed = ids_of view.plan in
    do
      demand
          (has_exactly ("schema" ∷ "nodes" ∷ "rawPromptStored" ∷ "rawTranscriptStored" ∷ []) fields)
          definition_fields_invalid
      demand
          (is_text definition_schema (get_or_null "schema" fields)
            && is_false (get_or_null "rawPromptStored" fields)
            && is_false (get_or_null "rawTranscriptStored" fields))
          definition_invalid
      items ←
          demand_some (covering_items (length allowed) (get_or_null "nodes" fields))
            definition_coverage_invalid
      graph ← definition_graph allowed [] items
      demand
          (all_members (keys graph) allowed
            && all_members allowed (keys graph)
            && not (detect_cycle graph))
          definition_cycle_or_coverage_invalid
      parsed (nodes_in_order graph view.plan)
normalize_for view _ = refused definition_fields_invalid

-- `normalize_definition`
unfoldable pub normalize_definition : Runtime → Value → Value → Parsed (List Node)
unfolding normalize_for contract_view
normalize_definition r value contract = do view ← contract_view r contract; normalize_for view value
