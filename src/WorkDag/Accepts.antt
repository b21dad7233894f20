-- ===== src/WorkDag/Accepts.antt =====
-- The parsers of work_dag.py give back the nodes that a definition or a state was written with.
use super_memory_brain.Base.{
  suc, ◌≤◌, ◌≡◌, refl, ap, String, true, false, not, ◌&&◌, some, List, [], ◌∷◌, member, length, All,
  arith, eq_iff, ◌==◌, Bool-cases, inl, inr,
}
use super_memory_brain.Json.{text, arr, none_left, field, get_or_null, has_exactly, count}
use super_memory_brain.WorkDag.Graph.{keys}
use super_memory_brain.WorkDag.Contract.{max_dependencies, node_id_re, parsed, Node, PlanItem}
use super_memory_brain.WorkDag.Definition.{
  text_items, node_items, dependency_items, node_dependencies, definition_node, definition_graph,
  ids_of,
}
use super_memory_brain.WorkDag.State.{stored_dependencies, stored_node, stored_graph, graph_of}
use super_memory_brain.WorkDag.Normal.{NoRepeat, IsFit}
use super_memory_brain.WorkDag.Plan.{IsFew}
use super_memory_brain.WorkDag.View.{IsNodeName, IsItem}

-- All names of the list are names of nodes.
abbrev pub AreNames : List String → Type 0
AreNames allowed = (id : String) → member id allowed ≡ true → IsNodeName id

pub ids_of-AreNames : (plan : List PlanItem) → All IsItem plan → AreNames (ids_of plan)
ids_of-AreNames [] h id m = cc
ids_of-AreNames (a ∷ plan) h id m = elim (Bool-cases (a.node_id == id)) [
  | inl same ↦ let e : a.node_id ≡ id = (eq_iff a.node_id id).0 same in rw (← e) h.0
  | inr other ↦ ids_of-AreNames plan h.1 id (ground (arith, other))
]

count-text_items : (ids : List String) → count (text_items ids) ≡ length ids
count-text_items [] = refl
count-text_items (d ∷ ids) = ap suc (count-text_items ids)

dependency_items-text_items :
    (ids : List String)
    → length ids ≤ max_dependencies
    → dependency_items (arr (text_items ids)) ≡ some (text_items ids)
dependency_items-text_items ids h = ground (arith, count-text_items ids)

IsFit-first :
    (allowed : List String) (id d : String) (seen ids : List String)
    → IsFit allowed id seen (d ∷ ids)
    → (member d allowed && not (d == id) && not (member d seen)) ≡ true
IsFit-first allowed id d seen ids f = ground (arith, f.other, f.known.0, f.distinct.0)

IsFit-rest :
    (allowed : List String) (id d : String) (seen ids : List String)
    → IsFit allowed id seen (d ∷ ids)
    → IsFit allowed id (d ∷ seen) ids
IsFit-rest allowed id d seen ids f = record {
  distinct = f.distinct.1;
  other = ground (arith, f.other);
  known = f.known.1;
}

module _ (allowed : List String) (names : AreNames allowed) where
  node_dependencies-accepts :
      (id : String) (seen ids : List String)
      → IsFit allowed id seen ids
      → node_dependencies allowed id seen (text_items ids) ≡ parsed ids
  unfolding node_dependencies
  node_dependencies-accepts id seen [] f = refl
  node_dependencies-accepts id seen (d ∷ ids) f = rw (
    (names d f.known.0).compact,
    IsFit-first allowed id d seen ids f,
    node_dependencies-accepts id (d ∷ seen) ids (IsFit-rest allowed id d seen ids f),
  )

  stored_dependencies-accepts :
      (id : String) (seen ids : List String)
      → IsFit allowed id seen ids
      → stored_dependencies id seen (text_items ids) ≡ parsed ids
  unfolding stored_dependencies
  stored_dependencies-accepts id seen (d ∷ ids) f =
      let t : (node_id_re d && not (d == id) && not (member d seen)) ≡ true =
        ground (arith, (names d f.known.0).shaped, IsFit-first allowed id d seen ids f) in
      rw (t, stored_dependencies-accepts id (d ∷ seen) ids (IsFit-rest allowed id d seen ids f))
  stored_dependencies-accepts id seen [] f = refl

  definition_node-accepts :
      (seen ids : List String) (id : String)
      → member id seen ≡ false
      → member id allowed ≡ true
      → IsFew allowed (id, ids)
      → definition_node allowed seen
          (field "dependsOn" (arr (text_items ids)) (field "nodeId" (text id) none_left))
        ≡ parsed (id, ids)
  unfolding definition_node has_exactly get_or_null
  definition_node-accepts seen ids id new known few =
      let name = names id known in
      let t : (node_id_re id && member id allowed && not (member id seen)) ≡ true =
        ground (arith, name.shaped) in
      rw (
        name.compact,
        t,
        dependency_items-text_items ids few.1,
        node_dependencies-accepts id [] ids few.0,
      )

  pub definition_graph-accepts :
      (seen : List String) (nodes : List Node)
      → NoRepeat seen (keys (graph_of nodes))
      → All (λ id. member id allowed ≡ true) (keys (graph_of nodes))
      → All (IsFew allowed) (graph_of nodes)
      → definition_graph allowed seen (node_items nodes) ≡ parsed (graph_of nodes)
  unfolding definition_graph
  definition_graph-accepts seen [] once known few = refl
  definition_graph-accepts seen (n ∷ nodes) once known few = rw (
    definition_node-accepts seen n.depends_on n.node_id once.0 known.0 few.0,
    definition_graph-accepts (n.node_id ∷ seen) nodes once.1 known.1 few.1,
  )

  stored_node-accepts :
      (seen ids : List String) (id : String)
      → member id seen ≡ false
      → member id allowed ≡ true
      → IsFew allowed (id, ids)
      → stored_node seen
          (field "dependsOn" (arr (text_items ids)) (field "nodeId" (text id) none_left))
        ≡ parsed (id, ids)
  unfolding stored_node has_exactly get_or_null
  stored_node-accepts seen ids id new known few =
      let name = names id known in
      let t : (node_id_re id && not (member id seen)) ≡ true = ground (arith, name.shaped) in
      rw (t, dependency_items-text_items ids few.1, stored_dependencies-accepts id [] ids few.0)

  pub stored_graph-accepts :
      (seen : List String) (nodes : List Node)
      → NoRepeat seen (keys (graph_of nodes))
      → All (λ id. member id allowed ≡ true) (keys (graph_of nodes))
      → All (IsFew allowed) (graph_of nodes)
      → stored_graph seen (node_items nodes) ≡ parsed (graph_of nodes)
  unfolding stored_graph
  stored_graph-accepts seen [] once known few = refl
  stored_graph-accepts seen (n ∷ nodes) once known few = rw (
    stored_node-accepts seen n.depends_on n.node_id once.0 known.0 few.0,
    stored_graph-accepts (n.node_id ∷ seen) nodes once.1 known.1 few.1,
  )
