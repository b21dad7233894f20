-- ===== src/WorkDag/Normal.antt =====
-- What `normalize_definition` of work_dag.py lets pass.
use super_memory_brain.Base.{
  suc, ◌≤◌, ◌≡◌, refl, ap, String, true, false, not, ◌&&◌, some, List, [], ◌∷◌, length, member, All,
  arith, ◌==◌,
}
use super_memory_brain.Json.{
  Value, arr, obj, Items, end, item, Fields, get_or_null, count, has_exactly, is_text, is_false,
}
use super_memory_brain.WorkDag.Graph.{Graph, keys, detect_cycle}
use super_memory_brain.WorkDag.Contract.{
  max_dependencies, node_id_re, compacted, ContractView, Node, max_dependencies,
}
use super_memory_brain.WorkDag.Definition.{
  ids_of, dependency_items, node_dependencies, definition_node, definition_graph, all_members,
  nodes_in_order, normalize_for, covering_items, definition_schema,
}
use super_memory_brain.WorkDag.Inversion.{Ensures, Ensures->>=, Ensures-demand, Ensures-demand_some}

-- No name of the list stands twice, or among those seen.
abbrev pub NoRepeat : List String → List String → Type 0
NoRepeat seen [] = Unit
NoRepeat seen (a ∷ names) = (member a seen ≡ false) × NoRepeat (a ∷ seen) names

-- The dependencies of a node that the definition may have, after the dependencies `seen`.
pub record IsFit (allowed : List String) (id : String) (seen ids : List String) : Type 0 where
  pub distinct : NoRepeat seen ids
  pub other : member id ids ≡ false
  pub known : All (λ d. member d allowed ≡ true) ids

IsFit-cons :
    {allowed : List String} {id : String} {seen : List String} (d : String) (ids : List String)
    → (member d allowed && not (d == id) && not (member d seen)) ≡ true
    → IsFit allowed id (d ∷ seen) ids
    → IsFit allowed id seen (d ∷ ids)
IsFit-cons d ids h f = ground arith

pub node_dependencies-IsFit :
    (allowed : List String) (id : String) (seen : List String) (items : Items)
    → Ensures
        (λ ids. IsFit allowed id seen ids × (length ids ≡ count items))
        (node_dependencies allowed id seen items)
unfolding node_dependencies
node_dependencies-IsFit allowed id seen end =
    (record { distinct = tt; other = refl; known = tt }, refl)
node_dependencies-IsFit allowed id seen (item v items) =
    Ensures-demand_some _ (compacted 160 v) _ _ (λ d e.
      Ensures-demand _ (member d allowed && not (d == id) && not (member d seen)) _ _ (λ t.
        Ensures->>= _ _ (node_dependencies allowed id (d ∷ seen) items) _
          (node_dependencies-IsFit allowed id (d ∷ seen) items)
          (λ rest f. (IsFit-cons d rest t f.0, ap suc f.1))))

-- A graph over the nodes `allowed`, as a definition gives it, after the nodes `seen`.
pub record IsNormal (allowed seen : List String) (g : Graph) : Type 0 where
  pub once : NoRepeat seen (keys g)
  pub fits : All (λ p. IsFit allowed p.0 [] p.1 × (length p.1 ≤ max_dependencies)) g
  pub named : All (λ id. node_id_re id ≡ true) (keys g)

dependency_items-le :
    (v : Value) (items : Items) → dependency_items v ≡ some items → count items ≤ max_dependencies
dependency_items-le (arr xs) items h = ground arith
dependency_items-le _ items h = cc

abbrev IsNewNode : List String → List String → String × List String → Type 0
IsNewNode allowed seen p =
    (member p.0 seen ≡ false)
    × (node_id_re p.0 ≡ true)
    × IsFit allowed p.0 [] p.1
    × (length p.1 ≤ max_dependencies)

definition_node-IsFit :
    (allowed seen : List String) (fields : Fields)
    → Ensures (IsNewNode allowed seen) (definition_node allowed seen fields)
unfolding definition_node
definition_node-IsFit allowed seen fields =
    Ensures-demand (IsNewNode allowed seen) (has_exactly ("nodeId" ∷ "dependsOn" ∷ []) fields) _ _
      (λ exact.
        Ensures-demand_some (IsNewNode allowed seen) (compacted 160 (get_or_null "nodeId" fields)) _
          _
          (λ id c.
            Ensures-demand (IsNewNode allowed seen)
              (node_id_re id && member id allowed && not (member id seen)) _ _
              (λ t.
                Ensures-demand_some (IsNewNode allowed seen)
                  (dependency_items (get_or_null "dependsOn" fields)) _ _
                  (λ items e.
                    Ensures->>= (IsNewNode allowed seen) _ (node_dependencies allowed id [] items) _
                      (node_dependencies-IsFit allowed id [] items)
                      (λ ids f.
                        let few = dependency_items-le (get_or_null "dependsOn" fields) items e in
                        let new : IsNewNode allowed seen (id, ids) =
                          (ground arith, ground arith, f.0, rw f.1 few) in
                        new)))))

pub definition_graph-IsNormal :
    (allowed seen : List String) (items : Items)
    → Ensures (IsNormal allowed seen) (definition_graph allowed seen items)
unfolding definition_graph
definition_graph-IsNormal allowed seen end = record { once = tt; fits = tt; named = tt }
definition_graph-IsNormal allowed seen (item (obj fields) items) =
    Ensures->>= _ _ (definition_node allowed seen fields) _
      (definition_node-IsFit allowed seen fields)
      (λ first f.
        Ensures->>= _ _ (definition_graph allowed (first.0 ∷ seen) items) _
          (definition_graph-IsNormal allowed (first.0 ∷ seen) items)
          (λ rest n. record {
            once = (f.0, n.once);
            fits = ((f.2, f.3), n.fits);
            named = (f.1, n.named);
          }))
definition_graph-IsNormal allowed seen (item _ items) = tt

-- The graph of an accepted definition: its nodes are those of the plan, and it has no cycle.
pub record IsAccepted (allowed : List String) (g : Graph) : Type 0 where
  pub normal : IsNormal allowed [] g
  pub within : all_members (keys g) allowed ≡ true
  pub covering : all_members allowed (keys g) ≡ true
  pub acyclic : detect_cycle g ≡ false

-- The nodes of the plan, in its order, with the dependencies of an accepted graph.
abbrev pub IsNormalized : ContractView → List Node → Type 0
IsNormalized view nodes =
    (g : Graph) × (nodes ≡ nodes_in_order g view.plan) × IsAccepted (ids_of view.plan) g

pub normalize_for-IsAccepted :
    (view : ContractView) (value : Value) → Ensures (IsNormalized view) (normalize_for view value)
unfolding normalize_for
normalize_for-IsAccepted view (obj fields) =
    Ensures-demand (IsNormalized view)
      (has_exactly ("schema" ∷ "nodes" ∷ "rawPromptStored" ∷ "rawTranscriptStored" ∷ []) fields) _ _
      (λ exact.
        Ensures-demand (IsNormalized view)
          (is_text definition_schema (get_or_null "schema" fields)
            && is_false (get_or_null "rawPromptStored" fields)
            && is_false (get_or_null "rawTranscriptStored" fields))
          _ _
          (λ flags.
            Ensures-demand_some (IsNormalized view)
              (covering_items (length (ids_of view.plan)) (get_or_null "nodes" fields)) _ _
              (λ items e.
                Ensures->>= (IsNormalized view) _ (definition_graph (ids_of view.plan) [] items) _
                  (definition_graph-IsNormal (ids_of view.plan) [] items)
                  (λ g n.
                    Ensures-demand (IsNormalized view)
                      (all_members (keys g) (ids_of view.plan)
                        && all_members (ids_of view.plan) (keys g)
                        && not (detect_cycle g))
                      _ _
                      (λ t.
                        let accepted : IsAccepted (ids_of view.plan) g = record {
                          normal = n;
                          within = ground arith;
                          covering = ground arith;
                          acyclic = ground arith;
                        } in
                        let result : IsNormalized view (nodes_in_order g view.plan) =
                          (g, refl, accepted) in
                        result)))))
normalize_for-IsAccepted view _ = tt
