-- ===== src/WorkDag/Running.antt =====
-- `project_state` of work_dag.py: a current projection of a plan that can go on shows where.
use mathlib.Core.Path.{subst}
use super_memory_brain.Base.{
  ◌≡◌, refl, sym, ◌⊎◌, Bool, true, false, not, ◌&&◌, Option, none, some, List, [], String, member,
  All, arith,
}
use super_memory_brain.Json.{Value, obj, Fields, get_or_null, without_field, is_text}
use super_memory_brain.WorkDag.Graph.{Graph, keys, detect_cycle}
use super_memory_brain.WorkDag.Contract.{
  Runtime, Parsed, refused, parsed, ContractView, contract_view,
}
use super_memory_brain.WorkDag.State.{
  valid_graph, state_head_is_valid, bounded_items, stored_graph, all_known,
}
use super_memory_brain.WorkDag.Projection.{
  ProjectedNode, Projection, project_nodes, with_currency, current_projection, project_graph,
  project_state, projection_withheld,
}
use super_memory_brain.WorkDag.Progress.{IsWaiting, IsCompleted, project_nodes_progress}
use super_memory_brain.WorkDag.Inversion.{
  Ensures, Ensures->>=, Ensures-demand, Ensures-demand_some, any_result,
}

-- The dependencies are nodes, and there is no cycle.
abbrev pub IsClosed : Graph → Type 0
IsClosed g = (all_known (keys g) g ≡ true) × (detect_cycle g ≡ false)

pub valid_graph-IsClosed : (r : Runtime) (fields : Fields) → Ensures IsClosed (valid_graph r fields)
unfolding valid_graph
valid_graph-IsClosed r fields = Ensures-demand IsClosed (state_head_is_valid r fields) _ _ (λ head.
    Ensures-demand_some IsClosed (bounded_items (get_or_null "nodes" fields)) _ _ (λ items e.
      Ensures->>= IsClosed (λ _. Unit {0}) (stored_graph [] items) _
        (any_result (stored_graph [] items))
        (λ g u.
          Ensures-demand IsClosed (all_known (keys g) g && not (detect_cycle g)) _ _ (λ closed.
            Ensures-demand IsClosed
              (is_text (r.canonical_hash (obj (without_field "payloadHash" fields)))
                (get_or_null "payloadHash" fields))
              _ _ (λ sealed. let c : IsClosed g = (ground arith, ground arith) in c)))))

-- Every node is completed, or some node is ready.
abbrev pub IsMoving : Projection → Type 0
IsMoving p = All IsCompleted p.nodes ⊎ ((id : String) × (member id p.ready_node_ids ≡ true))

with_currency-IsMoving :
    (r : Runtime) (fields : Fields) (view : ContractView) (g : Graph)
    (nodes : Option (List ProjectedNode)) (p : Projection)
    → project_nodes view.plan g ≡ nodes
    → IsClosed g
    → with_currency (current_projection r fields view) nodes ≡ some (p, true)
    → All IsWaiting p.nodes
    → IsMoving p
unfolding current_projection
with_currency-IsMoving r fields view g none p x closed h w = cc
with_currency-IsMoving r fields view g (some nodes) p x closed h w =
    let same : current_projection r fields view nodes ≡ p = cc in
    let w' : All IsWaiting nodes = subst (λ (q : Projection). All IsWaiting q.nodes) (sym same) w in
    subst IsMoving same (project_nodes_progress view.plan g nodes x w' closed.0 closed.1)

project_graph-IsMoving :
    (r : Runtime) (fields : Fields) (view : ContractView) (m : Parsed Graph) (p : Projection)
    → Ensures IsClosed m
    → project_graph r fields view m ≡ some (p, true)
    → All IsWaiting p.nodes
    → IsMoving p
unfolding project_graph
project_graph-IsMoving r fields view (refused c) p closed h w = cc
project_graph-IsMoving r fields view (parsed g) p closed h w =
    with_currency-IsMoving r fields view g (project_nodes view.plan g) p refl closed (ground arith)
      w

project_view-IsMoving :
    (r : Runtime) (fields : Fields) (v : Parsed ContractView) (p : Projection)
    → elim v as (λ _. Option (Projection × Bool)) [
      | refused code ↦ some (projection_withheld code, false)
      | parsed view ↦ project_graph r fields view (valid_graph r fields)
    ]
      ≡ some (p, true)
    → All IsWaiting p.nodes
    → IsMoving p
project_view-IsMoving r fields (refused c) p h w = cc
project_view-IsMoving r fields (parsed view) p h w =
    project_graph-IsMoving r fields view (valid_graph r fields) p (valid_graph-IsClosed r fields) h
      w

-- In a current projection whose nodes are all pending or completed, all of them are completed or
-- some node is ready.
pub project_state-IsMoving :
    (r : Runtime) (fields : Fields) (contract : Value) (p : Projection)
    → project_state r fields contract ≡ some (p, true)
    → All IsWaiting p.nodes
    → IsMoving p
unfolding project_state
project_state-IsMoving r fields contract p h w =
    project_view-IsMoving r fields (contract_view r contract) p h w
