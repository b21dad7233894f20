-- ===== src/WorkDag/Total.antt =====
-- When `project_state` of work_dag.py gives a projection and raises no `KeyError`.
use super_memory_brain.Base.{
  ◌≡◌, ◌≢◌, String, Bool, true, false, Option, none, some, List, [], ◌∷◌, member, arith, eq_refl,
  ◌==◌, Bool-cases, inl, inr,
}
use super_memory_brain.Json.{Value, Fields}
use super_memory_brain.WorkDag.Graph.{Graph, keys}
use super_memory_brain.WorkDag.Contract.{
  Runtime, Status, Parsed, refused, parsed, PlanItem, ContractView, contract_view,
}
use super_memory_brain.WorkDag.Definition.{ids_of}
use super_memory_brain.WorkDag.State.{all_known, valid_graph}
use super_memory_brain.WorkDag.Projection.{
  ProjectedNode, Projection, find_item, add_status, statuses_of, projected, add_node, project_nodes,
  with_currency, current_projection, binding_matches, project_graph, project_state,
  projection_withheld,
}
use super_memory_brain.WorkDag.Acyclic.{Includes}
use super_memory_brain.WorkDag.Progress.{all_members-member}
use super_memory_brain.WorkDag.Running.{IsClosed, valid_graph-IsClosed}
use super_memory_brain.WorkDag.Inversion.{Ensures_parsed}

abbrev pub IsFound {ℓ} : {A : Type ℓ} → Option A → Type 0
IsFound none = ⊥
IsFound (some a) = Unit

find_item-IsFound :
    (plan : List PlanItem) (id : String)
    → member id (ids_of plan) ≡ true
    → IsFound (find_item id plan)
unfolding find_item
find_item-IsFound [] id m = cc
find_item-IsFound (a ∷ plan) id m = elim (Bool-cases (a.node_id == id)) [
  | inl same ↦ rw same tt
  | inr other ↦ rw other (find_item-IsFound plan id (ground (arith, other)))
]

add_status-IsFound :
    (a : Option PlanItem) (statuses : Option (List Status))
    → IsFound a
    → IsFound statuses
    → IsFound (add_status a statuses)
add_status-IsFound (some a) (some ss) x y = tt
add_status-IsFound (some a) none x y = y
add_status-IsFound none ss x y = x

statuses_of-IsFound :
    (plan : List PlanItem) (ids : List String)
    → Includes (ids_of plan) ids
    → IsFound (statuses_of plan ids)
unfolding statuses_of
statuses_of-IsFound plan [] h = tt
statuses_of-IsFound plan (b ∷ ids) h =
    add_status-IsFound (find_item b plan) (statuses_of plan ids)
      (find_item-IsFound plan b (h b (ground (arith, eq_refl b))))
      (statuses_of-IsFound plan ids (λ c m. h c (ground arith)))

add_node-IsFound :
    (ids : List String) (a : Option PlanItem) (statuses : Option (List Status))
    (nodes : Option (List ProjectedNode))
    → IsFound a
    → IsFound statuses
    → IsFound nodes
    → IsFound (add_node (projected ids a statuses) nodes)
add_node-IsFound ids (some a) (some ss) (some nodes) x y z = tt
add_node-IsFound ids (some a) (some ss) none x y z = z
add_node-IsFound ids (some a) none nodes x y z = absurd y
add_node-IsFound ids none ss nodes x y z = absurd x

pub project_nodes-IsFound :
    (plan : List PlanItem) (names : List String) (g : Graph)
    → Includes (ids_of plan) names
    → Includes names (keys g)
    → all_known names g ≡ true
    → IsFound (project_nodes plan g)
unfolding project_nodes all_known
project_nodes-IsFound plan names [] h k known = tt
project_nodes-IsFound plan names ((id, ids) ∷ g) h k known =
    add_node-IsFound ids (find_item id plan) (statuses_of plan ids) (project_nodes plan g)
      (find_item-IsFound plan id (h id (k id (ground (arith, eq_refl id)))))
      (statuses_of-IsFound plan ids (λ b m. h b (all_members-member ids names b (ground arith) m)))
      (project_nodes-IsFound plan names g h (λ b m. k b (ground arith)) (ground arith))

with_currency-IsFound :
    (finish : List ProjectedNode → Projection) (nodes : Option (List ProjectedNode))
    → IsFound nodes
    → IsFound (with_currency finish nodes)
with_currency-IsFound finish (some nodes) h = tt
with_currency-IsFound finish none h = h

project_graph-IsFound :
    (r : Runtime) (fields : Fields) (view : ContractView) (g : Graph)
    → Includes (ids_of view.plan) (keys g)
    → IsClosed g
    → IsFound (project_graph r fields view (parsed g))
unfolding project_graph
project_graph-IsFound r fields view g h closed = elim (Bool-cases (binding_matches r fields view)) [
  | inl bound ↦ rw bound (
      with_currency-IsFound (current_projection r fields view) (project_nodes view.plan g)
        (project_nodes-IsFound view.plan (keys g) g h (λ id m. m) closed.0))
  | inr stale ↦ rw stale tt
]

project_view-IsFound :
    (r : Runtime) (fields : Fields) (v : Parsed ContractView) (m : Parsed Graph)
    (view : ContractView) (g : Graph)
    → v ≡ parsed view
    → m ≡ parsed g
    → Includes (ids_of view.plan) (keys g)
    → IsClosed g
    → IsFound (elim v as (λ _. Option (Projection × Bool)) [
      | refused code ↦ some (projection_withheld code, false)
      | parsed w ↦ project_graph r fields w m
    ])
project_view-IsFound r fields v m view g c e h closed =
    rw (c, e) (project_graph-IsFound r fields view g h closed)

found-ne-none {ℓ} : {A : Type ℓ} (o : Option A) → IsFound o → o ≢ none
found-ne-none (some a) h e = cc
found-ne-none none h e = h

-- The projection of a valid state on an accepted contract raises nothing if every node of the
-- state is a node of the contract's plan.
pub project_state-ne-none :
    (r : Runtime) (fields : Fields) (contract : Value) (view : ContractView) (g : Graph)
    → contract_view r contract ≡ parsed view
    → valid_graph r fields ≡ parsed g
    → Includes (ids_of view.plan) (keys g)
    → project_state r fields contract ≢ none
unfolding project_state
project_state-ne-none r fields contract view g c v h =
    let closed = Ensures_parsed IsClosed (valid_graph r fields) (valid_graph-IsClosed r fields) v in
    found-ne-none (project_state r fields contract) (
      project_view-IsFound r fields (contract_view r contract) (valid_graph r fields) view g c v h
        closed)
