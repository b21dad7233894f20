-- ===== src/WorkDag/Plan.antt =====
-- What a normalized definition of work_dag.py is: the plan's nodes with a graph without cycles.
use super_memory_brain.Base.{
  ◌≤◌, ◌≡◌, refl, ap, String, List, [], ◌∷◌, length, All, arith, eq_iff, eq_refl, String-cases, inl,
  inr,
}
use super_memory_brain.Base.Dict.{get}
use super_memory_brain.Json.{Value}
use super_memory_brain.WorkDag.Graph.{Graph, dependencies, keys}
use super_memory_brain.WorkDag.Contract.{
  max_dependencies, Runtime, parsed, PlanItem, ContractView, contract_view, Node,
}
use super_memory_brain.WorkDag.Definition.{
  ids_of, nodes_in_order, normalize_for, normalize_definition,
}
use super_memory_brain.WorkDag.State.{graph_of}
use super_memory_brain.WorkDag.Acyclic.{Edge, dependencies-cons, Leads, edge, step}
use super_memory_brain.WorkDag.Cycles.{detect_cycle-acyclic}
use super_memory_brain.WorkDag.Normal.{IsFit, IsNormalized, normalize_for-IsAccepted}
use super_memory_brain.WorkDag.Inversion.{Ensures_parsed}

-- The dependencies that a node may have.
abbrev pub IsFew : List String → String × List String → Type 0
IsFew allowed p = IsFit allowed p.0 [] p.1 × (length p.1 ≤ max_dependencies)

dependencies-IsFew :
    (allowed : List String) (g : Graph) (id : String)
    → All (IsFew allowed) g
    → IsFew allowed (id, dependencies g id)
unfolding dependencies get
dependencies-IsFew allowed [] id h =
    (record { distinct = tt; other = refl; known = tt }, omega arith)
dependencies-IsFew allowed ((k, ids) ∷ g) id h = elim (String-cases k id) [
  | inl same ↦ rw (← same) (rw (dependencies-cons k ids g k, eq_refl k) h.0)
  | inr other ↦ rw (dependencies-cons k ids g id, other) (dependencies-IsFew allowed g id h.1)
]

module _ (g : Graph) where
  pub keys-nodes_in_order :
      (plan : List PlanItem) → keys (graph_of (nodes_in_order g plan)) ≡ ids_of plan
  unfolding nodes_in_order
  keys-nodes_in_order [] = refl
  keys-nodes_in_order (a ∷ plan) = ap (λ ids. a.node_id ∷ ids) (keys-nodes_in_order plan)

  pub nodes_in_order-IsFew :
      (allowed : List String) (plan : List PlanItem)
      → All (IsFew allowed) g
      → All (IsFew allowed) (graph_of (nodes_in_order g plan))
  unfolding nodes_in_order
  nodes_in_order-IsFew allowed [] h = tt
  nodes_in_order-IsFew allowed (a ∷ plan) h =
      (dependencies-IsFew allowed g a.node_id h, nodes_in_order-IsFew allowed plan h)

  Edge-nodes_in_order :
      (plan : List PlanItem) (a b : String)
      → Edge (graph_of (nodes_in_order g plan)) a b
      → Edge g a b
  unfolding nodes_in_order dependencies get
  Edge-nodes_in_order [] a b e = cc
  Edge-nodes_in_order (c ∷ plan) a b e =
      let rest = graph_of (nodes_in_order g plan) in
      let ids = dependencies g c.node_id in
      ground (
        arith,
        dependencies-cons c.node_id ids rest a,
        eq_iff c.node_id a,
        Edge-nodes_in_order plan a b,
      )

  pub Leads-nodes_in_order :
      (plan : List PlanItem) {a b : String}
      → Leads (graph_of (nodes_in_order g plan)) a b
      → Leads g a b
  Leads-nodes_in_order plan (edge e) = edge (Edge-nodes_in_order plan _ _ e)
  Leads-nodes_in_order plan (step e l) =
      step (Edge-nodes_in_order plan _ _ e) (Leads-nodes_in_order plan l)

-- The nodes of a definition on the contract.
pub record IsPlan (view : ContractView) (nodes : List Node) : Type 0 where
  pub covers : keys (graph_of nodes) ≡ ids_of view.plan
  pub fits : All (IsFew (ids_of view.plan)) (graph_of nodes)
  pub acyclic : (a : String) → ¬ Leads (graph_of nodes) a a

IsNormalized-IsPlan :
    (view : ContractView) (nodes : List Node) → IsNormalized view nodes → IsPlan view nodes
IsNormalized-IsPlan view nodes (g, same, accepted) = rw same (record {
  covers = keys-nodes_in_order g view.plan;
  fits = nodes_in_order-IsFew g (ids_of view.plan) view.plan accepted.normal.fits;
  acyclic = λ a l. detect_cycle-acyclic g a accepted.acyclic (Leads-nodes_in_order g view.plan l);
})

-- An accepted definition on an accepted contract has the nodes of the plan in its order, at most
-- twelve distinct dependencies for each, all of them other nodes of the plan, and no cycle.
pub normalize_definition-IsPlan :
    (r : Runtime) (value contract : Value) (view : ContractView) (nodes : List Node)
    → contract_view r contract ≡ parsed view
    → normalize_definition r value contract ≡ parsed nodes
    → IsPlan view nodes
unfolding normalize_definition
normalize_definition-IsPlan r value contract view nodes c h = IsNormalized-IsPlan view nodes (
    Ensures_parsed (IsNormalized view) (normalize_for view value)
      (normalize_for-IsAccepted view value) (ground (arith, c)))
