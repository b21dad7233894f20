-- ===== src/WorkDag/Complete.antt =====
-- `normalize_definition` of work_dag.py against the plans that it is to accept.
use super_memory_brain.Base.{
  ℕ, suc, ◌≡◌, ◌↔◌, refl, ap, ◌∙◌, String, true, false, not, ◌&&◌, some, List, [], ◌∷◌, member,
  length, All, arith, eq_refl, eq_iff, leb, ◌==◌, Bool-cases, inl, inr,
}
use super_memory_brain.Json.{Value, arr, Items, count}
use super_memory_brain.WorkDag.Graph.{Graph, keys, dependencies, detect_cycle}
use super_memory_brain.WorkDag.Contract.{
  max_nodes, Runtime, parsed, Node, PlanItem, ContractView, contract_view,
}
use super_memory_brain.WorkDag.Definition.{
  definition_value, node_items, ids_of, nodes_in_order, all_members, covering_items, normalize_for,
  normalize_definition,
}
use super_memory_brain.WorkDag.State.{graph_of}
use super_memory_brain.WorkDag.Acyclic.{Leads, dependencies-cons}
use super_memory_brain.WorkDag.Cycles.{detect_cycle_iff}
use super_memory_brain.WorkDag.Normal.{NoRepeat}
use super_memory_brain.WorkDag.Order.{NoRepeat-Includes}
use super_memory_brain.WorkDag.Plan.{IsPlan, normalize_definition-IsPlan}
use super_memory_brain.WorkDag.Inversion.{bind_parsed, demand_parsed, demand_some_parsed}
use super_memory_brain.WorkDag.View.{IsView, checked_contract}
use super_memory_brain.WorkDag.Accepts.{ids_of-AreNames, definition_graph-accepts}
use super_memory_brain.WorkDag.Valid.{all_members_of, All-member}

-- The graph knows the nodes' dependencies.
abbrev pub Knows : Graph → List Node → Type 0
Knows g = All (λ n. dependencies g n.node_id ≡ n.depends_on)

Knows-cons :
    (k : String) (ids : List String) (g : Graph) (nodes : List Node)
    → NoRepeat (k ∷ []) (keys (graph_of nodes))
    → Knows g nodes
    → Knows ((k, ids) ∷ g) nodes
Knows-cons k ids g [] once known = tt
Knows-cons k ids g (n ∷ nodes) once known =
    let other : (k == n.node_id) ≡ false =
      ground (arith, once.0, eq_iff k n.node_id, eq_iff n.node_id k) in
    (
      rw (dependencies-cons k ids g n.node_id, other) known.0,
      Knows-cons k ids g nodes
          (NoRepeat-Includes (n.node_id ∷ k ∷ []) (k ∷ []) (keys (graph_of nodes))
            (λ x m. ground arith) once.1)
          known.1,
    )

-- Where no node stands twice, a graph knows the nodes that it is made of.
pub graph_of-Knows :
    (seen : List String) (nodes : List Node)
    → NoRepeat seen (keys (graph_of nodes))
    → Knows (graph_of nodes) nodes
graph_of-Knows seen [] once = tt
graph_of-Knows seen (n ∷ nodes) once =
    let head : dependencies (graph_of (n ∷ nodes)) n.node_id ≡ n.depends_on =
      rw (dependencies-cons n.node_id n.depends_on (graph_of nodes) n.node_id, eq_refl n.node_id) in
    (
      head,
      Knows-cons n.node_id n.depends_on (graph_of nodes) nodes
          (NoRepeat-Includes (n.node_id ∷ seen) (n.node_id ∷ []) (keys (graph_of nodes))
            (λ x m. ground arith) once.1)
          (graph_of-Knows (n.node_id ∷ seen) nodes once.1),
    )

cons-cons : (a b : String) (xs ys : List String) → (a ∷ xs) ≡ (b ∷ ys) → (a ≡ b) × (xs ≡ ys)
cons-cons a b xs ys e = (cc, cc)

pub nodes_in_order_same :
    (g : Graph) (plan : List PlanItem) (nodes : List Node)
    → keys (graph_of nodes) ≡ ids_of plan
    → Knows g nodes
    → nodes_in_order g plan ≡ nodes
unfolding nodes_in_order
nodes_in_order_same g [] [] e known = refl
nodes_in_order_same g [] (n ∷ nodes) e known = cc
nodes_in_order_same g (a ∷ plan) [] e known = cc
nodes_in_order_same g (a ∷ plan) (n ∷ nodes) e known =
    let (same, below) = cons-cons n.node_id a.node_id (keys (graph_of nodes)) (ids_of plan) e in
    rw (← same, known.0, nodes_in_order_same g plan nodes below known.1)

count-node_items : (nodes : List Node) → count (node_items nodes) ≡ length (keys (graph_of nodes))
count-node_items [] = refl
count-node_items (n ∷ nodes) = ap suc (count-node_items nodes)

length-ids_of : (plan : List PlanItem) → length (ids_of plan) ≡ length plan
length-ids_of [] = refl
length-ids_of (a ∷ plan) = ap suc (length-ids_of plan)

covering_items_of :
    (n : ℕ) (items : Items)
    → (leb 1 n && leb n max_nodes) ≡ true
    → count items ≡ n
    → covering_items n (arr items) ≡ some items
covering_items_of n items b h = ground arith

detect_cycle_of_acyclic : (g : Graph) → ((a : String) → ¬ Leads g a a) → detect_cycle g ≡ false
detect_cycle_of_acyclic g h = elim (Bool-cases (detect_cycle g)) [
  | inl cyclic ↦ let (a, l) = (detect_cycle_iff g).0 cyclic in absurd (h a l)
  | inr fine ↦ fine
]

module _ (view : ContractView) (v : IsView view) (nodes : List Node)
    (plan : IsPlan view nodes) where
  pub plan_once : NoRepeat [] (keys (graph_of nodes))
  plan_once = rw plan.covers v.once

  plan_known : All (λ id. member id (ids_of view.plan) ≡ true) (keys (graph_of nodes))
  plan_known = rw plan.covers (All-member (ids_of view.plan))

  plan_covering :
      covering_items (length (ids_of view.plan)) (arr (node_items nodes)) ≡ some (node_items nodes)
  plan_covering =
      covering_items_of (length (ids_of view.plan)) (node_items nodes)
        (rw (length-ids_of view.plan) v.filled) (count-node_items nodes ∙ ap length plan.covers)

  plan_closed :
      (all_members (keys (graph_of nodes)) (ids_of view.plan)
        && all_members (ids_of view.plan) (keys (graph_of nodes))
        && not (detect_cycle (graph_of nodes)))
      ≡ true
  plan_closed = rw (
    plan.covers,
    all_members_of (ids_of view.plan) (ids_of view.plan) (All-member (ids_of view.plan)),
    detect_cycle_of_acyclic (graph_of nodes) plan.acyclic,
  )

  pub normalize_for-accepts : normalize_for view (definition_value nodes) ≡ parsed nodes
  unfolding normalize_for definition_value
  normalize_for-accepts = demand_some_parsed _ _ plan_covering (
      bind_parsed _
        (definition_graph-accepts (ids_of view.plan) (ids_of-AreNames view.plan v.named) [] nodes
          plan_once plan_known plan.fits)
        (demand_parsed _ _ plan_closed (
          ap parsed (
            nodes_in_order_same (graph_of nodes) view.plan nodes plan.covers
              (graph_of-Knows [] nodes plan_once)))))

module _ (r : Runtime) (contract : Value) (view : ContractView) (nodes : List Node) where
  pub normalize_definition-accepts :
      contract_view r contract ≡ parsed view
      → IsPlan view nodes
      → normalize_definition r (definition_value nodes) contract ≡ parsed nodes
  unfolding normalize_definition
  normalize_definition-accepts c plan =
      bind_parsed _ c (normalize_for-accepts view (checked_contract r contract view c) nodes plan)

  -- On an accepted contract, a definition is accepted and given back unchanged exactly if its nodes
  -- are those of the plan in its order, with at most twelve distinct dependencies each, all of them
  -- other nodes of the plan, and without a cycle.
  pub normalize_definition_iff :
      contract_view r contract ≡ parsed view
      → (normalize_definition r (definition_value nodes) contract ≡ parsed nodes)
        ↔ IsPlan view nodes
  normalize_definition_iff c = (
    normalize_definition-IsPlan r (definition_value nodes) contract view nodes c,
    normalize_definition-accepts c,
  )
