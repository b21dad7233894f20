-- ===== src/WorkDag/Default.antt =====
-- `_default_definition` of work_dag.py is a definition that is always accepted.
use super_memory_brain.Base.{
  ◌≤◌, ◌≡◌, refl, ap, String, true, List, [], ◌∷◌, member, length, All, arith, Bool-cases, inl, inr,
}
use super_memory_brain.WorkDag.Graph.{Graph, keys}
use super_memory_brain.WorkDag.Contract.{PlanItem, ContractView, chain, default_nodes}
use super_memory_brain.WorkDag.Definition.{ids_of}
use super_memory_brain.WorkDag.State.{graph_of}
use super_memory_brain.WorkDag.Acyclic.{IsTopological, Includes, IsTopological-acyclic}
use super_memory_brain.WorkDag.Cycles.{Leads-key}
use super_memory_brain.WorkDag.Normal.{NoRepeat}
use super_memory_brain.WorkDag.Order.{NoRepeat-Includes}
use super_memory_brain.WorkDag.Plan.{IsFew, IsPlan}
use super_memory_brain.WorkDag.View.{IsView}
use super_memory_brain.WorkDag.Valid.{All-member}
use super_memory_brain.WorkDag.Complete.{Knows, graph_of-Knows}

keys-chain :
    (previous : List String) (plan : List PlanItem)
    → keys (graph_of (chain previous plan)) ≡ ids_of plan
unfolding chain
keys-chain previous [] = refl
keys-chain previous (a ∷ plan) = ap (λ ids. a.node_id ∷ ids) (keys-chain (a.node_id ∷ []) plan)

-- The item before, or none.
record IsPrevious (allowed previous : List String) : Type 0 where
  once : NoRepeat [] previous
  single : length previous ≤ 1
  known : All (λ d. member d allowed ≡ true) previous

chain-IsFew :
    (allowed previous : List String) (plan : List PlanItem)
    → IsPrevious allowed previous
    → NoRepeat previous (ids_of plan)
    → All (λ d. member d allowed ≡ true) (ids_of plan)
    → All (IsFew allowed) (graph_of (chain previous plan))
unfolding chain
chain-IsFew allowed previous [] p once known = tt
chain-IsFew allowed previous (a ∷ plan) p once known = (
  (record { distinct = p.once; other = once.0; known = p.known }, omega (arith, p.single)),
  chain-IsFew allowed (a.node_id ∷ []) plan
      (record { once = (refl, tt); single = omega arith; known = (known.0, tt) })
      (NoRepeat-Includes (a.node_id ∷ previous) (a.node_id ∷ []) (ids_of plan) (λ x m. ground arith)
        once.1)
      known.1,
)

-- An order of the names met so far in which each stands before its dependencies.
abbrev IsOrder : Graph → List String → List String → Type 0
IsOrder g met names =
    (order : List String) × (IsTopological g order × Includes order met × Includes order names)

chain-IsOrder :
    (g : Graph) (met previous : List String) (plan : List PlanItem)
    → Knows g (chain previous plan)
    → IsTopological g met
    → Includes met previous
    → IsOrder g met (ids_of plan)
unfolding chain
chain-IsOrder g met previous [] known t i = (met, (t, λ x m. m, λ x m. cc))
chain-IsOrder g met previous (a ∷ plan) known t i =
    let (order, (u, old, new)) =
      chain-IsOrder g (a.node_id ∷ met) (a.node_id ∷ []) plan known.1
        ((λ b e. i b (rw (← known.0) e)), t) (λ x m. ground arith) in
    (
      order,
      (
        u,
        λ x m. old x (ground arith),
        λ x m. elim (Bool-cases (member x (ids_of plan))) [
          | inl later ↦ new x later
          | inr here ↦ old x (ground arith)
        ],
      ),
    )

-- The default definition is a plan: each item depends on the one before it.
pub default_nodes-IsPlan : (view : ContractView) → IsView view → IsPlan view (default_nodes view)
unfolding default_nodes
default_nodes-IsPlan view v =
    let g = graph_of (chain [] view.plan) in
    let covers = keys-chain [] view.plan in
    let known = graph_of-Knows [] (chain [] view.plan) (rw covers v.once) in
    let (order, (t, _, all)) = chain-IsOrder g [] [] view.plan known tt (λ x m. m) in
    record {
      covers = covers;
      fits =
          chain-IsFew (ids_of view.plan) [] view.plan
            (record { once = tt; single = omega arith; known = tt }) v.once
            (All-member (ids_of view.plan));
      acyclic = λ a l. IsTopological-acyclic g order a t (all a (rw (← covers) (Leads-key g l))) l;
    }
