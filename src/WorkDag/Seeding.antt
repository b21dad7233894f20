-- ===== src/WorkDag/Seeding.antt =====
-- Seeding a state with `seed_or_refresh` of work_dag.py, and seeding again.
use super_memory_brain.Base.{ℕ, ◌≡◌, refl, ap, ◌∙◌, true, Option, none, some, List, arith, eqb, ltb}
use super_memory_brain.Json.{Fields}
use super_memory_brain.WorkDag.Contract.{Runtime, parsed, Node, ContractView}
use super_memory_brain.WorkDag.Definition.{ids_of}
use super_memory_brain.WorkDag.State.{graph_of, state_with_hash, valid_graph}
use super_memory_brain.WorkDag.Projection.{
  ProjectedNode, Projection, binding_matches, project_nodes, project_graph, current_projection,
  with_currency,
}
use super_memory_brain.WorkDag.Plan.{IsPlan, keys-nodes_in_order}
use super_memory_brain.WorkDag.Total.{IsFound, project_nodes-IsFound}
use super_memory_brain.WorkDag.View.{IsView}
use super_memory_brain.WorkDag.Valid.{
  IsHash, also, is_text_self, written, written-known_all, valid_graph-state_with_hash,
}

with_currency_found :
    (finish : List ProjectedNode → Projection) (nodes : Option (List ProjectedNode))
    → IsFound nodes
    → (p : Projection) × (with_currency finish nodes ≡ some (p, true))
with_currency_found finish (some nodes) h = (finish nodes, refl)
with_currency_found finish none h = absurd h

pub eqb_self : (n : ℕ) → eqb n n ≡ true
eqb_self n = ground arith

binding_matches-state_with_hash :
    (r : Runtime) (view : ContractView) (nodes : List Node) (n : ℕ)
    → binding_matches r (state_with_hash r view nodes n) view ≡ true
unfolding binding_matches state_with_hash
binding_matches-state_with_hash r view nodes n =
    also
      (also
        (also
          (also (also (is_text_self view.task_id) (is_text_self view.task_instance_id))
            (is_text_self view.workspace_key))
          (is_text_self view.owner_session_key))
        (eqb_self view.contract_revision))
      (is_text_self view.plan_fingerprint)

module _ (r : Runtime) (hashed : IsHash r) (view : ContractView) (v : IsView view)
    (nodes : List Node) (plan : IsPlan view nodes) (n : ℕ) (positive : ltb 0 n ≡ true) where
  -- The state that is written.
  abbrev stored : Fields
  stored = state_with_hash r view nodes n

  project_parsed :
      (p : Projection) × (project_graph r stored view
          (parsed (graph_of (written r hashed view v nodes)))
        ≡ some (p, true))
  unfolding project_graph
  project_parsed =
      let g = graph_of (written r hashed view v nodes) in
      let ids = ids_of view.plan in
      let found =
        project_nodes-IsFound view.plan ids g (λ x m. m)
          (λ x m. rw (← keys-nodes_in_order (graph_of nodes) view.plan) m)
          (written-known_all r hashed view v nodes plan) in
      let (p, e) =
        with_currency_found (current_projection r stored view) (project_nodes view.plan g) found in
      (p, rw (binding_matches-state_with_hash r view nodes n) e)

  -- The projection of a written state is current.
  pub project_written :
      (p : Projection) × (project_graph r stored view (valid_graph r stored) ≡ some (p, true))
  project_written = (
    project_parsed.0,
    ap (project_graph r stored view)
          (valid_graph-state_with_hash r hashed view v nodes n plan positive)
        ∙ project_parsed.1,
  )
