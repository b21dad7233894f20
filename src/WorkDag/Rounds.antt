-- ===== src/WorkDag/Rounds.antt =====
-- `seed_or_refresh` of work_dag.py where no definition is given: the default one for the action
-- "seed", that of the stored state for the action "refresh".
use super_memory_brain.Base.{
  ℕ, ◌+◌, ◌≡◌, refl, ap, ◌∙◌, true, Option, some, List, [], ◌∷◌, arith, ltb,
}
use super_memory_brain.Json.{Value, null, Fields}
use super_memory_brain.WorkDag.Graph.{Graph}
use super_memory_brain.WorkDag.Contract.{
  Runtime, Parsed, refused, parsed, Node, ContractView, contract_view, default_nodes, refreshed,
}
use super_memory_brain.WorkDag.Definition.{definition_value, ids_of, normalize_for}
use super_memory_brain.WorkDag.State.{graph_of, definition_from_state, state_with_hash, valid_graph}
use super_memory_brain.WorkDag.Projection.{Projection, project_graph, dag_revision_of}
use super_memory_brain.WorkDag.Store.{
  Reply, reply, Store, refuse, write_state, refresh_parsed, refresh_graph, refresh, dispatch,
  seed_or_refresh, get_projection,
}
use super_memory_brain.WorkDag.Plan.{IsPlan}
use super_memory_brain.WorkDag.View.{IsView, checked_contract}
use super_memory_brain.WorkDag.Valid.{IsHash, valid_graph-state_with_hash}
use super_memory_brain.WorkDag.Swap.{dag_revision_of-state_with_hash}
use super_memory_brain.WorkDag.Seeding.{eqb_self, project_written}
use super_memory_brain.WorkDag.Seeds.{IsSeeded, seed_or_refresh-IsSeeded, get_projection-view}
use super_memory_brain.WorkDag.Complete.{
  nodes_in_order_same, graph_of-Knows, normalize_for-accepts, normalize_definition-accepts,
  plan_once,
}
use super_memory_brain.WorkDag.Default.{default_nodes-IsPlan}

-- Where hashes have the shape of one and the lock is had, every accepted contract can be seeded without a definition:
-- the default one is accepted and written, the same call again is idempotent, and the projection
-- is current.
pub default_nodes-IsSeeded :
    (r : Runtime) (contract : Value) (expected : Option ℕ) (view : ContractView)
    → IsHash r
    → contract_view r contract ≡ parsed view
    → (p : Projection) × IsSeeded r contract null expected view (default_nodes view) p
default_nodes-IsSeeded r contract expected view hashed c =
    seed_or_refresh-IsSeeded r contract null expected view (default_nodes view) hashed c (
      normalize_definition-accepts r contract view (default_nodes view) c
        (default_nodes-IsPlan view (checked_contract r contract view c)))

definition_from_state-graph_of :
    (nodes : List Node) → definition_from_state (graph_of nodes) ≡ nodes
unfolding definition_from_state
definition_from_state-graph_of [] = refl
definition_from_state-graph_of (n ∷ nodes) =
    ap (λ rest. n ∷ rest) (definition_from_state-graph_of nodes)

-- A plan of one contract is one of another with the same items.
IsPlan-same :
    (view later : ContractView) (nodes : List Node)
    → ids_of later.plan ≡ ids_of view.plan
    → IsPlan view nodes
    → IsPlan later nodes
IsPlan-same view later nodes e plan = record {
  covers = rw e plan.covers;
  fits = rw e plan.fits;
  acyclic = plan.acyclic;
}

module _ (r : Runtime) (later : ContractView) (nodes : List Node) (n : ℕ) (fields : Fields) where
  refresh_parsed-same :
      (p : Projection)
      → dag_revision_of r fields ≡ n
      → project_graph r
          (state_with_hash r later nodes (n + 1))
          later
          (valid_graph r (state_with_hash r later nodes (n + 1)))
        ≡ some (p, true)
      → refresh_parsed r later null fields (parsed nodes)
        ≡ (some (state_with_hash r later nodes (n + 1)), reply true refreshed true (some p))
  unfolding refresh_parsed write_state
  refresh_parsed-same p e seen = rw (e, seen)

  refresh_graph-expected :
      (g : Graph)
      → dag_revision_of r fields ≡ n
      → refresh_graph r later null (some n) fields (parsed g)
        ≡ refresh_parsed r later null fields
            (normalize_for later (definition_value (definition_from_state g)))
  unfolding refresh_graph
  refresh_graph-expected g e = rw (e, eqb_self n)

  refresh_graph-same :
      dag_revision_of r fields ≡ n
      → normalize_for later (definition_value nodes) ≡ parsed nodes
      → refresh_graph r later null (some n) fields (parsed (graph_of nodes))
        ≡ refresh_parsed r later null fields (parsed nodes)
  refresh_graph-same e h =
      refresh_graph-expected (graph_of nodes) e
      ∙ ap (λ ns. refresh_parsed r later null fields (normalize_for later (definition_value ns)))
          (definition_from_state-graph_of nodes)
      ∙ ap (refresh_parsed r later null fields) h

  refresh-same :
      valid_graph r fields ≡ parsed (graph_of nodes)
      → refresh r later null (some n) (some fields)
        ≡ refresh_graph r later null (some n) fields (parsed (graph_of nodes))
  unfolding refresh
  refresh-same e = ap (refresh_graph r later null (some n) fields) e

dispatch-refresh :
    (r : Runtime) (later : ContractView) (definition : Value) (expected : Option ℕ) (store : Store)
    (v : Parsed ContractView)
    → v ≡ parsed later
    → elim v as (λ _. Store × Reply) [
      | refused code ↦ (store, refuse code)
      | parsed view ↦ dispatch r view "refresh" definition expected true store
    ]
      ≡ refresh r later definition expected store
unfolding dispatch
dispatch-refresh r later definition expected store v c = rw c

seed_or_refresh-refresh :
    (r : Runtime) (contract definition : Value) (later : ContractView) (expected : Option ℕ)
    (store : Store)
    → contract_view r contract ≡ parsed later
    → seed_or_refresh r contract "refresh" definition expected true store
      ≡ refresh r later definition expected store
unfolding seed_or_refresh
seed_or_refresh-refresh r contract definition later expected store c =
    dispatch-refresh r later definition expected store (contract_view r contract) c

-- What a refresh without a definition makes of a stored state: the same nodes under the new
-- contract, of the next revision, and their projection, which is the current one.
abbrev pub IsRefreshed :
    Runtime → Value → ContractView → List Node → ℕ → Fields → Projection → Type 0
IsRefreshed r contract later nodes n fields p =
    (seed_or_refresh r contract "refresh" null (some n) true (some fields)
      ≡ (some (state_with_hash r later nodes (n + 1)), reply true refreshed true (some p)))
    × (get_projection r contract (some (state_with_hash r later nodes (n + 1))) ≡ some (p, true))

-- A plan written under one contract is kept by a refresh without a definition under a later
-- contract with the same items: where hashes have the shape of one, the lock is had, and the
-- expected revision is the stored one, the refresh stores the same nodes under the later contract and the next
-- revision, and answers the projection that `get_projection` then gives as current.
pub seed_or_refresh-IsRefreshed :
    (r : Runtime) (contract : Value) (view later : ContractView) (nodes : List Node) (n : ℕ)
    → IsHash r
    → IsView view
    → IsPlan view nodes
    → ltb 0 n ≡ true
    → contract_view r contract ≡ parsed later
    → ids_of later.plan ≡ ids_of view.plan
    → (p : Projection) × IsRefreshed r contract later nodes n (state_with_hash r view nodes n) p
seed_or_refresh-IsRefreshed r contract view later nodes n hashed v plan positive c e =
    let fields = state_with_hash r view nodes n in
    let w = checked_contract r contract later c in
    let same = IsPlan-same view later nodes e plan in
    let (p, seen) = project_written r hashed later w nodes same (n + 1) (ground arith) in
    let kept =
      nodes_in_order_same (graph_of nodes) view.plan nodes plan.covers
        (graph_of-Knows [] nodes (plan_once view v nodes plan)) in
    let stored =
      valid_graph-state_with_hash r hashed view v nodes n plan positive
      ∙ ap (λ ns. parsed (graph_of ns)) kept in
    let revision = dag_revision_of-state_with_hash r view nodes n in
    (
      p,
      (
        seed_or_refresh-refresh r contract null later (some n) (some fields) c
            ∙ refresh-same r later nodes n fields stored
            ∙ refresh_graph-same r later nodes n fields revision
                (normalize_for-accepts later w nodes same)
            ∙ refresh_parsed-same r later nodes n fields p revision seen,
        get_projection-view r contract null later nodes (state_with_hash r later nodes (n + 1)) c
            ∙ seen,
      ),
    )
