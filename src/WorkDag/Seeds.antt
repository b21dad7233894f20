-- ===== src/WorkDag/Seeds.antt =====
-- `seed_or_refresh` of work_dag.py with the action "seed", on an empty store and again on what it wrote.
use super_memory_brain.Base.{ℕ, ◌≡◌, refl, ◌∙◌, Bool, true, false, Option, none, some, List, arith}
use super_memory_brain.Json.{Value, Fields}
use super_memory_brain.WorkDag.Contract.{
  Runtime, Parsed, refused, parsed, Node, ContractView, contract_view, default_nodes, seeded,
  seed_idempotent,
}
use super_memory_brain.WorkDag.Definition.{definition_value, normalize_for, normalize_definition}
use super_memory_brain.WorkDag.State.{state_with_hash, valid_graph}
use super_memory_brain.WorkDag.Projection.{
  Projection, projection_withheld, project_graph, project_state,
}
use super_memory_brain.WorkDag.Store.{
  Reply, reply, Store, refuse, given_or, write_state, seed_existing, seed_parsed, seed, dispatch,
  seed_or_refresh, get_projection,
}
use super_memory_brain.WorkDag.Plan.{normalize_definition-IsPlan}
use super_memory_brain.WorkDag.View.{checked_contract}
use super_memory_brain.WorkDag.Valid.{IsHash, is_text_self}
use super_memory_brain.WorkDag.Seeding.{project_written}

module _ (r : Runtime) (view : ContractView) (nodes : List Node) (p : Projection) where
  -- The state that is written, of revision 1.
  abbrev first_state : Fields
  first_state = state_with_hash r view nodes 1

  -- It is read back, and its projection is current.
  abbrev IsSeen : Type 0
  IsSeen = project_graph r first_state view (valid_graph r first_state) ≡ some (p, true)

  seed_parsed-first :
      IsSeen
      → seed_parsed r view none (parsed nodes) ≡ (some first_state, reply true seeded true (some p))
  unfolding seed_parsed write_state
  seed_parsed-first seen = rw seen

  seed_parsed-again :
      IsSeen
      → seed_parsed r view (some first_state) (parsed nodes)
        ≡ (some first_state, reply true seed_idempotent false (some p))
  unfolding seed_parsed seed_existing state_with_hash
  seed_parsed-again seen = rw (seen, is_text_self (r.canonical_hash (definition_value nodes)))

module _ (r : Runtime) (contract definition : Value) (view : ContractView) (nodes : List Node) where
  dispatch-parsed :
      (store : Store) (expected : Option ℕ) (v : Parsed ContractView)
      → v ≡ parsed view
      → normalize_for view (given_or definition (definition_value (default_nodes view)))
        ≡ parsed nodes
      → elim v as (λ _. Store × Reply) [
        | refused code ↦ (store, refuse code)
        | parsed view' ↦ dispatch r view' "seed" definition expected true store
      ]
        ≡ seed_parsed r view store (parsed nodes)
  unfolding dispatch seed
  dispatch-parsed store expected v c n = rw (c, n)

  seed-parsed :
      (store : Store)
      → contract_view r contract ≡ parsed view
      → normalize_for view (given_or definition (definition_value (default_nodes view)))
        ≡ parsed nodes
      → (expected : Option ℕ)
      → seed_or_refresh r contract "seed" definition expected true store
        ≡ seed_parsed r view store (parsed nodes)
  unfolding seed_or_refresh
  seed-parsed store c n expected = dispatch-parsed store expected (contract_view r contract) c n

  normalized :
      contract_view r contract ≡ parsed view
      → normalize_definition r
          (given_or definition (definition_value (default_nodes view)))
          contract
        ≡ parsed nodes
      → normalize_for view (given_or definition (definition_value (default_nodes view)))
        ≡ parsed nodes
  unfolding normalize_definition
  normalized c n = ground (arith, c)

  projection-view :
      (fields : Fields) (v : Parsed ContractView)
      → v ≡ parsed view
      → elim v as (λ _. Option (Projection × Bool)) [
        | refused code ↦ some (projection_withheld code, false)
        | parsed view' ↦ project_graph r fields view' (valid_graph r fields)
      ]
        ≡ project_graph r fields view (valid_graph r fields)
  projection-view fields v c = rw c

  pub get_projection-view :
      (fields : Fields)
      → contract_view r contract ≡ parsed view
      → get_projection r contract (some fields) ≡ project_graph r fields view (valid_graph r fields)
  unfolding get_projection project_state
  get_projection-view fields c = projection-view fields (contract_view r contract) c

-- What the call makes of an accepted definition: the first seed writes a state of revision 1 and
-- answers its projection, the same seed again finds it, and it is the current projection.
abbrev pub IsSeeded :
    Runtime → Value → Value → Option ℕ → ContractView → List Node → Projection → Type 0
IsSeeded r contract definition expected view nodes p =
    let fields = state_with_hash r view nodes 1 in
    (seed_or_refresh r contract "seed" definition expected true none
      ≡ (some fields, reply true seeded true (some p)))
    × (seed_or_refresh r contract "seed" definition expected true (some fields)
        ≡ (some fields, reply true seed_idempotent false (some p)))
    × (get_projection r contract (some fields) ≡ some (p, true))

-- Where hashes have the shape of one and the lock is had, an accepted contract and an accepted
-- definition, or the default one where none is given, are seeded: on an empty store the call writes the state of
-- revision 1 and answers a projection; the same call again leaves the store and answers that the
-- seed is idempotent with that projection; and `get_projection` gives it as current.
pub seed_or_refresh-IsSeeded :
    (r : Runtime) (contract definition : Value) (expected : Option ℕ) (view : ContractView)
    (nodes : List Node)
    → IsHash r
    → contract_view r contract ≡ parsed view
    → normalize_definition r (given_or definition (definition_value (default_nodes view))) contract
      ≡ parsed nodes
    → (p : Projection) × IsSeeded r contract definition expected view nodes p
seed_or_refresh-IsSeeded r contract definition expected view nodes hashed c d =
    let v = checked_contract r contract view c in
    let plan =
      normalize_definition-IsPlan r (given_or definition (definition_value (default_nodes view)))
        contract view nodes c d in
    let (p, seen) = project_written r hashed view v nodes plan 1 refl in
    let n = normalized r contract definition view nodes c d in
    (
      p,
      (
        seed-parsed r contract definition view nodes none c n expected
            ∙ seed_parsed-first r view nodes p seen,
        seed-parsed r contract definition view nodes (some (state_with_hash r view nodes 1)) c n
              expected
            ∙ seed_parsed-again r view nodes p seen,
        get_projection-view r contract definition view nodes (state_with_hash r view nodes 1) c
            ∙ seen,
      ),
    )
