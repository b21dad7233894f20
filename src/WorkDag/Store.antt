-- ===== src/WorkDag/Store.antt =====
-- CORE/runtime/work_dag.py: `seed_or_refresh` and `get_projection`. The store is what `_read_json` gives
-- for the state file, `none` where it gives `None`; `_atomic_write` replaces it. Whether the file
-- lock is had in time is an argument.
use super_memory_brain.Base.{
  ℕ, ◌+◌, String, Bool, true, false, not, ◌&&◌, ◌||◌, Option, none, some, List, eqb, ◌==◌,
  if◌then◌else◌,
}
use super_memory_brain.Json.{
  Value, null, bool, int, negative, float, text, arr, obj, Fields, get_or_null, is_text,
}
use super_memory_brain.WorkDag.Graph.{Graph}
use super_memory_brain.WorkDag.Contract.{
  Runtime, DagCode, Parsed, refused, parsed, action_invalid, seed_idempotent, seed_requires_refresh,
  seeded, state_unavailable, refresh_definition_required, refreshed, lock_timeout, ContractView,
  contract_view, Node, default_nodes,
}
use super_memory_brain.WorkDag.Definition.{definition_value, normalize_for}
use super_memory_brain.WorkDag.State.{state_with_hash, valid_graph, definition_from_state}
use super_memory_brain.WorkDag.Projection.{
  Projection, projection_withheld, project_graph, project_state, dag_revision_of,
}

-- The answer of `seed_or_refresh`: `mismatched` has the code CAS_MISMATCH and the stored revision,
-- `raised` stands for a `KeyError` that leaves the function.
pub data Reply : Type 0 where
  reply :
      (ok : Bool) (code : DagCode) (state_mutated : Bool) (projection : Option Projection) → Reply
  mismatched : (dag_revision : ℕ) → Reply
  raised : Reply

abbrev pub Store : Type 0
Store = Option Fields

abbrev pub refuse : DagCode → Reply
refuse code = reply false code false none

-- `value if value is not None else default`
abbrev pub given_or : Value → Value → Value
given_or null default = default
given_or (bool b) default = bool b
given_or (int n) default = int n
given_or (negative n) default = negative n
given_or float default = float
given_or (text s) default = text s
given_or (arr xs) default = arr xs
given_or (obj fs) default = obj fs

abbrev pub is_null : Value → Bool
is_null null = true
is_null (bool b) = false
is_null (int n) = false
is_null (negative n) = false
is_null float = false
is_null (text s) = false
is_null (arr xs) = false
is_null (obj fs) = false

abbrev pub report : DagCode → Option (Projection × Bool) → Reply
report code none = raised
report code (some (projection, _)) = reply true code true (some projection)

-- `_atomic_write` of the new state, and its projection.
unfoldable pub write_state : Runtime → DagCode → ContractView → List Node → ℕ → Store × Reply
unfolding state_with_hash project_graph valid_graph
write_state r code view nodes revision =
    let fields = state_with_hash r view nodes revision in
    (some fields, report code (project_graph r fields view (valid_graph r fields)))

-- The seed where a state is stored already.
unfoldable pub seed_existing : Runtime → Fields → List Node → Option (Projection × Bool) → Reply
unfolding definition_value get_or_null
seed_existing r fields nodes none = raised
seed_existing r fields nodes (some (projection, is_current)) =
    if is_current
      && is_text (r.canonical_hash (definition_value nodes)) (get_or_null "definitionHash" fields)
    then reply true seed_idempotent false (some projection)
    else reply false seed_requires_refresh false (some projection)

unfoldable pub seed_parsed : Runtime → ContractView → Store → Parsed (List Node) → Store × Reply
unfolding write_state seed_existing project_graph valid_graph
seed_parsed r view store (refused code) = (store, refuse code)
seed_parsed r view none (parsed nodes) = write_state r seeded view nodes 1
seed_parsed r view (some fields) (parsed nodes) =
    (some fields, seed_existing r fields nodes (project_graph r fields view (valid_graph r fields)))

-- The branch of the action "seed".
unfoldable pub seed : Runtime → ContractView → Value → Store → Store × Reply
unfolding seed_parsed normalize_for definition_value default_nodes
seed r view definition store =
    seed_parsed r view store
      (normalize_for view (given_or definition (definition_value (default_nodes view))))

unfoldable pub refresh_parsed :
    Runtime → ContractView → Value → Fields → Parsed (List Node) → Store × Reply
unfolding write_state dag_revision_of
refresh_parsed r view definition fields (refused code) =
    (some fields, refuse (if is_null definition then refresh_definition_required else code))
refresh_parsed r view definition fields (parsed nodes) =
    write_state r refreshed view nodes (dag_revision_of r fields + 1)

abbrev pub is_expected : Option ℕ → ℕ → Bool
is_expected none n = false
is_expected (some expected) n = eqb n expected

unfoldable pub refresh_graph :
    Runtime → ContractView → Value → Option ℕ → Fields → Parsed Graph → Store × Reply
unfolding refresh_parsed normalize_for definition_value definition_from_state dag_revision_of
refresh_graph r view definition expected fields (refused code) =
    (some fields, refuse state_unavailable)
refresh_graph r view definition expected fields (parsed graph) =
    if is_expected expected (dag_revision_of r fields)
    then refresh_parsed r view definition fields
        (normalize_for view (given_or definition (definition_value (definition_from_state graph))))
    else (some fields, mismatched (dag_revision_of r fields))

-- The branch of the action "refresh". A negative expected revision is `none`.
unfoldable pub refresh : Runtime → ContractView → Value → Option ℕ → Store → Store × Reply
unfolding refresh_graph valid_graph
refresh r view definition expected none = (none, refuse state_unavailable)
refresh r view definition expected (some fields) =
    refresh_graph r view definition expected fields (valid_graph r fields)

-- `seed_or_refresh` on a contract that was read.
unfoldable pub dispatch :
    Runtime → ContractView → String → Value → Option ℕ → Bool → Store → Store × Reply
unfolding seed refresh
dispatch r view action definition expected has_lock store =
    if not (action == "seed" || action == "refresh")
    then (store, refuse action_invalid)
    else if not has_lock
    then (store, refuse lock_timeout)
    else if action == "seed"
    then seed r view definition store
    else refresh r view definition expected store

unfoldable pub seed_or_refresh :
    Runtime → Value → String → Value → Option ℕ → Bool → Store → Store × Reply
unfolding dispatch contract_view
seed_or_refresh r contract action definition expected has_lock store =
    elim (contract_view r contract) [
      | refused code ↦ (store, refuse code)
      | parsed view ↦ dispatch r view action definition expected has_lock store
    ]

-- `get_projection`: a missing state is invalid, where the contract is not refused first.
unfoldable pub get_projection : Runtime → Value → Store → Option (Projection × Bool)
unfolding project_state contract_view
get_projection r contract (some fields) = project_state r fields contract
get_projection r contract none = elim (contract_view r contract) [
  | refused code ↦ some (projection_withheld code, false)
  | parsed view ↦ some (projection_withheld DagCode.state_invalid, false)
]
