-- ===== src/WorkDag/Tests.antt =====
-- A plan of two items, the second after the first.
use super_memory_brain.Base.{◌≢◌, ℕ, ◌≡◌, refl, ◌↔◌, String, true, false, none, some, List, [], ◌∷◌}
use super_memory_brain.Json.{Value, null, bool, int, text, arr, obj, end, item, none_left, field}
use super_memory_brain.Text.{squeeze}
use super_memory_brain.WorkDag.Graph.{Graph, starved, search_cycle, detect_cycle}
use super_memory_brain.WorkDag.Acyclic.{Leads}
use super_memory_brain.WorkDag.Cycles.{detect_cycle_iff, search_cycle-ne-starved}
use super_memory_brain.WorkDag.Contract.{
  Runtime, parsed, pending, in_progress, completed, ContractView, contract_view, Node, seeded,
  compacted, hash_re, default_nodes, current,
}
use super_memory_brain.WorkDag.Definition.{definition_value, normalize_definition}
use super_memory_brain.WorkDag.State.{state_with_hash, valid_graph}
use super_memory_brain.WorkDag.Projection.{Projection, is_current, project_state}
use super_memory_brain.WorkDag.Store.{reply, given_or, seed_or_refresh}
use super_memory_brain.WorkDag.Plan.{IsPlan, normalize_definition-IsPlan}
use super_memory_brain.WorkDag.Running.{IsMoving, project_state-IsMoving}
use super_memory_brain.WorkDag.Compact.{compacted_idem}
use super_memory_brain.WorkDag.Total.{project_state-ne-none}
use super_memory_brain.WorkDag.View.{checked_contract}
use super_memory_brain.WorkDag.Valid.{IsHash}
use super_memory_brain.WorkDag.Seeds.{IsSeeded, seed_or_refresh-IsSeeded}
use super_memory_brain.WorkDag.Complete.{normalize_definition_iff}
use super_memory_brain.WorkDag.Rounds.{
  default_nodes-IsSeeded, IsRefreshed, seed_or_refresh-IsRefreshed,
}
use super_memory_brain.WorkDag.Swap.{IsWrite, seed_or_refresh-IsWrite}

abbrev runtime : Runtime
runtime = record {
  canonical_hash = λ v. "aaaaaaaaaaaaaaaaaaaaaaaaaaaaaaaaaaaaaaaaaaaaaaaaaaaaaaaaaaaaaaaa";
  whole = λ v. 0;
}

abbrev plan_item_value : String → String → ℕ → Value
plan_item_value id status ordinal = obj (
    field "itemId" (text id) (
      field "label" (text "work")
        (field "status" (text status) (field "ordinal" (int ordinal) none_left))))

abbrev contract_of : ℕ → String → Value
contract_of revision status = obj (
    field "ok" (bool true) (
      field "taskId" (text "task  one") (
        field "taskInstanceId" (text "t1") (
          field "workspaceKey" (text "w") (
            field "ownerSessionKey" (text "o") (
              field "revision" (int revision) (
                field "planReceipt"
                  (obj (field "planFingerprint" (text "0123456789abcdef") none_left))
                  (field "canonicalPlan"
                    (obj (
                      field "items"
                        (arr (
                          item (plan_item_value "step2" status 2)
                            (item (plan_item_value "step1" "completed" 1) end)))
                        none_left))
                    none_left))))))))

abbrev contract : Value
contract = contract_of 3 "pending"

abbrev view : ContractView
view = record {
  task_id = "task one";
  task_instance_id = "t1";
  workspace_key = "w";
  owner_session_key = "o";
  contract_revision = 3;
  plan_fingerprint = "0123456789abcdef";
  plan =
      record { node_id = "step1"; label = "work"; status = completed; ordinal = 1 }
      ∷ record { node_id = "step2"; label = "work"; status = pending; ordinal = 2 }
      ∷ [];
}

contract_is_read : contract_view runtime contract ≡ parsed view
unfolding contract_view squeeze
contract_is_read = refl

abbrev nodes : List Node
nodes =
    record { node_id = "step1"; depends_on = [] }
    ∷ record { node_id = "step2"; depends_on = "step1" ∷ [] }
    ∷ []

default_is_accepted : normalize_definition runtime (definition_value nodes) contract ≡ parsed nodes
unfolding normalize_definition definition_value squeeze detect_cycle
default_is_accepted = refl

definition_is_given :
    normalize_definition runtime
      (given_or (definition_value nodes) (definition_value (default_nodes view)))
      contract
    ≡ parsed nodes
unfolding definition_value
definition_is_given = default_is_accepted

normalize_definition-IsPlan_example : IsPlan view nodes
normalize_definition-IsPlan_example =
    normalize_definition-IsPlan runtime (definition_value nodes) contract view nodes
      contract_is_read default_is_accepted

abbrev loop : Graph
loop = ("a", "b" ∷ []) ∷ ("b", "a" ∷ []) ∷ []

loop_is_found : detect_cycle loop ≡ true
unfolding detect_cycle
loop_is_found = refl

search_cycle-ne-starved_example : search_cycle loop ≢ starved
search_cycle-ne-starved_example = search_cycle-ne-starved loop

detect_cycle_iff_example : (detect_cycle loop ≡ true) ↔ ((a : String) × Leads loop a a)
detect_cycle_iff_example = detect_cycle_iff loop

abbrev projection : Projection
projection = record {
  state = is_current;
  code = current;
  dag_revision = 1;
  contract_revision = 3;
  plan_fingerprint = "0123456789abcdef";
  ready_node_ids = "step2" ∷ [];
  active_node_ids = [];
  nodes =
      record {
        node_id = "step1";
        label = "work";
        depends_on = [];
        status = completed;
        ready = false;
        blocked_by_dependencies = false;
      }
      ∷ record {
        node_id = "step2";
        label = "work";
        depends_on = "step1" ∷ [];
        status = pending;
        ready = true;
        blocked_by_dependencies = false;
      }
      ∷ [];
}

state_is_current :
    project_state runtime (state_with_hash runtime view nodes 1) contract ≡ some (projection, true)
unfolding project_state state_with_hash squeeze detect_cycle
state_is_current = refl

project_state-IsMoving_example : IsMoving projection
project_state-IsMoving_example =
    project_state-IsMoving runtime (state_with_hash runtime view nodes 1) contract projection
      state_is_current (refl, (refl, tt))

seeds :
    seed_or_refresh runtime contract "seed" null none true none
    ≡ (some (state_with_hash runtime view nodes 1), reply true seeded true (some projection))
unfolding seed_or_refresh state_with_hash squeeze detect_cycle
seeds = refl

seed_or_refresh-IsWrite_example :
    IsWrite runtime "refresh"
      (some 1)
      (some (state_with_hash runtime view nodes 1))
      (seed_or_refresh runtime contract "refresh" null
        (some 1)
        true
        (some (state_with_hash runtime view nodes 1))).0
seed_or_refresh-IsWrite_example =
    seed_or_refresh-IsWrite runtime contract "refresh" null (some 1) true
      (some (state_with_hash runtime view nodes 1))

compacts_task : compacted 160 (text " task  one") ≡ some "task one"
unfolding compacted squeeze
compacts_task = refl

compacted_idem_example : compacted 160 (text "task one") ≡ some "task one"
compacted_idem_example = compacted_idem 160 (text " task  one") "task one" compacts_task

abbrev graph : Graph
graph = ("step1", []) ∷ ("step2", "step1" ∷ []) ∷ []

state_is_read : valid_graph runtime (state_with_hash runtime view nodes 1) ≡ parsed graph
unfolding valid_graph state_with_hash squeeze detect_cycle
state_is_read = refl

project_state-ne-none_example :
    project_state runtime (state_with_hash runtime view nodes 1) contract ≢ none
project_state-ne-none_example =
    project_state-ne-none runtime (state_with_hash runtime view nodes 1) contract view graph
      contract_is_read state_is_read (λ id m. m)

runtime-IsHash : IsHash runtime
unfolding hash_re
runtime-IsHash = record { digits = λ v. refl }

seed_or_refresh-IsSeeded_example :
    (p : Projection) × IsSeeded runtime contract (definition_value nodes) none view nodes p
seed_or_refresh-IsSeeded_example =
    seed_or_refresh-IsSeeded runtime contract (definition_value nodes) none view nodes
      runtime-IsHash contract_is_read definition_is_given

default_nodes-IsSeeded_example :
    (p : Projection) × IsSeeded runtime contract null none view (default_nodes view) p
default_nodes-IsSeeded_example =
    default_nodes-IsSeeded runtime contract none view runtime-IsHash contract_is_read

normalize_definition_iff_example :
    (normalize_definition runtime (definition_value nodes) contract ≡ parsed nodes)
    ↔ IsPlan view nodes
normalize_definition_iff_example =
    normalize_definition_iff runtime contract view nodes contract_is_read

-- The contract where the second item is in progress, of the next revision.
abbrev later_contract : Value
later_contract = contract_of 4 "in_progress"

abbrev later : ContractView
later = record {
  task_id = "task one";
  task_instance_id = "t1";
  workspace_key = "w";
  owner_session_key = "o";
  contract_revision = 4;
  plan_fingerprint = "0123456789abcdef";
  plan =
      record { node_id = "step1"; label = "work"; status = completed; ordinal = 1 }
      ∷ record { node_id = "step2"; label = "work"; status = in_progress; ordinal = 2 }
      ∷ [];
}

later_contract_is_read : contract_view runtime later_contract ≡ parsed later
unfolding contract_view squeeze
later_contract_is_read = refl

seed_or_refresh-IsRefreshed_example :
    (p : Projection) × IsRefreshed runtime later_contract later nodes 1
      (state_with_hash runtime view nodes 1)
      p
seed_or_refresh-IsRefreshed_example =
    seed_or_refresh-IsRefreshed runtime later_contract view later nodes 1 runtime-IsHash
      (checked_contract runtime contract view contract_is_read)
      (normalize_definition-IsPlan runtime (definition_value nodes) contract view nodes
        contract_is_read default_is_accepted)
      refl later_contract_is_read refl
