-- ===== src/WorkDag/Swap.antt =====
-- The compare-and-swap of `seed_or_refresh` of work_dag.py.
use super_memory_brain.Base.{
  ℕ, ◌+◌, ◌≡◌, ◌⊎◌, inl, inr, refl, String, Bool, true, Option, none, some, List, ◌==◌, arith,
  Bool-cases,
}
use super_memory_brain.Json.{Value, Fields}
use super_memory_brain.WorkDag.Contract.{
  Runtime, DagCode, Parsed, refused, parsed, ContractView, contract_view, Node, seeded, refreshed,
}
use super_memory_brain.WorkDag.Graph.{Graph}
use super_memory_brain.WorkDag.State.{state_with_hash, valid_graph}
use super_memory_brain.WorkDag.Projection.{dag_revision_of}
use super_memory_brain.WorkDag.Store.{
  Reply, Store, write_state, seed_parsed, seed, refresh_parsed, refresh_graph, refuse, refresh,
  dispatch, seed_or_refresh, is_expected,
}

-- What a call leaves in the store: what was there, a first state of revision 1 under the action
-- "seed", or a state of the revision after the expected one under the action "refresh".
abbrev pub IsWrite : Runtime → String → Option ℕ → Store → Store → Type 0
IsWrite r action expected store none = store ≡ none
IsWrite r action expected store (some fields) =
    (store ≡ some fields)
    ⊎ (((action == "seed") ≡ true) × (store ≡ none) × (dag_revision_of r fields ≡ 1))
    ⊎ ((old : Fields) × ((action == "refresh") ≡ true)
        × (store ≡ some old)
        × (expected ≡ some (dag_revision_of r old))
        × (dag_revision_of r fields ≡ dag_revision_of r old + 1))

pub dag_revision_of-state_with_hash :
    (r : Runtime) (view : ContractView) (nodes : List Node) (n : ℕ)
    → dag_revision_of r (state_with_hash r view nodes n) ≡ n
unfolding dag_revision_of state_with_hash
dag_revision_of-state_with_hash r view nodes n = refl

write_state-store :
    (r : Runtime) (code : DagCode) (view : ContractView) (nodes : List Node) (n : ℕ)
    → (write_state r code view nodes n).0 ≡ some (state_with_hash r view nodes n)
unfolding write_state
write_state-store r code view nodes n = refl

IsWrite-same :
    (r : Runtime) (action : String) (expected : Option ℕ) (store : Store)
    → IsWrite r action expected store store
IsWrite-same r action expected none = refl
IsWrite-same r action expected (some fields) = inl refl

seed-IsWrite :
    (r : Runtime) (view : ContractView) (action : String) (expected : Option ℕ) (store : Store)
    (m : Parsed (List Node))
    → (action == "seed") ≡ true
    → IsWrite r action expected store (seed_parsed r view store m).0
unfolding seed_parsed
seed-IsWrite r view action expected store (refused c) a = IsWrite-same r action expected store
seed-IsWrite r view action expected none (parsed nodes) a =
    rw (write_state-store r seeded view nodes 1)
      (inr (inl (a, refl, dag_revision_of-state_with_hash r view nodes 1)))
seed-IsWrite r view action expected (some fields) (parsed nodes) a = inl refl

expected_lem : (expected : Option ℕ) (n : ℕ) → is_expected expected n ≡ true → expected ≡ some n
expected_lem none n h = cc
expected_lem (some e) n h = ground arith

refresh-IsWrite :
    (r : Runtime) (view : ContractView) (action : String) (definition : Value) (expected : Option ℕ)
    (fields : Fields) (m : Parsed (List Node))
    → (action == "refresh") ≡ true
    → is_expected expected (dag_revision_of r fields) ≡ true
    → IsWrite r action expected (some fields) (refresh_parsed r view definition fields m).0
unfolding refresh_parsed
refresh-IsWrite r view action definition expected fields (refused c) a x = inl refl
refresh-IsWrite r view action definition expected fields (parsed nodes) a x =
    let n = dag_revision_of r fields + 1 in
    rw (write_state-store r refreshed view nodes n) (
      inr (
        inr (
          fields,
          a,
          refl,
          expected_lem expected (dag_revision_of r fields) x,
          dag_revision_of-state_with_hash r view nodes n,
        )))

refresh_graph-IsWrite :
    (r : Runtime) (view : ContractView) (action : String) (definition : Value) (expected : Option ℕ)
    (fields : Fields) (g : Parsed Graph)
    → (action == "refresh") ≡ true
    → IsWrite r action expected (some fields) (refresh_graph r view definition expected fields g).0
unfolding refresh_graph
refresh_graph-IsWrite r view action definition expected fields (refused c) a = inl refl
refresh_graph-IsWrite r view action definition expected fields (parsed g) a =
    elim (Bool-cases (is_expected expected (dag_revision_of r fields))) [
      | inl x ↦ rw x (refresh-IsWrite r view action definition expected fields _ a x)
      | inr x ↦ rw x (inl refl)
    ]

refresh_store-IsWrite :
    (r : Runtime) (view : ContractView) (action : String) (definition : Value) (expected : Option ℕ)
    (store : Store)
    → (action == "refresh") ≡ true
    → IsWrite r action expected store (refresh r view definition expected store).0
unfolding refresh
refresh_store-IsWrite r view action definition expected none a = refl
refresh_store-IsWrite r view action definition expected (some fields) a =
    refresh_graph-IsWrite r view action definition expected fields (valid_graph r fields) a

dispatch-IsWrite :
    (r : Runtime) (view : ContractView) (action : String) (definition : Value) (expected : Option ℕ)
    (has_lock : Bool) (store : Store)
    → IsWrite r action expected store (dispatch r view action definition expected has_lock store).0
unfolding dispatch seed
dispatch-IsWrite r view action definition expected has_lock store =
    elim (Bool-cases (action == "seed")) [
      | inl s ↦ elim (Bool-cases has_lock) [
        | inl l ↦ rw (s, l) (seed-IsWrite r view action expected store _ s)
        | inr l ↦ rw (s, l) (IsWrite-same r action expected store)
      ]
      | inr s ↦ elim (Bool-cases (action == "refresh")) [
        | inl f ↦ elim (Bool-cases has_lock) [
          | inl l ↦ rw (s, f, l) (refresh_store-IsWrite r view action definition expected store f)
          | inr l ↦ rw (s, f, l) (IsWrite-same r action expected store)
        ]
        | inr f ↦ rw (s, f) (IsWrite-same r action expected store)
      ]
    ]

contract-IsWrite :
    (r : Runtime) (action : String) (definition : Value) (expected : Option ℕ) (has_lock : Bool)
    (store : Store) (v : Parsed ContractView)
    → IsWrite r action expected store
        (elim v as (λ _. Store × Reply) [
          | refused code ↦ (store, refuse code)
          | parsed view ↦ dispatch r view action definition expected has_lock store
        ]).0
contract-IsWrite r action definition expected has_lock store (refused c) =
    IsWrite-same r action expected store
contract-IsWrite r action definition expected has_lock store (parsed view) =
    dispatch-IsWrite r view action definition expected has_lock store

-- Whatever the arguments, the call leaves the store as it was, or writes revision 1 where nothing
-- was stored and the action is "seed", or, where the action is "refresh" and the expected revision
-- is the stored one, writes the revision after it.
pub seed_or_refresh-IsWrite :
    (r : Runtime) (contract : Value) (action : String) (definition : Value) (expected : Option ℕ)
    (has_lock : Bool) (store : Store)
    → IsWrite r action expected store
        (seed_or_refresh r contract action definition expected has_lock store).0
unfolding seed_or_refresh
seed_or_refresh-IsWrite r contract action definition expected has_lock store =
    contract-IsWrite r action definition expected has_lock store (contract_view r contract)
