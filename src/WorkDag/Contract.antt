-- ===== src/WorkDag/Contract.antt =====
-- CORE/runtime/work_dag.py: the constants, `_compact`, `_contract_view` and `_default_definition`.
use Prim.Native.Nat.{compare, Ordering}
use Prim.Native.String.{compare as compare_text}
use super_memory_brain.Base.{
  ℕ, suc, String, Bool, true, false, not, ◌&&◌, ◌||◌, Option, none, some, List, [], ◌∷◌, ltb, leb,
  eqb, member, ◌==◌, if◌then◌else◌,
}
use super_memory_brain.Json.{
  Value, null, bool, int, negative, float, text, arr, obj, Items, end, item, Fields, get_or_null,
  count, is_true, fields_of, items_of,
}
use super_memory_brain.Text.{squeeze, size, sized_in, led_shape, is_hex, is_letter, is_alnum}

abbrev pub max_nodes : ℕ
max_nodes = 48

abbrev pub max_dependencies : ℕ
max_dependencies = 12

-- `[A-Za-z][A-Za-z0-9._:-]{1,159}`
unfoldable pub node_id_re : String → Bool
unfolding led_shape is_letter is_alnum
node_id_re =
    led_shape is_letter (λ n. is_alnum n || eqb n b'.' || eqb n b'_' || eqb n b':' || eqb n b'-') 1
      159

-- `[a-f0-9]{64}`, `[a-f0-9]{16,96}`
unfoldable pub hash_re : String → Bool
unfolding sized_in is_hex
hash_re = sized_in is_hex 64 64

unfoldable pub plan_fingerprint_re : String → Bool
unfolding sized_in is_hex
plan_fingerprint_re = sized_in is_hex 16 96

-- What the module takes from Python: SHA-256 over the canonical JSON of a value, and `int` of a
-- text or a float, 0 where that is not positive or raises.
pub record Runtime : Type 0 where
  pub canonical_hash : Value → String
  pub whole : Value → ℕ

-- `int(value or 0)`, 0 where it is not positive or raises a `TypeError` or a `ValueError`: the
-- callers refuse both alike. The `OverflowError` of an infinite float, which the source does not
-- catch, is not modelled.
unfoldable pub whole_of : Runtime → Value → ℕ
whole_of r (int n) = n
whole_of r (bool b) = if b then 1 else 0
whole_of r (text s) = if s == "" then 0 else r.whole (text s)
whole_of r float = r.whole float
whole_of r null = 0
whole_of r (negative n) = 0
whole_of r (arr xs) = 0
whole_of r (obj fs) = 0

-- Result codes, without their prefix H7_WORK_DAG_.
pub data DagCode : Type 0 where
  contract_unavailable contract_invalid definition_fields_invalid definition_invalid : DagCode
  definition_coverage_invalid definition_cycle_or_coverage_invalid state_invalid : DagCode
  h7_binding_stale current action_invalid seed_idempotent seed_requires_refresh seeded : DagCode
  state_unavailable refresh_definition_required refreshed lock_timeout : DagCode

-- A parse that refuses with `(None, code)`.
pub data Parsed {ℓ} (A : Type ℓ) : Type ℓ where
  refused : DagCode → Parsed A
  parsed : A → Parsed A

infixl 5 ◌>>=◌ ◌>>◌
abbrev pub ◌>>=◌ {ℓ κ} : {A : Type ℓ} {B : Type κ} → Parsed A → (A → Parsed B) → Parsed B
refused c >>= f = refused c
parsed a >>= f = f a

abbrev pub ◌>>◌ {ℓ} : {B : Type ℓ} → Parsed (Unit {0}) → Parsed B → Parsed B
m >> k = m >>= λ _. k

-- `if not test: return None, code`
abbrev pub demand : Bool → DagCode → Parsed (Unit {0})
demand true code = parsed tt
demand false code = refused code

abbrev pub demand_some {ℓ} : {A : Type ℓ} → Option A → DagCode → Parsed A
demand_some none code = refused code
demand_some (some a) code = parsed a

abbrev pub compact_within : ℕ → String → Option String
compact_within maximum normalized =
    if not (normalized == "") && leb (size normalized) maximum then some normalized else none

-- `_compact`
unfoldable pub compacted : ℕ → Value → Option String
unfolding squeeze
compacted maximum (text s) = compact_within maximum (squeeze s)
compacted maximum null = none
compacted maximum (bool b) = none
compacted maximum (int n) = none
compacted maximum (negative n) = none
compacted maximum float = none
compacted maximum (arr xs) = none
compacted maximum (obj fs) = none

-- `_TASK_STATUS`
pub data Status : Type 0 where
  pending in_progress completed blocked cancelled : Status

unfoldable pub status_of : String → Option Status
status_of s =
    if s == "pending"
    then some pending
    else if s == "in_progress"
    then some in_progress
    else if s == "completed"
    then some completed
    else if s == "blocked"
    then some blocked
    else if s == "cancelled"
    then some cancelled
    else none

pub record PlanItem : Type 0 where
  pub node_id : String
  pub label : String
  pub status : Status
  pub ordinal : ℕ

-- The loop over `items`, with the set `seen`.
unfoldable pub plan_item : Runtime → List String → Fields → Parsed PlanItem
unfolding compacted node_id_re status_of whole_of get_or_null
plan_item r seen fields = do
  id ← demand_some (compacted 160 (get_or_null "itemId" fields)) contract_invalid
  label ← demand_some (compacted 180 (get_or_null "label" fields)) contract_invalid
  status_text ← demand_some (compacted 32 (get_or_null "status" fields)) contract_invalid
  status ← demand_some (status_of status_text) contract_invalid
  demand (node_id_re id && not (member id seen)) contract_invalid
  demand (ltb 0 (whole_of r (get_or_null "ordinal" fields))) contract_invalid
  parsed (record {
    node_id = id;
    label = label;
    status = status;
    ordinal = whole_of r (get_or_null "ordinal" fields);
  })

unfoldable pub plan_items : Runtime → List String → Items → Parsed (List PlanItem)
unfolding plan_item
plan_items r seen end = parsed []
plan_items r seen (item (obj fields) items) = do
  first ← plan_item r seen fields
  rest ← plan_items r (first.node_id ∷ seen) items
  parsed (first ∷ rest)
plan_items r seen (item v items) = refused contract_invalid

abbrev not_after : Ordering → Bool
not_after Ordering.gt = false
not_after Ordering.lt = true
not_after Ordering.eq = true

-- The order of the key `(ordinal, nodeId)`.
abbrev pub comes_before : PlanItem → PlanItem → Bool
comes_before a b = elim (compare a.ordinal b.ordinal) [
  | Ordering.lt ↦ true
  | Ordering.eq ↦ not_after (compare_text a.node_id b.node_id)
  | Ordering.gt ↦ false
]

unfoldable pub insert_item : PlanItem → List PlanItem → List PlanItem
insert_item a [] = a ∷ []
insert_item a (b ∷ items) = if comes_before a b then a ∷ b ∷ items else b ∷ insert_item a items

unfoldable pub sort_items : List PlanItem → List PlanItem
unfolding insert_item
sort_items [] = []
sort_items (a ∷ items) = insert_item a (sort_items items)

-- `[ordinals] == list(range(first, first + len))`
unfoldable pub is_numbered : ℕ → List PlanItem → Bool
is_numbered first [] = true
is_numbered first (a ∷ items) = eqb a.ordinal first && is_numbered (suc first) items

pub record ContractView : Type 0 where
  pub task_id : String
  pub task_instance_id : String
  pub workspace_key : String
  pub owner_session_key : String
  pub contract_revision : ℕ
  pub plan_fingerprint : String
  pub plan : List PlanItem

-- The contract's own fields, before its plan is read.
unfoldable pub contract_head : Runtime → Fields → Parsed ContractView
unfolding compacted whole_of plan_fingerprint_re get_or_null
contract_head r fields =
    let receipt = fields_of (get_or_null "planReceipt" fields) in
    let revision = whole_of r (get_or_null "revision" fields) in
    do
      task ← demand_some (compacted 160 (get_or_null "taskId" fields)) contract_invalid
      instance_ ← demand_some (compacted 80 (get_or_null "taskInstanceId" fields)) contract_invalid
      workspace ← demand_some (compacted 160 (get_or_null "workspaceKey" fields)) contract_invalid
      owner ← demand_some (compacted 160 (get_or_null "ownerSessionKey" fields)) contract_invalid
      demand (ltb 0 revision) contract_invalid
      plan ← demand_some (compacted 96 (get_or_null "planFingerprint" receipt)) contract_invalid
      demand (plan_fingerprint_re plan) contract_invalid
      parsed (record {
        task_id = task;
        task_instance_id = instance_;
        workspace_key = workspace;
        owner_session_key = owner;
        contract_revision = revision;
        plan_fingerprint = plan;
        plan = [];
      })

-- `_contract_view`
unfoldable pub contract_view : Runtime → Value → Parsed ContractView
unfolding contract_head plan_items sort_items is_numbered get_or_null
contract_view r (obj fields) =
    let items = items_of (get_or_null "items" (fields_of (get_or_null "canonicalPlan" fields))) in
    do
      demand (is_true (get_or_null "ok" fields)) contract_unavailable
      head ← contract_head r fields
      demand (leb 1 (count items) && leb (count items) max_nodes) contract_invalid
      plan ← plan_items r [] items
      demand (is_numbered 1 (sort_items plan)) contract_invalid
      parsed (record head { plan = sort_items plan })
contract_view r _ = refused contract_unavailable

pub record Node : Type 0 where
  pub node_id : String
  pub depends_on : List String

-- `_default_definition`: each item depends on the one before it.
unfoldable pub chain : List String → List PlanItem → List Node
chain previous [] = []
chain previous (a ∷ items) =
    record { node_id = a.node_id; depends_on = previous } ∷ chain (a.node_id ∷ []) items

unfoldable pub default_nodes : ContractView → List Node
unfolding chain
default_nodes view = chain [] view.plan
