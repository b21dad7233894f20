-- ===== src/WorkDag/View.antt =====
-- What `_contract_view` of work_dag.py lets pass: the names of a contract are compact, and no item
-- of its plan stands twice.
use super_memory_brain.Base.{
  ℕ, suc, ◌≡◌, refl, ap, ◌∙◌, String, true, false, not, ◌&&◌, some, List, [], ◌∷◌, member, length,
  All, arith, ltb, leb,
}
use super_memory_brain.Json.{
  Value, text, obj, Items, end, item, Fields, get_or_null, count, is_true, fields_of, items_of,
}
use super_memory_brain.WorkDag.Contract.{
  max_nodes, node_id_re, plan_fingerprint_re, Runtime, whole_of, parsed, compacted, status_of,
  PlanItem, plan_item, plan_items, sort_items, is_numbered, ContractView, contract_head,
  contract_view,
}
use super_memory_brain.WorkDag.Definition.{ids_of}
use super_memory_brain.WorkDag.Normal.{NoRepeat}
use super_memory_brain.WorkDag.Order.{sort_items-NoRepeat, sort_items-All, length-sort_items}
use super_memory_brain.WorkDag.Compact.{compacted_idem}
use super_memory_brain.WorkDag.Inversion.{
  Ensures, Ensures->>=, Ensures-demand, Ensures-demand_some, Ensures_parsed,
}

-- A node's name: compact, and of the shape of one.
pub record IsNodeName (id : String) : Type 0 where
  pub compact : compacted 160 (text id) ≡ some id
  pub shaped : node_id_re id ≡ true

abbrev pub IsItem : PlanItem → Type 0
IsItem a = IsNodeName a.node_id

-- A plan as it is read, after the names `seen`.
pub record IsPlanList (seen : List String) (n : ℕ) (items : List PlanItem) : Type 0 where
  pub once : NoRepeat seen (ids_of items)
  pub named : All IsItem items
  pub long : length items ≡ n

abbrev IsNewItem : List String → PlanItem → Type 0
IsNewItem seen a = (member a.node_id seen ≡ false) × IsItem a

plan_item-IsNewItem :
    (r : Runtime) (seen : List String) (fields : Fields)
    → Ensures (IsNewItem seen) (plan_item r seen fields)
unfolding plan_item
plan_item-IsNewItem r seen fields =
    Ensures-demand_some (IsNewItem seen) (compacted 160 (get_or_null "itemId" fields)) _ _ (λ id c.
      Ensures-demand_some (IsNewItem seen) (compacted 180 (get_or_null "label" fields)) _ _
        (λ label l.
          Ensures-demand_some (IsNewItem seen) (compacted 32 (get_or_null "status" fields)) _ _
            (λ s t. Ensures-demand_some (IsNewItem seen) (status_of s) _ _ (λ status u.
              Ensures-demand (IsNewItem seen) (node_id_re id && not (member id seen)) _ _ (λ fresh.
                Ensures-demand (IsNewItem seen) (ltb 0 (whole_of r (get_or_null "ordinal" fields)))
                  _ _
                  (λ positive.
                    let name : IsNodeName id = record {
                      compact = compacted_idem 160 (get_or_null "itemId" fields) id c;
                      shaped = ground arith;
                    } in
                    (ground arith, name)))))))

plan_items-IsPlanList :
    (r : Runtime) (seen : List String) (items : Items)
    → Ensures (IsPlanList seen (count items)) (plan_items r seen items)
unfolding plan_items
plan_items-IsPlanList r seen end = record { once = tt; named = tt; long = refl }
plan_items-IsPlanList r seen (item (obj fields) items) =
    Ensures->>= (IsPlanList seen (suc (count items))) _ (plan_item r seen fields) _
      (plan_item-IsNewItem r seen fields)
      (λ first f.
        Ensures->>= (IsPlanList seen (suc (count items))) _
          (plan_items r (first.node_id ∷ seen) items) _
          (plan_items-IsPlanList r (first.node_id ∷ seen) items)
          (λ rest p. record { once = (f.0, p.once); named = (f.1, p.named); long = ap suc p.long }))
plan_items-IsPlanList r seen (item _ items) = tt

sort_items-IsPlanList :
    (seen : List String) (n : ℕ) (items : List PlanItem)
    → IsPlanList seen n items
    → IsPlanList seen n (sort_items items)
sort_items-IsPlanList seen n items p = record {
  once = sort_items-NoRepeat seen items p.once;
  named = sort_items-All IsItem items p.named;
  long = length-sort_items items ∙ p.long;
}

-- The contract's own fields.
pub record IsHead (view : ContractView) : Type 0 where
  pub task : compacted 160 (text view.task_id) ≡ some view.task_id
  pub instance_ : compacted 80 (text view.task_instance_id) ≡ some view.task_instance_id
  pub workspace : compacted 160 (text view.workspace_key) ≡ some view.workspace_key
  pub owner : compacted 160 (text view.owner_session_key) ≡ some view.owner_session_key
  pub revised : ltb 0 view.contract_revision ≡ true
  pub fingerprinted : plan_fingerprint_re view.plan_fingerprint ≡ true

contract_head-IsHead : (r : Runtime) (fields : Fields) → Ensures IsHead (contract_head r fields)
unfolding contract_head
contract_head-IsHead r fields =
    let receipt = fields_of (get_or_null "planReceipt" fields) in
    Ensures-demand_some IsHead (compacted 160 (get_or_null "taskId" fields)) _ _ (λ task t.
      Ensures-demand_some IsHead (compacted 80 (get_or_null "taskInstanceId" fields)) _ _ (λ inst i.
        Ensures-demand_some IsHead (compacted 160 (get_or_null "workspaceKey" fields)) _ _
          (λ work w.
            Ensures-demand_some IsHead (compacted 160 (get_or_null "ownerSessionKey" fields)) _ _
              (λ owner o.
                Ensures-demand IsHead (ltb 0 (whole_of r (get_or_null "revision" fields))) _ _
                  (λ revised.
                    Ensures-demand_some IsHead
                      (compacted 96 (get_or_null "planFingerprint" receipt)) _ _
                      (λ plan p. Ensures-demand IsHead (plan_fingerprint_re plan) _ _ (λ shaped.
                        record {
                          task = compacted_idem 160 (get_or_null "taskId" fields) task t;
                          instance_ =
                              compacted_idem 80 (get_or_null "taskInstanceId" fields) inst i;
                          workspace = compacted_idem 160 (get_or_null "workspaceKey" fields) work w;
                          owner = compacted_idem 160 (get_or_null "ownerSessionKey" fields) owner o;
                          revised = revised;
                          fingerprinted = shaped;
                        })))))))

-- What a contract that is read gives.
pub record IsView (view : ContractView) : Type 0 where
  pub head : IsHead view
  pub once : NoRepeat [] (ids_of view.plan)
  pub named : All IsItem view.plan
  pub filled : (leb 1 (length view.plan) && leb (length view.plan) max_nodes) ≡ true

contract_view-IsView : (r : Runtime) (contract : Value) → Ensures IsView (contract_view r contract)
unfolding contract_view
contract_view-IsView r (obj fields) =
    let items = items_of (get_or_null "items" (fields_of (get_or_null "canonicalPlan" fields))) in
    Ensures-demand IsView (is_true (get_or_null "ok" fields)) _ _ (λ ok_.
      Ensures->>= IsView _ (contract_head r fields) _ (contract_head-IsHead r fields) (λ head h.
        Ensures-demand IsView (leb 1 (count items) && leb (count items) max_nodes) _ _ (λ filled.
          Ensures->>= IsView _ (plan_items r [] items) _ (plan_items-IsPlanList r [] items)
            (λ plan p. Ensures-demand IsView (is_numbered 1 (sort_items plan)) _ _ (λ numbered.
              let q = sort_items-IsPlanList [] (count items) plan p in
              record {
                head = record {
                  task = h.task;
                  instance_ = h.instance_;
                  workspace = h.workspace;
                  owner = h.owner;
                  revised = h.revised;
                  fingerprinted = h.fingerprinted;
                };
                once = q.once;
                named = q.named;
                filled = rw q.long filled;
              })))))
contract_view-IsView r _ = tt

pub checked_contract :
    (r : Runtime) (contract : Value) (view : ContractView)
    → contract_view r contract ≡ parsed view
    → IsView view
checked_contract r contract view c =
    Ensures_parsed IsView (contract_view r contract) (contract_view-IsView r contract) c
