-- ===== src/WorkDag/Valid.antt =====
-- A state that work_dag.py writes passes `state_is_valid`, and its projection is current.
use super_memory_brain.Base.{
  ℕ, suc, ◌≡◌, refl, ap, String, Bool, true, false, not, ◌&&◌, some, List, [], ◌∷◌, member, length,
  All, arith, eq_refl, ltb, leb, Bool-cases, inl, inr,
}
use super_memory_brain.Json.{Value, text, arr, obj, Items, count, is_text}
use super_memory_brain.WorkDag.Graph.{Graph, keys, detect_cycle}
use super_memory_brain.WorkDag.Contract.{
  max_nodes, hash_re, Runtime, parsed, compacted, Node, PlanItem, ContractView,
}
use super_memory_brain.WorkDag.Definition.{
  definition_value, node_items, ids_of, nodes_in_order, all_members,
}
use super_memory_brain.WorkDag.State.{
  graph_of, state_body, state_with_hash, state_head_is_valid, bounded_items, all_known, valid_graph,
  is_compact, state_schema,
}
use super_memory_brain.WorkDag.Acyclic.{Includes}
use super_memory_brain.WorkDag.Cycles.{detect_cycle_iff}
use super_memory_brain.WorkDag.Normal.{NoRepeat}
use super_memory_brain.WorkDag.Plan.{
  IsFew, IsPlan, keys-nodes_in_order, nodes_in_order-IsFew, Leads-nodes_in_order,
}
use super_memory_brain.WorkDag.Inversion.{bind_parsed, demand_parsed, demand_some_parsed}
use super_memory_brain.WorkDag.View.{IsView}
use super_memory_brain.WorkDag.Accepts.{ids_of-AreNames, stored_graph-accepts}

-- SHA-256 in hexadecimal: 64 digits, whatever is hashed.
pub record IsHash (r : Runtime) : Type 0 where
  pub digits : (v : Value) → hash_re (r.canonical_hash v) ≡ true

pub all_members_of :
    (names others : List String)
    → All (λ d. member d others ≡ true) names
    → all_members names others ≡ true
unfolding all_members
all_members_of [] others h = refl
all_members_of (a ∷ names) others h = ground (arith, h.0, all_members_of names others h.1)

all_known_of : (ids : List String) (g : Graph) → All (IsFew ids) g → all_known ids g ≡ true
unfolding all_known
all_known_of ids [] h = refl
all_known_of ids ((k, kids) ∷ g) h =
    ground (arith, all_members_of kids ids h.0.0.known, all_known_of ids g h.1)

pub All-suffix :
    (names all : List String) → Includes all names → All (λ id. member id all ≡ true) names
All-suffix [] all h = tt
All-suffix (a ∷ names) all h =
    (h a (ground (arith, eq_refl a)), All-suffix names all (λ x m. h x (ground arith)))

pub All-member : (names : List String) → All (λ id. member id names ≡ true) names
All-member names = All-suffix names names (λ x m. m)

-- `a and b`
pub also : {a b : Bool} → a ≡ true → b ≡ true → (a && b) ≡ true
also h k = ground arith

is_compact_of :
    (maximum : ℕ) (s : String)
    → compacted maximum (text s) ≡ some s
    → is_compact maximum (text s) ≡ true
is_compact_of maximum s h = rw (h, is_compact)

pub is_text_self : (s : String) → is_text s (text s) ≡ true
is_text_self s = eq_refl s

count-nodes_in_order :
    (g : Graph) (plan : List PlanItem) → count (node_items (nodes_in_order g plan)) ≡ length plan
unfolding nodes_in_order
count-nodes_in_order g [] = refl
count-nodes_in_order g (a ∷ plan) = ap suc (count-nodes_in_order g plan)

bounded_items_of :
    (items : Items)
    → (leb 1 (count items) && leb (count items) max_nodes) ≡ true
    → bounded_items (arr items) ≡ some items
bounded_items_of items h = ground arith

module _ (r : Runtime) (hashed : IsHash r) (view : ContractView) (v : IsView view) where
  state_head_is_valid-state_with_hash :
      (nodes : List Node) (n : ℕ)
      → ltb 0 n ≡ true
      → state_head_is_valid r (state_with_hash r view nodes n) ≡ true
  unfolding state_head_is_valid state_with_hash
  state_head_is_valid-state_with_hash nodes n p =
      let body = obj (state_body r view nodes n) in
      let definition = definition_value nodes in
      also
        (also
          (also
            (also
              (also
                (also
                  (also
                    (also
                      (also
                        (also
                          (also
                            (also
                              (also
                                (also (also refl (is_text_self state_schema))
                                  (is_compact_of 160 view.task_id v.head.task))
                                (is_compact_of 80 view.task_instance_id v.head.instance_))
                              (is_compact_of 160 view.workspace_key v.head.workspace))
                            (is_compact_of 160 view.owner_session_key v.head.owner))
                          v.head.revised)
                        p)
                      v.head.fingerprinted)
                    (hashed.digits definition))
                  (is_text_self "h7_canonical_plan_only"))
                refl)
              refl)
            refl)
          refl)
        (hashed.digits body)

  -- The nodes as they are written.
  abbrev pub written : List Node → List Node
  written nodes = nodes_in_order (graph_of nodes) view.plan

  written-once : (nodes : List Node) → NoRepeat [] (keys (graph_of (written nodes)))
  written-once nodes = rw (keys-nodes_in_order (graph_of nodes) view.plan) v.once

  written-known :
      (nodes : List Node)
      → All (λ id. member id (ids_of view.plan) ≡ true) (keys (graph_of (written nodes)))
  written-known nodes =
      rw (keys-nodes_in_order (graph_of nodes) view.plan) (All-member (ids_of view.plan))

  written-count : (nodes : List Node) → count (node_items (written nodes)) ≡ length view.plan
  written-count nodes = count-nodes_in_order (graph_of nodes) view.plan

  written-acyclic :
      (nodes : List Node) → IsPlan view nodes → detect_cycle (graph_of (written nodes)) ≡ false
  written-acyclic nodes plan = elim (Bool-cases (detect_cycle (graph_of (written nodes)))) [
    | inl cyclic ↦
        let (a, l) = (detect_cycle_iff (graph_of (written nodes))).0 cyclic in
        absurd (plan.acyclic a (Leads-nodes_in_order (graph_of nodes) view.plan l))
    | inr fine ↦ fine
  ]

  pub written-known_all :
      (nodes : List Node)
      → IsPlan view nodes
      → all_known (ids_of view.plan) (graph_of (written nodes)) ≡ true
  written-known_all nodes plan =
      all_known_of (ids_of view.plan) (graph_of (written nodes))
        (nodes_in_order-IsFew (graph_of nodes) (ids_of view.plan) view.plan plan.fits)

  written-closed :
      (nodes : List Node)
      → IsPlan view nodes
      → (all_known (keys (graph_of (written nodes))) (graph_of (written nodes))
          && not (detect_cycle (graph_of (written nodes))))
        ≡ true
  written-closed nodes plan = rw (
    keys-nodes_in_order (graph_of nodes) view.plan,
    written-known_all nodes plan,
    written-acyclic nodes plan,
  )

  pub valid_graph-state_with_hash :
      (nodes : List Node) (n : ℕ)
      → IsPlan view nodes
      → ltb 0 n ≡ true
      → valid_graph r (state_with_hash r view nodes n) ≡ parsed (graph_of (written nodes))
  unfolding valid_graph state_with_hash
  valid_graph-state_with_hash nodes n plan p =
      let few = nodes_in_order-IsFew (graph_of nodes) (ids_of view.plan) view.plan plan.fits in
      demand_parsed _ _ (state_head_is_valid-state_with_hash nodes n p) (
        demand_some_parsed _ _
          (bounded_items_of (node_items (written nodes)) (rw (written-count nodes) v.filled))
          (bind_parsed _
            (stored_graph-accepts (ids_of view.plan) (ids_of-AreNames view.plan v.named) []
              (written nodes) (written-once nodes) (written-known nodes) few)
            (demand_parsed _ _ (written-closed nodes plan) (
              demand_parsed _ _ (is_text_self (r.canonical_hash (obj (state_body r view nodes n))))
                refl))))
