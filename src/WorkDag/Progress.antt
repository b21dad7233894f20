-- ===== src/WorkDag/Progress.antt =====
-- The projection of work_dag.py leaves no plan stuck.
use mathlib.Core.Path.{subst}
use super_memory_brain.Base.{
  ◌≡◌, refl, sym, ◌⊎◌, inl, inr, String, Bool, true, false, ◌||◌, Option, none, some, List, [], ◌∷◌,
  member, All, arith, eq_iff, eq_refl, Bool-cases, String-cases,
}
use super_memory_brain.Base.Dict.{get}
use super_memory_brain.WorkDag.Graph.{Graph, dependencies, keys, detect_cycle}
use super_memory_brain.WorkDag.Contract.{Status, PlanItem}
use super_memory_brain.WorkDag.Definition.{all_members}
use super_memory_brain.WorkDag.State.{all_known}
use super_memory_brain.WorkDag.Projection.{
  ProjectedNode, find_item, is_pending, is_completed, statuses_of, add_status, all_completed,
  projected, add_node, project_nodes, ready_ids,
}
use super_memory_brain.WorkDag.Acyclic.{Edge, IsTopological}
use super_memory_brain.WorkDag.Cycles.{detect_cycle-order}

-- The plan has the item, and it is completed.
abbrev is_done : Option PlanItem → Bool
is_done none = false
is_done (some a) = is_completed a.status

abbrev pub IsWaiting : ProjectedNode → Type 0
IsWaiting n = (is_pending n.status || is_completed n.status) ≡ true

abbrev pub IsCompleted : ProjectedNode → Type 0
IsCompleted n = is_completed n.status ≡ true

add_node-eq-some :
    (x : Option ProjectedNode) (y : Option (List ProjectedNode)) {nodes : List ProjectedNode}
    → add_node x y ≡ some nodes
    → (n : ProjectedNode) × (rest : List ProjectedNode) × (x ≡ some n)
      × (y ≡ some rest)
      × (n ∷ rest ≡ nodes)
add_node-eq-some (some n) (some rest) h = (n, rest, refl, refl, cc)
add_node-eq-some (some n) none h = cc
add_node-eq-some none y h = cc

abbrev AreCompleted : Option (List Status) → Type 0
AreCompleted none = Unit
AreCompleted (some statuses) = all_completed statuses ≡ true

add_status-completed :
    (a : Option PlanItem) (statuses : Option (List Status))
    → is_done a ≡ true
    → AreCompleted statuses
    → AreCompleted (add_status a statuses)
unfolding all_completed
add_status-completed (some a) (some ss) d h = ground arith
add_status-completed (some a) none d h = tt
add_status-completed none ss d h = cc

statuses_of-completed :
    (plan : List PlanItem) (ids : List String)
    → ((b : String) → member b ids ≡ true → is_done (find_item b plan) ≡ true)
    → AreCompleted (statuses_of plan ids)
unfolding statuses_of all_completed
statuses_of-completed plan [] d = refl
statuses_of-completed plan (b ∷ ids) d =
    add_status-completed (find_item b plan) (statuses_of plan ids) (d b (ground (arith, eq_refl b)))
      (statuses_of-completed plan ids (λ c m. d c (ground arith)))

-- A pending node whose dependencies are completed is ready.
projected-ready :
    (ids : List String) (a : Option PlanItem) (statuses : Option (List Status)) (n : ProjectedNode)
    → AreCompleted statuses
    → projected ids a statuses ≡ some n
    → IsWaiting n
    → is_done a ≡ false
    → n.ready ≡ true
projected-ready ids (some a) (some ss) n d h w f = ground arith
projected-ready ids (some a) none n d h w f = cc
projected-ready ids none ss n d h w f = cc

projected-IsCompleted :
    (ids : List String) (a : Option PlanItem) (statuses : Option (List Status)) (n : ProjectedNode)
    → projected ids a statuses ≡ some n
    → is_done a ≡ true
    → IsCompleted n
projected-IsCompleted ids (some a) (some ss) n h d = ground arith
projected-IsCompleted ids (some a) none n h d = cc
projected-IsCompleted ids none ss n h d = cc

-- Some node is ready.
abbrev pub HasReady : List ProjectedNode → Type 0
HasReady nodes = (id : String) × (member id (ready_ids nodes) ≡ true)

HasReady-first :
    (n : ProjectedNode) (rest : List ProjectedNode) → n.ready ≡ true → HasReady (n ∷ rest)
unfolding ready_ids
HasReady-first n rest h = (n.node_id, ground (arith, eq_refl n.node_id))

HasReady-rest :
    (n : ProjectedNode) (rest : List ProjectedNode) → HasReady rest → HasReady (n ∷ rest)
unfolding ready_ids
HasReady-rest n rest (id, m) = (id, ground arith)

project_nodes-ready :
    (plan : List PlanItem) (g : Graph) (nodes : List ProjectedNode) (a : String) (ids : List String)
    → project_nodes plan g ≡ some nodes
    → All IsWaiting nodes
    → get a g ≡ some ids
    → is_done (find_item a plan) ≡ false
    → ((b : String) → member b ids ≡ true → is_done (find_item b plan) ≡ true)
    → HasReady nodes
unfolding project_nodes get
project_nodes-ready plan [] nodes a ids h w e f d = cc
project_nodes-ready plan ((k, kids) ∷ g) nodes a ids h w e f d =
    let (n, rest, x, y, same) =
      add_node-eq-some (projected kids (find_item k plan) (statuses_of plan kids))
        (project_nodes plan g) h in
    let w' : All IsWaiting (n ∷ rest) = subst (All IsWaiting) (sym same) w in
    let found : HasReady (n ∷ rest) = elim (String-cases k a) [
      | inl k_is_a ↦
          let ids_same : kids ≡ ids = ground (arith, eq_iff k a) in
          HasReady-first n rest (
            projected-ready kids (find_item k plan) (statuses_of plan kids) n
              (statuses_of-completed plan kids (λ b m. d b (rw (← ids_same) m))) x w'.0
              (rw k_is_a f))
      | inr other ↦
          HasReady-rest n rest
            (project_nodes-ready plan g rest a ids y w'.1 (ground (arith, other)) f d)
    ] in
    subst HasReady same found

project_nodes-IsCompleted :
    (plan : List PlanItem) (g : Graph) (nodes : List ProjectedNode)
    → project_nodes plan g ≡ some nodes
    → ((id : String) → member id (keys g) ≡ true → is_done (find_item id plan) ≡ true)
    → All IsCompleted nodes
unfolding project_nodes
project_nodes-IsCompleted plan [] nodes h d = let e : [] ≡ nodes = cc in rw (← e) tt
project_nodes-IsCompleted plan ((k, kids) ∷ g) nodes h d =
    let (n, rest, x, y, same) =
      add_node-eq-some (projected kids (find_item k plan) (statuses_of plan kids))
        (project_nodes plan g) h in
    let all : All IsCompleted (n ∷ rest) = (
      projected-IsCompleted kids (find_item k plan) (statuses_of plan kids) n x
          (d k (ground (arith, eq_refl k))),
      project_nodes-IsCompleted plan g rest y (λ id m. d id (ground arith)),
    ) in
    subst (All IsCompleted) same all

pub all_members-member :
    (names others : List String) (b : String)
    → all_members names others ≡ true
    → member b names ≡ true
    → member b others ≡ true
unfolding all_members
all_members-member [] others b h m = cc
all_members-member (a ∷ names) others b h m =
    ground (arith, eq_iff a b, all_members-member names others b)

get-key : (g : Graph) (a : String) → member a (keys g) ≡ true → get a g ≡ some (dependencies g a)
unfolding get dependencies
get-key [] a m = cc
get-key ((k, ids) ∷ g) a m = ground (arith, get-key g a)

all_known-Edge :
    (ids : List String) (g : Graph) (a b : String)
    → all_known ids g ≡ true
    → Edge g a b
    → member b ids ≡ true
unfolding all_known dependencies get
all_known-Edge ids [] a b h e = cc
all_known-Edge ids ((k, kids) ∷ g) a b h e =
    ground (arith, all_known-Edge ids g a b, all_members-member kids ids b)

-- Every node among the names is completed.
abbrev AreDone : List PlanItem → Graph → List String → Type 0
AreDone plan g order =
    (id : String)
    → member id order ≡ true
    → member id (keys g) ≡ true
    → is_done (find_item id plan) ≡ true

AreDone-cons :
    (plan : List PlanItem) (g : Graph) (a : String) (order : List String)
    → (member a (keys g) ≡ true → is_done (find_item a plan) ≡ true)
    → AreDone plan g order
    → AreDone plan g (a ∷ order)
AreDone-cons plan g a order first rest id m k = elim (String-cases a id) [
  | inl same ↦ rw (← same) (first (rw same k))
  | inr other ↦ rest id (ground (arith, other)) k
]

module _ (plan : List PlanItem) (g : Graph) (nodes : List ProjectedNode)
    (running : project_nodes plan g ≡ some nodes) (waiting : All IsWaiting nodes)
    (known : all_known (keys g) g ≡ true) where
  node_progress :
      (a : String) (order : List String)
      → ((b : String) → Edge g a b → member b order ≡ true)
      → AreDone plan g order
      → (member a (keys g) ≡ true → is_done (find_item a plan) ≡ true) ⊎ HasReady nodes
  node_progress a order below rest = elim (Bool-cases (is_done (find_item a plan))) [
    | inl done ↦ inl (λ _. done)
    | inr open_ ↦ elim (Bool-cases (member a (keys g))) [
      | inr foreign ↦ inl (λ k. cc)
      | inl key ↦ inr (
          project_nodes-ready plan g nodes a (dependencies g a) running waiting (get-key g a key)
            open_ (λ b e. rest b (below b e) (all_known-Edge (keys g) g a b known e)))
    ]
  ]

  order_progress :
      (order : List String) → IsTopological g order → AreDone plan g order ⊎ HasReady nodes
  order_progress [] t = inl (λ id m k. cc)
  order_progress (a ∷ order) t = elim (order_progress order t.1) [
    | inr ready ↦ inr ready
    | inl rest ↦ elim (node_progress a order t.0 rest) [
      | inr ready ↦ inr ready
      | inl first ↦ inl (AreDone-cons plan g a order first rest)
    ]
  ]

  -- In a projection of a graph without cycles, where every node is pending or completed, all nodes
  -- are completed or some node is ready.
  pub project_nodes_progress : detect_cycle g ≡ false → All IsCompleted nodes ⊎ HasReady nodes
  project_nodes_progress acyclic =
      let (order, t, i) = detect_cycle-order g acyclic in
      elim (order_progress order t) [
        | inr ready ↦ inr ready
        | inl done ↦
            inl (project_nodes-IsCompleted plan g nodes running (λ id m. done id (i id m) m))
      ]
