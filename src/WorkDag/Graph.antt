-- ===== src/WorkDag/Graph.antt =====
-- CORE/runtime/work_dag.py: `_detect_cycle`, a depth-first search with the sets `visiting` and
-- `visited` of its closure.
use super_memory_brain.Base.{
  ℕ, zero, suc, String, Bool, true, false, none, some, List, [], ◌∷◌, ◌==◌, member, length,
  if◌then◌else◌,
}
use super_memory_brain.Base.Dict.{Dict, get}

-- The dependencies of each node.
abbrev pub Graph : Type 0
Graph = Dict (List String)

-- `nodes.get(node_id, [])`
unfoldable pub dependencies : Graph → String → List String
unfolding get
dependencies g id = elim (get id g) [ none ↦ [] | some ids ↦ ids ]

abbrev pub keys : Graph → List String
keys [] = []
keys ((id, _) ∷ g) = id ∷ keys g

pub record Marks : Type 0 where
  pub visiting : List String
  pub visited : List String

-- What a walk answers: `False` with the sets it leaves, `True`, or that its fuel ran out.
pub data Walk : Type 0 where
  clear : Marks → Walk
  found starved : Walk

-- `names.remove(id)` of a set
unfoldable pub without_name : String → List String → List String
without_name id [] = []
without_name id (name ∷ names) =
    let rest = without_name id names in if name == id then rest else name ∷ rest

abbrev pub enter : String → Marks → Marks
enter id m = record m { visiting = id ∷ m.visiting }

unfoldable pub leave : String → Marks → Marks
unfolding without_name
leave id m = record { visiting = without_name id m.visiting; visited = id ∷ m.visited }

abbrev pub then_walk : Walk → (Marks → Walk) → Walk
then_walk (clear m) next = next m
then_walk found next = found
then_walk starved next = starved

-- The calls of `step` one after the other, up to the first that answers `True`.
unfoldable pub walk_each : (String → Marks → Walk) → List String → Marks → Walk
walk_each step [] m = clear m
walk_each step (id ∷ ids) m = then_walk (step id m) (λ m'. walk_each step ids m')

-- `walk`
unfoldable pub walk : ℕ → Graph → String → Marks → Walk
unfolding walk_each dependencies leave
walk zero g id m = starved
walk (suc fuel) g id m =
    let inner = walk_each (walk fuel g) (dependencies g id) (enter id m) in
    if member id m.visited
    then clear m
    else if member id m.visiting
    then found
    else then_walk inner (λ m'. clear (leave id m'))

abbrev pub no_marks : Marks
no_marks = record { visiting = []; visited = [] }

unfoldable pub search_cycle : Graph → Walk
unfolding walk walk_each
search_cycle g = walk_each (walk (suc (length (keys g))) g) (keys g) no_marks

-- `_detect_cycle`; a search out of fuel would count as a cycle.
unfoldable pub detect_cycle : Graph → Bool
unfolding search_cycle
detect_cycle g = elim (search_cycle g) [ clear m ↦ false | found ↦ true | starved ↦ true ]
