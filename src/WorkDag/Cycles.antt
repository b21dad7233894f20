-- ===== src/WorkDag/Cycles.antt =====
-- `_detect_cycle` of work_dag.py against the relation that it decides.
use super_memory_brain.Base.{
  suc, ◌≡◌, ◌≢◌, ◌↔◌, String, true, false, List, member, length, arith, Bool-cases, inl, inr,
}
use super_memory_brain.WorkDag.Graph.{
  Graph, keys, Walk, clear, found, starved, no_marks, search_cycle, detect_cycle,
}
use super_memory_brain.WorkDag.Acyclic.{
  Leads, edge, step, IsTopological, Includes, IsTopological-acyclic,
}
use super_memory_brain.WorkDag.Search.{
  Answer, remaining-[], Edge-key, walk_each-Answer, walk-Answer,
}

search_cycle-Answer : (g : Graph) → Answer g (keys g) no_marks (search_cycle g)
unfolding search_cycle
search_cycle-Answer g =
    let fuel = suc (length (keys g)) in
    walk_each-Answer g fuel (λ c n s. walk-Answer g fuel c n s) (keys g) no_marks
      (record {
        order = tt;
        path = λ x c v h. cc;
        fueled = λ c h. omega (arith, remaining-[] (keys g));
      })

pub Leads-key : (g : Graph) {a b : String} → Leads g a b → member a (keys g) ≡ true
Leads-key g (edge e) = Edge-key g _ _ e
Leads-key g (step e l) = Edge-key g _ _ e

not_starved : (g : Graph) (w : Walk) → Answer g (keys g) no_marks w → w ≢ starved
not_starved g (clear m) a e = cc
not_starved g found a e = cc
not_starved g starved a e = absurd a

-- The fuel of one more than the number of nodes is enough for the search of any graph.
pub search_cycle-ne-starved : (g : Graph) → search_cycle g ≢ starved
search_cycle-ne-starved g = not_starved g (search_cycle g) (search_cycle-Answer g)

found_cycle :
    (g : Graph) (w : Walk)
    → Answer g (keys g) no_marks w
    → elim w [ clear m ↦ false | found ↦ true | starved ↦ true ] ≡ true
    → (a : String) × Leads g a a
found_cycle g (clear m) a e = cc
found_cycle g found a e = a
found_cycle g starved a e = absurd a

found_order :
    (g : Graph) (w : Walk)
    → Answer g (keys g) no_marks w
    → elim w [ clear m ↦ false | found ↦ true | starved ↦ true ] ≡ false
    → (order : List String) × IsTopological g order × Includes order (keys g)
found_order g (clear m) a e = (m.visited, a.1, a.3)
found_order g found a e = cc
found_order g starved a e = cc

-- If no cycle is found, the nodes can be put in an order in which every node stands before its
-- dependencies.
pub detect_cycle-order :
    (g : Graph)
    → detect_cycle g ≡ false
    → (order : List String) × IsTopological g order × Includes order (keys g)
unfolding detect_cycle
detect_cycle-order g e = found_order g (search_cycle g) (search_cycle-Answer g) e

acyclic_of_order :
    (g : Graph) (order : List String) (a : String)
    → IsTopological g order
    → Includes order (keys g)
    → ¬ Leads g a a
acyclic_of_order g order a t i l = IsTopological-acyclic g order a t (i a (Leads-key g l)) l

-- Where no cycle is found there is none.
pub detect_cycle-acyclic : (g : Graph) (a : String) → detect_cycle g ≡ false → ¬ Leads g a a
detect_cycle-acyclic g a e =
    let (order, t, i) = detect_cycle-order g e in acyclic_of_order g order a t i

detect_cycle-found : (g : Graph) → detect_cycle g ≡ true → (a : String) × Leads g a a
unfolding detect_cycle
detect_cycle-found g e = found_cycle g (search_cycle g) (search_cycle-Answer g) e

detect_cycle-finds : (g : Graph) (a : String) → Leads g a a → detect_cycle g ≡ true
detect_cycle-finds g a l = elim (Bool-cases (detect_cycle g)) [
  | inl yes_ ↦ yes_
  | inr no_ ↦ absurd (detect_cycle-acyclic g a no_ l)
]

-- `_detect_cycle` answers `True` exactly for a graph in which some node depends on itself,
-- directly or through others.
pub detect_cycle_iff : (g : Graph) → (detect_cycle g ≡ true) ↔ ((a : String) × Leads g a a)
detect_cycle_iff g = (detect_cycle-found g, λ c. detect_cycle-finds g c.0 c.1)

-- A graph whose nodes have such an order passes.
pub detect_cycle_of_order :
    (g : Graph) (order : List String)
    → IsTopological g order
    → Includes order (keys g)
    → detect_cycle g ≡ false
detect_cycle_of_order g order t i = elim (Bool-cases (detect_cycle g)) [
  | inl yes_ ↦ let (a, l) = detect_cycle-found g yes_ in absurd (acyclic_of_order g order a t i l)
  | inr no_ ↦ no_
]
