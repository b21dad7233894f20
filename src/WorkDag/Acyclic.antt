-- ===== src/WorkDag/Acyclic.antt =====
-- What `_detect_cycle` of work_dag.py finds: it ends, and it answers `True` for the graphs with a
-- cycle.
use super_memory_brain.Base.{
  ◌≡◌, inl, inr, String, true, List, [], ◌∷◌, member, arith, eq_iff, ◌==◌, if◌then◌else◌,
  Bool-cases, String-cases,
}
use super_memory_brain.Base.Dict.{get}
use super_memory_brain.WorkDag.Graph.{Graph, dependencies}

-- `a` depends on `b`, directly or through others.
abbrev pub Edge : Graph → String → String → Type 0
Edge g a b = member b (dependencies g a) ≡ true

pub dependencies-cons :
    (k : String) (ids : List String) (g : Graph) (id : String)
    → dependencies ((k, ids) ∷ g) id ≡ (if k == id then ids else dependencies g id)
unfolding dependencies get
dependencies-cons k ids g id = ground arith

pub data Leads (g : Graph) : String → String → Type 0 where
  edge : {a b : String} → Edge g a b → Leads g a b
  step : {a b c : String} → Edge g a b → Leads g b c → Leads g a c

pub Leads-Edge : {g : Graph} {a b c : String} → Leads g a b → Edge g b c → Leads g a c
Leads-Edge (edge e) f = step e (edge f)
Leads-Edge (step e l) f = step e (Leads-Edge l f)

-- Every name of the list has its dependencies further down.
abbrev pub IsTopological : Graph → List String → Type 0
IsTopological g [] = Unit
IsTopological g (a ∷ order) =
    ((b : String) → Edge g a b → member b order ≡ true) × IsTopological g order

abbrev pub Includes : List String → List String → Type 0
Includes big small = (a : String) → member a small ≡ true → member a big ≡ true

IsTopological-Edge :
    (g : Graph) (order : List String) (a b : String)
    → IsTopological g order
    → member a order ≡ true
    → Edge g a b
    → member b order ≡ true
IsTopological-Edge g [] a b t m e = cc
IsTopological-Edge g (c ∷ order) a b t m e = elim (String-cases c a) [
  | inl same ↦ let k = t.0 b (rw same e) in ground (arith, k)
  | inr other ↦ let k = IsTopological-Edge g order a b t.1 (ground arith) e in ground (arith, k)
]

IsTopological-Leads :
    (g : Graph) (order : List String) {a b : String}
    → IsTopological g order
    → member a order ≡ true
    → Leads g a b
    → member b order ≡ true
IsTopological-Leads g order t m (edge e) = IsTopological-Edge g order _ _ t m e
IsTopological-Leads g order t m (step e l) =
    IsTopological-Leads g order t (IsTopological-Edge g order _ _ t m e) l

reaches_below :
    (g : Graph) (order : List String) {a b : String}
    → IsTopological g order
    → ((c : String) → Edge g a c → member c order ≡ true)
    → Leads g a b
    → member b order ≡ true
reaches_below g order t h (edge e) = h _ e
reaches_below g order t h (step e l) = IsTopological-Leads g order t (h _ e) l

-- A node of a topological order lies on no cycle.
pub IsTopological-acyclic :
    (g : Graph) (order : List String) (a : String)
    → IsTopological g order
    → member a order ≡ true
    → ¬ Leads g a a
IsTopological-acyclic g [] a t m l = cc
IsTopological-acyclic g (c ∷ order) a t m l = elim (Bool-cases (member a order)) [
  | inl later ↦ IsTopological-acyclic g order a t.1 later l
  | inr first ↦
      let same : c ≡ a = ground (arith, eq_iff c a) in
      let back = reaches_below g order {a = a} {b = a} t.1 (λ b e. t.0 b (rw same e)) l in cc
]
