-- ===== src/WorkDag/Search.antt =====
-- The depth-first search of work_dag.py: what a walk leaves, and that its fuel suffices.
use super_memory_brain.Base.{
  ℕ, zero, suc, ◌+◌, ◌<◌, ◌≤◌, ◌≡◌, inl, inr, refl, ◌∙◌, String, true, false, List, [], ◌∷◌, member,
  length, arith, eq_iff, eq_refl, if◌then◌else◌, Bool-cases, String-cases,
}
use super_memory_brain.Base.Dict.{get}
use super_memory_brain.WorkDag.Graph.{
  Graph, dependencies, keys, Marks, Walk, clear, found, starved, without_name, enter, leave,
  then_walk, walk_each, walk,
}
use super_memory_brain.WorkDag.Acyclic.{Edge, Leads, edge, Leads-Edge, IsTopological, Includes}

-- How many of the names are not being visited.
unfoldable pub remaining : List String → List String → ℕ
remaining [] visiting = 0
remaining (k ∷ names) visiting = (if member k visiting then 0 else 1) + remaining names visiting

remaining_le :
    (names visiting : List String) (id : String)
    → remaining names (id ∷ visiting) ≤ remaining names visiting
unfolding remaining
remaining_le [] visiting id = omega arith
remaining_le (k ∷ names) visiting id = ground (arith, remaining_le names visiting id)

remaining_lt :
    (names visiting : List String) (id : String)
    → member id names ≡ true
    → member id visiting ≡ false
    → remaining names (id ∷ visiting) < remaining names visiting
unfolding remaining
remaining_lt [] visiting id m n = cc
remaining_lt (k ∷ names) visiting id m n = elim (String-cases k id) [
  | inl same ↦ rw same (ground (arith, eq_refl id, remaining_le names visiting id))
  | inr other ↦ ground (
    arith,
    eq_iff id k,
    eq_iff k id,
    remaining_lt names visiting id,
    remaining_le names visiting id,
  )
]

pub remaining-[] : (names : List String) → remaining names [] ≡ length names
unfolding remaining
remaining-[] [] = refl
remaining-[] (k ∷ names) = omega (arith, remaining-[] names)

pub Edge-key : (g : Graph) (a b : String) → Edge g a b → member a (keys g) ≡ true
unfolding dependencies get
Edge-key [] a b e = cc
Edge-key ((k, ids) ∷ g) a b e = ground (arith, Edge-key g a b)

without_name_absent :
    (id : String) (names : List String) → member id names ≡ false → without_name id names ≡ names
unfolding without_name
without_name_absent id [] h = refl
without_name_absent id (k ∷ names) h = ground (arith, without_name_absent id names)

-- What is known before the nodes `ids` are walked with this fuel.
pub record IsReady (g : Graph) (fuel : ℕ) (ids : List String) (m : Marks) : Type 0 where
  pub order : IsTopological g m.visited
  pub path : (x id : String) → member x m.visiting ≡ true → member id ids ≡ true → Leads g x id
  pub fueled : (id : String) → member id ids ≡ true → remaining (keys g) m.visiting < fuel

-- What is known after it.
abbrev pub Answer : Graph → List String → Marks → Walk → Type 0
Answer g ids m (clear m') =
    (m'.visiting ≡ m.visiting)
    × IsTopological g m'.visited
    × Includes m'.visited m.visited
    × Includes m'.visited ids
Answer g ids m found = (a : String) × Leads g a a
Answer g ids m starved = ⊥

module _ (g : Graph) where
  -- The answers for the first node and for the rest are one for all.
  Answer-trans :
      (id : String) (ids : List String) (m m' : Marks) (w : Walk)
      → Answer g (id ∷ []) m (clear m')
      → Answer g ids m' w
      → Answer g (id ∷ ids) m w
  Answer-trans id ids m m' (clear n) a b = (
    b.0 ∙ a.0,
    b.1,
    λ x h. b.2 x (a.2 x h),
    λ x h. elim (String-cases id x) [
      | inl same ↦ b.2 x (a.3 x (rw same (ground (arith, eq_refl x))))
      | inr other ↦ b.3 x (ground arith)
    ],
  )
  Answer-trans id ids m m' found a b = b
  Answer-trans id ids m m' starved a b = b

  IsReady-rest :
      (fuel : ℕ) (id : String) (ids : List String) (m m' : Marks)
      → IsReady g fuel (id ∷ ids) m
      → Answer g (id ∷ []) m (clear m')
      → IsReady g fuel ids m'
  IsReady-rest fuel id ids m m' r a = record {
    order = a.1;
    path = λ x c v h. r.path x c (rw (← a.0) v) (ground arith);
    fueled = λ c h. rw a.0 (r.fueled c (ground arith));
  }

  IsReady-first :
      (fuel : ℕ) (id : String) (ids : List String) (m : Marks)
      → IsReady g fuel (id ∷ ids) m
      → IsReady g fuel (id ∷ []) m
  IsReady-first fuel id ids m r = record {
    order = r.order;
    path = λ x c v h. r.path x c v (ground arith);
    fueled = λ c h. r.fueled c (ground arith);
  }

  Answer-then :
      (step : String → Marks → Walk) (id : String) (ids : List String) (m : Marks) (w : Walk)
      → Answer g (id ∷ []) m w
      → ((m' : Marks) → Answer g (id ∷ []) m (clear m') → Answer g ids m' (walk_each step ids m'))
      → Answer g (id ∷ ids) m (then_walk w (λ m'. walk_each step ids m'))
  Answer-then step id ids m (clear m') a next =
      Answer-trans id ids m m' (walk_each step ids m') a (next m' a)
  Answer-then step id ids m found a next = a
  Answer-then step id ids m starved a next = a

  pub walk_each-Answer :
      (fuel : ℕ)
      → ((id : String) (m : Marks)
          → IsReady g fuel (id ∷ []) m
          → Answer g (id ∷ []) m (walk fuel g id m))
      → (ids : List String) (m : Marks) → IsReady g fuel ids m
      → Answer g ids m (walk_each (walk fuel g) ids m)
  unfolding walk_each
  walk_each-Answer fuel one [] m r = (refl, r.order, λ x h. h, λ x h. cc)
  walk_each-Answer fuel one (id ∷ ids) m r =
      Answer-then (walk fuel g) id ids m (walk fuel g id m)
        (one id m (IsReady-first fuel id ids m r))
        (λ m' a. walk_each-Answer fuel one ids m' (IsReady-rest fuel id ids m m' r a))

  Answer-leave :
      (id : String) (m : Marks) (w : Walk)
      → member id m.visiting ≡ false
      → Answer g (dependencies g id) (enter id m) w
      → Answer g (id ∷ []) m (then_walk w (λ m'. clear (leave id m')))
  unfolding leave without_name
  Answer-leave id m (clear m') new a = (
    rw a.0 (ground (arith, eq_refl id, without_name_absent id m.visiting new)),
    (λ b e. a.3 b e, a.1),
    λ x h. ground (arith, a.2 x h),
    λ x h. ground arith,
  )
  Answer-leave id m found new a = a
  Answer-leave id m starved new a = a

  IsReady-enter :
      (fuel : ℕ) (id : String) (m : Marks)
      → member id m.visiting ≡ false
      → IsReady g (suc fuel) (id ∷ []) m
      → IsReady g fuel (dependencies g id) (enter id m)
  IsReady-enter fuel id m new r = record {
    order = r.order;
    path = λ x c v e. elim (String-cases id x) [
      | inl same ↦ rw (← same) (edge e)
      | inr other ↦ Leads-Edge (r.path x id (ground arith) (ground (arith, eq_refl id))) e
    ];
    fueled = λ c e.
        let less = remaining_lt (keys g) m.visiting id (Edge-key g id c e) new in
        let bound = r.fueled id (ground (arith, eq_refl id)) in omega arith;
  }

  pub walk-Answer :
      (fuel : ℕ) (id : String) (m : Marks)
      → IsReady g fuel (id ∷ []) m
      → Answer g (id ∷ []) m (walk fuel g id m)
  unfolding walk
  walk-Answer zero id m r = let bound = r.fueled id (ground (arith, eq_refl id)) in omega arith
  walk-Answer (suc fuel) id m r = elim (Bool-cases (member id m.visited)) [
    | inl old ↦ rw old (refl, r.order, λ x h. h, λ x h. ground (arith, eq_iff id x))
    | inr fresh ↦ elim (Bool-cases (member id m.visiting)) [
      | inl back ↦ rw (fresh, back) (id, r.path id id back (ground (arith, eq_refl id)))
      | inr new ↦
          rw (fresh, new)
            (Answer-leave id m (walk_each (walk fuel g) (dependencies g id) (enter id m)) new (
              walk_each-Answer fuel (λ c n s. walk-Answer fuel c n s) (dependencies g id)
                (enter id m) (IsReady-enter fuel id m new r)))
    ]
  ]
