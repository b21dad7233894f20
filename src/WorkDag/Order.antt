-- ===== src/WorkDag/Order.antt =====
-- `normalized_items.sort` of work_dag.py keeps the items, and that none stands twice.
use super_memory_brain.Base.{
  suc, ◌≡◌, refl, ap, ◌∙◌, String, List, [], ◌∷◌, member, length, All, arith, eq_iff, Bool-cases,
  inl, inr,
}
use super_memory_brain.WorkDag.Contract.{PlanItem, comes_before, insert_item, sort_items}
use super_memory_brain.WorkDag.Definition.{ids_of}
use super_memory_brain.WorkDag.Acyclic.{Includes}
use super_memory_brain.WorkDag.Normal.{NoRepeat}

-- Fewer names are seen.
pub NoRepeat-Includes :
    (seen seen' names : List String)
    → Includes seen seen'
    → NoRepeat seen names
    → NoRepeat seen' names
NoRepeat-Includes seen seen' [] h n = tt
NoRepeat-Includes seen seen' (a ∷ names) h n = (
  elim (Bool-cases (member a seen')) [ inl old ↦ let k = h a old in ground arith | inr new ↦ new ],
  NoRepeat-Includes (a ∷ seen) (a ∷ seen') names (λ x m. let k = h x in ground arith) n.1,
)

-- The first two names change places.
NoRepeat-swap :
    (seen : List String) (a b : String) (names : List String)
    → NoRepeat seen (a ∷ b ∷ names)
    → NoRepeat seen (b ∷ a ∷ names)
NoRepeat-swap seen a b names n = (
  ground (arith, n.1.0),
  (
    ground (arith, n.0, n.1.0, eq_iff a b, eq_iff b a),
    NoRepeat-Includes (b ∷ a ∷ seen) (a ∷ b ∷ seen) names (λ x m. ground arith) n.1.1,
  ),
)

insert_item-NoRepeat :
    (seen : List String) (a : PlanItem) (items : List PlanItem)
    → NoRepeat seen (a.node_id ∷ ids_of items)
    → NoRepeat seen (ids_of (insert_item a items))
unfolding insert_item
insert_item-NoRepeat seen a [] n = n
insert_item-NoRepeat seen a (b ∷ items) n = elim (Bool-cases (comes_before a b)) [
  | inl before ↦ rw before n
  | inr after ↦
      let swapped = NoRepeat-swap seen a.node_id b.node_id (ids_of items) n in
      rw after (swapped.0, insert_item-NoRepeat (b.node_id ∷ seen) a items swapped.1)
]

pub sort_items-NoRepeat :
    (seen : List String) (items : List PlanItem)
    → NoRepeat seen (ids_of items)
    → NoRepeat seen (ids_of (sort_items items))
unfolding sort_items
sort_items-NoRepeat seen [] n = tt
sort_items-NoRepeat seen (a ∷ items) n =
    insert_item-NoRepeat seen a (sort_items items)
      (n.0, sort_items-NoRepeat (a.node_id ∷ seen) items n.1)

module _ {κ} (P : PlanItem → Type κ) where
  insert_item-All :
      (a : PlanItem) (items : List PlanItem) → P a → All P items → All P (insert_item a items)
  unfolding insert_item
  insert_item-All a [] p h = (p, tt)
  insert_item-All a (b ∷ items) p h = elim (Bool-cases (comes_before a b)) [
    | inl before ↦ rw before (p, h)
    | inr after ↦ rw after (h.0, insert_item-All a items p h.1)
  ]

  pub sort_items-All : (items : List PlanItem) → All P items → All P (sort_items items)
  unfolding sort_items
  sort_items-All [] h = tt
  sort_items-All (a ∷ items) h = insert_item-All a (sort_items items) h.0 (sort_items-All items h.1)

length-insert_item :
    (a : PlanItem) (items : List PlanItem) → length (insert_item a items) ≡ suc (length items)
unfolding insert_item
length-insert_item a [] = refl
length-insert_item a (b ∷ items) = elim (Bool-cases (comes_before a b)) [
  | inl before ↦ rw before
  | inr after ↦ rw (after, length-insert_item a items)
]

pub length-sort_items : (items : List PlanItem) → length (sort_items items) ≡ length items
unfolding sort_items
length-sort_items [] = refl
length-sort_items (a ∷ items) =
    length-insert_item a (sort_items items) ∙ ap suc (length-sort_items items)
