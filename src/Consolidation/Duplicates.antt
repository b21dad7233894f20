-- ===== src/Consolidation/Duplicates.antt =====
-- When `plan` of memory_consolidation.py proposes to archive an exact duplicate.
use mathlib.Core.Path.{subst}
use super_memory_brain.Base.{
  ℕ, ◌≡◌, ◌↔◌, inl, inr, refl, ap, ◌∙◌, true, false, Option, none, some, List, [], ◌∷◌, eq_refl,
  ◌==◌, Bool-cases,
}
use super_memory_brain.Consolidation.Cards.{Runtime, Card}
use super_memory_brain.Consolidation.Suggestion.{
  archive_exact_duplicate, Proposal, proposal, is_eligible, eligible, exact, suggest_exact,
  is_decision, suggest,
}
use super_memory_brain.Consolidation.Sources.{Among, All-Among}
use super_memory_brain.Consolidation.Founded.{Basis, suggest-IsFounded}

-- A current card of which the candidate is a duplicate.
abbrev pub HasTwin : Card → List Card → Type 0
HasTwin c current =
    (t : Card) × Among current t × (is_eligible c t ≡ true) × (t.subject_digest ≡ c.subject_digest)

abbrev IsSome : Option Card → Type 0
IsSome none = ⊥
IsSome (some t) = Unit

module _ (c : Card) where
  eligible-Among :
      (current : List Card) (t : Card)
      → Among current t
      → is_eligible c t ≡ true
      → Among (eligible c current) t
  unfolding eligible
  eligible-Among [] t m e = m
  eligible-Among (a ∷ current) t (inl same) e =
      let fits : is_eligible c a ≡ true = rw same e in rw fits (inl same)
  eligible-Among (a ∷ current) t (inr later) e = elim (Bool-cases (is_eligible c a)) [
    | inl yes_ ↦ rw yes_ (inr (eligible-Among current t later e))
    | inr no_ ↦ rw no_ (eligible-Among current t later e)
  ]

  exact-IsSome :
      (targets : List Card) (t : Card)
      → Among targets t
      → t.subject_digest ≡ c.subject_digest
      → IsSome (exact c targets)
  unfolding exact
  exact-IsSome [] t m e = m
  exact-IsSome (a ∷ targets) t (inl same) e =
      let twin : a.subject_digest ≡ c.subject_digest = ap (λ x. x.subject_digest) same ∙ e in
      rw (twin, eq_refl c.subject_digest) tt
  exact-IsSome (a ∷ targets) t (inr later) e =
      elim (Bool-cases (a.subject_digest == c.subject_digest)) [
        | inl same ↦ rw same tt
        | inr other ↦ rw other (exact-IsSome targets t later e)
      ]

  module _ (r : Runtime) (cutoff : Option ℕ) where
    suggest_exact-duplicate :
        (targets : List Card) (o : Option Card)
        → IsSome o
        → (suggest_exact r cutoff c targets o).recommendation ≡ archive_exact_duplicate
    unfolding suggest_exact proposal
    suggest_exact-duplicate targets (some t) h = refl
    suggest_exact-duplicate targets none h = absurd h

    suggest-duplicate :
        (current : List Card)
        → is_decision c ≡ false
        → HasTwin c current
        → (suggest r cutoff current c).recommendation ≡ archive_exact_duplicate
    unfolding suggest
    suggest-duplicate current d (t, m, e, same) = rw d (
        suggest_exact-duplicate (eligible c current) (exact c (eligible c current))
          (exact-IsSome (eligible c current) t (eligible-Among current t m e) same))

    twin_of_Basis :
        (current : List Card) (p : Proposal)
        → Basis r cutoff (Among current) c p.target p.recommendation
        → p.recommendation ≡ archive_exact_duplicate
        → (is_decision c ≡ false) × HasTwin c current
    twin_of_Basis current p b e =
        let (t, m, d, fits, same, _) = subst (Basis r cutoff (Among current) c p.target) e b in
        (d, (t, m, fits, same))

    -- To archive a candidate as an exact duplicate is proposed exactly if it suggests no decision
    -- and some current card of the same scope, privacy class and suggested kind has its digest.
    pub suggest-duplicate_iff :
        (current : List Card)
        → ((suggest r cutoff current c).recommendation ≡ archive_exact_duplicate)
          ↔ ((is_decision c ≡ false) × HasTwin c current)
    suggest-duplicate_iff current = (
      twin_of_Basis current (suggest r cutoff current c)
          (suggest-IsFounded r cutoff (Among current) c current (All-Among current)).basis,
      λ h. suggest-duplicate current h.0 h.1,
    )
